-- ===== src/Wire/Bulk.antt =====
-- `_binary_body` of vectordbbench/rostam/rostam.py.
use Prim.Native.Nat.{bit_or}
use rostam_bench.Base.{ℕ, Bool, List, [], ◌∷◌, ◌++◌, length, if◌then◌else◌}
use rostam_bench.Base.Int.{ℤ, pos}
use rostam_bench.Python.Errors.{Bytes, Result, ok, ◌>>=◌, map_result}
use rostam_bench.Python.Bytes.{pack_u32}
use rostam_bench.Python.Decimal.{decimal_int}
use rostam_bench.Python.Dumps.{codes}
use rostam_bench.Numpy.{Matrix, Numpy}

abbrev pub bulk_magic : Bytes
bulk_magic = codes "RVB1"

abbrev pub bulk_flag_payloads : ℕ
bulk_flag_payloads = 1

abbrev pub bulk_flag_upsert : ℕ
bulk_flag_upsert = 2

unfoldable pub bulk_flags : Bool → Bool → ℕ
bulk_flags payloads upsert =
    let flags = if payloads then bit_or 0 bulk_flag_payloads else 0 in
    if upsert then bit_or flags bulk_flag_upsert else flags

-- `b'{"id":{"kind":"int","int":%d}}' % i`
unfoldable pub payload_blob : ℤ → Bytes
payload_blob i = codes "{\"id\":{\"kind\":\"int\",\"int\":" ++ (decimal_int i ++ codes "}}")

-- The blob behind its length.
unfoldable pub payload_entry : ℤ → Result Bytes
unfolding payload_blob
payload_entry i = do size ← pack_u32 (pos (length (payload_blob i))); ok (size ++ payload_blob i)

unfoldable pub join : List Bytes → Bytes
join [] = []
join (b ∷ bs) = b ++ join bs

-- `struct.pack(">4sIII", …)`
unfoldable pub bulk_header : ℕ → ℕ → ℕ → Result Bytes
bulk_header flags n dim = do
  f ← pack_u32 (pos flags)
  c ← pack_u32 (pos n)
  d ← pack_u32 (pos dim)
  ok (bulk_magic ++ (f ++ (c ++ d)))

module _ (np : Numpy) where
  unfoldable pub binary_body : List ℤ → Matrix → Bool → Bool → Result Bytes
  unfolding bulk_flags payload_entry join bulk_header
  binary_body ids m upsert payloads = do
    header ← bulk_header (bulk_flags payloads upsert) (length m.rows) m.cols
    rec ← np.records ids m
    blobs ← if payloads then map_result payload_entry ids else ok []
    ok (header ++ (rec ++ join blobs))
