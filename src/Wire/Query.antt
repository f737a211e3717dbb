-- ===== src/Wire/Query.antt =====
-- `_query_body` of vectordbbench/rostam/rostam.py.
use rostam_bench.Base.{ℕ, Bool, true, false, List, [], ◌∷◌, ◌++◌, map, length, if◌then◌else◌}
use rostam_bench.Base.Int.{ℤ, pos}
use rostam_bench.Python.Errors.{Bytes, Result, ok, ◌>>=◌}
use rostam_bench.Python.Bytes.{pack_u32}
use rostam_bench.Python.Dumps.{codes}
use rostam_bench.Numpy.{Numpy}

abbrev pub query_magic : Bytes
query_magic = codes "RVQ1"

abbrev pub query_flag_filter : ℕ
query_flag_filter = 1

-- The truth of a byte string.
abbrev pub nonempty : Bytes → Bool
nonempty [] = false
nonempty (b ∷ bs) = true

-- The fields `BBHQ` of the header, all zero.
abbrev pub query_zeros : Bytes
query_zeros = 0 ∷ 0 ∷ 0 ∷ 0 ∷ 0 ∷ 0 ∷ 0 ∷ 0 ∷ 0 ∷ 0 ∷ 0 ∷ 0 ∷ []

-- `struct.pack(">4sIIIBBHQ", …)`
unfoldable pub query_header : ℕ → ℤ → ℕ → Result Bytes
query_header flags k size = do
  f ← pack_u32 (pos flags)
  kb ← pack_u32 k
  s ← pack_u32 (pos size)
  ok (query_magic ++ (f ++ (kb ++ (s ++ query_zeros))))

unfoldable pub filter_entry : Bytes → Result Bytes
filter_entry [] = ok []
filter_entry (b ∷ bs) = do size ← pack_u32 (pos (length (b ∷ bs))); ok (size ++ (b ∷ bs))

module _ (np : Numpy) where
  unfoldable pub query_body : List ℕ → ℤ → Bytes → Result Bytes
  unfolding query_header filter_entry
  query_body query k filter_blob = do
    let q = map np.narrow query
    header ← query_header (if nonempty filter_blob then query_flag_filter else 0) k (length q)
    tail ← filter_entry filter_blob
    ok (header ++ (np.f4_bytes q ++ tail))
