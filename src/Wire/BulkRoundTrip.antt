-- ===== src/Wire/BulkRoundTrip.antt =====
-- `_binary_body` against the description of its framing.
use rostam_bench.Base.{
  ℕ, zero, suc, ◌+◌, ◌/◌, ◌%◌, ◌^◌, ◌≤◌, ◌<◌, ◌≡◌, refl, sym, ap, ◌∙◌, some, List, [], ◌∷◌, ◌++◌,
  arith, Bool, true, false, map, length, length-append, concat_map, zip, All, append_assoc,
  append-nil, if◌then◌else◌,
}
use rostam_bench.Base.Int.{pos}
use native.Mathlib.Nat.{pow-suc}
use rostam_bench.Python.Errors.{Bytes, Text, ok, map_result}
use rostam_bench.Python.Bytes.{IsU32, IsU64, be32, pack_u32-ok, take32-be32}
use rostam_bench.Python.Decimal.{digits, decimal, decimal_int}
use rostam_bench.Python.Dumps.{codes}
use rostam_bench.Numpy.{Matrix, Numpy, IsLawful, IsShaped, IsF32, record_bytes}
use rostam_bench.Wire.Bulk.{bulk_flags, payload_blob, payload_entry, join, bulk_magic, binary_body}
use rostam_bench.Wire.Layout.{Bulk, parse_bulk, repeat, point, sized, bit0, bit1}
use rostam_bench.Wire.Repeat.{repeat-concat, point-record, sized-entry}

-- What a chunk must be for the framing to hold it: one id for each row, in the ranges of the fields.
pub record IsChunk (ids : List ℕ) (m : Matrix) : Type 0 where
  pub same_length : length ids ≡ length m.rows
  pub ids_fit : All IsU64 ids
  pub shaped : IsShaped m
  pub floats_fit : All IsF32 m.rows
  pub count_fits : IsU32 (length m.rows)
  pub dim_fits : IsU32 m.cols

length-digits :
    (f n k : ℕ) (out : Text) → n < 10 ^ suc k → length (digits f n out) ≤ length out + suc k
unfolding digits
length-digits zero n k out h = omega arith
length-digits (suc f) n zero out h = ground arith
length-digits (suc f) n (suc k) out h =
    ground (arith, pow-suc 10 (suc k), length-digits f (n / 10) k ((b'0' + n % 10) ∷ out))

length-decimal : (n : ℕ) → IsU64 n → length (decimal n) ≤ 20
unfolding decimal
length-decimal n h = length-digits (suc n) n 19 [] (omega arith)

blob_fits : (i : ℕ) → IsU64 i → IsU32 (length (payload_blob (pos i)))
unfolding payload_blob decimal_int
blob_fits i h = omega (arith, length-append (decimal i) (codes "}}"), length-decimal i h)

-- The blob behind its length, with no check.
abbrev entry : Bytes → Bytes
entry b = be32 (length b) ++ b

payload_entry-ok : (i : ℕ) → IsU64 i → payload_entry (pos i) ≡ ok (entry (payload_blob (pos i)))
unfolding payload_entry
payload_entry-ok i h = rw (pack_u32-ok (length (payload_blob (pos i))) (blob_fits i h))

abbrev blobs : List ℕ → List Bytes
blobs = map (λ i. payload_blob (pos i))

entries-ok :
    (ids : List ℕ)
    → All IsU64 ids
    → map_result payload_entry (map pos ids) ≡ ok (map entry (blobs ids))
unfolding map_result
entries-ok [] h = refl
entries-ok (i ∷ ids) (hi, hs) = rw (payload_entry-ok i hi, entries-ok ids hs)

join-concat : (bs : List Bytes) → join (map entry bs) ≡ concat_map entry bs
unfolding join
join-concat [] = refl
join-concat (b ∷ bs) = ap (λ l. entry b ++ l) (join-concat bs)

blobs_fit : (ids : List ℕ) → All IsU64 ids → All (λ b. IsU32 (length b)) (blobs ids)
blobs_fit [] h = tt
blobs_fit (i ∷ ids) (hi, hs) = (blob_fits i hi, blobs_fit ids hs)

length-blobs : (ids : List ℕ) → length (blobs ids) ≡ length ids
length-blobs [] = refl
length-blobs (i ∷ ids) = ap suc (length-blobs ids)

points_fit :
    (dim : ℕ) (ids : List ℕ) (rows : List (List ℕ))
    → All IsU64 ids
    → All (λ r. length r ≡ dim) rows
    → All IsF32 rows
    → All (λ x. IsU64 x.0 × (length x.1 ≡ dim) × IsF32 x.1) (zip ids rows)
points_fit dim [] rows hi hd hf = tt
points_fit dim (i ∷ ids) [] hi hd hf = tt
points_fit dim (i ∷ ids) (r ∷ rows) hi hd hf =
    ((hi.0, hd.0, hf.0), points_fit dim ids rows hi.1 hd.1 hf.1)

length-zip :
    (ids : List ℕ) (rows : List (List ℕ))
    → length ids ≡ length rows
    → length (zip ids rows) ≡ length rows
length-zip [] [] h = refl
length-zip [] (r ∷ rows) h = absurd (omega arith)
length-zip (i ∷ ids) [] h = absurd (omega arith)
length-zip (i ∷ ids) (r ∷ rows) h = ap suc (length-zip ids rows (omega arith))

flags_bits :
    (payloads upsert : Bool)
    → IsU32 (bulk_flags payloads upsert)
      × (bit0 (bulk_flags payloads upsert) ≡ payloads)
      × (bit1 (bulk_flags payloads upsert) ≡ upsert)
unfolding bulk_flags
flags_bits true true = (omega arith, refl, refl)
flags_bits true false = (omega arith, refl, refl)
flags_bits false true = (omega arith, refl, refl)
flags_bits false false = (omega arith, refl, refl)

unfoldable pub bulk_of : Bool → Bool → List ℕ → Matrix → Bulk
bulk_of upsert payloads ids m = record {
  upsert = upsert;
  dim = m.cols;
  points = zip ids m.rows;
  payloads = if payloads then map (λ i. payload_blob (pos i)) ids else [];
}

tail_bytes : Bool → List ℕ → Bytes
tail_bytes payloads ids = if payloads then concat_map entry (blobs ids) else []

tail-read :
    (payloads : Bool) (n : ℕ) (ids : List ℕ)
    → length ids ≡ n
    → All IsU64 ids
    → repeat (if payloads then n else 0) sized (tail_bytes payloads ids)
      ≡ some (if payloads then blobs ids else [], [])
unfolding tail_bytes
tail-read false n ids h hi = unfold repeat in refl
tail-read true n ids h hi =
    let e : n ≡ length (blobs ids) = sym h ∙ sym (length-blobs ids) in
    rw (e, ← append-nil (concat_map entry (blobs ids)))
      (repeat-concat (λ b. IsU32 (length b)) sized entry sized-entry (blobs ids) []
        (blobs_fit ids hi))

parse-fields :
    (payloads upsert : Bool) (ids : List ℕ) (m : Matrix)
    → IsChunk ids m
    → parse_bulk (
        bulk_magic
        ++ (be32 (bulk_flags payloads upsert)
            ++ (be32 (length m.rows)
                ++ (be32 m.cols
                    ++ (concat_map record_bytes (zip ids m.rows) ++ tail_bytes payloads ids)))))
      ≡ some (bulk_of upsert payloads ids m)
unfolding parse_bulk bulk_of
parse-fields payloads upsert ids m c =
    let (small, low, high) = flags_bits payloads upsert in
    rw (
      take32-be32 (bulk_flags payloads upsert) _ small,
      take32-be32 (length m.rows) _ c.count_fits,
      take32-be32 m.cols _ c.dim_fits,
      points,
      low,
      tail-read payloads (length m.rows) ids c.same_length c.ids_fit,
      high,
    )
  where
    points :
        repeat
          (length m.rows)
          (point m.cols)
          (concat_map record_bytes (zip ids m.rows) ++ tail_bytes payloads ids)
        ≡ some (zip ids m.rows, tail_bytes payloads ids)
    points = rw (← length-zip ids m.rows c.same_length) (
        repeat-concat (λ x. IsU64 x.0 × (length x.1 ≡ m.cols) × IsF32 x.1) (point m.cols)
          record_bytes (point-record m.cols) (zip ids m.rows) (tail_bytes payloads ids)
          (points_fit m.cols ids m.rows c.ids_fit c.shaped c.floats_fit))

-- The bytes of a chunk, when nothing raises.
wire_bytes : Bool → Bool → List ℕ → Matrix → Bytes
wire_bytes upsert payloads ids m =
    (bulk_magic ++ (be32 (bulk_flags payloads upsert) ++ (be32 (length m.rows) ++ be32 m.cols)))
    ++ (concat_map record_bytes (zip ids m.rows) ++ tail_bytes payloads ids)

entries_of :
    (payloads : Bool) (ids : List ℕ)
    → All IsU64 ids
    → (if payloads then map_result payload_entry (map pos ids) else ok [])
      ≡ ok (if payloads then map entry (blobs ids) else [])
entries_of true ids h = entries-ok ids h
entries_of false ids h = refl

join-entries :
    (payloads : Bool) (ids : List ℕ)
    → join (if payloads then map entry (blobs ids) else []) ≡ tail_bytes payloads ids
unfolding tail_bytes
join-entries true ids = join-concat (blobs ids)
join-entries false ids = unfold join in refl

binary_body-wire_bytes :
    {np : Numpy}
    → IsLawful np
    → (ids : List ℕ) (m : Matrix) (upsert payloads : Bool) → IsChunk ids m
    → binary_body np (map pos ids) m upsert payloads ≡ ok (wire_bytes upsert payloads ids m)
unfolding binary_body wire_bytes
binary_body-wire_bytes law ids m upsert payloads c =
    let small = (flags_bits payloads upsert).0 in
    rw (
      pack_u32-ok (bulk_flags payloads upsert) small,
      pack_u32-ok (length m.rows) c.count_fits,
      pack_u32-ok m.cols c.dim_fits,
      law.records_layout ids m c.same_length c.ids_fit c.shaped c.floats_fit,
      entries_of payloads ids c.ids_fit,
      join-entries payloads ids,
    )

wire_bytes_regroup :
    (upsert payloads : Bool) (ids : List ℕ) (m : Matrix)
    → wire_bytes upsert payloads ids m
      ≡ bulk_magic
        ++ (be32 (bulk_flags payloads upsert)
            ++ (be32 (length m.rows)
                ++ (be32 m.cols
                    ++ (concat_map record_bytes (zip ids m.rows) ++ tail_bytes payloads ids))))
unfolding wire_bytes
wire_bytes_regroup upsert payloads ids m = simp append_assoc

parse-wire_bytes :
    (upsert payloads : Bool) (ids : List ℕ) (m : Matrix)
    → IsChunk ids m
    → parse_bulk (wire_bytes upsert payloads ids m) ≡ some (bulk_of upsert payloads ids m)
parse-wire_bytes upsert payloads ids m c =
    ap parse_bulk (wire_bytes_regroup upsert payloads ids m) ∙ parse-fields payloads upsert ids m c

-- For a chunk with one unsigned 64-bit id for each row, rows of one length and float32 values,
-- the length and the number of rows below 2 ^ 32, `_binary_body` succeeds, and its bytes read by the framing's description give back the upsert
-- flag, the dimension, every id with its vector in order, and one payload for each id if payloads
-- were asked for, none otherwise.
pub parse_bulk-binary_body :
    {np : Numpy}
    → IsLawful np
    → (ids : List ℕ) (m : Matrix) (upsert payloads : Bool) → IsChunk ids m
    → (b : Bytes) × (binary_body np (map pos ids) m upsert payloads ≡ ok b)
      × (parse_bulk b ≡ some (bulk_of upsert payloads ids m))
parse_bulk-binary_body law ids m upsert payloads c = (
  wire_bytes upsert payloads ids m,
  binary_body-wire_bytes law ids m upsert payloads c,
  parse-wire_bytes upsert payloads ids m c,
)
