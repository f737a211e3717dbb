-- ===== src/Wire/QueryRoundTrip.antt =====
-- `_query_body` against the description of its framing.
use rostam_bench.Base.{
  ℕ, ◌≡◌, refl, sym, ap, ◌∙◌, Option, none, some, List, [], ◌∷◌, ◌++◌, arith, map, length,
  length-map, concat_map, append_assoc, append-nil, if◌then◌else◌,
}
use rostam_bench.Base.Int.{pos}
use rostam_bench.Python.Errors.{Bytes, ok}
use rostam_bench.Python.Bytes.{IsU32, be32, pack_u32-ok, take32-be32}
use rostam_bench.Numpy.{Numpy, IsLawful, IsF32}
use rostam_bench.Wire.Query.{query_magic, query_zeros, nonempty, filter_entry, query_body}
use rostam_bench.Wire.Layout.{parse_query, repeat, sized, raw}
use rostam_bench.Wire.Repeat.{floats, raw-append, sized-entry}

abbrev pub as_filter : Bytes → Option Bytes
as_filter [] = none
as_filter (b ∷ bs) = some (b ∷ bs)

abbrev filter_bytes : Bytes → Bytes
filter_bytes [] = []
filter_bytes (b ∷ bs) = be32 (length (b ∷ bs)) ++ (b ∷ bs)

abbrev flag : Bytes → ℕ
flag blob = if nonempty blob then 1 else 0

narrowed-IsF32 : {np : Numpy} → IsLawful np → (q : List ℕ) → IsF32 (map np.narrow q)
narrowed-IsF32 law [] = tt
narrowed-IsF32 law (x ∷ q) = (law.narrow_lt x, narrowed-IsF32 law q)

wire_bytes : ℕ → Bytes → List ℕ → Bytes
wire_bytes k blob v =
    (query_magic ++ (be32 (flag blob) ++ (be32 k ++ (be32 (length v) ++ query_zeros))))
    ++ (concat_map be32 v ++ filter_bytes blob)

filter_entry-ok : (blob : Bytes) → IsU32 (length blob) → filter_entry blob ≡ ok (filter_bytes blob)
unfolding filter_entry
filter_entry-ok [] h = refl
filter_entry-ok (b ∷ bs) h = rw (pack_u32-ok (length (b ∷ bs)) h)

flag_fits : (blob : Bytes) → IsU32 (flag blob)
flag_fits [] = omega arith
flag_fits (b ∷ bs) = omega arith

query_body-wire_bytes :
    {np : Numpy}
    → IsLawful np
    → (q : List ℕ) (k : ℕ) (blob : Bytes) → IsU32 k
    → IsU32 (length q)
    → IsU32 (length blob)
    → query_body np q (pos k) blob ≡ ok (wire_bytes k blob (map np.narrow q))
unfolding query_body wire_bytes
query_body-wire_bytes {np} law q k blob hk hq hb =
    let size : IsU32 (length (map np.narrow q)) = rw (length-map np.narrow q) hq in
    rw (
      pack_u32-ok (flag blob) (flag_fits blob),
      pack_u32-ok k hk,
      pack_u32-ok (length (map np.narrow q)) size,
      filter_entry-ok blob hb,
      law.f4_bytes_be (map np.narrow q) (narrowed-IsF32 law q),
    )

sized_whole : (xs : Bytes) → IsU32 (length xs) → sized (be32 (length xs) ++ xs) ≡ some (xs, [])
sized_whole xs h = ap sized (sym (append-nil (be32 (length xs) ++ xs))) ∙ sized-entry xs [] h

one_filter :
    (xs : Bytes) → IsU32 (length xs) → repeat 1 sized (be32 (length xs) ++ xs) ≡ some (xs ∷ [], [])
unfolding repeat
one_filter xs h = rw (sized_whole xs h)

skip_zeros : (rest : Bytes) → raw 12 (query_zeros ++ rest) ≡ some (query_zeros, rest)
skip_zeros rest = raw-append query_zeros rest

parse-wire_bytes :
    (k : ℕ) (blob : Bytes) (v : List ℕ)
    → IsU32 k
    → IsU32 (length v)
    → IsF32 v
    → IsU32 (length blob)
    → parse_query (wire_bytes k blob v)
      ≡ some (record { k = k; vector = v; filter = as_filter blob })
unfolding wire_bytes parse_query
parse-wire_bytes k [] v hk hl hv hb = simp append_assoc (
    rw (
      take32-be32 0 _ (omega arith),
      take32-be32 k _ hk,
      take32-be32 (length v) _ hl,
      skip_zeros _,
      floats v [] hv,
    ))
parse-wire_bytes k (b ∷ bs) v hk hl hv hb = simp append_assoc (
    rw (
      take32-be32 1 _ (omega arith),
      take32-be32 k _ hk,
      take32-be32 (length v) _ hl,
      skip_zeros _,
      floats v (be32 (length (b ∷ bs)) ++ (b ∷ bs)) hv,
      one_filter (b ∷ bs) hb,
    ))

-- For `k`, the dimension and the length of the filter text below 2 ^ 32, `_query_body` succeeds, and
-- its bytes read by the framing's description give back `k`, the query as float32 values in order,
-- and the filter text if it is not empty.
pub parse_query-query_body :
    {np : Numpy}
    → IsLawful np
    → (q : List ℕ) (k : ℕ) (blob : Bytes) → IsU32 k
    → IsU32 (length q)
    → IsU32 (length blob)
    → (b : Bytes) × (query_body np q (pos k) blob ≡ ok b)
      × (parse_query b ≡ some (record { k = k; vector = map np.narrow q; filter = as_filter blob }))
parse_query-query_body {np} law q k blob hk hq hb = (
  wire_bytes k blob (map np.narrow q),
  query_body-wire_bytes law q k blob hk hq hb,
  parse-wire_bytes k blob (map np.narrow q) hk (rw (length-map np.narrow q) hq)
      (narrowed-IsF32 law q) hb,
)
