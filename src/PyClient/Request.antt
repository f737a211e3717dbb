-- ===== src/PyClient/Request.antt =====
-- `encode_search` against the request that the header of rostam_py_client.py describes.
use rostam_bench.Base.{
  ℕ, ◌+◌, ◌*◌, ◌≡◌, ap, sym, ◌∙◌, some, List, [], ◌∷◌, ◌++◌, arith, length, append-nil,
  length-append,
}
use rostam_bench.Base.Int.{pos}
use rostam_bench.Python.Errors.{Bytes, ok}
use rostam_bench.Python.Bytes.{IsU32, be32, pack_u8, pack_u32-ok, take32, take32-be32, length-be32}
use rostam_bench.Numpy.{IsF32}
use rostam_bench.Wire.Layout.{repeat, raw}
use rostam_bench.Wire.Repeat.{floats, raw-append}
use rostam_bench.PyClient.Frame.{
  op, coll, pack_floats, encode_search, short, parse_args, parse_request,
}

pub args_bytes : ℕ → List ℕ → Bytes
args_bytes k query =
    (0 ∷ 4 ∷ []) ++ (coll ++ (be32 k ++ (be32 (length query) ++ pack_floats query)))

pub body_bytes : ℕ → List ℕ → Bytes
body_bytes k query = (13 ∷ []) ++ (op ++ (be32 (length (args_bytes k query)) ++ args_bytes k query))

raw_whole : (xs : Bytes) → raw (length xs) xs ≡ some (xs, [])
raw_whole xs = ap (raw (length xs)) (sym (append-nil xs)) ∙ raw-append xs []

length-floats : (v : List ℕ) → length (pack_floats v) ≡ 4 * length v
length-floats [] = omega arith
length-floats (x ∷ v) =
    omega (arith, length-append (be32 x) (pack_floats v), length-be32 x, length-floats v)

length-args : (k : ℕ) (query : List ℕ) → length (args_bytes k query) ≡ 14 + 4 * length query
unfolding args_bytes
length-args k query = omega (
  arith,
  length-append (be32 k) (be32 (length query) ++ pack_floats query),
  length-append (be32 (length query)) (pack_floats query),
  length-be32 k,
  length-be32 (length query),
  length-floats query,
)

length-body : (k : ℕ) (query : List ℕ) → length (body_bytes k query) ≡ 32 + 4 * length query
unfolding body_bytes
length-body k query = omega (
  arith,
  length-append (be32 (length (args_bytes k query))) (args_bytes k query),
  length-be32 (length (args_bytes k query)),
  length-args k query,
)

pub encode_search-bytes :
    (query : List ℕ) (k : ℕ)
    → IsU32 k
    → IsU32 (32 + 4 * length query)
    → encode_search query (pos k) ≡ ok (be32 (length (body_bytes k query)) ++ body_bytes k query)
unfolding encode_search args_bytes body_bytes pack_u8
encode_search-bytes query k hk hl = rw (
  pack_u32-ok k hk,
  pack_u32-ok (length query) (omega arith),
  pack_u32-ok (length (args_bytes k query)) (omega (arith, length-args k query)),
  pack_u32-ok (length (body_bytes k query)) (omega (arith, length-body k query)),
)

parse_args-bytes :
    (name : Bytes) (query : List ℕ) (k : ℕ)
    → IsU32 k
    → IsU32 (length query)
    → IsF32 query
    → parse_args name (args_bytes k query)
      ≡ some (record { op = name; flags = 0; collection = coll; k = k; query = query })
unfolding parse_args args_bytes
parse_args-bytes name query k hk hl hf = rw (
  raw-append coll (be32 k ++ (be32 (length query) ++ pack_floats query)),
  take32-be32 k _ hk,
  take32-be32 (length query) _ hl,
  whole,
)
  where
    whole : repeat (length query) take32 (pack_floats query) ≡ some (query, [])
    whole = rw append-nil at (floats query [] hf)

short-body :
    (k : ℕ) (query : List ℕ)
    → short (body_bytes k query)
      ≡ some (op, be32 (length (args_bytes k query)) ++ args_bytes k query)
unfolding short body_bytes
short-body k query = raw-append op (be32 (length (args_bytes k query)) ++ args_bytes k query)

parse_request-bytes :
    (query : List ℕ) (k : ℕ)
    → IsU32 k
    → IsU32 (32 + 4 * length query)
    → IsF32 query
    → parse_request (be32 (length (body_bytes k query)) ++ body_bytes k query)
      ≡ some (record { op = op; flags = 0; collection = coll; k = k; query = query })
unfolding parse_request
parse_request-bytes query k hk hl hf =
    rw
      (
        take32-be32 (length (body_bytes k query)) (body_bytes k query)
            (omega (arith, length-body k query)),
        raw_whole (body_bytes k query),
        short-body k query,
        take32-be32 (length (args_bytes k query)) (args_bytes k query)
            (omega (arith, length-args k query)),
        raw_whole (args_bytes k query),
      )
      (parse_args-bytes op query k hk (omega arith) hf)

-- For `k` and the frame's length below 2 ^ 32, `encode_search` succeeds, and a receiver that goes by
-- the described format reads back the operation, no flags, the collection, `k` and every float32
-- value of the query in order, with nothing left over.
pub parse_request-encode_search :
    (query : List ℕ) (k : ℕ)
    → IsU32 k
    → IsU32 (32 + 4 * length query)
    → IsF32 query
    → (b : Bytes) × (encode_search query (pos k) ≡ ok b)
      × (parse_request b
          ≡ some (record { op = op; flags = 0; collection = coll; k = k; query = query }))
parse_request-encode_search query k hk hl hf = (
  be32 (length (body_bytes k query)) ++ body_bytes k query,
  encode_search-bytes query k hk hl,
  parse_request-bytes query k hk hl hf,
)
