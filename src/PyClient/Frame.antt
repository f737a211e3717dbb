-- ===== src/PyClient/Frame.antt =====
-- `encode_search` of sift1m/rostam_py_client.py, and the request as the file's header describes it.
use rostam_bench.Base.{ℕ, Option, none, some, List, [], ◌∷◌, ◌++◌, length, concat_map}
use rostam_bench.Base.Int.{ℤ, pos}
use rostam_bench.Python.Errors.{Bytes, Result, ok, ◌>>=◌ as ◌>>>=◌}
use rostam_bench.Python.Bytes.{be32, pack_u8, pack_u32, take32}
use rostam_bench.Python.Dumps.{codes}
use rostam_bench.Wire.Layout.{◌>>=◌, Parser, repeat, raw, at_end}

abbrev pub op : Bytes
op = codes "vector_search"

abbrev pub coll : Bytes
coll = codes "sift"

-- `struct.pack(">%df" % dim, *query)` of float32 values.
abbrev pub pack_floats : List ℕ → Bytes
pack_floats = concat_map be32

unfoldable pub encode_search : List ℕ → ℤ → Result Bytes
encode_search query k =
    let dim = length query in
    pack_u8 (pos 0) >>>= λ flags. pack_u8 (pos (length coll)) >>>= λ coll_len. pack_u32 k >>>= λ kb.
    pack_u32 (pos dim) >>>= λ db.
    let args = (flags ++ coll_len) ++ (coll ++ (kb ++ (db ++ pack_floats query))) in
    pack_u8 (pos (length op)) >>>= λ op_len. pack_u32 (pos (length args)) >>>= λ args_len.
    let body = op_len ++ (op ++ (args_len ++ args)) in
    pack_u32 (pos (length body)) >>>= λ body_len. ok (body_len ++ body)

-- `[n:1][n bytes]`
unfoldable pub short : Parser Bytes
unfolding raw
short [] = none
short (n ∷ bs) = raw n bs

pub record Search : Type 0 where
  pub op : Bytes
  pub flags : ℕ
  pub collection : Bytes
  pub k : ℕ
  pub query : List ℕ

abbrev first_byte : Parser ℕ
first_byte [] = none
first_byte (b ∷ bs) = some (b, bs)

-- `[flags:1][colLen:1][col][k:4][dim:4][query: dim*float32]`
unfoldable pub parse_args : Bytes → Bytes → Option Search
unfolding short at_end
parse_args name bs = do
  (flags, bs₁) ← first_byte bs
  (collection, bs₂) ← short bs₁
  (k, bs₃) ← take32 bs₂
  (dim, bs₄) ← take32 bs₃
  query ← (repeat dim take32 bs₄ >>= at_end)
  some (record { op = name; flags = flags; collection = collection; k = k; query = query })

-- `[len:4][opNameLen:1][op][argsLen:4][args]`
unfoldable pub parse_request : Bytes → Option Search
unfolding short raw at_end parse_args
parse_request bs = do
  (len, bs₁) ← take32 bs
  body ← (raw len bs₁ >>= at_end)
  (name, bs₂) ← short body
  (size, bs₃) ← take32 bs₂
  args ← (raw size bs₃ >>= at_end)
  parse_args name args
