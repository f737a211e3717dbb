-- ===== src/Python/Dumps.antt =====
-- `json.dumps(x)` with its defaults: `", "` and `": "` between the parts, everything that is not
-- printable ASCII escaped. How a float is printed is the parameter `float_repr`.
use Prim.Native.String.{String}
use Prim.Native.Char.{code}
use rostam_bench.Base.{
  ℕ, ◌+◌, ◌-◌, ◌/◌, ◌%◌, true, false, ◌&&◌, [], ◌∷◌, ◌++◌, ltb, leb, ◌==◌, if◌then◌else◌,
  concat_map,
}
use rostam_bench.Python.Errors.{Text}
use rostam_bench.Python.Decimal.{decimal_int}
use rostam_bench.Python.Json.{
  Json, Items, Fields, null, bool, int, real, str, arr, obj, nil, cons, end, field,
}

-- The code points of a text literal.
abbrev pub codes : String → Text
codes String.[] = []
codes (String.◌∷◌ c s) = code c ∷ codes s

hex_digit : ℕ → ℕ
hex_digit n = if ltb n 10 then b'0' + n else b'a' + (n - 10)

-- A backslash, `u` and four hexadecimal digits.
u_escape : ℕ → Text
unfolding hex_digit
u_escape n =
    b'\\'
    ∷ b'u'
    ∷ hex_digit (n / 4096 % 16)
    ∷ hex_digit (n / 256 % 16)
    ∷ hex_digit (n / 16 % 16)
    ∷ hex_digit (n % 16)
    ∷ []

escape : ℕ → Text
unfolding u_escape
escape c =
    if c == 34
    then 92 ∷ 34 ∷ []
    else if c == 92
    then 92 ∷ 92 ∷ []
    else if leb 32 c && leb c 126
    then c ∷ []
    else if c == 8
    then 92 ∷ b'b' ∷ []
    else if c == 9
    then 92 ∷ b't' ∷ []
    else if c == 10
    then 92 ∷ b'n' ∷ []
    else if c == 12
    then 92 ∷ b'f' ∷ []
    else if c == 13
    then 92 ∷ b'r' ∷ []
    else if ltb c 0x1_0000
    then u_escape c
    else u_escape (0xd800 + (c - 0x1_0000) / 1024 % 1024)
      ++ u_escape (0xdc00 + (c - 0x1_0000) % 1024)

quote : Text → Text
unfolding escape
quote s = 34 ∷ (concat_map escape s ++ (34 ∷ []))

module _ (float_repr : ℕ → Text) where
  unfoldable mutual
    unfolding quote decimal_int

    pub dumps : Json → Text
    dumps null = codes "null"
    dumps (bool true) = codes "true"
    dumps (bool false) = codes "false"
    dumps (int n) = decimal_int n
    dumps (real b) = float_repr b
    dumps (str s) = quote s
    dumps (arr xs) = b'[' ∷ dumps_items xs
    dumps (obj fs) = b'{' ∷ dumps_fields fs

    pub dumps_items : Items → Text
    dumps_items nil = b']' ∷ []
    dumps_items (cons x nil) = dumps x ++ (b']' ∷ [])
    dumps_items (cons x (cons y xs)) = dumps x ++ (codes ", " ++ dumps_items (cons y xs))

    pub dumps_fields : Fields → Text
    dumps_fields end = b'}' ∷ []
    dumps_fields (field k v end) = quote k ++ (codes ": " ++ (dumps v ++ (b'}' ∷ [])))
    dumps_fields (field k v (field j w fs)) =
        quote k ++ (codes ": " ++ (dumps v ++ (codes ", " ++ dumps_fields (field j w fs))))
