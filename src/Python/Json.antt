-- ===== src/Python/Json.antt =====
-- JSON values as the Python objects that `json` makes of them, and what the client does with one:
-- `d.get(key, default)`, `d[key]`, iteration, and `int(x)`.
use rostam_bench.Base.{
  ℕ, zero, suc, ◌+◌, ◌-◌, ◌*◌, ◌/◌, ◌%◌, ◌^◌, Bool, true, false, ◌&&◌, ◌||◌, Option, none, some,
  List, [], ◌∷◌, ltb, leb, ◌==◌, if◌then◌else◌, list_eq,
}
use rostam_bench.Base.Int.{ℤ, pos, negsuc}
use rostam_bench.Python.Errors.{
  Text, Result, ok, err, type_error, value_error, overflow_error, key_error, attribute_error,
}

-- A float is its IEEE 754 binary64 bit pattern.
mutual
  pub data Json : Type 0 where
    null : Json
    bool : Bool → Json
    int : ℤ → Json
    real : ℕ → Json
    str : Text → Json
    arr : Items → Json
    obj : Fields → Json

  pub data Items : Type 0 where
    nil : Items
    cons : Json → Items → Items

  pub data Fields : Type 0 where
    end : Fields
    field : Text → Json → Fields → Fields

abbrev pub items : List Json → Items
items [] = nil
items (j ∷ js) = cons j (items js)

pub lookup : Text → Fields → Option Json
unfolding list_eq
lookup k end = none
lookup k (field j v fs) = if list_eq k j then some v else lookup k fs

-- `d[key]`; lists and texts want a number between the brackets, the other values none at all.
unfoldable pub subscript : Text → Json → Result Json
unfolding lookup
subscript k (obj fs) = elim (lookup k fs) [ none ↦ err key_error | some v ↦ ok v ]
subscript k j = err type_error

-- `d.get(key, [])`: only a dict has the method.
unfoldable pub get_or_empty : Text → Json → Result Json
unfolding lookup
get_or_empty k (obj fs) = elim (lookup k fs) [ none ↦ ok (arr nil) | some v ↦ ok v ]
get_or_empty k j = err attribute_error

chars : Text → Items
chars [] = nil
chars (c ∷ s) = cons (str (c ∷ [])) (chars s)

keys : Fields → Items
keys end = nil
keys (field k v fs) = cons (str k) (keys fs)

-- What `for h in x` runs over.
unfoldable pub iterate : Json → Result Items
unfolding chars keys
iterate (arr xs) = ok xs
iterate (str s) = ok (chars s)
iterate (obj fs) = ok (keys fs)
iterate j = err type_error

signed : Bool → ℕ → ℤ
signed true (suc n) = negsuc n
signed true zero = pos 0
signed false n = pos n

-- `int` of a float drops the fraction; an infinity and a NaN have no integer.
unfoldable pub trunc_real : ℕ → Result ℤ
unfolding signed
trunc_real b =
    let e = b / 2 ^ 52 % 2048 in
    let m = b % 2 ^ 52 in
    let minus = leb (2 ^ 63) b in
    if e == 2047
    then if m == 0 then err overflow_error else err value_error
    else if ltb e 1023
    then ok (pos 0)
    else if ltb e 1075
    then ok (signed minus ((2 ^ 52 + m) / 2 ^ (1075 - e)))
    else ok (signed minus ((2 ^ 52 + m) * 2 ^ (e - 1075)))

unfoldable pub is_digit : ℕ → Bool
is_digit c = leb b'0' c && leb c b'9'

unfoldable pub is_space : ℕ → Bool
is_space c = c == b' ' || (leb 9 c && leb c 13) || (leb 28 c && leb c 31)

only_spaces : Text → Bool
unfolding is_space
only_spaces [] = true
only_spaces (c ∷ s) = is_space c && only_spaces s

-- The digits behind the sign. The flag says that the last character was a digit, so that the text
-- may end there and one `_` may follow.
unfoldable pub scan_digits : Text → Bool → ℕ → Option ℕ
unfolding is_digit only_spaces
scan_digits [] last n = if last then some n else none
scan_digits (c ∷ s) last n =
    let next = scan_digits s (is_digit c) (if is_digit c then n * 10 + (c - b'0') else n) in
    if is_digit c
    then next
    else if c == b'_' && last
    then next
    else if last && only_spaces (c ∷ s)
    then some n
    else none

unfoldable pub scan_sign : Text → Option ℤ
unfolding scan_digits is_space signed
scan_sign [] = none
scan_sign (c ∷ s) =
    let rest = scan_sign s in
    if is_space c
    then rest
    else if c == b'-'
    then elim (scan_digits s false 0) [ none ↦ none | some n ↦ some (signed true n) ]
    else elim (scan_digits (if c == b'+' then s else c ∷ s) false 0) [
      | none ↦ none
      | some n ↦ some (pos n)
    ]

-- `int(x)`. Of texts only ASCII is read: other Unicode digits and spaces count as no number.
unfoldable pub to_int : Json → Result ℤ
unfolding trunc_real scan_sign
to_int (int n) = ok n
to_int (bool true) = ok (pos 1)
to_int (bool false) = ok (pos 0)
to_int (real b) = trunc_real b
to_int (str s) = elim (scan_sign s) [ none ↦ err value_error | some n ↦ ok n ]
to_int j = err type_error
