-- ===== src/Wire/Layout.antt =====
-- The two framings read from their description in the comments of rostam.py ("binary bulk wire",
-- "binary query wire"): what a receiver that goes by that table makes of the bytes.
use rostam_bench.Base.{
  ℕ, zero, suc, ◌%◌, ◌/◌, Bool, Option, none, some, List, [], ◌∷◌, length, take, drop, leb, ◌==◌,
  if◌then◌else◌, list_eq,
}
use rostam_bench.Python.Errors.{Bytes}
use rostam_bench.Python.Bytes.{take32, take64}
use rostam_bench.Python.Dumps.{codes}

infixl 5 ◌>>=◌
abbrev pub ◌>>=◌ {ℓ κ} : {A : Type ℓ} {B : Type κ} → Option A → (A → Option B) → Option B
none >>= f = none
some a >>= f = f a

abbrev pub Parser {ℓ} : Type ℓ → Type ℓ
Parser A = Bytes → Option (A × Bytes)

-- `n` items, one behind the other.
unfoldable pub repeat {ℓ} : {A : Type ℓ} → ℕ → Parser A → Parser (List A)
repeat zero p bs = some ([], bs)
repeat (suc n) p bs = do (a, rest) ← p bs; (as', rest') ← repeat n p rest; some (a ∷ as', rest')

unfoldable pub magic : Bytes → Parser (Unit {0})
unfolding list_eq
magic m bs = if list_eq (take (length m) bs) m then some (tt, drop (length m) bs) else none

-- `n` bytes as they are.
unfoldable pub raw : ℕ → Parser Bytes
raw n bs = if leb n (length bs) then some (take n bs, drop n bs) else none

-- `[ id u64 ][ dim x f32 ]`
unfoldable pub point : ℕ → Parser (ℕ × List ℕ)
unfolding repeat
point dim bs = do (i, rest) ← take64 bs; (v, rest') ← repeat dim take32 rest; some ((i, v), rest')

-- `[ len u32 ][ len bytes of JSON ]`
unfoldable pub sized : Parser Bytes
unfolding raw
sized bs = do (n, rest) ← take32 bs; raw n rest

-- The last field: nothing may follow.
unfoldable pub at_end {ℓ} : {A : Type ℓ} → A × Bytes → Option A
at_end (a, []) = some a
at_end (a, b ∷ bs) = none

abbrev pub bit0 : ℕ → Bool
bit0 flags = flags % 2 == 1

abbrev pub bit1 : ℕ → Bool
bit1 flags = flags / 2 % 2 == 1

pub record Bulk : Type 0 where
  pub upsert : Bool
  pub dim : ℕ
  pub points : List (ℕ × List ℕ)
  pub payloads : List Bytes

unfoldable pub parse_bulk : Bytes → Option Bulk
unfolding repeat magic point sized at_end
parse_bulk bs = do
  (_, bs₁) ← magic (codes "RVB1") bs
  (flags, bs₂) ← take32 bs₁
  (count, bs₃) ← take32 bs₂
  (dim, bs₄) ← take32 bs₃
  (points, bs₅) ← repeat count (point dim) bs₄
  payloads ← (repeat (if bit0 flags then count else 0) sized bs₅ >>= at_end)
  some (record { upsert = bit1 flags; dim = dim; points = points; payloads = payloads })

pub record Query : Type 0 where
  pub k : ℕ
  pub vector : List ℕ
  pub filter : Option Bytes

abbrev first : List Bytes → Option Bytes
first [] = none
first (f ∷ fs) = some f

-- The reserved bytes and the staleness are skipped.
unfoldable pub parse_query : Bytes → Option Query
unfolding repeat magic raw sized at_end
parse_query bs = do
  (_, bs₁) ← magic (codes "RVQ1") bs
  (flags, bs₂) ← take32 bs₁
  (k, bs₃) ← take32 bs₂
  (dim, bs₄) ← take32 bs₃
  (_, bs₅) ← raw 12 bs₄
  (vector, bs₆) ← repeat dim take32 bs₅
  filters ← (repeat (if bit0 flags then 1 else 0) sized bs₆ >>= at_end)
  some (record { k = k; vector = vector; filter = first filters })
