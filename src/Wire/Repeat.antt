-- ===== src/Wire/Repeat.antt =====
-- The parsers of the layout on what they are meant for.
use rostam_bench.Base.{
  ℕ, ◌≤◌, ◌≡◌, refl, some, List, [], ◌∷◌, ◌++◌, arith, length, length-append, take-append,
  drop-append, concat_map, All, append_assoc, leb, true,
}
use rostam_bench.Python.Errors.{Bytes}
use rostam_bench.Python.Bytes.{IsU32, IsU64, be32, be64, take32, take32-be32, take64-be64}
use rostam_bench.Wire.Layout.{Parser, repeat, raw, point, sized}
use rostam_bench.Numpy.{record_bytes, IsF32}

-- A parser that reads back each item reads back their sequence.
pub repeat-concat {ℓ κ} :
    {A : Type ℓ} (P : A → Type κ) (p : Parser A) (enc : A → Bytes)
    → ((a : A) (rest : Bytes) → P a → p (enc a ++ rest) ≡ some (a, rest))
    → (xs : List A) (rest : Bytes) → All P xs
    → repeat (length xs) p (concat_map enc xs ++ rest) ≡ some (xs, rest)
unfolding repeat
repeat-concat P p enc good [] rest h = refl
repeat-concat P p enc good (x ∷ xs) rest (hx, hs) = rw (
  append_assoc (enc x) (concat_map enc xs) rest,
  good x (concat_map enc xs ++ rest) hx,
  repeat-concat P p enc good xs rest hs,
)

pub floats :
    (v : List ℕ) (rest : Bytes)
    → IsF32 v
    → repeat (length v) take32 (concat_map be32 v ++ rest) ≡ some (v, rest)
floats v rest h = repeat-concat IsU32 take32 be32 take32-be32 v rest h

pub point-record :
    (dim : ℕ) (x : ℕ × List ℕ) (rest : Bytes)
    → IsU64 x.0 × (length x.1 ≡ dim) × IsF32 x.1
    → point dim (record_bytes x ++ rest) ≡ some (x, rest)
unfolding point
point-record dim (i, v) rest (hi, hl, hv) = rw (
  append_assoc (be64 i) (concat_map be32 v) rest,
  take64-be64 i (concat_map be32 v ++ rest) hi,
  ← hl,
  floats v rest hv,
)

pub raw-append : (xs rest : Bytes) → raw (length xs) (xs ++ rest) ≡ some (xs, rest)
unfolding raw
raw-append xs rest = rw (
  le→leb (length xs) (length (xs ++ rest)) (rw length-append (omega arith)),
  take-append xs rest (length xs) refl,
  drop-append xs rest (length xs) refl,
)
  where
    le→leb : (a b : ℕ) → a ≤ b → leb a b ≡ true
    le→leb a b h = ground arith

pub sized-entry :
    (xs rest : Bytes)
    → IsU32 (length xs)
    → sized ((be32 (length xs) ++ xs) ++ rest) ≡ some (xs, rest)
unfolding sized
sized-entry xs rest h =
    rw (append_assoc (be32 (length xs)) xs rest, take32-be32 (length xs) (xs ++ rest) h)
      (raw-append xs rest)
