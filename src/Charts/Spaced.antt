-- ===== src/Charts/Spaced.antt =====
-- What `decollide` of netkv/charts/mkcharts.py promises: labels that stand apart, in the order of the
-- ends of their lines, and inside the bounds if they fit between them.
use rostam_bench.Base.{
  ℕ, ◌≡◌, refl, ap, ◌∙◌, inl, inr, false, List, [], ◌∷◌, map, Bool-cases, arith, length, length-map,
  ◌≤◌,
}
use rostam_bench.Base.Int.{ℤ}
use rostam_bench.Base.Arith.{◌+ℤ◌, ◌-ℤ◌, ◌≤ℤ◌, ltb_ℤ, int_laws, +ℤ_parts, -ℤ_parts}
use rostam_bench.PyClient.Socket.{done, ◌>>=◌}
use rostam_bench.Charts.Labels.{
  Placed, indexed, order, pushed, down_from, down, lifted, up, shift, moved, settled, placed,
  insert, read_back, decollide,
}

-- Each label is at least `gap` below the one before it; the first is below `above`.
abbrev pub IsSpacedFrom : ℤ → ℤ → List Placed → Type 0
IsSpacedFrom gap above [] = Unit
IsSpacedFrom gap above ((i, y) ∷ ps) = (above +ℤ gap ≤ℤ y) × IsSpacedFrom gap y ps

abbrev pub IsSpaced : ℤ → List Placed → Type 0
IsSpaced gap [] = Unit
IsSpaced gap ((i, y) ∷ ps) = IsSpacedFrom gap y ps

abbrev pub keys : List Placed → List ℕ
keys = map (λ p. p.0)

pushed-le : (gap above y : ℤ) → above +ℤ gap ≤ℤ pushed gap above y
unfolding pushed
pushed-le gap above y = elim (Bool-cases (ltb_ℤ (y -ℤ above) gap)) [
  | inl close ↦ rw close (omega int_laws)
  | inr far ↦ rw far (ground (arith, +ℤ_parts above gap, -ℤ_parts y above, far))
]

pushed-far : (gap above y : ℤ) → above +ℤ gap ≤ℤ y → pushed gap above y ≡ y
unfolding pushed
pushed-far gap above y h = ground (arith, +ℤ_parts above gap, -ℤ_parts y above)

down_from-IsSpacedFrom :
    (gap above : ℤ) (ps : List Placed) → IsSpacedFrom gap above (down_from gap above ps)
unfolding down_from
down_from-IsSpacedFrom gap above [] = tt
down_from-IsSpacedFrom gap above ((i, y) ∷ ps) =
    (pushed-le gap above y, down_from-IsSpacedFrom gap (pushed gap above y) ps)

down-IsSpaced : (gap : ℤ) (ps : List Placed) → IsSpaced gap (down gap ps)
unfolding down
down-IsSpaced gap [] = tt
down-IsSpaced gap ((i, y) ∷ ps) = down_from-IsSpacedFrom gap y ps

keys-down_from : (gap above : ℤ) (ps : List Placed) → keys (down_from gap above ps) ≡ keys ps
unfolding down_from
keys-down_from gap above [] = refl
keys-down_from gap above ((i, y) ∷ ps) =
    ap (λ l. i ∷ l) (keys-down_from gap (pushed gap above y) ps)

pub keys-down : (gap : ℤ) (ps : List Placed) → keys (down gap ps) ≡ keys ps
unfolding down
keys-down gap [] = refl
keys-down gap ((i, y) ∷ ps) = ap (λ l. i ∷ l) (keys-down_from gap y ps)

-- Labels that stand apart are not pushed.
down_from-fixed :
    (gap above : ℤ) (ps : List Placed) → IsSpacedFrom gap above ps → down_from gap above ps ≡ ps
unfolding down_from
down_from-fixed gap above [] h = refl
down_from-fixed gap above ((i, y) ∷ ps) h =
    rw (pushed-far gap above y h.0) (ap (λ l. (i, y) ∷ l) (down_from-fixed gap y ps h.1))

pub down-fixed : (gap : ℤ) (ps : List Placed) → IsSpaced gap ps → down gap ps ≡ ps
unfolding down
down-fixed gap [] h = refl
down-fixed gap ((i, y) ∷ ps) h = ap (λ l. (i, y) ∷ l) (down_from-fixed gap y ps h)

lifted-fixed :
    (gap : ℤ) (i : ℕ) (y : ℤ) (ps : List Placed)
    → IsSpacedFrom gap y ps
    → lifted gap (i, y) ps ≡ (i, y) ∷ ps
unfolding lifted
lifted-fixed gap i y [] h = refl
lifted-fixed gap i y ((j, z) ∷ ps) h =
    let far : ltb_ℤ (z -ℤ y) gap ≡ false = ground (arith, +ℤ_parts y gap, -ℤ_parts z y, h.0) in
    rw far refl

-- The bottom-up correction has nothing to do behind the top-down pass.
up_from-fixed :
    (gap : ℤ) (i : ℕ) (y : ℤ) (ps : List Placed)
    → IsSpacedFrom gap y ps
    → up gap ((i, y) ∷ ps) ≡ (i, y) ∷ ps
unfolding up
up_from-fixed gap i y [] h = lifted-fixed gap i y [] tt
up_from-fixed gap i y ((j, z) ∷ ps) h =
    ap (lifted gap (i, y)) (up_from-fixed gap j z ps h.1) ∙ lifted-fixed gap i y ((j, z) ∷ ps) h

up-fixed : (gap : ℤ) (ps : List Placed) → IsSpaced gap ps → up gap ps ≡ ps
unfolding up
up-fixed gap [] h = refl
up-fixed gap ((i, y) ∷ ps) h = up_from-fixed gap i y ps h

moved-IsSpacedFrom :
    (gap above d : ℤ) (ps : List Placed)
    → IsSpacedFrom gap above ps
    → IsSpacedFrom gap (above +ℤ d) (moved d ps)
moved-IsSpacedFrom gap above d [] h = tt
moved-IsSpacedFrom gap above d ((i, y) ∷ ps) h =
    (omega (int_laws, h.0), moved-IsSpacedFrom gap y d ps h.1)

pub keys-moved : (d : ℤ) (ps : List Placed) → keys (moved d ps) ≡ keys ps
keys-moved d [] = refl
keys-moved d ((i, y) ∷ ps) = ap (λ l. i ∷ l) (keys-moved d ps)

-- Between the passes and the shift.
pub up-down :
    (gap : ℤ) (ys : List ℤ)
    → up gap (down gap (order (indexed 0 ys))) ≡ down gap (order (indexed 0 ys))
up-down gap ys = up-fixed gap (down gap (order (indexed 0 ys))) (down-IsSpaced gap _)

pub IsSpaced-moved : (gap d : ℤ) (ps : List Placed) → IsSpaced gap ps → IsSpaced gap (moved d ps)
IsSpaced-moved gap d [] h = tt
IsSpaced-moved gap d ((i, y) ∷ ps) h = moved-IsSpacedFrom gap y d ps h

settled-IsSpaced :
    (gap lo hi : ℤ) (ps : List Placed)
    → 1 ≤ length ps
    → IsSpaced gap ps
    → (out : List Placed) × (settled lo hi ps ≡ done out) × IsSpaced gap out × (keys out ≡ keys ps)
unfolding settled
settled-IsSpaced gap lo hi [] h s = absurd (omega arith)
settled-IsSpaced gap lo hi ((i, y) ∷ ps) h s = (
  moved (shift lo hi y ps) ((i, y) ∷ ps),
  refl,
  IsSpaced-moved gap (shift lo hi y ps) ((i, y) ∷ ps) s,
  keys-moved (shift lo hi y ps) ((i, y) ∷ ps),
)

some_inserted : (p : Placed) (ps : List Placed) → 1 ≤ length (insert p ps)
unfolding insert
some_inserted p [] = omega arith
some_inserted p (q ∷ ps) = ground arith

pub some_ordered : (gap y : ℤ) (ys : List ℤ) → 1 ≤ length (down gap (order (indexed 0 (y ∷ ys))))
unfolding order
some_ordered gap y ys = omega (
  arith,
  some_inserted (0, y) (order (indexed 1 ys)),
  ap length (keys-down gap (order (indexed 0 (y ∷ ys)))),
  length-map (λ (p : Placed). p.0) (down gap (order (indexed 0 (y ∷ ys)))),
  length-map (λ (p : Placed). p.0) (order (indexed 0 (y ∷ ys))),
)

-- The labels in `order`, from which the result is read.
pub decollide-IsSpaced :
    (gap lo hi y : ℤ) (ys : List ℤ)
    → (out : List Placed) × (decollide gap lo hi (y ∷ ys) ≡ done (read_back 0 (y ∷ ys) out))
      × IsSpaced gap out
      × (keys out ≡ keys (order (indexed 0 (y ∷ ys))))
unfolding decollide placed
decollide-IsSpaced gap lo hi y ys =
    let before = order (indexed 0 (y ∷ ys)) in
    let (out, e, spaced, same) =
      settled-IsSpaced gap lo hi (down gap before) (some_ordered gap y ys)
        (down-IsSpaced gap before) in
    (
      out,
      ap (λ ps. settled lo hi ps >>= λ o. done (read_back 0 (y ∷ ys) o)) (up-down gap (y ∷ ys))
          ∙ ap (λ r. r >>= λ o. done (read_back 0 (y ∷ ys) o)) e,
      spaced,
      same ∙ keys-down gap before,
    )
