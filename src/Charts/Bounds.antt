-- ===== src/Charts/Bounds.antt =====
-- `decollide` of netkv/charts/mkcharts.py and its bounds.
use rostam_bench.Base.{
  ◌≤◌, ◌≡◌, refl, ap, ◌∙◌, inl, inr, true, List, [], ◌∷◌, All, Bool-cases, arith, length,
}
use rostam_bench.Base.Int.{ℤ, pos}
use rostam_bench.Base.Arith.{◌+ℤ◌, ◌-ℤ◌, ◌≤ℤ◌, leb_ℤ, min_ℤ, max_ℤ, int_laws}
use rostam_bench.PyClient.Socket.{done, ◌>>=◌}
use rostam_bench.Charts.Labels.{
  Placed, indexed, order, down, lowest, highest, shift, moved, settled, placed, read_back,
  decollide,
}
use rostam_bench.Charts.Spaced.{up-down, some_ordered, keys, keys-down, keys-moved}

abbrev pub IsWithin : ℤ → ℤ → List Placed → Type 0
IsWithin lo hi = All (λ p. (lo ≤ℤ p.1) × (p.1 ≤ℤ hi))

min_le : (a b : ℤ) → (min_ℤ a b ≤ℤ a) × (min_ℤ a b ≤ℤ b)
min_le a b = elim (Bool-cases (leb_ℤ a b)) [
  | inl h ↦ rw h (ground (arith, h))
  | inr h ↦ rw h (ground (arith, h))
]

max_le : (a b : ℤ) → (a ≤ℤ max_ℤ a b) × (b ≤ℤ max_ℤ a b)
max_le a b = elim (Bool-cases (leb_ℤ b a)) [
  | inl h ↦ rw h (ground (arith, h))
  | inr h ↦ rw h (ground (arith, h))
]

pub le_min : (c a b : ℤ) → c ≤ℤ a → c ≤ℤ b → c ≤ℤ min_ℤ a b
le_min c a b h k = elim (Bool-cases (leb_ℤ a b)) [ inl e ↦ rw e h | inr e ↦ rw e k ]

pub max_below : (c a b : ℤ) → a ≤ℤ c → b ≤ℤ c → max_ℤ a b ≤ℤ c
max_below c a b h k = elim (Bool-cases (leb_ℤ b a)) [ inl e ↦ rw e h | inr e ↦ rw e k ]

lowest-le : (m : ℤ) (ps : List Placed) → (lowest m ps ≤ℤ m) × All (λ p. lowest m ps ≤ℤ p.1) ps
lowest-le m [] = (omega arith, tt)
lowest-le m ((i, y) ∷ ps) =
    let (low, all) = lowest-le (min_ℤ m y) ps in
    let (a, b) = min_le m y in (omega (arith, low, a), (omega (arith, low, b), all))

highest-le : (m : ℤ) (ps : List Placed) → (m ≤ℤ highest m ps) × All (λ p. p.1 ≤ℤ highest m ps) ps
highest-le m [] = (omega arith, tt)
highest-le m ((i, y) ∷ ps) =
    let (high, all) = highest-le (max_ℤ m y) ps in
    let (a, b) = max_le m y in (omega (arith, high, a), (omega (arith, high, b), all))

-- From the top label to the bottom one.
abbrev pub spread : List Placed → ℤ
spread [] = pos 0
spread ((i, y) ∷ ps) = highest y ps -ℤ lowest y ps

-- What the shift does to a label between the lowest and the highest.
shifted :
    (lo hi low high y : ℤ)
    → low ≤ℤ y
    → y ≤ℤ high
    → high -ℤ low ≤ℤ hi -ℤ lo
    → let d = max_ℤ (pos 0) (lo -ℤ low) -ℤ max_ℤ (pos 0) (high -ℤ hi) in
      (lo ≤ℤ y +ℤ d) × (y +ℤ d ≤ℤ hi)
shifted lo hi low high y h k fits = elim (Bool-cases (leb_ℤ (lo -ℤ low) (pos 0))) [
  | inl a ↦ elim (Bool-cases (leb_ℤ (high -ℤ hi) (pos 0))) [
    | inl b ↦
        let a' : lo -ℤ low ≤ℤ pos 0 = ground (arith, a) in
        let b' : high -ℤ hi ≤ℤ pos 0 = ground (arith, b) in
        rw (a, b) (omega int_laws, omega int_laws)
    | inr b ↦ rw (a, b) (omega int_laws, omega int_laws)
  ]
  | inr a ↦
      let a' : pos 1 ≤ℤ lo -ℤ low = ground (arith, a) in
      let b' : high -ℤ hi ≤ℤ pos 0 = omega int_laws in
      let b : leb_ℤ (high -ℤ hi) (pos 0) ≡ true = ground (arith, b') in
      rw (a, b) (omega int_laws, omega int_laws)
]

within :
    (lo hi low high : ℤ) (ps : List Placed)
    → high -ℤ low ≤ℤ hi -ℤ lo
    → All (λ p. low ≤ℤ p.1) ps
    → All (λ p. p.1 ≤ℤ high) ps
    → IsWithin lo hi (moved (max_ℤ (pos 0) (lo -ℤ low) -ℤ max_ℤ (pos 0) (high -ℤ hi)) ps)
within lo hi low high [] fits h k = tt
within lo hi low high ((i, y) ∷ ps) fits (h, hs) (k, ks) =
    (shifted lo hi low high y h k fits, within lo hi low high ps fits hs ks)

settled-IsWithin :
    (lo hi : ℤ) (ps : List Placed)
    → 1 ≤ length ps
    → spread ps ≤ℤ hi -ℤ lo
    → (out : List Placed) × (settled lo hi ps ≡ done out)
      × IsWithin lo hi out
      × (keys out ≡ keys ps)
unfolding settled shift
settled-IsWithin lo hi [] h fits = absurd (omega arith)
settled-IsWithin lo hi ((i, y) ∷ ps) h fits =
    let (low, lows) = lowest-le y ps in
    let (high, highs) = highest-le y ps in
    (
      moved (shift lo hi y ps) ((i, y) ∷ ps),
      refl,
      within lo hi (lowest y ps) (highest y ps) ((i, y) ∷ ps) fits (low, lows) (high, highs),
      keys-moved (shift lo hi y ps) ((i, y) ∷ ps),
    )

-- The labels in `order`, from which the result is read.
pub decollide-IsWithin :
    (gap lo hi y : ℤ) (ys : List ℤ)
    → spread (down gap (order (indexed 0 (y ∷ ys)))) ≤ℤ hi -ℤ lo
    → (out : List Placed) × (decollide gap lo hi (y ∷ ys) ≡ done (read_back 0 (y ∷ ys) out))
      × IsWithin lo hi out
      × (keys out ≡ keys (order (indexed 0 (y ∷ ys))))
unfolding decollide placed
decollide-IsWithin gap lo hi y ys fits =
    let (out, e, inside, same) =
      settled-IsWithin lo hi (down gap (order (indexed 0 (y ∷ ys)))) (some_ordered gap y ys) fits in
    (
      out,
      ap (λ ps. settled lo hi ps >>= λ o. done (read_back 0 (y ∷ ys) o)) (up-down gap (y ∷ ys))
          ∙ ap (λ r. r >>= λ o. done (read_back 0 (y ∷ ys) o)) e,
      inside,
      same ∙ keys-down gap (order (indexed 0 (y ∷ ys))),
    )
