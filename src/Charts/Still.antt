-- ===== src/Charts/Still.antt =====
-- Labels that `decollide` of netkv/charts/mkcharts.py leaves where they are.
use rostam_bench.Base.{
  ℕ, ◌+◌, ◌≤◌, ◌<◌, ◌≡◌, refl, ap, ◌∙◌, inl, inr, true, List, [], ◌∷◌, All, Bool-cases, arith,
  length,
}
use rostam_bench.Base.Int.{ℤ, pos}
use rostam_bench.Base.Arith.{◌+ℤ◌, ◌-ℤ◌, ◌≤ℤ◌, leb_ℤ, min_ℤ, max_ℤ, int_laws, -ℤ_parts}
use rostam_bench.PyClient.Socket.{done, ◌>>=◌}
use rostam_bench.Charts.Labels.{
  Placed, indexed, insert, order, lowest, highest, shift, moved, settled, placed, value_at,
  read_back, decollide,
}
use rostam_bench.Charts.Spaced.{IsSpaced, up-down, some_ordered, down-fixed}
use rostam_bench.Charts.Bounds.{IsWithin, le_min, max_below}

abbrev pub IsBelow : ℕ → List Placed → Type 0
IsBelow k = All (λ p. k < p.0)

pub indexed-IsBelow : (k i : ℕ) (ys : List ℤ) → k < i → IsBelow k (indexed i ys)
indexed-IsBelow k i [] h = tt
indexed-IsBelow k i (y ∷ ys) h = (h, indexed-IsBelow k (i + 1) ys (omega arith))

insert-IsBelow :
    (k : ℕ) (p : Placed) (ps : List Placed) → k < p.0 → IsBelow k ps → IsBelow k (insert p ps)
unfolding insert
insert-IsBelow k p [] h hs = (h, tt)
insert-IsBelow k p (q ∷ ps) h hs = elim (Bool-cases (leb_ℤ p.1 q.1)) [
  | inl e ↦ rw e (h, hs)
  | inr e ↦ rw e (hs.0, insert-IsBelow k p ps h hs.1)
]

pub order-IsBelow : (k : ℕ) (ps : List Placed) → IsBelow k ps → IsBelow k (order ps)
unfolding order
order-IsBelow k [] h = tt
order-IsBelow k (p ∷ ps) h = insert-IsBelow k p (order ps) h.0 (order-IsBelow k ps h.1)

-- A label that is inserted among labels with greater indices is found, and hides none.
value_at-insert :
    (i : ℕ) (p : Placed) (ps : List Placed)
    → IsBelow p.0 ps
    → value_at i (insert p ps) ≡ value_at i (p ∷ ps)
unfolding insert value_at
value_at-insert i p [] h = refl
value_at-insert i p (q ∷ ps) h = ground (arith, value_at-insert i p ps h.1, h.0)

value_at-order :
    (i k : ℕ) (ys : List ℤ) → value_at i (order (indexed k ys)) ≡ value_at i (indexed k ys)
unfolding order value_at
value_at-order i k [] = refl
value_at-order i k (y ∷ ys) =
    value_at-insert i (k, y) (order (indexed (k + 1) ys))
      (order-IsBelow k (indexed (k + 1) ys) (indexed-IsBelow k (k + 1) ys (omega arith)))
    ∙ ground (arith, value_at-order i (k + 1) ys)

read_back-ext :
    (i : ℕ) (ys : List ℤ) (a b : List Placed)
    → ((j : ℕ) → i ≤ j → value_at j a ≡ value_at j b)
    → read_back i ys a ≡ read_back i ys b
read_back-ext i [] a b h = refl
read_back-ext i (y ∷ ys) a b h =
    rw (h i (omega arith))
      (ap (λ l. value_at i b ∷ l) (read_back-ext (i + 1) ys a b (λ j k. h j (omega arith))))

read_back-indexed : (i : ℕ) (ys : List ℤ) → read_back i ys (indexed i ys) ≡ ys
unfolding value_at
read_back-indexed i [] = refl
read_back-indexed i (y ∷ ys) =
    let first : value_at i ((i, y) ∷ indexed (i + 1) ys) ≡ y = ground arith in
    rw first (
      ap (λ l. y ∷ l)
        (read_back-ext (i + 1) ys ((i, y) ∷ indexed (i + 1) ys) (indexed (i + 1) ys)
            (λ j h. ground arith)
          ∙ read_back-indexed (i + 1) ys))

le_lowest : (c m : ℤ) (ps : List Placed) → c ≤ℤ m → All (λ p. c ≤ℤ p.1) ps → c ≤ℤ lowest m ps
le_lowest c m [] h hs = h
le_lowest c m ((i, y) ∷ ps) h (k, hs) = le_lowest c (min_ℤ m y) ps (le_min c m y h k) hs

highest_below : (c m : ℤ) (ps : List Placed) → m ≤ℤ c → All (λ p. p.1 ≤ℤ c) ps → highest m ps ≤ℤ c
highest_below c m [] h hs = h
highest_below c m ((i, y) ∷ ps) h (k, hs) = highest_below c (max_ℤ m y) ps (max_below c m y h k) hs

moved_0 : (ps : List Placed) → moved (pos 0) ps ≡ ps
moved_0 [] = refl
moved_0 ((i, y) ∷ ps) =
    let same : y +ℤ pos 0 ≡ y = omega int_laws in rw same (ap (λ l. (i, y) ∷ l) (moved_0 ps))

lows : (lo hi : ℤ) (ps : List Placed) → IsWithin lo hi ps → All (λ p. lo ≤ℤ p.1) ps
lows lo hi [] h = tt
lows lo hi (p ∷ ps) (h, hs) = (h.0, lows lo hi ps hs)

highs : (lo hi : ℤ) (ps : List Placed) → IsWithin lo hi ps → All (λ p. p.1 ≤ℤ hi) ps
highs lo hi [] h = tt
highs lo hi (p ∷ ps) (h, hs) = (h.1, highs lo hi ps hs)

settled-still :
    (lo hi : ℤ) (ps : List Placed) → 1 ≤ length ps → IsWithin lo hi ps → settled lo hi ps ≡ done ps
unfolding settled shift
settled-still lo hi [] h inside = absurd (omega arith)
settled-still lo hi ((i, y) ∷ ps) h (k, inside) =
    let low : lo ≤ℤ lowest y ps = le_lowest lo y ps k.0 (lows lo hi ps inside) in
    let high : highest y ps ≤ℤ hi = highest_below hi y ps k.1 (highs lo hi ps inside) in
    let a : leb_ℤ (lo -ℤ lowest y ps) (pos 0) ≡ true =
      ground (arith, -ℤ_parts lo (lowest y ps), low) in
    let b : leb_ℤ (highest y ps -ℤ hi) (pos 0) ≡ true =
      ground (arith, -ℤ_parts (highest y ps) hi, high) in
    let nothing : pos 0 -ℤ pos 0 ≡ pos 0 = omega int_laws in
    let no_shift : shift lo hi y ps ≡ pos 0 = rw (shift, a, b) nothing in
    ap (λ d. done (moved d ((i, y) ∷ ps))) no_shift ∙ ap done (moved_0 ((i, y) ∷ ps))

-- Labels that stand apart and inside the bounds already are returned as they are, in whatever order
-- the input has them.
pub decollide-still :
    (gap lo hi y : ℤ) (ys : List ℤ)
    → IsSpaced gap (order (indexed 0 (y ∷ ys)))
    → IsWithin lo hi (order (indexed 0 (y ∷ ys)))
    → decollide gap lo hi (y ∷ ys) ≡ done (y ∷ ys)
unfolding decollide placed
decollide-still gap lo hi y ys spaced inside =
    let before = order (indexed 0 (y ∷ ys)) in
    let kept = down-fixed gap before spaced in
    let many : 1 ≤ length before = omega (arith, some_ordered gap y ys, ap length kept) in
    ap (λ ps. settled lo hi ps >>= λ o. done (read_back 0 (y ∷ ys) o)) (up-down gap (y ∷ ys) ∙ kept)
    ∙ ap (λ r. r >>= λ o. done (read_back 0 (y ∷ ys) o)) (settled-still lo hi before many inside)
    ∙ ap done (
        read_back-ext 0 (y ∷ ys) before (indexed 0 (y ∷ ys)) (λ j h. value_at-order j 0 (y ∷ ys))
        ∙ read_back-indexed 0 (y ∷ ys))
