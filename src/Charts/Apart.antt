-- ===== src/Charts/Apart.antt =====
-- What `decollide` of netkv/charts/mkcharts.py returns, label by label: what the places in its lists
-- say of the places in the result.
use rostam_bench.Base.{
  ℕ, zero, suc, ◌+◌, ◌≡◌, refl, ap, sym, ◌∙◌, inl, inr, true, false, List, [], ◌∷◌, All, Bool-cases,
  arith, length, ◌==◌,
}
use mathlib.Core.Path.{subst}
use rostam_bench.Base.Int.{ℤ, pos}
use rostam_bench.Base.Arith.{◌+ℤ◌, ◌-ℤ◌, ◌≤ℤ◌, int_laws}
use rostam_bench.PyClient.Socket.{done}
use rostam_bench.Sift.Quantile.{item}
use rostam_bench.Charts.Labels.{Placed, indexed, order, down, value_at, read_back, decollide}
use rostam_bench.Charts.Spaced.{IsSpaced, IsSpacedFrom, keys, decollide-IsSpaced}
use rostam_bench.Charts.Bounds.{spread, decollide-IsWithin}
use rostam_bench.Charts.Order.{
  IsBefore, Precedes, IsOrdered, Has, IsBefore-asym, IsBefore-irrefl, order-IsOrdered, Has-order,
  Has-indexed,
}

All-Has :
    (P : Placed → Type 0) (i : ℕ) (a : ℤ) (ps : List Placed) → Has i a ps → All P ps → P (i, a)
All-Has P i a [] h all = absurd h
All-Has P i a (p ∷ ps) (inl (e, f)) (one, all) =
    subst (λ j. P (j, a)) e (subst (λ c. P (p.0, c)) f one)
All-Has P i a (p ∷ ps) (inr there) (one, all) = All-Has P i a ps there all

-- What holds for all places holds for the place of a label.
value_at-All :
    (Q : ℤ → Type 0) (j : ℕ) (b : ℤ) (ps out : List Placed)
    → keys out ≡ keys ps
    → Has j b ps
    → All (λ q. Q q.1) out
    → Q (value_at j out)
unfolding value_at
value_at-All Q j b [] out same h all = absurd h
value_at-All Q j b (p ∷ ps) [] same h all = absurd (ground (arith, same))
value_at-All Q j b (p ∷ ps) (q ∷ out) same h (one, all) = elim (Bool-cases (j == q.0)) [
  | inl e ↦ rw e one
  | inr e ↦ rw e (elim h [
    | inl here ↦ absurd (ground (arith, same, e, here.0))
    | inr there ↦ value_at-All Q j b ps out (ground (arith, same)) there all
  ])
]

far_below :
    (gap above : ℤ) (ps : List Placed)
    → pos 0 ≤ℤ gap
    → IsSpacedFrom gap above ps
    → All (λ q. above +ℤ gap ≤ℤ q.1) ps
far_below gap above [] h spaced = tt
far_below gap above ((i, y) ∷ ps) h (one, spaced) = (one, lower ps (far_below gap y ps h spaced))
  where
    lower : (qs : List Placed) → All (λ q. y +ℤ gap ≤ℤ q.1) qs → All (λ q. above +ℤ gap ≤ℤ q.1) qs
    lower [] all = tt
    lower (q ∷ qs) (k, all) = (omega (int_laws, one, k, h), lower qs all)

IsSpacedFrom-IsSpaced :
    (gap above : ℤ) (ps : List Placed) → IsSpacedFrom gap above ps → IsSpaced gap ps
IsSpacedFrom-IsSpaced gap above [] h = tt
IsSpacedFrom-IsSpaced gap above ((i, y) ∷ ps) h = h.1

-- The places of two labels, one of which precedes the other.
spaced_places :
    (gap : ℤ) (i j : ℕ) (a b : ℤ) (ps out : List Placed)
    → pos 0 ≤ℤ gap
    → IsOrdered ps
    → keys out ≡ keys ps
    → IsSpaced gap out
    → Has i a ps
    → Has j b ps
    → IsBefore (i, a) (j, b)
    → value_at i out +ℤ gap ≤ℤ value_at j out
unfolding value_at
spaced_places gap i j a b [] out g sorted same spaced h k before = absurd h
spaced_places gap i j a b (p ∷ ps) [] g sorted same spaced h k before =
    absurd (ground (arith, same))
spaced_places gap i j a b (p ∷ ps) (q ∷ out) g (all, sorted) same spaced (inl h) (inl k) before =
    absurd (IsBefore-irrefl (i, a) (j, b) (sym (h.0) ∙ k.0) (sym (h.1) ∙ k.1) before)
spaced_places gap i j a b (p ∷ ps) (q ∷ out) g (all, sorted) same spaced (inl h) (inr k) before =
    let first : q.0 ≡ p.0 = ground (arith, same) in
    let others : keys out ≡ keys ps = ground (arith, same) in
    let here : (i == q.0) ≡ true = ground (arith, first, h.0) in
    let apart : (p.0 == j) ≡ false = (All-Has (Precedes p) j b ps k all).1 in
    let there : (j == q.0) ≡ false = ground (arith, first, apart) in
    rw (here, there)
      (value_at-All (λ z. q.1 +ℤ gap ≤ℤ z) j b ps out others k (far_below gap q.1 out g spaced))
spaced_places gap i j a b (p ∷ ps) (q ∷ out) g (all, sorted) same spaced (inr h) (inl k) before =
    let (e, f) = k in
    absurd (
      IsBefore-asym (i, a) (j, b) before
        (subst (λ m. IsBefore (m, b) (i, a)) e
          (subst (λ c. IsBefore (p.0, c) (i, a)) f (All-Has (Precedes p) i a ps h all).0)))
spaced_places gap i j a b (p ∷ ps) (q ∷ out) g (all, sorted) same spaced (inr h) (inr k) before =
    let first : q.0 ≡ p.0 = ground (arith, same) in
    let others : keys out ≡ keys ps = ground (arith, same) in
    let apart_i : (p.0 == i) ≡ false = (All-Has (Precedes p) i a ps h all).1 in
    let apart_j : (p.0 == j) ≡ false = (All-Has (Precedes p) j b ps k all).1 in
    let there_i : (i == q.0) ≡ false = ground (arith, first, apart_i) in
    let there_j : (j == q.0) ≡ false = ground (arith, first, apart_j) in
    rw (there_i, there_j)
      (spaced_places gap i j a b ps out g sorted others (IsSpacedFrom-IsSpaced gap q.1 out spaced) h
        k before)

-- The result at an index is the place with that index.
item-read_back :
    (n k : ℕ) (ys : List ℤ) (out : List Placed) (a : ℤ)
    → item n ys ≡ done a
    → item n (read_back k ys out) ≡ done (value_at (k + n) out)
unfolding item
item-read_back n k [] out a e = absurd (ground (arith, e))
item-read_back zero k (y ∷ ys) out a e = let same : k + 0 ≡ k = omega arith in rw same refl
item-read_back (suc n) k (y ∷ ys) out a e =
    let same : k + suc n ≡ k + 1 + n = omega arith in rw same (item-read_back n (k + 1) ys out a e)

length-read_back :
    (k : ℕ) (ys : List ℤ) (out : List Placed) → length (read_back k ys out) ≡ length ys
length-read_back k [] out = refl
length-read_back k (y ∷ ys) out = ap suc (length-read_back (k + 1) ys out)

-- What holds for all places holds for all results.
read_back-All :
    (Q : ℤ → Type 0) (k : ℕ) (ys : List ℤ) (ps out : List Placed)
    → keys out ≡ keys ps
    → ((n : ℕ) (a : ℤ) → item n ys ≡ done a → Has (k + n) a ps)
    → All (λ q. Q q.1) out
    → All Q (read_back k ys out)
unfolding item
read_back-All Q k [] ps out same found all = tt
read_back-All Q k (y ∷ ys) ps out same found all =
    let here : k + 0 ≡ k = omega arith in
    (
      value_at-All Q k y ps out same (subst (λ m. Has m y ps) here (found 0 y refl)) all,
      read_back-All Q (k + 1) ys ps out same
          (λ n a e.
            let there : k + suc n ≡ k + 1 + n = omega arith in
            subst (λ m. Has m a ps) there (found (suc n) a e))
          all,
    )

Has-item : (n : ℕ) (a : ℤ) (ys : List ℤ) → item n ys ≡ done a → Has n a (order (indexed 0 ys))
Has-item n a ys e =
    let same : 0 + n ≡ n = omega arith in
    subst (λ m. Has m a (order (indexed 0 ys))) same
      (Has-order (0 + n) a (indexed 0 ys) (Has-indexed n 0 a ys e))

place_of :
    (n : ℕ) (ys : List ℤ) (out : List Placed) (a : ℤ)
    → item n ys ≡ done a
    → item n (read_back 0 ys out) ≡ done (value_at n out)
place_of n ys out a e =
    let same : 0 + n ≡ n = omega arith in
    subst (λ m. item n (read_back 0 ys out) ≡ done (value_at m out)) same
      (item-read_back n 0 ys out a e)

-- For a gap that is not negative and two labels of the input, of which the first belongs to a line that
-- ends higher up, or at the same height and comes first: `decollide` returns as many heights as it was
-- given, and at the places of the two labels a height and one that is at least the gap below it.
pub decollide-IsApart :
    (gap lo hi y : ℤ) (ys : List ℤ) (i j : ℕ) (a b : ℤ)
    → pos 0 ≤ℤ gap
    → item i (y ∷ ys) ≡ done a
    → item j (y ∷ ys) ≡ done b
    → IsBefore (i, a) (j, b)
    → (zs : List ℤ) × (c : ℤ) × (d : ℤ) × (decollide gap lo hi (y ∷ ys) ≡ done zs)
      × (length zs ≡ length (y ∷ ys))
      × (item i zs ≡ done c)
      × (item j zs ≡ done d)
      × (c +ℤ gap ≤ℤ d)
decollide-IsApart gap lo hi y ys i j a b g at_i at_j first =
    let (out, e, spaced, same) = decollide-IsSpaced gap lo hi y ys in
    (
      read_back 0 (y ∷ ys) out,
      value_at i out,
      value_at j out,
      e,
      length-read_back 0 (y ∷ ys) out,
      place_of i (y ∷ ys) out a at_i,
      place_of j (y ∷ ys) out b at_j,
      spaced_places gap i j a b (order (indexed 0 (y ∷ ys))) out g (order-IsOrdered 0 (y ∷ ys)) same
          spaced (Has-item i a (y ∷ ys) at_i) (Has-item j b (y ∷ ys) at_j) first,
    )

-- If the labels, once they stand apart, take no more room from the top one to the bottom one than
-- there is between the bounds, `decollide` returns as many heights as it was given, and every one of
-- them is inside the bounds.
pub decollide-IsInside :
    (gap lo hi y : ℤ) (ys : List ℤ)
    → spread (down gap (order (indexed 0 (y ∷ ys)))) ≤ℤ hi -ℤ lo
    → (zs : List ℤ) × (decollide gap lo hi (y ∷ ys) ≡ done zs)
      × (length zs ≡ length (y ∷ ys))
      × All (λ z. (lo ≤ℤ z) × (z ≤ℤ hi)) zs
decollide-IsInside gap lo hi y ys fits =
    let (out, e, inside, same) = decollide-IsWithin gap lo hi y ys fits in
    let before = indexed 0 (y ∷ ys) in
    (
      read_back 0 (y ∷ ys) out,
      e,
      length-read_back 0 (y ∷ ys) out,
      read_back-All (λ z. (lo ≤ℤ z) × (z ≤ℤ hi)) 0 (y ∷ ys) (order before) out same
          (λ n a at. Has-order (0 + n) a before (Has-indexed n 0 a (y ∷ ys) at)) inside,
    )
