-- ===== src/Charts/Order.antt =====
-- The order in which `decollide` of netkv/charts/mkcharts.py goes through the labels, and which labels
-- the lists of it have.
use rostam_bench.Base.{
  ℕ, zero, suc, ◌+◌, ◌<◌, ◌≡◌, ◌⊎◌, ap, inl, inr, false, List, [], ◌∷◌, All, Bool-cases, arith,
  ◌==◌,
}
use mathlib.Core.Path.{subst}
use rostam_bench.Base.Int.{ℤ}
use rostam_bench.Base.Arith.{pos_part, neg_part, ◌≤ℤ◌, leb_ℤ}
use rostam_bench.PyClient.Socket.{done}
use rostam_bench.Sift.Quantile.{item}
use rostam_bench.Charts.Labels.{Placed, indexed, insert, order}
use rostam_bench.Charts.Still.{IsBelow, indexed-IsBelow, order-IsBelow}

infix 50 ◌<ℤ◌
abbrev pub ◌<ℤ◌ : ℤ → ℤ → Type 0
a <ℤ b = pos_part a + neg_part b < pos_part b + neg_part a

-- A line that ends above another, or at its height and comes first in the input.
abbrev pub IsBefore : ℕ × ℤ → ℕ × ℤ → Type 0
IsBefore p q = (p.1 <ℤ q.1) ⊎ ((p.1 ≡ q.1) × (p.0 < q.0))

abbrev pub Precedes : Placed → Placed → Type 0
Precedes p q = IsBefore p q × ((p.0 == q.0) ≡ false)

abbrev pub IsOrdered : List Placed → Type 0
IsOrdered [] = Unit
IsOrdered (p ∷ ps) = All (Precedes p) ps × IsOrdered ps

abbrev pub Has : ℕ → ℤ → List Placed → Type 0
Has i a [] = ⊥
Has i a (p ∷ ps) = ((p.0 ≡ i) × (p.1 ≡ a)) ⊎ Has i a ps

precedes : (p q : Placed) → p.1 ≤ℤ q.1 → p.0 < q.0 → Precedes p q
precedes (i, a) (j, b) h k = (ground (arith, h, k), ground (arith, k))

follows : (p q : Placed) → leb_ℤ p.1 q.1 ≡ false → p.0 < q.0 → Precedes q p
follows (i, a) (j, b) h k = (inl (ground (arith, h)), ground (arith, k))

IsBefore-le : (p q : Placed) → IsBefore p q → p.1 ≤ℤ q.1
IsBefore-le (i, a) (j, b) (inl h) = omega (arith, h)
IsBefore-le (i, a) (j, b) (inr (h, k)) = omega (arith, ap pos_part h, ap neg_part h)

pub IsBefore-asym : (p q : Placed) → IsBefore p q → IsBefore q p → ⊥
IsBefore-asym (i, a) (j, b) (inl h) (inl k) = omega (arith, h, k)
IsBefore-asym (i, a) (j, b) (inl h) (inr (k, l)) = omega (arith, h, ap pos_part k, ap neg_part k)
IsBefore-asym (i, a) (j, b) (inr (h, l)) (inl k) = omega (arith, k, ap pos_part h, ap neg_part h)
IsBefore-asym (i, a) (j, b) (inr (h, l)) (inr (k, m)) = omega (arith, l, m)

pub IsBefore-irrefl : (p q : Placed) → p.0 ≡ q.0 → p.1 ≡ q.1 → IsBefore p q → ⊥
IsBefore-irrefl (i, a) (j, b) e f (inl h) = omega (arith, h, ap pos_part f, ap neg_part f)
IsBefore-irrefl (i, a) (j, b) e f (inr (h, k)) = omega (arith, e, k)

All-insert :
    (P : Placed → Type 0) (p : Placed) (ps : List Placed) → P p → All P ps → All P (insert p ps)
unfolding insert
All-insert P p [] h hs = (h, tt)
All-insert P p (q ∷ ps) h (k, hs) = elim (Bool-cases (leb_ℤ p.1 q.1)) [
  | inl e ↦ rw e (h, (k, hs))
  | inr e ↦ rw e (k, All-insert P p ps h hs)
]

in_front_of_rest :
    (p q : Placed) (ps : List Placed)
    → p.1 ≤ℤ q.1
    → IsBelow p.0 ps
    → All (Precedes q) ps
    → All (Precedes p) ps
in_front_of_rest p q [] h below all = tt
in_front_of_rest p q (r ∷ ps) h (k, below) (l, all) =
    (precedes p r (omega (arith, h, IsBefore-le q r l.0)) k, in_front_of_rest p q ps h below all)

insert-IsOrdered :
    (p : Placed) (ps : List Placed) → IsBelow p.0 ps → IsOrdered ps → IsOrdered (insert p ps)
unfolding insert
insert-IsOrdered p [] below sorted = (tt, tt)
insert-IsOrdered p (q ∷ ps) (k, below) (all, sorted) = elim (Bool-cases (leb_ℤ p.1 q.1)) [
  | inl e ↦
      let h : p.1 ≤ℤ q.1 = ground (arith, e) in
      rw e ((precedes p q h k, in_front_of_rest p q ps h below all), (all, sorted))
  | inr e ↦
      rw e (All-insert (Precedes q) p ps (follows p q e k) all, insert-IsOrdered p ps below sorted)
]

pub order-IsOrdered : (k : ℕ) (ys : List ℤ) → IsOrdered (order (indexed k ys))
unfolding order
order-IsOrdered k [] = tt
order-IsOrdered k (y ∷ ys) =
    insert-IsOrdered (k, y) (order (indexed (k + 1) ys))
      (order-IsBelow k (indexed (k + 1) ys) (indexed-IsBelow k (k + 1) ys (omega arith)))
      (order-IsOrdered (k + 1) ys)

Has-insert :
    (i : ℕ) (a : ℤ) (p : Placed) (ps : List Placed) → Has i a (p ∷ ps) → Has i a (insert p ps)
unfolding insert
Has-insert i a p [] h = h
Has-insert i a p (q ∷ ps) (inl here) = elim (Bool-cases (leb_ℤ p.1 q.1)) [
  | inl e ↦ rw e (inl here)
  | inr e ↦ rw e (inr (Has-insert i a p ps (inl here)))
]
Has-insert i a p (q ∷ ps) (inr (inl here)) = elim (Bool-cases (leb_ℤ p.1 q.1)) [
  | inl e ↦ rw e (inr (inl here))
  | inr e ↦ rw e (inl here)
]
Has-insert i a p (q ∷ ps) (inr (inr there)) = elim (Bool-cases (leb_ℤ p.1 q.1)) [
  | inl e ↦ rw e (inr (inr there))
  | inr e ↦ rw e (inr (Has-insert i a p ps (inr there)))
]

pub Has-order : (i : ℕ) (a : ℤ) (ps : List Placed) → Has i a ps → Has i a (order ps)
unfolding order
Has-order i a [] h = h
Has-order i a (p ∷ ps) (inl here) = Has-insert i a p (order ps) (inl here)
Has-order i a (p ∷ ps) (inr there) = Has-insert i a p (order ps) (inr (Has-order i a ps there))

pub Has-indexed :
    (n k : ℕ) (a : ℤ) (ys : List ℤ) → item n ys ≡ done a → Has (k + n) a (indexed k ys)
unfolding item
Has-indexed n k a [] e = absurd (ground (arith, e))
Has-indexed zero k a (y ∷ ys) e = inl (omega arith, ground (arith, e))
Has-indexed (suc n) k a (y ∷ ys) e =
    let same : k + 1 + n ≡ k + suc n = omega arith in
    inr (subst (λ m. Has m a (indexed (k + 1) ys)) same (Has-indexed n (k + 1) a ys e))
