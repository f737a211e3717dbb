-- ===== src/Sift/Quantile.antt =====
-- The figures that `latency` of the SIFT clients makes of the measured times: `lats.sort()`,
-- `lats[len(lats) // 2]`, `lats[int(len(lats) * 0.99)]` and the mean. Times are numbers of a clock's
-- ticks, and a quotient is the pair of its terms.
use rostam_bench.Base.{
  ℕ, zero, suc, ◌+◌, ◌*◌, ◌/◌, ◌≤◌, ◌<◌, ◌≡◌, refl, List, [], ◌∷◌, arith, length, leb,
  if◌then◌else◌, Bool-cases, inl, inr,
}
use rostam_bench.PyClient.Socket.{Outcome, done, raised, index_error, ◌>>=◌}

insert : ℕ → List ℕ → List ℕ
insert x [] = x ∷ []
insert x (y ∷ ys) = let rest = insert x ys in if leb x y then x ∷ y ∷ ys else y ∷ rest

-- The sorted list, which is the same for every way of sorting numbers.
unfoldable pub sort : List ℕ → List ℕ
unfolding insert
sort [] = []
sort (x ∷ xs) = insert x (sort xs)

abbrev pub sum : List ℕ → ℕ
sum [] = 0
sum (x ∷ xs) = x + sum xs

-- `xs[i]` for an index that is not negative.
unfoldable pub item {ℓ} : {A : Type ℓ} → ℕ → List A → Outcome A
item i [] = raised index_error
item zero (x ∷ xs) = done x
item (suc i) (x ∷ xs) = item i xs

pub record Report : Type 0 where
  -- the numerator and the denominator of the recall
  pub hits : ℕ
  pub wanted : ℕ
  pub p50 : ℕ
  pub p99 : ℕ
  -- the sum of the times and their number
  pub total : ℕ
  pub count : ℕ

-- The returned tuple. `int(n * 0.99)` is 99 hundredths of `n` rounded down for every `n` below 2 ^ 45,
-- where the rounding of the product does not reach the next integer.
unfoldable pub report : ℕ → ℕ → List ℕ → Outcome Report
unfolding sort item
report hits wanted lats = item (length lats / 2) (sort lats) >>= λ p50.
    item (length lats * 99 / 100) (sort lats) >>= λ p99. done (record {
      hits = hits;
      wanted = wanted;
      p50 = p50;
      p99 = p99;
      total = sum lats;
      count = length lats;
    })

-- How many of the times are at most `v`, and how many are at least `v`.
abbrev pub at_most : ℕ → List ℕ → ℕ
at_most v [] = 0
at_most v (x ∷ xs) = (if leb x v then 1 else 0) + at_most v xs

abbrev pub at_least : ℕ → List ℕ → ℕ
at_least v [] = 0
at_least v (x ∷ xs) = (if leb v x then 1 else 0) + at_least v xs

-- Every member is at least the bound and the members before it.
abbrev IsSortedFrom : ℕ → List ℕ → Type 0
IsSortedFrom low [] = Unit
IsSortedFrom low (x ∷ xs) = (low ≤ x) × IsSortedFrom x xs

lower-IsSortedFrom : (a b : ℕ) (xs : List ℕ) → b ≤ a → IsSortedFrom a xs → IsSortedFrom b xs
lower-IsSortedFrom a b [] h s = tt
lower-IsSortedFrom a b (x ∷ xs) h s = (omega (arith, s.0), s.1)

insert-IsSortedFrom :
    (low x : ℕ) (xs : List ℕ) → low ≤ x → IsSortedFrom low xs → IsSortedFrom low (insert x xs)
unfolding insert
insert-IsSortedFrom low x [] h s = (h, tt)
insert-IsSortedFrom low x (y ∷ ys) h s = elim (Bool-cases (leb x y)) [
  | inl below ↦ rw below (h, (ground arith, s.1))
  | inr above ↦ rw above (s.0, insert-IsSortedFrom y x ys (ground arith) s.1)
]

sort-IsSortedFrom : (xs : List ℕ) → IsSortedFrom 0 (sort xs)
unfolding sort
sort-IsSortedFrom [] = tt
sort-IsSortedFrom (x ∷ xs) = insert-IsSortedFrom 0 x (sort xs) (omega arith) (sort-IsSortedFrom xs)

-- A count of the members with some property does not see the order.
at_most-insert : (v x : ℕ) (xs : List ℕ) → at_most v (insert x xs) ≡ at_most v (x ∷ xs)
unfolding insert
at_most-insert v x [] = refl
at_most-insert v x (y ∷ ys) = ground (arith, at_most-insert v x ys)

at_most-sort : (v : ℕ) (xs : List ℕ) → at_most v (sort xs) ≡ at_most v xs
unfolding sort
at_most-sort v [] = refl
at_most-sort v (x ∷ xs) = omega (arith, at_most-insert v x (sort xs), at_most-sort v xs)

at_least-insert : (v x : ℕ) (xs : List ℕ) → at_least v (insert x xs) ≡ at_least v (x ∷ xs)
unfolding insert
at_least-insert v x [] = refl
at_least-insert v x (y ∷ ys) = ground (arith, at_least-insert v x ys)

at_least-sort : (v : ℕ) (xs : List ℕ) → at_least v (sort xs) ≡ at_least v xs
unfolding sort
at_least-sort v [] = refl
at_least-sort v (x ∷ xs) = omega (arith, at_least-insert v x (sort xs), at_least-sort v xs)

length-insert : (x : ℕ) (xs : List ℕ) → length (insert x xs) ≡ suc (length xs)
unfolding insert
length-insert x [] = refl
length-insert x (y ∷ ys) = ground (arith, length-insert x ys)

pub length-sort : (xs : List ℕ) → length (sort xs) ≡ length xs
unfolding sort
length-sort [] = refl
length-sort (x ∷ xs) = omega (arith, length-insert x (sort xs), length-sort xs)

at_least-all : (v low : ℕ) (xs : List ℕ) → v ≤ low → IsSortedFrom low xs → at_least v xs ≡ length xs
at_least-all v low [] h s = refl
at_least-all v low (x ∷ xs) h s = ground (arith, at_least-all v x xs (omega (arith, s.0)) s.1, s.0)

-- The member at an index of a sorted list, with its rank.
ranked :
    (low : ℕ) (xs : List ℕ) (i : ℕ)
    → IsSortedFrom low xs
    → i < length xs
    → (v : ℕ) × (item i xs ≡ done v)
      × (low ≤ v)
      × (i + 1 ≤ at_most v xs)
      × (length xs ≤ at_least v xs + i)
unfolding item
ranked low [] i s h = absurd (omega arith)
ranked low (x ∷ xs) zero s h =
    (x, refl, s.0, ground arith, ground (arith, at_least-all x x xs (omega arith) s.1))
ranked low (x ∷ xs) (suc i) s h =
    let (v, e, above, few, many) = ranked x xs i s.1 (omega arith) in
    (v, e, omega (arith, above, s.0), ground (arith, above, few), ground (arith, many))

item_above : (low : ℕ) (xs : List ℕ) (i w : ℕ) → IsSortedFrom low xs → item i xs ≡ done w → low ≤ w
unfolding item
item_above low [] i w s f = absurd (ground arith)
item_above low (x ∷ xs) zero w s f = ground (arith, s.0)
item_above low (x ∷ xs) (suc i) w s f = omega (arith, item_above x xs i w s.1 f, s.0)

-- A later member of a sorted list is no smaller.
item_le :
    (low : ℕ) (xs : List ℕ) (i j v w : ℕ)
    → IsSortedFrom low xs
    → i ≤ j
    → item i xs ≡ done v
    → item j xs ≡ done w
    → v ≤ w
unfolding item
item_le low [] i j v w s h e f = absurd (ground arith)
item_le low (x ∷ xs) zero zero v w s h e f = ground arith
item_le low (x ∷ xs) zero (suc j) v w s h e f = ground (arith, item_above x xs j w s.1 f)
item_le low (x ∷ xs) (suc i) zero v w s h e f = absurd (omega arith)
item_le low (x ∷ xs) (suc i) (suc j) v w s h e f = item_le x xs i j v w s.1 (omega arith) e f

-- `v` stands at the place that its share of the times gives it: more than `share` hundredths of
-- them are at most `v`, and at least the others are no less.
abbrev pub IsQuantile : ℕ → ℕ → List ℕ → Type 0
IsQuantile rank v lats = (rank + 1 ≤ at_most v lats) × (length lats ≤ at_least v lats + rank)

-- If any time was measured, the report is made: no index is behind the end. Its median and its 99th
-- percentile have the ranks of half and of 99 hundredths of the times, rounded down, and the median
-- is not the greater one.
pub report-IsQuantile :
    (hits wanted : ℕ) (lats : List ℕ)
    → 1 ≤ length lats
    → (r : Report) × (report hits wanted lats ≡ done r)
      × IsQuantile (length lats / 2) r.p50 lats
      × IsQuantile (length lats * 99 / 100) r.p99 lats
      × (r.p50 ≤ r.p99)
      × (r.hits ≡ hits)
unfolding report
report-IsQuantile hits wanted lats h =
    let (v, e, a, few, many) =
      ranked 0 (sort lats) (length lats / 2) (sort-IsSortedFrom lats)
        (omega (arith, length-sort lats)) in
    let (w, f, b, few', many') =
      ranked 0 (sort lats) (length lats * 99 / 100) (sort-IsSortedFrom lats)
        (omega (arith, length-sort lats)) in
    (
      record {
        hits = hits;
        wanted = wanted;
        p50 = v;
        p99 = w;
        total = sum lats;
        count = length lats;
      },
      rw (e, f) refl,
      (
        omega (arith, few, at_most-sort v lats),
        omega (arith, many, at_least-sort v lats, length-sort lats),
      ),
      (
        omega (arith, few', at_most-sort w lats),
        omega (arith, many', at_least-sort w lats, length-sort lats),
      ),
      item_le 0 (sort lats) (length lats / 2) (length lats * 99 / 100) v w (sort-IsSortedFrom lats)
          (omega arith) e f,
      refl,
    )
