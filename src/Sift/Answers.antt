-- ===== src/Sift/Answers.antt =====
-- `latency` of a SIFT client against a service whose hits depend on nothing but the request.
use rostam_bench.Base.{
  ℕ, zero, suc, ◌+◌, ◌≤◌, ◌≡◌, refl, ap, ◌∙◌, List, [], ◌∷◌, arith, length, length-map, take, map,
  All,
}
use rostam_bench.PyClient.Socket.{Outcome, done}
use rostam_bench.PyClient.Recall.{common, neighbours, truth_of as numbered_from_1}
use rostam_bench.Sift.Quantile.{Report}
use rostam_bench.Sift.Latency.{first_n, counted, measure, IsFair, measure-IsFair}

-- The neighbours that the hits of the first `n` requests have in common with their rows.
abbrev pub agreed {ℓ} :
    {Q : Type ℓ} → (Q → List ℕ) → (List ℕ → List ℕ) → ℕ → List Q → List (List ℕ) → ℕ
agreed ids truth_of zero qs gt = 0
agreed ids truth_of (suc n) [] gt = 0
agreed ids truth_of (suc n) (q ∷ qs) [] = 0
agreed ids truth_of (suc n) (q ∷ qs) (row ∷ gt) =
    common (ids q) (truth_of row) + agreed ids truth_of n qs gt

-- The list is made if no member raises.
pub first_n-done {ℓ κ} :
    {A : Type ℓ} {B : Type κ} (f : A → B) (n : ℕ) (xs : List A)
    → n ≤ length xs
    → first_n (λ x. done (f x)) n xs ≡ done (map f (take n xs))
unfolding first_n
first_n-done f zero xs h = refl
first_n-done f (suc n) [] h = absurd (omega arith)
first_n-done f (suc n) (x ∷ xs) h = rw (first_n-done f n xs (omega arith))

pub agreed-map {ℓ κ} :
    {P : Type ℓ} {Q : Type κ} (f : P → Q) (ids : Q → List ℕ) (truth_of : List ℕ → List ℕ) (n : ℕ)
    (ps : List P) (gt : List (List ℕ))
    → agreed ids truth_of n (map f (take n ps)) gt ≡ agreed (λ p. ids (f p)) truth_of n ps gt
agreed-map f ids truth_of zero ps gt = refl
agreed-map f ids truth_of (suc n) [] gt = refl
agreed-map f ids truth_of (suc n) (p ∷ ps) [] = refl
agreed-map f ids truth_of (suc n) (p ∷ ps) (row ∷ gt) =
    ap (λ m. common (ids (f p)) (truth_of row) + m) (agreed-map f ids truth_of n ps gt)

-- Numbering from 1 keeps the lengths of the rows.
pub rows-truth_of :
    (gt : List (List ℕ))
    → All (λ row. length row ≤ neighbours) gt
    → All (λ row. length (numbered_from_1 row) ≤ neighbours) gt
rows-truth_of [] h = tt
rows-truth_of (row ∷ gt) (h, hs) =
    (omega (arith, h, length-map (λ x. x + 1) row), rows-truth_of gt hs)

module _ {Q S : Type 0} (search : Q → S → Outcome (List ℕ × S)) (clock : ℕ → ℕ)
    (truth_of : List ℕ → List ℕ) (ids : Q → List ℕ) where
  -- Every request is answered, with the hits that are its own.
  abbrev pub Answers : Type 0
  Answers = (q : Q) (s : S) → (s' : S) × (search q s ≡ done (ids q, s'))

  counted-agreed :
      (n : ℕ) (qs : List Q) (gt : List (List ℕ)) (hits : ℕ) (s : S)
      → Answers
      → n ≤ length qs
      → n ≤ length gt
      → (end : S) × (counted search clock truth_of n qs gt hits s
          ≡ done (hits + agreed ids truth_of n qs gt, end))
  unfolding counted
  counted-agreed zero qs gt hits s answers h k = (s, ap (λ m. done (m, s)) (omega arith))
  counted-agreed (suc n) [] gt hits s answers h k = absurd (omega arith)
  counted-agreed (suc n) (q ∷ qs) [] hits s answers h k = absurd (omega arith)
  counted-agreed (suc n) (q ∷ qs) (row ∷ gt) hits s answers h k =
      let (s', e) = answers q s in
      let (end, f) =
        counted-agreed n qs gt (hits + common (ids q) (truth_of row)) s' answers (omega arith)
          (omega arith) in
      (end, rw e (f ∙ ap (λ m. done (m, end)) (omega arith)))

  -- With enough requests and rows of at most `K` neighbours the loop ends, and its figures are fair.
  pub measure-answers :
      (n : ℕ) (qs : List Q) (gt : List (List ℕ)) (s : S)
      → Answers
      → 1 ≤ n
      → n ≤ length qs
      → n ≤ length gt
      → All (λ row. length (truth_of row) ≤ neighbours) gt
      → (r : Report) × (end : S) × (measure search clock truth_of n qs gt s ≡ done (r, end))
        × IsFair search clock truth_of n (agreed ids truth_of n qs gt) r
  measure-answers n qs gt s answers one h k rows =
      let (end, e) = counted-agreed n qs gt 0 s answers h k in
      let (r, made, fair) =
        measure-IsFair search clock truth_of n qs gt s (agreed ids truth_of n qs gt) end one rows
          (e ∙ ap (λ m. done (m, end)) (omega arith)) in
      (r, end, made, fair)
