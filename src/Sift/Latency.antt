-- ===== src/Sift/Latency.antt =====
-- The loop of `latency`, which the SIFT clients share up to the call that searches: one search after
-- another over one connection, each between two readings of the clock.
use rostam_bench.Base.{
  ℕ, zero, suc, ◌+◌, ◌*◌, ◌-◌, ◌/◌, ◌≤◌, ◌≡◌, refl, ap, inl, inr, ◌∙◌, List, [], ◌∷◌, ◌++◌, arith,
  length, All, append_assoc,
}
use mathlib.Core.Path.{subst}
use rostam_bench.PyClient.Socket.{Outcome, done, raised, Outcome-cases, index_error, ◌>>=◌}
use rostam_bench.PyClient.Recall.{common, common_le, neighbours}
use rostam_bench.Sift.Quantile.{Report, report, IsQuantile, report-IsQuantile}

-- `LAT_N`
abbrev pub timed_queries : ℕ
timed_queries = 2000

-- `[f(xs[i]) for i in range(n)]`
unfoldable pub first_n {ℓ κ} :
    {A : Type ℓ} {B : Type κ} → (A → Outcome B) → ℕ → List A → Outcome (List B)
first_n f zero xs = done []
first_n f (suc n) [] = raised index_error
first_n f (suc n) (x ∷ xs) = f x >>= λ y. first_n f n xs >>= λ ys. done (y ∷ ys)

-- What the loop has made: `lats`, `hits`, and the state of the service.
pub record Timed (S : Type 0) : Type 0 where
  pub lats : List ℕ
  pub hits : ℕ
  pub state : S

-- `search` asks the service and returns the ids of the hits. `clock` gives the readings of
-- `time.perf_counter()` in order, in ticks; it does not run backwards. `truth_of` makes the set of
-- the true ids of a row of `gt`.
module _ {Q S : Type 0} (search : Q → S → Outcome (List ℕ × S)) (clock : ℕ → ℕ)
    (truth_of : List ℕ → List ℕ) where
  -- The `n` rounds that are left; `i` is the number of the next.
  unfoldable pub timed : ℕ → List Q → List (List ℕ) → ℕ → Timed S → Outcome (Timed S)
  timed zero qs gt i t = done t
  timed (suc n) [] gt i t = raised index_error
  timed (suc n) (q ∷ qs) gt i t = search q t.state >>= λ got. elim gt [
    | [] ↦ raised index_error
    | row ∷ more ↦ timed n qs more (suc i) (record {
      lats = t.lats ++ ((clock (2 * i + 1) - clock (2 * i)) ∷ []);
      hits = t.hits + common got.0 (truth_of row);
      state = got.1;
    })
  ]

  -- The loop, and the figures made of it.
  unfoldable pub measure : ℕ → List Q → List (List ℕ) → S → Outcome (Report × S)
  unfolding timed
  measure n requests gt s =
      timed n requests gt 0 (record { lats = []; hits = 0; state = s }) >>= λ t.
      report t.hits (n * neighbours) t.lats >>= λ r. done (r, t.state)

  -- The loop without the clock.
  unfoldable pub counted : ℕ → List Q → List (List ℕ) → ℕ → S → Outcome (ℕ × S)
  counted zero qs gt hits s = done (hits, s)
  counted (suc n) [] gt hits s = raised index_error
  counted (suc n) (q ∷ qs) gt hits s = search q s >>= λ got. elim gt [
    | [] ↦ raised index_error
    | row ∷ more ↦ counted n qs more (hits + common got.0 (truth_of row)) got.1
  ]

  -- The times between the two readings of the clock around each of `n` searches, from number `i` on.
  abbrev pub intervals : ℕ → ℕ → List ℕ
  intervals i zero = []
  intervals i (suc n) = (clock (2 * i + 1) - clock (2 * i)) ∷ intervals (suc i) n

  length-intervals : (i n : ℕ) → length (intervals i n) ≡ n
  length-intervals i zero = omega arith
  length-intervals i (suc n) = omega (arith, length-intervals (suc i) n)

  append_nothing : (xs : List ℕ) → xs ≡ xs ++ []
  append_nothing [] = refl
  append_nothing (x ∷ xs) = ap (λ l. x ∷ l) (append_nothing xs)

  -- Whenever the counting loop ends, the timed one does, with as many hits, the same state, and the
  -- time of each round.
  timed-counted :
      (n : ℕ) (qs : List Q) (gt : List (List ℕ)) (i : ℕ) (t : Timed S) (hits : ℕ) (s : S)
      → counted n qs gt t.hits t.state ≡ done (hits, s)
      → (u : Timed S) × (timed n qs gt i t ≡ done u)
        × (u.hits ≡ hits)
        × (u.state ≡ s)
        × (u.lats ≡ t.lats ++ intervals i n)
  unfolding timed counted
  timed-counted zero qs gt i t hits s e =
      (t, refl, ground (arith, e), ground (arith, e), append_nothing t.lats)
  timed-counted (suc n) [] gt i t hits s e = absurd (ground (arith, e))
  timed-counted (suc n) (q ∷ qs) [] i t hits s e = elim (Outcome-cases (search q t.state)) [
    | inr (x, p) ↦ absurd (ground (arith, p))
    | inl (got, p) ↦ absurd (ground (arith, p))
  ]
  timed-counted (suc n) (q ∷ qs) (row ∷ more) i t hits s e =
      elim (Outcome-cases (search q t.state)) [
        | inr (x, p) ↦ absurd (ground (arith, p))
        | inl (got, p) ↦
            let time = clock (2 * i + 1) - clock (2 * i) in
            let (u, ran, found, state, many) =
              timed-counted n qs more (suc i)
                (record {
                  lats = t.lats ++ (time ∷ []);
                  hits = t.hits + common got.0 (truth_of row);
                  state = got.1;
                })
                hits s (rw p at e) in
            (
              u,
              rw p ran,
              found,
              state,
              many ∙ append_assoc t.lats (time ∷ []) (intervals (suc i) n),
            )
      ]

  -- A round finds no more than the row has.
  pub counted-le :
      (n : ℕ) (qs : List Q) (gt : List (List ℕ)) (hits : ℕ) (s : S) (found : ℕ) (end : S)
      → All (λ row. length (truth_of row) ≤ neighbours) gt
      → counted n qs gt hits s ≡ done (found, end)
      → found ≤ hits + n * neighbours
  unfolding counted
  counted-le zero qs gt hits s found end h e = ground (arith, e)
  counted-le (suc n) [] gt hits s found end h e = absurd (ground (arith, e))
  counted-le (suc n) (q ∷ qs) [] hits s found end h e = elim (Outcome-cases (search q s)) [
    | inr (x, p) ↦ absurd (ground (arith, p))
    | inl (got, p) ↦ absurd (ground (arith, p))
  ]
  counted-le (suc n) (q ∷ qs) (row ∷ more) hits s found end h e =
      elim (Outcome-cases (search q s)) [
        | inr (x, p) ↦ absurd (ground (arith, p))
        | inl (got, p) ↦ omega (
          arith,
          h.0,
          common_le got.0 (truth_of row),
          counted-le n qs more (hits + common got.0 (truth_of row)) got.1 found end h.1 (rw p at e),
        )
      ]

  -- What `latency` says of `n` searches: the ranks of the two percentiles among the measured times,
  -- their order, and a recall of at most 1.
  pub record IsFair (n found : ℕ) (r : Report) : Type 0 where
    pub half : IsQuantile (n / 2) r.p50 (intervals 0 n)
    pub most : IsQuantile (n * 99 / 100) r.p99 (intervals 0 n)
    pub ordered : r.p50 ≤ r.p99
    pub counts : r.hits ≡ found
    pub at_most_all : found ≤ n * neighbours

  -- Whenever the searches of `n` rounds go through, with at most `K` neighbours in each row, `latency`
  -- returns, with the neighbours found as its hits and the ranks of its percentiles.
  pub measure-IsFair :
      (n : ℕ) (qs : List Q) (gt : List (List ℕ)) (s : S) (found : ℕ) (end : S)
      → 1 ≤ n
      → All (λ row. length (truth_of row) ≤ neighbours) gt
      → counted n qs gt 0 s ≡ done (found, end)
      → (r : Report) × (measure n qs gt s ≡ done (r, end)) × IsFair n found r
  unfolding measure
  measure-IsFair n qs gt s found end h rows e =
      let start : Timed S = record { lats = []; hits = 0; state = s } in
      let (u, ran, hits, state, many) = timed-counted n qs gt 0 start found end e in
      let (r, made, half, most, order, kept) =
        report-IsQuantile u.hits (n * neighbours) u.lats
          (omega (arith, ap length many, length-intervals 0 n)) in
      let lats : u.lats ≡ intervals 0 n = many in
      let size : length u.lats ≡ n = ap length lats ∙ length-intervals 0 n in
      let p50 : IsQuantile (n / 2) r.p50 u.lats =
        subst (λ k. IsQuantile (k / 2) r.p50 u.lats) size half in
      let p99 : IsQuantile (n * 99 / 100) r.p99 u.lats =
        subst (λ k. IsQuantile (k * 99 / 100) r.p99 u.lats) size most in
      (
        r,
        rw (ran, made) (ap (λ z. done (r, z)) state),
        record {
          half = subst (IsQuantile (n / 2) r.p50) lats p50;
          most = subst (IsQuantile (n * 99 / 100) r.p99) lats p99;
          ordered = order;
          counts = kept ∙ hits;
          at_most_all = omega (arith, counted-le n qs gt 0 s found end rows e);
        },
      )
