-- ===== src/Sift/Sweep.antt =====
-- The sweep over `EF_SWEEP` of sift1m/qdrant_bench.py and sift1m/redis_bench.py: for each width of the
-- search, all queries one after the other, and how many of the nearest neighbours they found.
use rostam_bench.Base.{
  ℕ, zero, suc, ◌∙◌, ◌+◌, ◌-◌, ◌*◌, ◌≤◌, ◌≡◌, refl, ap, sym, List, [], ◌∷◌, arith, length, map, All,
}
use rostam_bench.PyClient.Socket.{
  Outcome, done, raised, zero_division, bind-done, done_injective, ◌>>=◌,
}
use rostam_bench.PyClient.Recall.{neighbours}
use rostam_bench.Sift.Latency.{counted, counted-le}

-- `EF_SWEEP`
abbrev pub ef_sweep : List ℕ
ef_sweep = 16 ∷ 32 ∷ 64 ∷ 128 ∷ 256 ∷ 512 ∷ []

-- A printed line: the width, the terms of the recall and of the rate of the queries.
pub record Row : Type 0 where
  pub ef : ℕ
  pub hits : ℕ
  pub wanted : ℕ
  pub queries : ℕ
  pub ticks : ℕ

-- A line, for which `hits / (len(query) * K)` must have a denominator.
unfoldable pub line_of : ℕ → ℕ → ℕ → ℕ → Outcome Row
line_of ef hits zero ticks = raised zero_division
line_of ef hits (suc n) ticks =
    done
      (record { ef = ef; hits = hits; wanted = suc n * neighbours; queries = suc n; ticks = ticks })

-- The line that is made, for some queries.
pub line_of-some :
    (ef hits n ticks : ℕ) (r : Row)
    → line_of ef hits n ticks ≡ done r
    → r ≡ record { ef = ef; hits = hits; wanted = n * neighbours; queries = n; ticks = ticks }
unfolding line_of
line_of-some ef hits zero ticks r e = absurd (ground (arith, e))
line_of-some ef hits (suc n) ticks r e = sym (done_injective e)

-- `search ef` asks the service; `clock` gives the readings of `time.time()`, two for each width, and
-- `i` of them were taken.
module _ {Q S : Type 0} (search : ℕ → Q → S → Outcome (List ℕ × S)) (clock : ℕ → ℕ) where
  unfoldable pub sweep : List ℕ → List Q → List (List ℕ) → ℕ → S → Outcome (List Row × S)
  unfolding line_of
  sweep [] qs gt i s = done ([], s)
  sweep (ef ∷ efs) qs gt i s =
      counted (search ef) clock (λ row. row) (length qs) qs gt 0 s >>= λ found.
      line_of ef found.0 (length qs) (clock (i + 1) - clock i) >>= λ r.
      sweep efs qs gt (i + 2) found.1 >>= λ rows. done (r ∷ rows.0, rows.1)

  -- The line has no more hits than it could have.
  abbrev pub IsRecall : Row → Type 0
  IsRecall r = r.hits ≤ r.wanted

  -- A sweep that ends has one line for each width, in order, each of all queries and with a recall of
  -- at most 1, if no row has more than `K` neighbours.
  pub sweep-IsRecall :
      (efs : List ℕ) (qs : List Q) (gt : List (List ℕ)) (i : ℕ) (s end : S) (rows : List Row)
      → All (λ row. length row ≤ neighbours) gt
      → sweep efs qs gt i s ≡ done (rows, end)
      → (map (λ r. r.ef) rows ≡ efs) × All IsRecall rows × All (λ r. r.queries ≡ length qs) rows
  unfolding sweep
  sweep-IsRecall [] qs gt i s end rows h e =
      let none_left : rows ≡ [] = ap (λ r. r.0) (sym (done_injective e)) in
      rw none_left (refl, tt, tt)
  sweep-IsRecall (ef ∷ efs) qs gt i s end rows h e =
      let (found, counts, e₁) =
        bind-done (counted (search ef) clock (λ row. row) (length qs) qs gt 0 s) _ (rows, end) e in
      let (r, wrote, e₀) =
        bind-done (line_of ef found.0 (length qs) (clock (i + 1) - clock i)) _ (rows, end) e₁ in
      let is_line = line_of-some ef found.0 (length qs) (clock (i + 1) - clock i) r wrote in
      let (rest, later, e₂) = bind-done (sweep efs qs gt (i + 2) found.1) _ (rows, end) e₀ in
      let (widths, recalls, whole) =
        sweep-IsRecall efs qs gt (i + 2) found.1 rest.1 rest.0 h later in
      let few =
        counted-le (search ef) clock (λ row. row) (length qs) qs gt 0 s found.0 found.1 h counts in
      let all_lines : _ ∷ rest.0 ≡ rows =
        ap (λ l. l ∷ rest.0) (sym is_line) ∙ ap (λ r. r.0) (done_injective e₂) in
      rw (← all_lines) (ap (λ l. ef ∷ l) widths, (omega (arith, few), recalls), (refl, whole))
