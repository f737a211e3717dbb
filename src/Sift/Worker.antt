-- ===== src/Sift/Worker.antt =====
-- `_qps_worker` and `saturated_qps`, which the SIFT clients share up to the call that searches: each
-- process searches in bursts of 16 until its time is over.
use rostam_bench.Base.{
  ℕ, zero, suc, ◌+◌, ◌*◌, ◌%◌, ◌≤◌, ◌<◌, ◌≡◌, refl, sym, ◌∙◌, true, false, List, arith, length, ltb,
  lt→ltb, ◌==◌, if◌then◌else◌,
}
use rostam_bench.PyClient.Socket.{
  Outcome, done, raised, bind_assoc, bind_ext, zero_division, stuck, ◌>>=◌,
}
use rostam_bench.Sift.Quantile.{item}

-- The searches between two looks at the clock.
abbrev pub burst : ℕ
burst = 16

-- The clock shows that the time is over at the `r`-th look, and not before.
abbrev pub IsOver : (ℕ → ℕ) → ℕ → ℕ → Type 0
IsOver clock stop r = (stop ≤ clock r) × ((j : ℕ) → 1 ≤ j → j < r → clock j < stop)

-- `search` asks the service, whose answer the worker drops. `clock` gives the readings of
-- `time.time()` in the worker's process, in ticks.
module _ {Q S : Type 0} (search : Q → S → Outcome S) (frames : List Q) where
  -- `_FRAMES[i % m]`
  abbrev pub frame : ℕ → Outcome Q
  frame i = if length frames == 0 then raised zero_division else item (i % length frames) frames

  -- `for _ in range(left)`, from index `i` on.
  unfoldable pub searches : ℕ → ℕ → S → Outcome S
  searches zero i s = done s
  searches (suc left) i s = frame i >>= λ q. search q s >>= λ s'. searches left (i + 1) s'

  -- `while time.time() < stop`; `n` searches are done, and `r` readings were taken.
  unfoldable pub rounds : ℕ → (ℕ → ℕ) → ℕ → ℕ → ℕ → ℕ → S → Outcome (ℕ × S)
  rounds zero clock stop r n i s = raised stuck
  rounds (suc fuel) clock stop r n i s = elim (ltb (clock r) stop) [
    | false ↦ done (n, s)
    | true ↦ searches burst i s >>= λ s'. rounds fuel clock stop (suc r) (n + burst) (i + burst) s'
  ]

  -- A worker that is to last `duration` ticks.
  unfoldable pub qps_worker : ℕ → (ℕ → ℕ) → ℕ → ℕ → S → Outcome (ℕ × S)
  unfolding rounds searches
  qps_worker fuel clock duration wid s = rounds fuel clock (clock 0 + duration) 1 0 wid s

  no_searches : (i : ℕ) (s : S) → searches 0 i s ≡ done s
  unfolding searches
  no_searches i s = refl

  searches-append :
      (a b i : ℕ) (s : S) → searches (a + b) i s ≡ (searches a i s >>= λ s'. searches b (i + a) s')
  unfolding searches
  searches-append zero b i s =
      let e : 0 + b ≡ b = omega arith in let f : i + 0 ≡ i = omega arith in rw (e, f) refl
  searches-append (suc a) b i s =
      let e : suc a + b ≡ suc (a + b) = omega arith in
      let f : i + suc a ≡ i + 1 + a = omega arith in
      rw (e, f)
        (bind_ext (frame i) _ _ (λ q.
            bind_ext (search q s) _ _ (λ s'. searches-append a b (i + 1) s')
            ∙ sym (bind_assoc (search q s) _ _))
          ∙ sym (bind_assoc (frame i) _ _))

  rounds-searches :
      (fuel : ℕ) (clock : ℕ → ℕ) (stop r left n i : ℕ) (s : S)
      → 1 ≤ r
      → left < fuel
      → IsOver clock stop (r + left)
      → rounds fuel clock stop r n i s
        ≡ (searches (left * burst) i s >>= λ s'. done (n + left * burst, s'))
  unfolding rounds
  rounds-searches zero clock stop r left n i s h f over = absurd (omega arith)
  rounds-searches (suc fuel) clock stop r zero n i s h f over =
      let a : r + 0 ≡ r = omega arith in
      let c : n + 0 ≡ n = omega arith in
      let late : ltb (clock r) stop ≡ false = ground (arith, rw a at over.0) in
      ground (arith, late, no_searches i s)
  rounds-searches (suc fuel) clock stop r (suc left) n i s h f over =
      let early : ltb (clock r) stop ≡ true = lt→ltb (clock r) stop (over.1 r h (omega arith)) in
      let a : r + suc left ≡ suc r + left = omega arith in
      let b : suc left * burst ≡ burst + left * burst = omega arith in
      let c : n + (burst + left * burst) ≡ n + burst + left * burst = omega arith in
      rw (rounds, early, b, c, searches-append burst (left * burst) i s)
        (bind_ext (searches burst i s) _ _ (λ s'.
            rounds-searches fuel clock stop (suc r) left (n + burst) (i + burst) s' (omega arith)
              (omega arith) (rw a at over))
          ∙ sym (bind_assoc (searches burst i s) _ _))

  -- If the worker's time is over at its look number `looks + 1` at the clock and not before, then fuel
  -- above `looks` is enough, and the worker does `looks` bursts of searches, from its own index on and
  -- one index after the other, returns their number, and raises what one of them raises.
  pub qps_worker-searches :
      (fuel : ℕ) (clock : ℕ → ℕ) (duration wid looks : ℕ) (s : S)
      → looks < fuel
      → IsOver clock (clock 0 + duration) (looks + 1)
      → qps_worker fuel clock duration wid s
        ≡ (searches (looks * burst) wid s >>= λ s'. done (looks * burst, s'))
  unfolding qps_worker
  qps_worker-searches fuel clock duration wid looks s f over =
      let a : looks + 1 ≡ 1 + looks = omega arith in
      let b : 0 + looks * burst ≡ looks * burst = omega arith in
      rounds-searches fuel clock (clock 0 + duration) 1 looks 0 wid s (omega arith) f (rw a at over)
      ∙ rw b refl
