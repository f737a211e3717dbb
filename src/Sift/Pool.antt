-- ===== src/Sift/Pool.antt =====
-- `saturated_qps`: as many processes as `CONC` run `_qps_worker` side by side, and the searches of all
-- are counted. A process shares nothing with the others but the service behind its own connection.
use rostam_bench.Base.{ℕ, suc, ◌+◌, ◌*◌, ◌-◌, ◌<◌, ◌≡◌, refl, ap, List, [], ◌∷◌, arith}
use rostam_bench.PyClient.Socket.{Outcome, done, ◌>>=◌}
use rostam_bench.Sift.Quantile.{sum}
use rostam_bench.Sift.Worker.{burst, searches, qps_worker, qps_worker-searches, IsOver}

-- What differs from process to process: the clock it reads and its connection. `fuel` bounds the
-- looks at the clock, and is none of the program's.
pub record Process (S : Type 0) : Type 0 where
  pub fuel : ℕ
  pub clock : ℕ → ℕ
  pub state : S

-- The numerator and the denominator of the returned rate.
pub record Rate : Type 0 where
  pub searches : ℕ
  pub ticks : ℕ

module _ {Q S : Type 0} (search : Q → S → Outcome S) (frames : List Q) (duration : ℕ) where
  -- `sum(pool.map(_qps_worker, range(CONC)))`, from the worker `wid` on.
  unfoldable pub pool : ℕ → List (Process S) → Outcome ℕ
  pool wid [] = done 0
  pool wid (p ∷ ps) = qps_worker search frames p.fuel p.clock duration wid p.state >>= λ r.
      pool (suc wid) ps >>= λ rest. done (r.0 + rest)

  -- `t0` and `t1` are the readings of the clock before and behind the pool.
  unfoldable pub saturated_qps : List (Process S) → ℕ → ℕ → Outcome Rate
  unfolding pool
  saturated_qps processes t0 t1 =
      pool 0 processes >>= λ total. done (record { searches = total; ticks = t1 - t0 })

  -- A process whose time is over at its look number `looks + 1`, and whose searches go through.
  pub record IsRunning (wid looks : ℕ) (p : Process S) : Type 0 where
    pub enough : looks < p.fuel
    pub over : IsOver p.clock (p.clock 0 + duration) (looks + 1)
    pub end : S
    pub goes : searches search frames (looks * burst) wid p.state ≡ done end

  -- Every process with the number of its looks.
  abbrev pub AreRunning : ℕ → List ℕ → List (Process S) → Type 0
  AreRunning wid [] [] = Unit
  AreRunning wid [] (p ∷ ps) = ⊥
  AreRunning wid (l ∷ ls) [] = ⊥
  AreRunning wid (l ∷ ls) (p ∷ ps) = IsRunning wid l p × AreRunning (suc wid) ls ps

  pool-total :
      (wid : ℕ) (looks : List ℕ) (ps : List (Process S))
      → AreRunning wid looks ps
      → pool wid ps ≡ done (sum looks * burst)
  unfolding pool
  pool-total wid [] [] h = refl
  pool-total wid [] (p ∷ ps) h = absurd h
  pool-total wid (l ∷ ls) [] h = absurd h
  pool-total wid (l ∷ ls) (p ∷ ps) (h, hs) =
      let e =
        qps_worker-searches search frames p.fuel p.clock duration wid l p.state h.enough h.over in
      rw (e, h.goes, pool-total (suc wid) ls ps hs) (ap done (omega arith))

  -- If every process has its time over at some look and its searches go through, the rate is made of
  -- all their searches: 16 for each look that found time left, and of the ticks that went by.
  pub saturated_qps-total :
      (looks : List ℕ) (ps : List (Process S)) (t0 t1 : ℕ)
      → AreRunning 0 looks ps
      → saturated_qps ps t0 t1 ≡ done (record { searches = sum looks * burst; ticks = t1 - t0 })
  unfolding saturated_qps
  saturated_qps-total looks ps t0 t1 h = rw (pool-total 0 looks ps h) refl
