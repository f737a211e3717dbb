-- ===== src/Tests/MeasureRuns.antt =====
-- The figures, the workers and their pool at concrete inputs.
use rostam_bench.Base.{ℕ, ◌+◌, ◌*◌, ◌/◌, ◌-◌, ◌≤◌, ◌≡◌, refl, List, [], ◌∷◌, arith, length}
use rostam_bench.PyClient.Socket.{Outcome, done, ◌>>=◌}
use rostam_bench.Sift.Quantile.{Report, report, IsQuantile, report-IsQuantile}
use rostam_bench.Sift.Worker.{burst, searches, qps_worker, IsOver, qps_worker-searches}
use rostam_bench.Sift.Pool.{Process, saturated_qps, AreRunning, IsRunning, saturated_qps-total}

abbrev times : List ℕ
times = 30 ∷ 10 ∷ 20 ∷ 40 ∷ []

report-IsQuantile_example :
    (r : Report) × (report 7 40 times ≡ done r)
    × IsQuantile (length times / 2) r.p50 times
    × IsQuantile (length times * 99 / 100) r.p99 times
    × (r.p50 ≤ r.p99)
    × (r.hits ≡ 7)
report-IsQuantile_example = report-IsQuantile 7 40 times (omega arith)

-- A service that notes the requests, the newest first.
abbrev noting : ℕ → List ℕ → Outcome (List ℕ)
noting q s = done (q ∷ s)

abbrev frames : List ℕ
frames = 100 ∷ 200 ∷ 300 ∷ []

-- A clock that goes on by 10 ticks with every reading.
abbrev ticking : ℕ → ℕ
ticking i = 10 * i

ticking-IsOver : IsOver ticking (ticking 0 + 25) (2 + 1)
ticking-IsOver = (omega arith, λ j h k. omega arith)

qps_worker-searches_example :
    qps_worker noting frames 9 ticking 25 1 []
    ≡ (searches noting frames (2 * burst) 1 [] >>= λ s. done (2 * burst, s))
qps_worker-searches_example =
    qps_worker-searches noting frames 9 ticking 25 1 2 [] (omega arith) ticking-IsOver

abbrev process : Process (List ℕ)
process = record { fuel = 9; clock = ticking; state = [] }

running :
    (wid : ℕ) (end : List ℕ)
    → searches noting frames (2 * burst) wid [] ≡ done end
    → IsRunning noting frames 25 wid 2 process
running wid end goes = record {
  enough = omega arith;
  over = ticking-IsOver;
  end = end;
  goes = goes;
}

two_running : AreRunning noting frames 25 0 (2 ∷ 2 ∷ []) (process ∷ process ∷ [])
unfolding searches rostam_bench.Sift.Quantile.item
two_running = (running 0 _ refl, (running 1 _ refl, tt))

saturated_qps-total_example :
    saturated_qps noting frames 25 (process ∷ process ∷ []) 0 30
    ≡ done (record { searches = (2 + (2 + 0)) * burst; ticks = 30 - 0 })
saturated_qps-total_example =
    saturated_qps-total noting frames 25 (2 ∷ 2 ∷ []) (process ∷ process ∷ []) 0 30 two_running
