-- ===== src/Sift/Grpc.antt =====
-- sift1m/rostam_grpc_client.py. The generated stub and the channel below it are a function of the
-- request and of the state of the service.
use rostam_bench.Base.{
  ℕ, ◌≤◌, ◌≡◌, refl, List, arith, map, length, length-map, length-take, take, All,
}
use rostam_bench.Python.Errors.{Text}
use rostam_bench.Python.Dumps.{codes}
use rostam_bench.Numpy.{Numpy}
use rostam_bench.PyClient.Socket.{Outcome, done, ◌>>=◌}
use rostam_bench.PyClient.Recall.{neighbours, truth_of}
use rostam_bench.Sift.Quantile.{Report}
use rostam_bench.Sift.Latency.{timed_queries, first_n, measure, IsFair}
use rostam_bench.Sift.Answers.{agreed, first_n-done, agreed-map, rows-truth_of, measure-answers}
use rostam_bench.Sift.Pool.{Process, Rate}
use rostam_bench.Sift.Pool
use rostam_bench.Sift.Worker

pub record SearchRequest : Type 0 where
  pub collection : Text
  pub k : ℕ
  pub query : List ℕ

-- A member of `resp.hits`.
pub record Hit : Type 0 where
  pub id : ℕ
  pub dist : ℕ

abbrev pub hit_ids : List Hit → List ℕ
hit_ids = map (λ h. h.id)

module _ (np : Numpy) {S : Type 0} (stub : SearchRequest → S → Outcome (List Hit × S)) where
  -- The vectors are float32, and `tolist` widens them.
  abbrev pub request : List ℕ → SearchRequest
  request query = record { collection = codes "sift"; k = neighbours; query = map np.widen query }

  abbrev pub search : SearchRequest → S → Outcome (List ℕ × S)
  search q s = stub q s >>= λ resp. done (hit_ids resp.0, resp.1)

  abbrev search_only : SearchRequest → S → Outcome S
  search_only q s = stub q s >>= λ resp. done resp.1

  unfoldable pub latency : (ℕ → ℕ) → List (List ℕ) → List (List ℕ) → S → Outcome (Report × S)
  latency clock queries gt s = first_n (λ q. done (request q)) timed_queries queries >>= λ reqs.
      measure search clock truth_of timed_queries reqs gt s

  unfoldable pub qps_worker : List SearchRequest → ℕ → (ℕ → ℕ) → ℕ → ℕ → S → Outcome (ℕ × S)
  qps_worker reqs = Worker.qps_worker search_only reqs

  unfoldable pub saturated_qps : List (List ℕ) → ℕ → List (Process S) → ℕ → ℕ → Outcome Rate
  saturated_qps queries = Pool.saturated_qps search_only (map request queries)

  -- For at least `LAT_N` queries and rows, rows of at most `K` neighbours, and a service whose hits
  -- depend on the request alone, `latency` returns. Its hits are the neighbours named by the answers to
  -- the requests for the 10 nearest of each query in `sift`, which are at most `K` for each search,
  -- its percentiles have the ranks of half and of 99 hundredths among the times that the clock shows
  -- around each search, and the median is not the greater one.
  pub latency-answers :
      (answer : SearchRequest → List Hit) (next : SearchRequest → S → S) (clock : ℕ → ℕ)
      (queries gt : List (List ℕ)) (s : S)
      → ((q : SearchRequest) (t : S) → stub q t ≡ done (answer q, next q t))
      → timed_queries ≤ length queries
      → timed_queries ≤ length gt
      → All (λ row. length row ≤ neighbours) gt
      → (r : Report) × (end : S) × (latency clock queries gt s ≡ done (r, end))
        × IsFair search clock truth_of timed_queries
            (agreed
              (λ q.
                hit_ids
                  (answer (record { collection = codes "sift"; k = 10; query = map np.widen q })))
              truth_of
              timed_queries
              queries
              gt)
            r
  unfolding latency
  latency-answers answer next clock queries gt s answers h k rows =
      let reqs = map request (take timed_queries queries) in
      let same : length reqs ≡ timed_queries = omega (
        arith,
        length-map request (take timed_queries queries),
        length-take timed_queries queries,
      ) in
      let ids = λ (q : SearchRequest). hit_ids (answer q) in
      let (r, end, made, fair) =
        measure-answers search clock truth_of ids timed_queries reqs gt s
          (λ q t. (next q t, rw (answers q t) refl)) (omega arith) (omega (arith, same)) k
          (rows-truth_of gt rows) in
      (
        r,
        end,
        rw (first_n-done request timed_queries queries h) made,
        rw (agreed-map request ids truth_of timed_queries queries gt) at fair,
      )
