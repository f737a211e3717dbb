-- ===== src/Sift/Qdrant/LatencyQps.antt =====
-- sift1m/qdrant_latency_qps.py: `latency`, the workers and `main`.
use rostam_bench.Base.{
  ℕ, ◌≤◌, ◌≡◌, Bool, false, List, [], ◌∷◌, arith, length, leb, none, All, if◌then◌else◌,
}
use rostam_bench.Python.Dumps.{codes}
use rostam_bench.PyClient.Socket.{Outcome, done, ◌>>=◌}
use rostam_bench.PyClient.Recall.{neighbours}
use rostam_bench.Sift.Quantile.{Report}
use rostam_bench.Sift.Latency.{timed_queries, measure, IsFair}
use rostam_bench.Sift.Answers.{agreed, measure-answers}
use rostam_bench.Sift.Pool.{Process, Rate}
use rostam_bench.Sift.Pool
use rostam_bench.Sift.Worker
use rostam_bench.Sift.Qdrant.{Collection, Query, QdrantClient}
use rostam_bench.Sift.Qdrant.Build.{coll, or_zero, most, build}

-- `EF_SWEEP`
abbrev pub ef_widths : List ℕ
ef_widths = 16 ∷ 64 ∷ 128 ∷ []

-- The arguments of `create_collection`.
abbrev pub plain : ℕ → Collection
plain dim = record {
  name = coll;
  size = dim;
  on_disk = none;
  m = 16;
  ef_construct = 200;
  int8 = false;
}

-- The readings of the clocks and the processes at one width.
pub record Watch (S : Type 0) : Type 0 where
  pub counter : ℕ → ℕ
  pub processes : List (Process S)
  pub t0 : ℕ
  pub t1 : ℕ

-- A printed line.
pub record Line : Type 0 where
  pub ef : ℕ
  pub report : Report
  pub rate : Rate

module _ {S : Type 0} (client : QdrantClient S) where
  abbrev pub ask : ℕ → List ℕ → Query
  ask ef query = record { collection = coll; query = query; limit = neighbours; hnsw_ef = ef }

  abbrev pub search : ℕ → List ℕ → S → Outcome (List ℕ × S)
  search ef query s = client.query_points (ask ef query) s

  abbrev search_only : ℕ → List ℕ → S → Outcome S
  search_only ef query s = search ef query s >>= λ res. done res.1

  unfoldable pub latency : (ℕ → ℕ) → List (List ℕ) → List (List ℕ) → ℕ → S → Outcome (Report × S)
  latency clock queries gt ef s = measure (search ef) clock (λ row. row) timed_queries queries gt s

  unfoldable pub qps_worker : List (List ℕ) → ℕ → (ℕ → ℕ) → ℕ → ℕ → ℕ → S → Outcome (ℕ × S)
  qps_worker queries fuel clock duration ef wid s =
      Worker.qps_worker (search_only ef) queries fuel clock duration wid s

  unfoldable pub saturated_qps : List (List ℕ) → ℕ → ℕ → List (Process S) → ℕ → ℕ → Outcome Rate
  saturated_qps queries ef duration processes t0 t1 =
      Pool.saturated_qps (search_only ef) queries duration processes t0 t1

  -- The collection is kept if it has most of its vectors indexed.
  unfoldable pub reusable : ℕ → S → Outcome (Bool × S)
  reusable n s = client.collection_exists coll s >>= λ there.
      if there.0
      then (client.get_collection coll there.1 >>= λ got.
          done (leb (most n) (or_zero got.0.indexed), got.1))
      else done (false, there.1)

  unfoldable pub measured :
      ℕ → (ℕ → Watch S) → List ℕ → List (List ℕ) → List (List ℕ) → S → Outcome (List Line × S)
  measured duration watch [] queries gt s = done ([], s)
  measured duration watch (ef ∷ efs) queries gt s =
      let w = watch ef in
      latency w.counter queries gt ef s >>= λ r.
      saturated_qps queries ef duration w.processes w.t0 w.t1 >>= λ rate.
      measured duration watch efs queries gt r.1 >>= λ rest.
      done (record { ef = ef; report = r.0; rate = rate } ∷ rest.0, rest.1)

  -- `main`, with the arrays of the files; `dim` is the width of `base`.
  unfoldable pub main :
      ℕ
      → ℕ
      → (ℕ → Watch S)
      → ℕ
      → List (List ℕ)
      → List (List ℕ)
      → List (List ℕ)
      → S
      → Outcome (List Line × S)
  unfolding reusable measured
  main fuel duration watch dim base queries gt s = reusable (length base) s >>= λ kept.
      (if kept.0 then done kept.1 else build client fuel (plain dim) base kept.1) >>= λ s'.
      measured duration watch ef_widths queries gt s'

  -- For at least `LAT_N` queries and rows, rows of at most `K` neighbours, and a service whose points
  -- depend on the query alone, `latency` returns. Its hits are the neighbours named by the answers to
  -- the requests for the 10 nearest of each query in `sift` at the given width, which are at most `K`
  -- for each search, its percentiles have the ranks of half and of 99 hundredths among the times that
  -- the clock shows around each search, and the median is not the greater one.
  pub latency-points :
      (answer : Query → List ℕ) (next : Query → S → S) (clock : ℕ → ℕ) (queries gt : List (List ℕ))
      (ef : ℕ) (s : S)
      → ((q : Query) (t : S) → client.query_points q t ≡ done (answer q, next q t))
      → timed_queries ≤ length queries
      → timed_queries ≤ length gt
      → All (λ row. length row ≤ neighbours) gt
      → (r : Report) × (end : S) × (latency clock queries gt ef s ≡ done (r, end))
        × IsFair
            (search ef)
            clock
            (λ row. row)
            timed_queries
            (agreed
              (λ q.
                answer (record { collection = codes "sift"; query = q; limit = 10; hnsw_ef = ef }))
              (λ row. row)
              timed_queries
              queries
              gt)
            r
  unfolding latency
  latency-points answer next clock queries gt ef s answers h k rows =
      measure-answers (search ef) clock (λ row. row) (λ q. answer (ask ef q)) timed_queries queries
        gt s (λ q t. (next (ask ef q) t, answers (ask ef q) t)) (omega arith) h k rows
