-- ===== src/Tests/SiftRuns.antt =====
-- The clients of the services at concrete inputs.
use rostam_bench.Base.{
  if◌then◌else◌, leb, ℕ, zero, suc, ◌+◌, ◌≤◌, ◌<◌, ◌≡◌, refl, true, false, Option, none, some, List,
  [], ◌∷◌, arith, map, length, All,
}
use rostam_bench.Base.Int.{pos}
use rostam_bench.Python.Errors.{Bytes}
use rostam_bench.Python.Dumps.{codes}
use rostam_bench.PyClient.Socket.{Outcome, done}
use rostam_bench.PyClient.Recall.{common, truth_of, neighbours}
use rostam_bench.Sift.Quantile.{Report}
use rostam_bench.Sift.Latency.{timed_queries, counted, IsFair}
use rostam_bench.Sift.Answers.{agreed}
use rostam_bench.Sift.Sweep.{Row, ef_sweep, sweep, IsRecall}
use rostam_bench.Sift.Grpc
use rostam_bench.Sift.Grpc.{SearchRequest, Hit, hit_ids, request, latency-answers}
use rostam_bench.Sift.Qdrant.{Info, QdrantClient}
use rostam_bench.Sift.Qdrant.Build.{
  coll, build, wait, polled, is_ready, ends_with, most, or_zero, drop_old, wait-polled,
  build-is_ready,
}
use rostam_bench.Sift.Qdrant.LatencyQps
use rostam_bench.Sift.Qdrant.LatencyQps.{ask, latency-points}
use rostam_bench.Sift.Qdrant.Bench
use rostam_bench.Sift.Qdrant.Bench.{quantized, main-IsRecall}
use rostam_bench.Sift.Hnswlib
use rostam_bench.Sift.Hnswlib.{Hnswlib}
use rostam_bench.Sift.Redis.{Value, Redis, number, array, stop, item}
use rostam_bench.Sift.Redis.Load.{hsets, batches, joined, IsCut, batches-hsets}
use rostam_bench.Sift.Redis.Reply.{found_items}
use rostam_bench.Sift.Redis.Bench.{search, search-found}
use rostam_bench.Tests.Samples.{low_numpy, copies, length-copies, copies-All}

abbrev queries : List (List ℕ)
queries = copies timed_queries (1 ∷ 2 ∷ [])

abbrev truth : List (List ℕ)
truth = copies timed_queries (3 ∷ 5 ∷ [])

long_enough : (xs : List (List ℕ)) → length xs ≡ timed_queries → timed_queries ≤ length xs
long_enough xs h = omega (arith, h)

-- A service that finds the neighbour 4 whatever it is asked, and counts its calls.
abbrev answer : SearchRequest → List Hit
answer q = record { id = 4; dist = 0 } ∷ []

abbrev stub : SearchRequest → ℕ → Outcome (List Hit × ℕ)
stub q n = done (answer q, n + 1)

latency-answers_example :
    (r : Report) × (end : ℕ) × (Grpc.latency low_numpy stub (λ i. i) queries truth 0
      ≡ done (r, end))
    × IsFair
        (Grpc.search low_numpy stub)
        (λ i. i)
        truth_of
        timed_queries
        (agreed
          (λ q. hit_ids (answer (request low_numpy stub q)))
          truth_of
          timed_queries
          queries
          truth)
        r
latency-answers_example =
    latency-answers low_numpy stub answer (λ q n. n + 1) (λ i. i) queries truth 0 (λ q n. refl)
      (long_enough queries (length-copies {A = List ℕ} timed_queries (1 ∷ 2 ∷ [])))
      (long_enough truth (length-copies {A = List ℕ} timed_queries (3 ∷ 5 ∷ [])))
      (copies-All (λ (row : List ℕ). length row ≤ neighbours) timed_queries (3 ∷ 5 ∷ [])
        (omega arith))

-- A service whose state is the number of the answers it gave about the index, of which the third is
-- green, and which finds the point 3 for every query.
abbrev info_at : ℕ → Info
info_at zero = record { status = codes "yellow"; indexed = none }
info_at (suc zero) = record { status = codes "yellow"; indexed = some 1 }
info_at (suc (suc n)) = record { status = codes "green"; indexed = some 2 }

abbrev client : QdrantClient ℕ
client = record {
  collection_exists = λ name n. done (true, n);
  delete_collection = λ name n. done n;
  create_collection = λ c n. done n;
  upload_collection = λ name base size parallel n. done n;
  get_collection = λ name n. done (info_at n, n + 1);
  query_points = λ q n. done (3 ∷ [], n);
  sleep = λ t n. n;
}

latency-points_example :
    (r : Report) × (end : ℕ) × (LatencyQps.latency client (λ i. i) queries truth 64 0
      ≡ done (r, end))
    × IsFair
        (LatencyQps.search client 64)
        (λ i. i)
        (λ row. row)
        timed_queries
        (agreed (λ q. 3 ∷ []) (λ row. row) timed_queries queries truth)
        r
latency-points_example =
    latency-points client (λ q. 3 ∷ []) (λ q n. n) (λ i. i) queries truth 64 0 (λ q n. refl)
      (long_enough queries (length-copies {A = List ℕ} timed_queries (1 ∷ 2 ∷ [])))
      (long_enough truth (length-copies {A = List ℕ} timed_queries (3 ∷ 5 ∷ [])))
      (copies-All (λ (row : List ℕ). length row ≤ neighbours) timed_queries (3 ∷ 5 ∷ [])
        (omega arith))

not_before : (j : ℕ) → j < 2 → is_ready 2 (info_at (polled client (λ n. n + 1) j 0)) ≡ false
unfolding is_ready ends_with
not_before zero h = refl
not_before (suc zero) h = refl
not_before (suc (suc j)) h = absurd (omega arith)

third_ready : is_ready 2 (info_at 2) ≡ true
unfolding is_ready ends_with
third_ready = refl

wait-polled_example : wait client 5 2 0 ≡ done (polled client (λ n. n + 1) 2 0 + 1)
wait-polled_example =
    wait-polled client info_at (λ n. n + 1) (λ n. refl) 2 5 2 0 (omega arith) not_before third_ready

abbrev base : List (List ℕ)
base = (1 ∷ []) ∷ (2 ∷ []) ∷ []

built : build client 5 (quantized true 1) base 0 ≡ done 3
unfolding build wait is_ready ends_with drop_old
built = refl

build-is_ready_example :
    (s : ℕ) × (info : Info) × (client.get_collection coll s ≡ done (info, 3))
    × (ends_with info.status (codes "green") ≡ true)
    × (most (length base) ≤ or_zero info.indexed)
build-is_ready_example = build-is_ready client 5 (quantized true 1) base 0 3 built

-- The line of a width whose search finds one of ten neighbours.
abbrev line : ℕ → Row
line ef = record { ef = ef; hits = 1; wanted = 10; queries = 1; ticks = 1 }

abbrev lines : List Row
lines = line 16 ∷ line 32 ∷ line 64 ∷ line 128 ∷ line 256 ∷ line 512 ∷ []

abbrev one_query : List (List ℕ)
one_query = (1 ∷ []) ∷ []

abbrev one_truth : List (List ℕ)
one_truth = (7 ∷ 3 ∷ []) ∷ []

qdrant_lines : Bench.main client 5 (λ i. i) true 1 base one_query one_truth 0 ≡ done (lines, 3)
unfolding Bench.main build wait is_ready ends_with drop_old sweep counted common
qdrant_lines = refl

main-IsRecall_example :
    ((s' : ℕ) × (info : Info) × (built : ℕ) × (client.get_collection coll s' ≡ done (info, built))
      × (most (length base) ≤ or_zero info.indexed)
      × (sweep (Bench.search client) (λ i. i) ef_sweep one_query one_truth 2 (client.sleep 20 built)
          ≡ done (lines, 3)))
    × (map (λ r. r.ef) lines ≡ ef_sweep)
    × All (IsRecall (Bench.search client) (λ i. i)) lines
main-IsRecall_example =
    main-IsRecall client 5 (λ i. i) true 1 base one_query one_truth 0 3 lines (omega arith, tt)
      qdrant_lines

-- An index that counts its rows, and from the width 64 on answers every query with the label 3.
abbrev near : ℕ → ℕ → ℕ → List ℕ → List ℕ
near rows ef k q = if leb 64 ef then 3 ∷ [] else []

abbrev index : Hnswlib (ℕ × ℕ)
index = record {
  init_index = λ size s. done (0, 10);
  add_items = λ rows labels s. done (s.0 + length rows, s.1);
  set_ef = λ ef s. (s.0, ef);
  knn_query = λ qs k s. done (map (near s.0 s.1 k) qs, s);
}

abbrev one_byte : List ℕ → Bytes
one_byte row = row

batches-hsets_example :
    (joined (batches one_byte 0 base []) ≡ hsets one_byte 0 base)
    × IsCut (batches one_byte 0 base [])
batches-hsets_example = batches-hsets one_byte base

-- A decoder that reads every byte as its character, and a service that finds the rows 7 and 12.
abbrev as_text : Bytes → Option Bytes
as_text b = some b

abbrev hits : List (ℕ × Value)
hits = (7, array stop) ∷ (12, number (pos 4)) ∷ []

abbrev redis : Redis ℕ
redis = record {
  tobytes = one_byte;
  ping = λ s. done s;
  drop_index = λ name s. done s;
  create_index = λ schema s. done s;
  execute = λ batch s. done s;
  info = λ name s. done (stop, s);
  search = λ q s. done (item (number (pos 2)) (found_items as_text hits), s + 1);
  sleep = λ t s. s;
}

search-found_example : search as_text (λ v. done true) redis 64 (1 ∷ []) 0 ≡ done (7 ∷ 12 ∷ [], 1)
search-found_example =
    search-found as_text (λ v. done true) redis 64 (1 ∷ []) 0 1 (number (pos 2)) hits (λ i. refl)
      refl
