-- ===== src/Smoke.antt =====
-- vectordbbench/smoke_test.py: `main`, which drives the client from its construction to a search and
-- asserts what comes back.
pub mod Passes
pub mod Answers
use rostam_bench.Base.{
  ℕ, zero, suc, ◌+◌, ◌*◌, true, Option, none, some, List, [], ◌∷◌, map, length, ltb, ◌==◌,
  if◌then◌else◌,
}
use rostam_bench.Base.Int.{pos}
use rostam_bench.Python.Errors.{
  Text, Result, ok, err, Exn, assertion_error, zero_division, index_error,
}
use rostam_bench.Python.Json.{Json, int}
use rostam_bench.Python.Dumps.{codes}
use rostam_bench.Numpy.{Numpy}
use rostam_bench.Config.{
  DbConfig, IndexParam, default_config, to_dict, default_hnsw, l2, index_param,
}
use rostam_bench.Client.Http.{Log, Server}
use rostam_bench.Client.State.{Rostam, St, Action, pure, raise, ◌>>=◌, ◌>>◌}
use rostam_bench.Client.Session.{init}
use rostam_bench.Client.Create.{construct}
use rostam_bench.Client.Insert.{insert_embeddings, optimize}
use rostam_bench.Client.Search.{search_embedding}
use rostam_bench.PyClient.Recall.{common, naturals, neighbours}

-- `cfg` and `case`.
abbrev pub smoke_config : Text → DbConfig
smoke_config url = to_dict (record default_config { url = url })

abbrev pub smoke_case : ℕ → IndexParam
smoke_case ef =
    index_param
      (record default_hnsw { metric_type = some l2; m = 16; ef_construction = 200; ef_search = ef })

-- `list(range(n))`, from `i` on.
abbrev pub range_from : ℕ → ℕ → List ℕ
range_from i zero = []
range_from i (suc n) = i ∷ range_from (i + 1) n

-- The arrays hold float32 values, and `tolist` widens them. `nearest base q` is
-- `np.argsort(np.linalg.norm(base - q, axis=1))[:K].tolist()`.
module _ (np : Numpy) (server : Server) (nearest : List (List ℕ) → List ℕ → List ℕ) where
  abbrev pub tolist : List (List ℕ) → List (List ℕ)
  tolist = map (map np.widen)

  abbrev pub numbered : ℕ → List Json
  numbered n = map (λ i. int (pos i)) (range_from 0 n)

  -- `assert err is None` and `assert cnt == n`.
  abbrev pub check_count : ℕ → ℕ × Option Exn → Action (Unit {0})
  check_count n (cnt, some e) = raise assertion_error
  check_count n (cnt, none) = if cnt == n then pure tt else raise assertion_error

  unfoldable pub load : List (List ℕ) → Action (Unit {0})
  load base =
      insert_embeddings np server (tolist base) (numbered (length base))
      >>= check_count (length base)

  -- The loop over the queries; `gt` has what is left of the ground truth.
  unfoldable pub search_all : List (List ℕ) → List (List ℕ) → ℕ → Action ℕ
  search_all [] gt hits = pure hits
  search_all (q ∷ query) [] hits = raise index_error
  search_all (q ∷ query) (truth ∷ gt) hits =
      search_embedding np server (map np.widen q) (pos neighbours) >>= λ ids.
      search_all query gt (hits + common (naturals ids) truth)

  -- `recall = hits / (len(query) * K)`
  abbrev pub divided : ℕ → ℕ → Action ℕ
  divided hits zero = raise zero_division
  divided hits (suc n) = pure hits

  -- The rest of the `with` block.
  abbrev pub build_and_search : List (List ℕ) → List (List ℕ) → Action ℕ
  build_and_search base query =
      optimize server
      >> (search_all query (map (nearest base) query) 0 >>= λ hits. divided hits (length query))

  -- The `with` block.
  unfoldable pub block : List (List ℕ) → List (List ℕ) → Action ℕ
  unfolding load search_all
  block base query = load base >> build_and_search base query

  -- `assert recall > 0.90`. The quotient of `hits` by `total` is above 0.9 as a float exactly if it
  -- is above nine tenths, for totals below 2 ^ 49.
  abbrev pub check_recall : ℕ → ℕ → Result ℕ
  check_recall total hits = if ltb (9 * total) (10 * hits) then ok hits else err assertion_error

  abbrev pub recalled : ℕ → Result ℕ → Result ℕ
  recalled total (ok hits) = check_recall total hits
  recalled total (err e) = err e

  abbrev pub started : List (List ℕ) → List (List ℕ) → Result Rostam × Log → Result ℕ × Log
  started base query (err e, log) = (err e, log)
  started base query (ok self, log) =
      let (r, s) = init (block base query) (record { self = self; log = log }) in
      (recalled (length query * neighbours) r, s.log)

  -- `main`, with the arrays of the files; `dim` is the width of `base`.
  unfoldable pub main : Text → ℕ → ℕ → List (List ℕ) → List (List ℕ) → Log → Result ℕ × Log
  unfolding block
  main url ef dim base query log =
      started base query
        (construct server dim (smoke_config url) (smoke_case ef) (codes "smoke_sift") true log)
