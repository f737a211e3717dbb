-- ===== src/Tests/SmokeRuns.antt =====
-- The smoke test of the client, passed on a small dataset.
use rostam_bench.Base.{
  ℕ, ◌*◌, ◌<◌, ◌≡◌, refl, true, some, List, [], ◌∷◌, ◌++◌, arith, map, zip, list_eq,
}
use rostam_bench.Base.Int.{pos}
use rostam_bench.Python.Errors.{Text, ok, map_result}
use rostam_bench.Python.Json.{
  Json, int, obj, arr, field, end, items, get_or_empty, is_digit, is_space, iterate, scan_digits,
  scan_sign, subscript, trunc_real, to_int,
}
use rostam_bench.Python.Dumps.{codes}
use rostam_bench.Client.Http.{answered, Log, Server}
use rostam_bench.Client.State.{Rostam, St, send}
use rostam_bench.Client.Session.{init, new_session, join_path}
use rostam_bench.Client.Create.{
  construct, attributes, contains, create, created, drop_collection, lower, parse_load_path,
  rstrip_slash, connect,
}
use rostam_bench.Client.Acknowledged.{acknowledged}
use rostam_bench.Client.Slices.{IsLoad}
use rostam_bench.PyClient.Recall.{neighbours, common, elem}
use rostam_bench.Smoke.{smoke_config, smoke_case, range_from, load, main, block, search_all}
use rostam_bench.Smoke.Answers.{Answered}
use rostam_bench.Smoke.Passes.{main-acknowledged}
use rostam_bench.Client.Insert.{
  insert_url, json_body, post_json, insert_embeddings, insert_loop, round, after_binary, optimize,
}
use rostam_bench.Client.Search.{
  after_query, hit_ids, search_body, search_json, search_url, search_embedding, hits,
}
use rostam_bench.Config.{index_param, parse_metric, to_dict}
use rostam_bench.Python.Bytes.{be32, pack_u32}
use rostam_bench.Python.Decimal.{decimal, decimal_int, digits}
use rostam_bench.Wire.Bulk.{bulk_flags, bulk_header, join, payload_blob, payload_entry, binary_body}
use rostam_bench.Wire.Query.{filter_entry, query_header, query_body}
use rostam_bench.Tests.Samples.{low_numpy, low_numpy-IsLawful}

-- The first ten points are the nearest of every query.
abbrev nearest : List (List ℕ) → List ℕ → List ℕ
nearest base query = range_from 0 neighbours

abbrev results : Json
results =
    arr (items (map (λ i. obj (field (codes "id") (int (pos i)) end)) (range_from 0 neighbours)))

abbrev server : Server
server log q =
    answered
      (record { status = 200; text = []; json = some (obj (field (codes "results") results end)) })

abbrev row : List ℕ
row = 0x3f80_0000 ∷ 5 ∷ []

abbrev query : List (List ℕ)
query = (0x4000_0000 ∷ 0 ∷ []) ∷ []

abbrev url : Text
url = codes "http://h"

row-IsLoad : IsLoad (range_from 0 1) (record { cols = 2; rows = row ∷ [] })
row-IsLoad = omega arith

passed : (main low_numpy server nearest url 64 2 (row ∷ []) query []).0 ≡ ok 10
unfolding get_or_empty list_eq attributes contains create created drop_collection lower
    parse_load_path rstrip_slash insert_url json_body post_json after_query hit_ids search_body
    search_json search_url join_path send index_param parse_metric common elem be32 decimal
    decimal_int digits is_digit is_space iterate scan_digits scan_sign subscript trunc_real block
    load search_all bulk_flags bulk_header join payload_blob payload_entry filter_entry query_header
    to_dict connect insert_embeddings map_result to_int insert_loop round binary_body pack_u32
    after_binary optimize search_embedding query_body hits main construct init
passed = refl

main-acknowledged_example :
    (self : Rostam) × (made : Log) × (t : St) × (construct server 2
        (smoke_config url)
        (smoke_case 64)
        (codes "smoke_sift")
        true
        []
      ≡ (ok self, made))
    × (load low_numpy server nearest
          (row ∷ [])
          (record { self = record self { session = some (new_session self) }; log = made })
        ≡ (ok tt, t))
    × (acknowledged low_numpy t.log
        ≡ acknowledged low_numpy made ++ zip (range_from 0 1) (row ∷ []))
    × (u : St) × (optimize server t ≡ (ok tt, u))
    × Answered low_numpy server nearest (row ∷ []) query 10 u
    × (9 * (1 * neighbours) < 10 * 10)
main-acknowledged_example =
    main-acknowledged low_numpy server nearest low_numpy-IsLawful url 64 2 row [] query [] 10
      (omega arith) row-IsLoad passed
