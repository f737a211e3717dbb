-- ===== src/Tests/ClientRuns.antt =====
-- The client at concrete inputs.
use rostam_bench.Base.{
  ℕ, ◌≡◌, refl, true, false, Option, none, some, List, [], ◌∷◌, ◌++◌, arith, map, take, zip,
}
use rostam_bench.Base.Int.{pos}
use rostam_bench.Python.Errors.{Bytes, ok, Exn}
use rostam_bench.Python.Json.{Json, int, obj, arr, field, end, items}
use rostam_bench.Python.Dumps.{codes}
use rostam_bench.Python.Decimal.{decimal}
use rostam_bench.Config.{DbConfig, IndexParam}
use rostam_bench.Wire.Layout.{Query}
use rostam_bench.Wire.Query.{query_body}
use rostam_bench.Client.Http.{Response, Reply, answered, failed, Log, Server, json, octets, Request}
use rostam_bench.Client.State.{Rostam, St, payload, send}
use rostam_bench.Client.Create.{construct, connect, create}
use rostam_bench.Client.Insert.{insert_embeddings}
use rostam_bench.Client.Search.{search_embedding, search_body}
use rostam_bench.Client.Filter.{Filter, num_ge}
use rostam_bench.Client.Invariant.{IsValid}
use rostam_bench.Client.Acknowledged.{acknowledged}
use rostam_bench.Client.Sent.{Sent}
use rostam_bench.Client.Fallback.{insert_embeddings-Sent}
use rostam_bench.Client.Load.{narrowed, Counts, insert_embeddings-delivers}
use rostam_bench.Client.Slices.{IsLoad}
use rostam_bench.Client.Meaning.{
  meaning, asked, by_meaning, with_binary_query, query_body-meaning, search_embedding-same_wires,
}
use rostam_bench.Client.Calls.{Call, run_sessions, run_sessions-construct}
use rostam_bench.Tests.Samples.{low_numpy, low_numpy-IsLawful}

abbrev good : Response
good = record {
  status = 200;
  text = [];
  json = some (
      obj (
        field (codes "results") (arr (items (obj (field (codes "id") (int (pos 7)) end) ∷ [])))
          end));
}

abbrev ok_server : Server
ok_server log q = answered good

-- An old server: it does not know the binary wire.
abbrev old_server : Server
old_server log q = answer_body q.body
  where
    answer_body : rostam_bench.Client.Http.Body → Reply
    answer_body (octets b) = answered (record { status = 415; text = []; json = none })
    answer_body b = answered good

abbrev client : Rostam
client = record {
  dim = 2;
  collection_name = codes "c";
  base = codes "http://h";
  api_key = none;
  load_path = payload;
  query_filter = none;
  binary = true;
  binary_proven = false;
  binary_query = true;
  binary_query_proven = false;
  filter_blob = [];
  session = none;
}

abbrev fresh : St
fresh = record { self = client; log = [] }

abbrev row_one : List ℕ
row_one = 0x3f80_0000 ∷ 0 ∷ []

abbrev row_two : List ℕ
row_two = 0x4000_0000 ∷ 5 ∷ []

abbrev ids : List ℕ
ids = 7 ∷ 300 ∷ []

abbrev metadata : List Json
metadata = map (λ i. int (pos i)) ids

ids-IsLoad : IsLoad ids (narrowed low_numpy 2 (row_one ∷ row_two ∷ []))
ids-IsLoad = omega arith

client-IsValid : IsValid decimal client
client-IsValid = ground arith

insert_embeddings-delivers_example :
    let (r, s') = insert_embeddings low_numpy old_server (row_one ∷ row_two ∷ []) metadata fresh in
    (d : ℕ) × (pair : ℕ × Option Exn) × (r ≡ ok pair)
    × (acknowledged low_numpy s'.log
        ≡ acknowledged low_numpy []
          ++ zip (take d ids) (take d (map (map low_numpy.narrow) (row_one ∷ row_two ∷ []))))
    × Counts 2 d pair
insert_embeddings-delivers_example =
    insert_embeddings-delivers low_numpy-IsLawful old_server 2 row_one (row_two ∷ []) ids fresh
      (omega arith) ids-IsLoad

insert_embeddings-Sent_example :
    Sent fresh (insert_embeddings low_numpy old_server (row_one ∷ []) metadata fresh).1
insert_embeddings-Sent_example =
    insert_embeddings-Sent low_numpy old_server (row_one ∷ []) metadata fresh

abbrev by_status : Option Query → Reply
by_status none = answered (record { status = 400; text = []; json = none })
by_status (some q) = answered good

query_body-meaning_example :
    (b : Bytes) × (query_body low_numpy row_one (pos 10) [] ≡ ok b)
    × (meaning low_numpy decimal (octets b) ≡ some (asked low_numpy decimal client row_one 10))
    × (meaning low_numpy decimal (json (search_body row_one (pos 10) none))
        ≡ some (asked low_numpy decimal client row_one 10))
query_body-meaning_example =
    query_body-meaning low_numpy decimal low_numpy-IsLawful client row_one 10 client-IsValid
      (omega arith) (omega arith) (omega arith)

search_embedding-same_wires_example :
    (search_embedding low_numpy
      (by_meaning low_numpy decimal by_status)
      row_one
      (pos 10)
      (with_binary_query low_numpy decimal true fresh)).0
    ≡ (search_embedding low_numpy
        (by_meaning low_numpy decimal by_status)
        row_one
        (pos 10)
        (with_binary_query low_numpy decimal false fresh)).0
search_embedding-same_wires_example =
    search_embedding-same_wires low_numpy decimal low_numpy-IsLawful by_status row_one 10 fresh
      client-IsValid (omega arith) (omega arith) (omega arith)

abbrev config : DbConfig
config = record {
  url = some (codes "http://h/");
  api_key = none;
  load_path = some (codes "payload");
  binary_wire = none;
  binary_query = none;
}

abbrev index : IndexParam
index = record { metric = codes "l2"; m = 16; ef_construction = 200; ef_search = 64; quant = [] }

abbrev ge_five : Filter
ge_five = record { type = num_ge; int_field = codes "id"; int_value = int (pos 5) }

abbrev calls : List (List Call)
calls =
    (Call.insert (row_one ∷ row_two ∷ []) metadata ∷ Call.build ∷ [])
    ∷ (Call.set_filter ge_five ∷ Call.query row_one (pos 10) ∷ [])
    ∷ []

built : (construct ok_server 2 config index (codes "c") true []).0 ≡ ok client
unfolding construct connect create send
built = refl

run_sessions-construct_example :
    let s = run_sessions decimal low_numpy ok_server calls (record {
      self = client;
      log = (construct ok_server 2 config index (codes "c") true []).1;
    }) in
    IsValid decimal s.self × (s.self.session ≡ none)
run_sessions-construct_example =
    run_sessions-construct decimal low_numpy ok_server 2 config index (codes "c") true [] calls
      client built
