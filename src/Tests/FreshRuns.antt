-- ===== src/Tests/FreshRuns.antt =====
-- Constructed clients at concrete inputs: one server that makes every collection, and one that
-- refuses the request with a text that has "exist" in it.
use rostam_bench.Base.{◌≡◌, refl, ◌⊎◌, true, false, none, some, [], ◌∷◌, ◌++◌}
use rostam_bench.Python.Errors.{ok}
use rostam_bench.Python.Dumps.{codes}
use rostam_bench.Config.{DbConfig, IndexParam}
use rostam_bench.Client.Http.{answered, Exchange, Server}
use rostam_bench.Client.State.{Rostam, bulk, send}
use rostam_bench.Client.Create.{construct, connect, create}
use rostam_bench.Client.Connect.{Creates, Drops, IsMade, IsTaken}
use rostam_bench.Client.Fresh.{construct-fresh, construct-reuse}

abbrev making : Server
making log q = answered (record { status = 201; text = []; json = none })

abbrev refusing : Server
refusing log q =
    answered (record { status = 400; text = codes "the metric does not exist"; json = none })

abbrev config : DbConfig
config = record {
  url = some (codes "http://h/");
  api_key = none;
  load_path = none;
  binary_wire = none;
  binary_query = none;
}

abbrev index : IndexParam
index = record { metric = codes "l2"; m = 16; ef_construction = 200; ef_search = 64; quant = [] }

abbrev client : Rostam
client = record {
  dim = 2;
  collection_name = codes "c";
  base = codes "http://h";
  api_key = none;
  load_path = bulk;
  query_filter = none;
  binary = true;
  binary_proven = false;
  binary_query = true;
  binary_query_proven = false;
  filter_blob = [];
  session = none;
}

made : (construct making 2 config index (codes "c") true []).0 ≡ ok client
unfolding construct connect create send
made = refl

reused : (construct refusing 2 config index (codes "c") false []).0 ≡ ok client
unfolding construct connect create send
reused = refl

construct-fresh_example :
    (x : Exchange) × (y : Exchange) × ((construct making 2 config index (codes "c") true []).1
      ≡ [] ++ (x ∷ y ∷ []))
    × Drops client x.0
    × Creates client index y.0
    × IsMade y.1
construct-fresh_example = construct-fresh making 2 config index (codes "c") [] client made

construct-reuse_example :
    (y : Exchange) × ((construct refusing 2 config index (codes "c") false []).1 ≡ [] ++ (y ∷ []))
    × Creates client index y.0
    × (IsMade y.1 ⊎ IsTaken y.1)
construct-reuse_example = construct-reuse refusing 2 config index (codes "c") [] client reused
