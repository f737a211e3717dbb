-- ===== src/Tests/CliRuns.antt =====
-- The command at concrete arguments.
use rostam_bench.Base.{◌≡◌, refl, true, false, none, []}
use rostam_bench.Python.Dumps.{codes}
use rostam_bench.Config.{default_config, default_hnsw}
use rostam_bench.Client.Http.{answered, Server}
use rostam_bench.Client.State.{Rostam, bulk}
use rostam_bench.Cli.{RostamOptions, with_defaults, rostam_hnsw}

abbrev making : Server
making log q = answered (record { status = 201; text = []; json = none })

abbrev options : RostamOptions
options = record {
  url = codes "http://h:1/";
  m = 32;
  ef_construction = 100;
  ef_search = 80;
  quant = codes "sq8";
}

-- The defaults of the command are those of the classes.
no_arguments :
    rostam_hnsw (
      with_defaults
        (record { url = none; m = none; ef_construction = none; ef_search = none; quant = none }))
    ≡ (default_config, default_hnsw)
unfolding rostam_hnsw with_defaults
no_arguments = refl

abbrev client : Rostam
client = record {
  dim = 2;
  collection_name = codes "c";
  base = codes "http://h:1";
  api_key = none;
  load_path = bulk;
  query_filter = none;
  binary = true;
  binary_proven = false;
  binary_query = true;
  binary_query_proven = false;
  filter_blob = [];
  session = none;
}
