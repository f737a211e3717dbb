-- ===== src/Config.antt =====
-- vectordbbench/rostam/config.py: the connection settings and the index parameters.
use rostam_bench.Base.{ℕ, Bool, true, Option, none, some, [], ◌∷◌}
use rostam_bench.Python.Errors.{Text}
use rostam_bench.Python.Dumps.{codes}

-- The dict that the client takes; a key that is missing, or maps to `None`, is `none`.
pub record DbConfig : Type 0 where
  pub url : Option Text
  pub api_key : Option Text
  pub load_path : Option Text
  pub binary_wire : Option Bool
  pub binary_query : Option Bool

-- `RostamConfig`, whose secrets are plain texts here.
pub record RostamConfig : Type 0 where
  pub url : Text
  pub api_key : Option Text
  pub load_path : Text
  pub binary_wire : Bool
  pub binary_query : Bool

-- The defaults of the fields.
abbrev pub default_config : RostamConfig
default_config = record {
  url = codes "http://127.0.0.1:8080";
  api_key = none;
  load_path = codes "bulk";
  binary_wire = true;
  binary_query = true;
}

-- An absent key and an empty secret both become `None`: a `SecretStr` is false if it is empty.
abbrev secret_value : Option Text → Option Text
secret_value (some (c ∷ s)) = some (c ∷ s)
secret_value o = none

unfoldable pub to_dict : RostamConfig → DbConfig
to_dict c = record {
  url = some c.url;
  api_key = secret_value c.api_key;
  load_path = some c.load_path;
  binary_wire = some c.binary_wire;
  binary_query = some c.binary_query;
}

-- The members of `MetricType` that the client names, and all others.
pub data MetricType : Type 0 where
  l2 ip cosine other_metric : MetricType

pub record RostamHnswConfig : Type 0 where
  pub metric_type : Option MetricType
  pub m : ℕ
  pub ef_construction : ℕ
  pub ef_search : ℕ
  pub quant : Text

abbrev pub default_hnsw : RostamHnswConfig
default_hnsw = record {
  metric_type = none;
  m = 16;
  ef_construction = 200;
  ef_search = 64;
  quant = [];
}

unfoldable pub parse_metric : Option MetricType → Text
parse_metric (some l2) = codes "l2"
parse_metric (some ip) = codes "dot"
parse_metric o = codes "cosine"

pub record IndexParam : Type 0 where
  pub metric : Text
  pub m : ℕ
  pub ef_construction : ℕ
  pub ef_search : ℕ
  pub quant : Text

unfoldable pub index_param : RostamHnswConfig → IndexParam
unfolding parse_metric
index_param c = record {
  metric = parse_metric c.metric_type;
  m = c.m;
  ef_construction = c.ef_construction;
  ef_search = c.ef_search;
  quant = c.quant;
}
