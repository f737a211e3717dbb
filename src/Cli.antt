-- ===== src/Cli.antt =====
-- vectordbbench/rostam/cli.py: the options of the command `rostamhnsw` and the settings it makes of
-- them. What click parses and what `run` does with the settings is outside the repository.
use rostam_bench.Base.{ℕ, Option, none, some, [], ◌∷◌}
use rostam_bench.Base.Int.{pos}
use rostam_bench.Python.Errors.{Text}
use rostam_bench.Python.Json.{Fields, int, str, obj, end, field}
use rostam_bench.Python.Dumps.{codes}
use rostam_bench.Config.{RostamConfig, RostamHnswConfig, default_config, default_hnsw}
use rostam_bench.Client.Http.{Body, json}

-- An option that is not on the command line is `none`.
pub record Arguments : Type 0 where
  pub url : Option Text
  pub m : Option ℕ
  pub ef_construction : Option ℕ
  pub ef_search : Option ℕ
  pub quant : Option Text

-- `parameters`, with the defaults of the options filled in.
pub record RostamOptions : Type 0 where
  pub url : Text
  pub m : ℕ
  pub ef_construction : ℕ
  pub ef_search : ℕ
  pub quant : Text

abbrev or_default {ℓ} : {A : Type ℓ} → Option A → A → A
or_default none d = d
or_default (some a) d = a

unfoldable pub with_defaults : Arguments → RostamOptions
with_defaults a = record {
  url = or_default a.url (codes "http://127.0.0.1:8080");
  m = or_default a.m 16;
  ef_construction = or_default a.ef_construction 200;
  ef_search = or_default a.ef_search 64;
  quant = or_default a.quant [];
}

-- `db_config` and `db_case_config` of the call of `run`.
unfoldable pub rostam_hnsw : RostamOptions → RostamConfig × RostamHnswConfig
rostam_hnsw p = (
  record default_config { url = p.url },
  record default_hnsw {
    m = p.m;
    ef_construction = p.ef_construction;
    ef_search = p.ef_search;
    quant = p.quant;
  },
)

-- The create request of a client that runs the command's case, with the key of the interface for each
-- option; `quant` has one only if it is not empty.
abbrev pub quant_entry : Text → Fields
quant_entry [] = end
quant_entry (c ∷ q) = field (codes "quant") (str (c ∷ q)) end

abbrev pub command_body : RostamOptions → ℕ → Text → Body
command_body p dim name = json (
    obj (
      field (codes "name") (str name) (
        field (codes "config")
          (obj (
            field (codes "dim") (int (pos dim)) (
              field (codes "metric") (str (codes "cosine")) (
                field (codes "m") (int (pos p.m)) (
                  field (codes "ef_construction") (int (pos p.ef_construction))
                    (field (codes "ef_search") (int (pos p.ef_search)) (quant_entry p.quant)))))))
          end)))
