-- ===== src/Client/Filter.antt =====
-- `prepare_filter` of vectordbbench/rostam/rostam.py.
use rostam_bench.Base.{ℕ, Bool, true, false, none, some, [], if◌then◌else◌}
use rostam_bench.Base.Int.{ℤ}
use rostam_bench.Python.Errors.{Text, runtime_error, filter_needs_payload, unsupported_filter}
use rostam_bench.Python.Json.{Json, int, str, obj, end, field, to_int}
use rostam_bench.Python.Dumps.{codes, dumps}
use rostam_bench.Client.State.{LoadPath, bulk, Action, raise, lift, gets, modify, ◌>>=◌, ◌>>◌}

-- The members of `FilterOp` that the client names, and all others.
pub data FilterOp : Type 0 where
  non_filter num_ge other_op : FilterOp

-- The attributes of a `Filter` that the client reads.
pub record Filter : Type 0 where
  pub type : FilterOp
  pub int_field : Text
  pub int_value : Json

unfoldable pub filter_json : Text → ℤ → Json
filter_json name value = obj (
    field (codes "op") (str (codes "gte")) (
      field (codes "field") (str name) (
        field (codes "value")
          (obj (field (codes "kind") (str (codes "int")) (field (codes "int") (int value) end)))
          end)))

abbrev is_bulk : LoadPath → Bool
is_bulk bulk = true
is_bulk p = false

module _ (float_repr : ℕ → Text) where
  prepare_num_ge : Filter → Action (Unit {0})
  prepare_num_ge f = do
    path ← gets (λ self. self.load_path)
    if is_bulk path then raise (runtime_error filter_needs_payload) else (do
      value ← lift (to_int f.int_value)
      let tree = filter_json f.int_field value
      modify (λ self. record self { query_filter = some tree })
      modify (λ self. record self { filter_blob = dumps float_repr tree }))

  -- The field is called `type` in the source.
  unfoldable pub prepare_filter : Filter → Action (Unit {0})
  unfolding prepare_num_ge
  prepare_filter f = elim (f.type) [
    | non_filter ↦ modify (λ self. record self { query_filter = none; filter_blob = [] })
    | num_ge ↦ prepare_num_ge f
    | other_op ↦ raise (runtime_error unsupported_filter)
  ]
