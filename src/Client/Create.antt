-- ===== src/Client/Create.antt =====
-- `__init__` and `_create` of vectordbbench/rostam/rostam.py.
use rostam_bench.Base.{
  ℕ, ◌+◌, Bool, true, false, ◌&&◌, ◌||◌, Option, none, some, [], ◌∷◌, length, take, leb, ◌==◌,
  if◌then◌else◌, list_eq,
}
use rostam_bench.Base.Int.{pos}
use rostam_bench.Python.Errors.{
  Text, Result, ok, err, Exn, already_exists, runtime_error, unknown_load_path, create_failed,
  key_error,
}
use rostam_bench.Python.Errors
use rostam_bench.Python.Json.{Json, int, str, obj, end, field}
use rostam_bench.Python.Dumps.{codes}
use rostam_bench.Config.{DbConfig, IndexParam}
use rostam_bench.Client.Http.{Method, json, empty, Response, Log, Server}
use rostam_bench.Client.State.{
  LoadPath, bulk, payload, batch, Session, Rostam, St, Action, pure, gets, ◌>>=◌, ◌>>◌, send,
}
use rostam_bench.Client.Session.{new_session, url}

all_slashes : Text → Bool
all_slashes [] = true
all_slashes (c ∷ s) = c == b'/' && all_slashes s

-- `url.rstrip("/")`
unfoldable pub rstrip_slash : Text → Text
unfolding all_slashes
rstrip_slash [] = []
rstrip_slash (c ∷ s) = let rest = rstrip_slash s in if all_slashes (c ∷ s) then [] else c ∷ rest

-- `text.lower()` on ASCII. No other letter becomes one of "exist", so the test below is exact.
unfoldable pub lower : Text → Text
lower [] = []
lower (c ∷ s) = (if leb b'A' c && leb c b'Z' then c + 32 else c) ∷ lower s

starts_with : Text → Text → Bool
unfolding list_eq
starts_with p s = list_eq (take (length p) s) p

-- `p in s`
unfoldable pub contains : Text → Text → Bool
unfolding starts_with
contains p [] = starts_with p []
contains p (c ∷ s) = starts_with p (c ∷ s) || contains p s

-- `db_config.get("load_path") or "bulk"`
abbrev or_bulk : Option Text → Text
or_bulk none = codes "bulk"
or_bulk (some []) = codes "bulk"
or_bulk (some (c ∷ s)) = c ∷ s

unfoldable pub parse_load_path : Text → Result LoadPath
unfolding list_eq
parse_load_path t =
    if list_eq t (codes "bulk")
    then ok bulk
    else if list_eq t (codes "payload")
    then ok payload
    else if list_eq t (codes "batch")
    then ok batch
    else err (runtime_error (unknown_load_path t))

-- `d.get(key, True)`
abbrev or_true : Option Bool → Bool
or_true none = true
or_true (some b) = b

-- The attributes that `__init__` sets before it talks to the server.
unfoldable pub attributes : ℕ → DbConfig → Text → Result Rostam
unfolding rstrip_slash parse_load_path
attributes dim config name = Errors.◌>>=◌ (Errors.or_raise config.url key_error) λ u.
    Errors.◌>>=◌ (parse_load_path (or_bulk config.load_path)) λ path. ok (record {
      dim = dim;
      collection_name = name;
      base = rstrip_slash u;
      api_key = config.api_key;
      load_path = path;
      query_filter = none;
      binary = or_true config.binary_wire;
      binary_proven = false;
      binary_query = or_true config.binary_query;
      binary_query_proven = false;
      filter_blob = [];
      session = none;
    })

-- `cfg`; `quant` is written only for a text that is not empty.
abbrev pub index_config : ℕ → IndexParam → Json
index_config dim idx = obj (
    field (codes "dim") (int (pos dim)) (
      field (codes "metric") (str idx.metric) (
        field (codes "m") (int (pos idx.m)) (
          field (codes "ef_construction") (int (pos idx.ef_construction)) (
            field (codes "ef_search") (int (pos idx.ef_search))
              (elim (idx.quant) [ [] ↦ end | c ∷ q ↦ field (codes "quant") (str (c ∷ q)) end ]))))))

-- What `_create` makes of the answer.
unfoldable pub created : Response → Result (Unit {0})
unfolding lower contains
created r =
    if r.status == 200 || r.status == 201
    then ok tt
    else if r.status == 409 || contains (codes "exist") (lower r.text)
    then err already_exists
    else err (runtime_error (create_failed r.status r.text))

module _ (server : Server) where
  unfoldable pub create : Session → ℕ → IndexParam → Action (Unit {0})
  unfolding send created
  create session dim idx = do
    target ← gets (λ self. url self [])
    name ← gets (λ self. self.collection_name)
    r ←
        send server session Method.post target
          (json (
            obj (
              field (codes "name") (str name) (field (codes "config") (index_config dim idx) end))))
          120
    (λ s. (created r, s))

  unfoldable pub drop_collection : Session → Action (Unit {0})
  unfolding send
  drop_collection session = do
    target ← gets (λ self. url self (self.collection_name ∷ []))
    _ ← send server session Method.delete target empty 60
    pure tt

  -- `except _AlreadyExists`
  abbrev pub reuse : Bool → Result (Unit {0}) × St → Result (Unit {0}) × St
  reuse drop_old (err already_exists, s) = (if drop_old then err already_exists else ok tt, s)
  reuse drop_old (r, s) = (r, s)

  -- The requests of `__init__`.
  unfoldable pub connect : Bool → IndexParam → Action (Unit {0})
  unfolding create drop_collection
  connect drop_old idx = do
    session ← gets new_session
    dim ← gets (λ self. self.dim)
    (if drop_old then drop_collection session else pure tt)
    λ s. reuse drop_old (create session dim idx s)

  -- What `__init__` makes of the attributes.
  abbrev pub finish : Result Rostam → Bool → IndexParam → Log → Result Rostam × Log
  finish (err e) drop_old idx log = (err e, log)
  finish (ok self) drop_old idx log =
      let (r, s) = connect drop_old idx (record { self = self; log = log }) in
      (Errors.◌>>=◌ r (λ _. ok s.self), s.log)

  -- `Rostam(dim, db_config, db_case_config, collection_name, drop_old)`
  unfoldable pub construct : ℕ → DbConfig → IndexParam → Text → Bool → Log → Result Rostam × Log
  unfolding attributes
  construct dim config idx name drop_old log = finish (attributes dim config name) drop_old idx log
