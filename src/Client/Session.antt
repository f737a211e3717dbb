-- ===== src/Client/Session.antt =====
-- `_new_session`, `init`, `_sess` and `_url` of vectordbbench/rostam/rostam.py.
use rostam_bench.Base.{Option, none, some, List, [], ◌∷◌, ◌++◌}
use rostam_bench.Python.Errors.{Text}
use rostam_bench.Python.Dumps.{codes}
use rostam_bench.Client.State.{Session, Rostam, Action}

-- An empty key counts as no key.
abbrev pub bearer : Option Text → Option Text
bearer (some (c ∷ key)) = some (codes "Bearer " ++ (c ∷ key))
bearer o = none

abbrev pub new_session : Rostam → Session
new_session self = record { authorization = bearer self.api_key }

-- `with self.init(): body`. The session is dropped however the body ends.
unfoldable pub init {ℓ} : {A : Type ℓ} → Action A → Action A
init body s =
    let (r, s') =
      body (record s { self = record (s.self) { session = some (new_session s.self) } }) in
    (r, record s' { self = record (s'.self) { session = none } })

abbrev session_or : Option Session → Session → Session
session_or none fresh = fresh
session_or (some s) fresh = s

abbrev pub sess : Rostam → Session
sess self = session_or self.session (new_session self)

-- `"/".join(parts)`
unfoldable pub join_path : Text → List Text → Text
join_path first [] = first
join_path first (p ∷ ps) = first ++ (b'/' ∷ join_path p ps)

abbrev pub url : Rostam → List Text → Text
url self parts = join_path self.base (codes "v1" ∷ codes "collections" ∷ parts)
