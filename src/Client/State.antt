-- ===== src/Client/State.antt =====
-- The attributes of a `Rostam` object, and method calls as a monad: the object, the exchanges so
-- far, and an exception. What a method wrote before it raised stays written.
use rostam_bench.Base.{ℕ, Bool, Option, [], ◌∷◌, ◌++◌}
use rostam_bench.Python.Errors.{Text, Bytes, Result, ok, err, Exn, transport}
use rostam_bench.Python.Json.{Json}
use rostam_bench.Client.Http.{Method, Body, Request, Response, Reply, answered, failed, Log, Server}

pub data LoadPath : Type 0 where
  bulk payload batch : LoadPath

-- `requests.Session`: the header that the client sets on it.
pub record Session : Type 0 where
  pub authorization : Option Text

pub record Rostam : Type 0 where
  pub dim : ℕ
  pub collection_name : Text
  pub base : Text
  pub api_key : Option Text
  pub load_path : LoadPath
  pub query_filter : Option Json
  pub binary : Bool
  pub binary_proven : Bool
  pub binary_query : Bool
  pub binary_query_proven : Bool
  pub filter_blob : Bytes
  pub session : Option Session

pub record St : Type 0 where
  pub self : Rostam
  pub log : Log

abbrev pub Action {ℓ} : Type ℓ → Type ℓ
Action A = St → Result A × St

abbrev pub pure {ℓ} : {A : Type ℓ} → A → Action A
pure a s = (ok a, s)

abbrev pub raise {ℓ} : {A : Type ℓ} → Exn → Action A
raise e s = (err e, s)

-- A step that leaves the object alone and may raise.
abbrev pub lift {ℓ} : {A : Type ℓ} → Result A → Action A
lift r s = (r, s)

abbrev pub gets {ℓ} : {A : Type ℓ} → (Rostam → A) → Action A
gets f s = (ok (f s.self), s)

abbrev pub modify : (Rostam → Rostam) → Action (Unit {0})
modify f s = (ok tt, record s { self = f s.self })

infixl 5 ◌>>=◌ ◌>>◌
abbrev pub ◌>>=◌ {ℓ κ} : {A : Type ℓ} {B : Type κ} → Action A → (A → Action B) → Action B
◌>>=◌ m f s = let (r, s') = m s in elim r [ ok a ↦ f a s' | err e ↦ (err e, s') ]

abbrev pub ◌>>◌ {ℓ κ} : {A : Type ℓ} {B : Type κ} → Action A → Action B → Action B
m >> k = m >>= λ _. k

-- What a call of `requests` does with the reply.
abbrev pub received : Reply → Result Response
received (answered r) = ok r
received failed = err transport

module _ (server : Server) where
  -- `s.post(…)` or `s.delete(…)` on the session `s`.
  unfoldable pub send : Session → Method → Text → Body → ℕ → Action Response
  send session method url body timeout s =
      let request : Request = record {
        method = method;
        url = url;
        authorization = session.authorization;
        body = body;
        timeout = timeout;
      } in
      let reply = server s.log request in
      (received reply, record s { log = s.log ++ ((request, reply) ∷ []) })
