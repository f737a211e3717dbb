-- ===== src/Client/Calls.antt =====
-- The life of a client: it is constructed, and then used call by call inside `with client.init()`
-- blocks, whatever the calls return or raise.
use rostam_bench.Base.{ℕ, ◌≡◌, refl, inl, inr, Bool, none, some, List, [], ◌∷◌, arith}
use rostam_bench.Base.Int.{ℤ}
use rostam_bench.Python.Errors.{Text, ok, Result-cases}
use rostam_bench.Python.Json.{Json}
use rostam_bench.Numpy.{Numpy}
use rostam_bench.Config.{DbConfig, IndexParam}
use rostam_bench.Client.Http.{Log, Server}
use rostam_bench.Client.State.{Rostam, St}
use rostam_bench.Client.Session.{init, new_session}
use rostam_bench.Client.Create.{attributes, construct}
use rostam_bench.Client.Insert.{insert_embeddings, optimize}
use rostam_bench.Client.Connect.{connect-self}
use rostam_bench.Client.Filter.{Filter, prepare_filter}
use rostam_bench.Client.Search.{search_embedding}
use rostam_bench.Client.Invariant.{
  IsValid, insert-IsValid, search-IsValid, optimize-IsValid, prepare_filter-IsValid,
}

pub data Call : Type 0 where
  insert : List (List ℕ) → List Json → Call
  build : Call
  set_filter : Filter → Call
  query : List ℕ → ℤ → Call

module _ (float_repr : ℕ → Text) (np : Numpy) (server : Server) where
  -- The state after a call.
  unfoldable pub perform : Call → St → St
  perform (insert x metadata) s = (insert_embeddings np server x metadata s).1
  perform build s = (optimize server s).1
  perform (set_filter f) s = (prepare_filter float_repr f s).1
  perform (query q k) s = (search_embedding np server q k s).1

  unfoldable pub run : List Call → St → St
  unfolding perform
  run [] s = s
  run (c ∷ cs) s = run cs (perform c s)

  -- One `with client.init()` block for each list of calls.
  unfoldable pub run_sessions : List (List Call) → St → St
  unfolding init run
  run_sessions [] s = s
  run_sessions (cs ∷ css) s = run_sessions css (init {A = Unit {0}} (λ t. (ok tt, run cs t)) s).1

  perform-IsValid :
      (c : Call) (s : St) → IsValid float_repr s.self → IsValid float_repr (perform c s).self
  unfolding perform
  perform-IsValid (insert x metadata) s v = insert-IsValid float_repr np server x metadata s v
  perform-IsValid build s v = optimize-IsValid float_repr np server s v
  perform-IsValid (set_filter f) s v = prepare_filter-IsValid float_repr f s v
  perform-IsValid (query q k) s v = search-IsValid float_repr np server q k s v

  run-IsValid :
      (cs : List Call) (s : St) → IsValid float_repr s.self → IsValid float_repr (run cs s).self
  unfolding run
  run-IsValid [] s v = v
  run-IsValid (c ∷ cs) s v = run-IsValid cs (perform c s) (perform-IsValid c s v)

  -- Between the blocks the client has no session.
  abbrev IsIdle : Rostam → Type 0
  IsIdle self = IsValid float_repr self × (self.session ≡ none)

  init-IsIdle :
      (cs : List Call) (s : St)
      → IsValid float_repr s.self
      → IsIdle (init {A = Unit {0}} (λ t. (ok tt, run cs t)) s).1.self
  unfolding init
  init-IsIdle cs s v = (ground (arith, run-IsValid cs entered (ground arith)), refl)
    where
      entered : St
      entered = record s { self = record (s.self) { session = some (new_session s.self) } }

  run_sessions-IsIdle :
      (css : List (List Call)) (s : St) → IsIdle s.self → IsIdle (run_sessions css s).self
  unfolding run_sessions
  run_sessions-IsIdle [] s h = h
  run_sessions-IsIdle (cs ∷ css) s h =
      run_sessions-IsIdle css (init {A = Unit {0}} (λ t. (ok tt, run cs t)) s).1
        (init-IsIdle cs s h.0)

  attributes-IsIdle :
      (dim : ℕ) (config : DbConfig) (name : Text) (self : Rostam)
      → attributes dim config name ≡ ok self
      → IsIdle self
  unfolding attributes
  attributes-IsIdle dim config name self e = ground arith

  construct-IsIdle :
      (dim : ℕ) (config : DbConfig) (idx : IndexParam) (name : Text) (drop_old : Bool) (log : Log)
      (self : Rostam)
      → (construct server dim config idx name drop_old log).0 ≡ ok self
      → IsIdle self
  unfolding construct
  construct-IsIdle dim config idx name drop_old log self e =
      elim (Result-cases (attributes dim config name)) [
        | inr (x, p) ↦ absurd (ground (arith, p))
        | inl (fresh, p) ↦ ground (
          arith,
          attributes-IsIdle dim config name fresh p,
          connect-self server drop_old idx (record { self = fresh; log = log }),
        )
      ]

  -- A client that was constructed, and then used in any number of sessions with any calls in each,
  -- has no session left and is in a valid state: a wire that is proven is on, the encoded filter is
  -- that of the filter tree, and a client that stores no payload has no filter.
  pub run_sessions-construct :
      (dim : ℕ) (config : DbConfig) (idx : IndexParam) (name : Text) (drop_old : Bool) (log : Log)
      (css : List (List Call)) (self : Rostam)
      → (construct server dim config idx name drop_old log).0 ≡ ok self
      → let s =
          run_sessions css
            (record { self = self; log = (construct server dim config idx name drop_old log).1 }) in
        IsValid float_repr s.self × (s.self.session ≡ none)
  run_sessions-construct dim config idx name drop_old log css self e =
      run_sessions-IsIdle css
        (record { self = self; log = (construct server dim config idx name drop_old log).1 })
        (construct-IsIdle dim config idx name drop_old log self e)
