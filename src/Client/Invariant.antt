-- ===== src/Client/Invariant.antt =====
-- What holds of a client between calls, and that every method keeps it.
use rostam_bench.Base.{ℕ, ◌≡◌, inl, inr, true, Option, none, some, List, [], ◌∷◌, arith, length}
use rostam_bench.Base.Int.{ℤ}
use rostam_bench.Python.Errors.{Text, Bytes, map_result, Result-cases}
use rostam_bench.Python.Json.{Json, Fields, obj, to_int}
use rostam_bench.Python.Dumps.{dumps}
use rostam_bench.Numpy.{Numpy, Matrix}
use rostam_bench.Client.Http.{Server}
use rostam_bench.Client.State.{bulk, Session, Rostam, St, send}
use rostam_bench.Client.Insert.{
  post_json, after_binary, round, insert_loop, insert_url, starts, insert_embeddings, optimize,
}
use rostam_bench.Client.Filter.{Filter, prepare_filter, filter_json}
use rostam_bench.Client.Search.{search_embedding}
use rostam_bench.Client.Session.{sess}

module _ (float_repr : ℕ → Text) where
  -- The encoded filter is that of the filter tree, and empty where there is none.
  abbrev pub Synced : Option Json → Bytes → Type 0
  Synced none blob = blob ≡ []
  Synced (some f) blob = (fs : Fields) × (f ≡ obj fs) × (blob ≡ dumps float_repr f)

  pub record IsValid (c : Rostam) : Type 0 where
    pub proven_binary : c.binary_proven ≡ true → c.binary ≡ true
    pub proven_query : c.binary_query_proven ≡ true → c.binary_query ≡ true
    pub synced : Synced c.query_filter c.filter_blob
    pub no_payload : c.load_path ≡ bulk → c.query_filter ≡ none

  module _ (np : Numpy) (server : Server) where
    round-IsValid :
        (session : Session) (target : Text) (ids : List ℤ) (m : Matrix) (start : ℕ) (s : St)
        → IsValid s.self
        → IsValid (round np server session target ids m start s).1.self
    unfolding round post_json after_binary send
    round-IsValid session target ids m start s v = ground arith

    insert_loop-IsValid :
        (session : Session) (target : Text) (ids : List ℤ) (m : Matrix) (ss : List ℕ) (s : St)
        → IsValid s.self
        → IsValid (insert_loop np server session target ids m ss s).1.self
    unfolding insert_loop
    insert_loop-IsValid session target ids m [] s v = v
    insert_loop-IsValid session target ids m (start ∷ ss) s v = ground (
      arith,
      round-IsValid session target ids m start s v,
      insert_loop-IsValid session target ids m ss (round np server session target ids m start s).1,
    )

    pub insert-IsValid :
        (x : List (List ℕ)) (metadata : List Json) (s : St)
        → IsValid s.self
        → IsValid (insert_embeddings np server x metadata s).1.self
    unfolding insert_embeddings
    insert-IsValid x metadata s v = elim (Result-cases (map_result to_int metadata)) [
      | inr (e, p) ↦ rw p v
      | inl (ids, p) ↦ elim (Result-cases (np.matrix x)) [
        | inr (e, q) ↦ rw (p, q) v
        | inl (m, q) ↦
            rw (p, q)
              (ground (
                arith,
                insert_loop-IsValid (sess s.self) (insert_url s.self) ids m (starts (length ids)) s
                    v,
              ))
      ]
    ]

    pub search-IsValid :
        (q : List ℕ) (k : ℤ) (s : St)
        → IsValid s.self
        → IsValid (search_embedding np server q k s).1.self
    unfolding search_embedding
    search-IsValid q k s v = ground arith

    pub optimize-IsValid : (s : St) → IsValid s.self → IsValid (optimize server s).1.self
    unfolding optimize
    optimize-IsValid s v = ground arith

  pub prepare_filter-IsValid :
      (f : Filter) (s : St) → IsValid s.self → IsValid (prepare_filter float_repr f s).1.self
  unfolding prepare_filter filter_json
  prepare_filter-IsValid f s v = ground arith
