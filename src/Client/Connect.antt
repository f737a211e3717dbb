-- ===== src/Client/Connect.antt =====
-- The requests of `connect`, which is the connecting part of `__init__` of
-- vectordbbench/rostam/rostam.py: what it sends, and what the answers must have been.
use rostam_bench.Base.{
  ℕ, ◌≡◌, refl, ap, sym, ◌∙◌, ◌⊎◌, inl, inr, Bool, true, false, [], ◌∷◌, ◌++◌, arith, append_assoc,
}
use rostam_bench.Python.Errors.{Text, Result, ok, err, already_exists, transport}
use rostam_bench.Python.Json.{str, obj, end, field}
use rostam_bench.Python.Dumps.{codes}
use rostam_bench.Config.{IndexParam}
use rostam_bench.Client.Http.{
  Method, Body, json, empty, Request, answered, failed, Reply, Exchange, Log, Server,
}
use rostam_bench.Client.State.{Rostam, Session, St, send, received, ◌>>=◌, ◌>>◌, pure}
use rostam_bench.Client.Session.{url, new_session}
use rostam_bench.Client.Create.{
  index_config, created, create, drop_collection, reuse, connect, contains, lower,
}

-- The create request of a client.
abbrev pub create_body : Rostam → IndexParam → Body
create_body self idx = json (
    obj (
      field (codes "name") (str self.collection_name)
        (field (codes "config") (index_config self.dim idx) end)))

abbrev pub Creates : Rostam → IndexParam → Request → Type 0
Creates self idx r =
    (r.method ≡ Method.post) × (r.url ≡ url self []) × (r.body ≡ create_body self idx)

abbrev pub Drops : Rostam → Request → Type 0
Drops self r =
    (r.method ≡ Method.delete) × (r.url ≡ url self (self.collection_name ∷ [])) × (r.body ≡ empty)

-- The server said that it made the collection.
abbrev pub IsMade : Reply → Type 0
IsMade (answered r) = (r.status ≡ 200) ⊎ (r.status ≡ 201)
IsMade failed = ⊥

-- The server said that the collection is there, or an error whose text has "exist" in it.
abbrev pub IsTaken : Reply → Type 0
IsTaken (answered r) = (r.status ≡ 409) ⊎ (contains (codes "exist") (lower r.text) ≡ true)
IsTaken failed = ⊥

-- What the create call returns for an answer.
abbrev answer : Reply → Result (Unit {0})
answer (answered r) = created r
answer failed = err transport

answer-IsMade : (r : Reply) → answer r ≡ ok tt → IsMade r
unfolding created
answer-IsMade (answered r) e = ground arith
answer-IsMade failed e = absurd (ground arith)

answer-IsTaken : (r : Reply) → answer r ≡ err already_exists → IsTaken r
unfolding created
answer-IsTaken (answered r) e = ground arith
answer-IsTaken failed e = absurd (ground arith)

step : (r : Reply) (t s : St) → ((λ u. (received r, t)) >>= λ x v. (created x, v)) s ≡ (answer r, t)
step (answered r) t s = refl
step failed t s = refl

module _ (server : Server) where
  abbrev exchange : Session → Method → Text → Body → ℕ → Log → Exchange
  exchange session method target body timeout log =
      let request : Request = record {
        method = method;
        url = target;
        authorization = session.authorization;
        body = body;
        timeout = timeout;
      } in
      (request, server log request)

  abbrev create_exchange : Session → IndexParam → St → Exchange
  create_exchange session idx s =
      exchange session Method.post (url s.self []) (create_body s.self idx) 120 s.log

  abbrev drop_exchange : Session → St → Exchange
  drop_exchange session s =
      exchange session Method.delete (url s.self (s.self.collection_name ∷ [])) empty 60 s.log

  create-sent :
      (session : Session) (idx : IndexParam) (s : St)
      → (y : Exchange) × (create server session s.self.dim idx s
          ≡ (answer y.1, record s { log = s.log ++ (y ∷ []) }))
        × Creates s.self idx y.0
  unfolding create send
  create-sent session idx s = (
    create_exchange session idx s,
    step (create_exchange session idx s).1
        (record s { log = s.log ++ (create_exchange session idx s ∷ []) }) s,
    (refl, refl, refl),
  )

  drop_step :
      (r : Reply) (t s : St)
      (e : (((λ u. (received r, t)) >>= λ x. pure {A = Unit {0}} tt) s).0 ≡ ok tt)
      → ((λ u. (received r, t)) >>= λ x. pure {A = Unit {0}} tt) s ≡ (ok tt, t)
  drop_step (answered r) t s e = refl
  drop_step failed t s e = absurd (ground arith)

  drop_collection-sent :
      (session : Session) (s : St)
      → (drop_collection server session s).0 ≡ ok tt
      → (x : Exchange) × (drop_collection server session s
          ≡ (ok tt, record s { log = s.log ++ (x ∷ []) }))
        × Drops s.self x.0
  unfolding drop_collection send
  drop_collection-sent session s e = (
    drop_exchange session s,
    drop_step (drop_exchange session s).1
        (record s { log = s.log ++ (drop_exchange session s ∷ []) }) s e,
    (refl, refl, refl),
  )

  reused :
      (drop_old : Bool) (r : Result (Unit {0})) (s : St)
      → (reuse server drop_old (r, s)).0 ≡ ok tt
      → (r ≡ ok tt) ⊎ ((drop_old ≡ false) × (r ≡ err already_exists))
  reused drop_old (ok tt) s e = inl refl
  reused true (err already_exists) s e = absurd (ground arith)
  reused false (err already_exists) s e = inr (refl, refl)
  reused drop_old (err x) s e = absurd (ground arith)

  made :
      (drop_old : Bool) (y : Exchange) (t : St)
      → (reuse server drop_old (answer y.1, t)).0 ≡ ok tt
      → ((reuse server drop_old (answer y.1, t)).1 ≡ t)
        × (IsMade y.1 ⊎ ((drop_old ≡ false) × IsTaken y.1))
  made drop_old y t e = elim (reused drop_old (answer y.1) t e) [
    | inl good ↦ (rw good refl, inl (answer-IsMade y.1 good))
    | inr (off, taken) ↦ (rw (off, taken) refl, inr (off, answer-IsTaken y.1 taken))
  ]

  created_after :
      (drop_old : Bool) (session : Session) (idx : IndexParam) (t : St)
      → (reuse server drop_old (create server session t.self.dim idx t)).0 ≡ ok tt
      → (y : Exchange) × ((reuse server drop_old (create server session t.self.dim idx t)).1.log
          ≡ t.log ++ (y ∷ []))
        × Creates t.self idx y.0
        × (IsMade y.1 ⊎ ((drop_old ≡ false) × IsTaken y.1))
  created_after drop_old session idx t e =
      let (y, sent, creates) = create-sent session idx t in
      let (same, said) = made drop_old y _ (ap (λ r. (reuse server drop_old r).0) (sym sent) ∙ e) in
      (
        y,
        ap (λ r. (reuse server drop_old r).1.log) sent ∙ ap (λ (u : St). u.log) same,
        creates,
        said,
      )

  first_ok :
      (d : Result (Unit {0}) × St) (k : St → Result (Unit {0}) × St) (s : St)
      → (((λ u. d) >> k) s).0 ≡ ok tt
      → d.0 ≡ ok tt
  first_ok (ok tt, t) k s e = refl
  first_ok (err x, t) k s e = absurd (ground arith)

  pub connect-fresh :
      (idx : IndexParam) (s : St)
      → (connect server true idx s).0 ≡ ok tt
      → (x : Exchange) × (y : Exchange) × ((connect server true idx s).1.log
          ≡ s.log ++ (x ∷ y ∷ []))
        × Drops s.self x.0
        × Creates s.self idx y.0
        × IsMade y.1
  unfolding connect
  connect-fresh idx s e =
      let (x, dropped, drops) =
        drop_collection-sent (new_session s.self) s
          (first_ok (drop_collection server (new_session s.self) s) rest s e) in
      let t : St = record s { log = s.log ++ (x ∷ []) } in
      let whole : connect server true idx s ≡ rest t = ap (λ d. ((λ u. d) >> rest) s) dropped in
      let (y, log, creates, said) =
        created_after true (new_session s.self) idx t (ap (λ r. r.0) (sym whole) ∙ e) in
      (
        x,
        y,
        ap (λ (r : Result (Unit {0}) × St). r.1.log) whole
            ∙ log
            ∙ append_assoc s.log (x ∷ []) (y ∷ []),
        drops,
        creates,
        elim said [ inl m ↦ m | inr (off, k) ↦ absurd (ground (arith, off)) ],
      )
    where
      rest : St → Result (Unit {0}) × St
      rest u = reuse server true (create server (new_session s.self) s.self.dim idx u)

  pub connect-reuse :
      (idx : IndexParam) (s : St)
      → (connect server false idx s).0 ≡ ok tt
      → (y : Exchange) × ((connect server false idx s).1.log ≡ s.log ++ (y ∷ []))
        × Creates s.self idx y.0
        × (IsMade y.1 ⊎ IsTaken y.1)
  unfolding connect
  connect-reuse idx s e =
      let (y, log, creates, said) = created_after false (new_session s.self) idx s e in
      (y, log, creates, elim said [ inl m ↦ inl m | inr (_, k) ↦ inr k ])

  pub connect-self :
      (drop_old : Bool) (idx : IndexParam) (s : St)
      → (connect server drop_old idx s).1.self ≡ s.self
  unfolding connect create drop_collection send
  connect-self drop_old idx s = ground arith
