-- ===== src/Client/Fresh.antt =====
-- What `__init__` of vectordbbench/rostam/rostam.py leaves on the server's side: which requests it
-- sends, and what their answers must have been.
use rostam_bench.Base.{
  ℕ, ◌≡◌, refl, ap, sym, ◌∙◌, ◌⊎◌, inl, inr, Bool, true, false, [], ◌∷◌, ◌++◌, arith,
}
use rostam_bench.Python.Errors.{Text, Result, ok, err, Result-cases, Exn, already_exists, transport}
use rostam_bench.Python.Errors
use rostam_bench.Config.{DbConfig, IndexParam}
use rostam_bench.Client.Http.{Exchange, Log, Server}
use rostam_bench.Client.State.{Rostam, St}
use rostam_bench.Client.Create.{attributes, finish, connect, construct}
use rostam_bench.Client.Connect.{
  Creates, Drops, IsMade, IsTaken, connect-fresh, connect-reuse, connect-self,
}

module _ (server : Server) where
  was_ok :
      (r : Result (Unit {0})) (c self : Rostam) → Errors.◌>>=◌ r (λ _. ok c) ≡ ok self → r ≡ ok tt
  was_ok (ok tt) c self e = refl
  was_ok (err x) c self e = absurd (ground arith)

  settled :
      (drop_old : Bool) (idx : IndexParam) (log : Log) (fresh : Rostam) (a : Result Rostam)
      → a ≡ ok fresh
      → (self : Rostam)
      → let s : St = record { self = fresh; log = log } in
        (finish server a drop_old idx log).0 ≡ ok self
        → ((connect server drop_old idx s).0 ≡ ok tt)
          × ((finish server a drop_old idx log).1 ≡ (connect server drop_old idx s).1.log)
  settled drop_old idx log fresh (err x) p self e = absurd (ground (arith, p))
  settled drop_old idx log fresh (ok c) p self e =
      let same : c ≡ fresh = ground (arith, p) in
      let s : St = record { self = c; log = log } in
      (
        ap (λ k. (connect server drop_old idx (record { self = k; log = log })).0) (sym same)
            ∙ was_ok (connect server drop_old idx s).0 (connect server drop_old idx s).1.self self
                e,
        ap (λ k. (connect server drop_old idx (record { self = k; log = log })).1.log) same,
      )

  built :
      (dim : ℕ) (config : DbConfig) (idx : IndexParam) (name : Text) (drop_old : Bool) (log : Log)
      (self : Rostam)
      → (construct server dim config idx name drop_old log).0 ≡ ok self
      → let s : St = record { self = self; log = log } in
        ((connect server drop_old idx s).0 ≡ ok tt)
        × ((construct server dim config idx name drop_old log).1
            ≡ (connect server drop_old idx s).1.log)
  unfolding construct
  built dim config idx name drop_old log self e = elim (Result-cases (attributes dim config name)) [
    | inr (x, p) ↦ absurd (ground (arith, p))
    | inl (fresh, p) ↦
        let same = connect-self server drop_old idx (record { self = fresh; log = log }) in
        let known : fresh ≡ self = ground (arith, p, same) in
        let (good, logged) = settled drop_old idx log fresh (attributes dim config name) p self e in
        (
          ap (λ c. (connect server drop_old idx (record { self = c; log = log })).0) (sym known)
              ∙ good,
          logged
              ∙ ap (λ c. (connect server drop_old idx (record { self = c; log = log })).1.log)
                  known,
        )
  ]

  -- A client that was constructed is made of the attributes of its settings.
  pub construct-attributes :
      (dim : ℕ) (config : DbConfig) (idx : IndexParam) (name : Text) (drop_old : Bool) (log : Log)
      (self : Rostam)
      → (construct server dim config idx name drop_old log).0 ≡ ok self
      → attributes dim config name ≡ ok self
  unfolding construct
  construct-attributes dim config idx name drop_old log self e =
      elim (Result-cases (attributes dim config name)) [
        | inr (x, p) ↦ absurd (ground (arith, p))
        | inl (fresh, p) ↦
            ground (arith, p, connect-self server drop_old idx (record { self = fresh; log = log }))
      ]

  -- Whatever the server, a client that was constructed with `drop_old` sent two requests, the deletion
  -- of its collection and then its creation, and the server said that it made the collection.
  pub construct-fresh :
      (dim : ℕ) (config : DbConfig) (idx : IndexParam) (name : Text) (log : Log) (self : Rostam)
      → (construct server dim config idx name true log).0 ≡ ok self
      → (x : Exchange) × (y : Exchange) × ((construct server dim config idx name true log).1
          ≡ log ++ (x ∷ y ∷ []))
        × Drops self x.0
        × Creates self idx y.0
        × IsMade y.1
  construct-fresh dim config idx name log self e =
      let (good, logged) = built dim config idx name true log self e in
      let (x, y, sent, drops, creates, is_made) =
        connect-fresh server idx (record { self = self; log = log }) good in
      (x, y, logged ∙ sent, drops, creates, is_made)

  -- Whatever the server, a client that was constructed without `drop_old` sent the creation of its
  -- collection and nothing else, and the server said that it made the collection, or answered 409 or
  -- with a text that has "exist" in it.
  pub construct-reuse :
      (dim : ℕ) (config : DbConfig) (idx : IndexParam) (name : Text) (log : Log) (self : Rostam)
      → (construct server dim config idx name false log).0 ≡ ok self
      → (y : Exchange) × ((construct server dim config idx name false log).1 ≡ log ++ (y ∷ []))
        × Creates self idx y.0
        × (IsMade y.1 ⊎ IsTaken y.1)
  construct-reuse dim config idx name log self e =
      let (good, logged) = built dim config idx name false log self e in
      let (y, sent, creates, said) =
        connect-reuse server idx (record { self = self; log = log }) good in
      (y, logged ∙ sent, creates, said)
