-- ===== src/Client/Fallback.antt =====
-- Which wire `insert_embeddings` speaks: binary first, then JSON for good, and never JSON once a
-- binary request has succeeded.
use rostam_bench.Base.{
  ℕ, ◌+◌, ◌≡◌, refl, ap, inl, inr, Bool, true, false, not, ◌&&◌, Option, none, some, List, [], ◌∷◌,
  ◌++◌, arith, Bool-cases, ◌==◌, length, min, if◌then◌else◌,
}
use rostam_bench.Base.Int.{ℤ}
use rostam_bench.Python.Errors.{Text, Bytes, Result, ok, err, Exn, map_result}
use rostam_bench.Python.Json.{Json, to_int}
use rostam_bench.Client.Session.{sess}
use rostam_bench.Numpy.{Numpy, Matrix}
use rostam_bench.Wire.Bulk.{binary_body}
use rostam_bench.Client.Http.{Method, Body, json, octets, Response, Exchange, Server, unsupported}
use rostam_bench.Client.State.{Session, Rostam, St, Action, send, lift, gets, pure, ◌>>=◌}
use rostam_bench.Client.Insert.{
  Round, post_json, after_binary, round, insert_loop, inline, payload_path, json_body, slice,
  slice_rows, insert_batch, insert_embeddings, insert_url, starts, caught,
}
use rostam_bench.Client.Sent.{
  IsOctets, IsJson, Sent, Sent-nothing, Sent-trans, Sent-json, Sent-binary,
}

module _ (np : Numpy) (server : Server) where
  send-log :
      (session : Session) (method : Method) (url : Text) (body : Body) (timeout : ℕ) (s : St)
      → (x : Exchange) × ((send server session method url body timeout s).1.log ≡ s.log ++ (x ∷ []))
        × ((send server session method url body timeout s).1.self ≡ s.self)
        × (x.0.body ≡ body)
  unfolding send
  send-log session method url body timeout s = (_, refl, refl, refl)

  post_json-Sent :
      (session : Session) (target : Text) (self : Rostam) (start : ℕ) (ids : List ℤ) (m : Matrix)
      (s : St)
      → s.self.binary ≡ false
      → Sent s (post_json np server session target self start ids m s).1
  unfolding post_json
  post_json-Sent session target self start ids m s off =
      Sent-json s _ sent.0 off (rw state sent.2) (rw state sent.1) (rw (sent.3, IsJson) tt)
    where
      call : Json
      call = json_body np ids m (payload_path self.load_path) (inline self.load_path)

      sent :
          (x : Exchange) × ((send server session Method.post target (json call) 600 s).1.log
            ≡ s.log ++ (x ∷ []))
          × ((send server session Method.post target (json call) 600 s).1.self ≡ s.self)
          × (x.0.body ≡ json call)
      sent = send-log session Method.post target (json call) 600 s

      state :
          (post_json np server session target self start ids m s).1
          ≡ (send server session Method.post target (json call) 600 s).1
      state = ground arith

  after_binary-Sent :
      (fallback : Action Round) (start : ℕ) (r : Response) (s t : St) (x : Exchange)
      → s.self.binary ≡ true
      → t.self ≡ s.self
      → t.log ≡ s.log ++ (x ∷ [])
      → IsOctets x
      → ((u : St) → u.self.binary ≡ false → Sent u (fallback u).1)
      → Sent s (after_binary np server fallback start r t).1
  unfolding after_binary
  after_binary-Sent fallback start r s t x on same log oct back =
      elim (Bool-cases (unsupported r.status && not t.self.binary_proven)) [
        | inl gone ↦ rw gone (
            Sent-trans
              (Sent-binary s (record t { self = record (t.self) { binary = false } }) x on log oct
                (λ p. absurd (ground (arith, proven))))
              (back (record t { self = record (t.self) { binary = false } }) refl))
        | inr kept ↦ rw kept (elim (Bool-cases (r.status == 200)) [
          | inl good ↦ rw good (
              Sent-binary s (record t { self = record (t.self) { binary_proven = true } }) x on log
                oct (λ p. (rw (same, on), refl)))
          | inr bad ↦ rw bad (Sent-binary s t x on log oct (λ p. (rw (same, on), rw (same, p))))
        ])
      ]
    where
      proven : t.self.binary_proven ≡ s.self.binary_proven
      proven = ap (λ (c : Rostam). c.binary_proven) same

  reply-Sent :
      (fallback : Action Round) (start : ℕ) (s : St) (r : Result Response) (t : St) (x : Exchange)
      → s.self.binary ≡ true
      → t.self ≡ s.self
      → t.log ≡ s.log ++ (x ∷ [])
      → IsOctets x
      → ((u : St) → u.self.binary ≡ false → Sent u (fallback u).1)
      → Sent s (((λ u. (r, t)) >>= after_binary np server fallback start) s).1
  reply-Sent fallback start s (ok r) t x on same log oct back =
      after_binary-Sent fallback start r s t x on same log oct back
  reply-Sent fallback start s (err e) t x on same log oct back =
      Sent-binary s t x on log oct (λ p. (rw (same, on), rw (same, p)))

  binary-Sent :
      (session : Session) (target : Text) (body : Bytes) (fallback : Action Round) (start : ℕ)
      (s : St)
      → s.self.binary ≡ true
      → ((u : St) → u.self.binary ≡ false → Sent u (fallback u).1)
      → Sent s
          ((send server session Method.post target (octets body) 600
              >>= after_binary np server fallback start)
            s).1
  binary-Sent session target body fallback start s on back =
      let (x, log, same, is_body) = send-log session Method.post target (octets body) 600 s in
      reply-Sent fallback start s (send server session Method.post target (octets body) 600 s).0
        (send server session Method.post target (octets body) 600 s).1 x on same log
        (rw (is_body, IsOctets) tt) back

  -- The binary post with its body, which is not sent if the encoding raises.
  packed-Sent :
      (packed : Result Bytes) (session : Session) (target : Text) (fallback : Action Round)
      (start : ℕ) (s : St)
      → s.self.binary ≡ true
      → ((u : St) → u.self.binary ≡ false → Sent u (fallback u).1)
      → Sent s
          ((lift packed >>= λ body.
              send server session Method.post target (octets body) 600
              >>= after_binary np server fallback start)
            s).1
  packed-Sent (ok body) session target fallback start s on back =
      binary-Sent session target body fallback start s on back
  packed-Sent (err e) session target fallback start s on back = Sent-nothing s

  either-Sent :
      (b : Bool) (s : St) (x y : Action Round)
      → (b ≡ true → Sent s (x s).1)
      → (b ≡ false → Sent s (y s).1)
      → Sent s ((if b then x else y) s).1
  either-Sent true s x y hx hy = hx refl
  either-Sent false s x y hx hy = hy refl

  caught-Sent :
      {s : St} (r : Result (ℕ × Option Exn)) (t : St)
      → Sent s t
      → Sent s (caught np server (λ u. (r, t)) s).1
  caught-Sent (ok a) t h = h
  caught-Sent (err e) t h = h

  round-Sent :
      (session : Session) (target : Text) (ids : List ℤ) (m : Matrix) (start : ℕ) (s : St)
      → Sent s (round np server session target ids m start s).1
  unfolding round
  round-Sent session target ids m start s =
      either-Sent s.self.binary s _ fallback
        (λ on.
          packed-Sent
            (binary_body np chunk_ids chunk (inline s.self.load_path)
              (payload_path s.self.load_path))
            session target fallback start s on by_json)
        (by_json s)
    where
      stop : ℕ
      stop = min (start + insert_batch) (length ids)

      chunk_ids : List ℤ
      chunk_ids = slice start stop ids

      chunk : Matrix
      chunk = slice_rows start stop m

      fallback : Action Round
      fallback = post_json np server session target s.self start chunk_ids chunk

      by_json : (u : St) → u.self.binary ≡ false → Sent u (fallback u).1
      by_json u = post_json-Sent session target s.self start chunk_ids chunk u

  next-Sent :
      (k : Action (ℕ × Option Exn)) (s : St) (r : Result Round) (t : St)
      → Sent s t
      → Sent t (k t).1
      → Sent s
          (((λ u. (r, t)) >>= λ result. elim result [
            | none ↦ k
            | some (count, e) ↦ pure (count, some e)
          ])
            s).1
  next-Sent k s (ok none) t a b = Sent-trans a b
  next-Sent k s (ok (some (c, e))) t a b = a
  next-Sent k s (err e) t a b = a

  insert_loop-Sent :
      (session : Session) (target : Text) (ids : List ℤ) (m : Matrix) (ss : List ℕ) (s : St)
      → Sent s (insert_loop np server session target ids m ss s).1
  unfolding insert_loop
  insert_loop-Sent session target ids m [] s = Sent-nothing s
  insert_loop-Sent session target ids m (start ∷ ss) s =
      let done = round np server session target ids m start s in
      next-Sent (insert_loop np server session target ids m ss) s done.0 done.1
        (round-Sent session target ids m start s) (insert_loop-Sent session target ids m ss done.1)

  -- Whatever the input and the server, the exchanges of a load are first binary ones and then ones in
  -- JSON. A client that is off the binary wire sends no binary body and stays off, JSON is sent only
  -- by a client that is off at the end, and one that was on and proven sends no JSON and stays so.
  pub insert_embeddings-Sent :
      (x : List (List ℕ)) (metadata : List Json) (s : St)
      → Sent s (insert_embeddings np server x metadata s).1
  unfolding insert_embeddings
  insert_embeddings-Sent x metadata s = loaded-Sent (map_result to_int metadata) (np.matrix x)
    where
      loaded-Sent :
          (ids : Result (List ℤ)) (rows : Result Matrix)
          → Sent s
              ((lift ids >>= λ is. gets sess >>= λ session. gets insert_url >>= λ target.
                  lift rows >>= λ m.
                  caught np server (insert_loop np server session target is m (starts (length is))))
                s).1
      loaded-Sent (err e) rows = Sent-nothing s
      loaded-Sent (ok is) (err e) = Sent-nothing s
      loaded-Sent (ok is) (ok m) =
          let looped =
            insert_loop np server (sess s.self) (insert_url s.self) is m (starts (length is)) s in
          caught-Sent looped.0 looped.1
            (insert_loop-Sent (sess s.self) (insert_url s.self) is m (starts (length is)) s)
