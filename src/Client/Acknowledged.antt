-- ===== src/Client/Acknowledged.antt =====
-- What a receiver that goes by the documented formats makes of the bodies, and which points the
-- server has acknowledged in a sequence of exchanges.
use rostam_bench.Base.{
  ℕ, ◌≡◌, refl, ap, ◌∙◌, Bool, Option, none, some, List, [], ◌∷◌, ◌++◌, arith, map, zip, All, ◌==◌,
  if◌then◌else◌, append_assoc, append-nil,
}
use rostam_bench.Base.Int.{pos}
use rostam_bench.Python.Errors.{Text, Bytes, Result, ok, err, transport}
use rostam_bench.Python.Json.{Json, Items, nil, cons, int, real, arr, subscript, items}
use rostam_bench.Python.Dumps.{codes}
use rostam_bench.Numpy.{Numpy, Matrix, IsNumber, IsLawful, IsF32}
use rostam_bench.Wire.Layout.{Bulk, parse_bulk, ◌>>=◌}
use rostam_bench.Client.Http.{
  Method, Body, json, octets, empty, Request, Response, Reply, answered, failed, Exchange, Log,
  Server,
}
use rostam_bench.Client.State.{Session, St, send}
use rostam_bench.Client.Insert.{point_json, json_body}

abbrev pub Points : Type 0
Points = List (ℕ × List ℕ)

abbrev pub member : Text → Json → Option Json
member k j = elim (subscript k j) [ ok v ↦ some v | err e ↦ none ]

module _ (np : Numpy) where
  -- A vector of JSON numbers, as float32 values.
  unfoldable pub read_vector : Items → Option (List ℕ)
  read_vector nil = some []
  read_vector (cons (real x) xs) = do v ← read_vector xs; some (np.narrow x ∷ v)
  read_vector (cons j xs) = none

  abbrev read_point : Json → Json → Option (ℕ × List ℕ)
  read_point (int (pos i)) (arr xs) = do v ← read_vector xs; some (i, v)
  read_point i v = none

  unfoldable pub read_points : Items → Option Points
  read_points nil = some []
  read_points (cons j js) = do
    i ← member (codes "id") j
    v ← member (codes "vector") j
    p ← read_point i v
    ps ← read_points js
    some (p ∷ ps)

  abbrev read_list : Json → Option Points
  read_list (arr js) = read_points js
  read_list j = none

  -- The points that a body carries.
  unfoldable pub points_of : Body → Points
  points_of (octets b) = elim (parse_bulk b) [ none ↦ [] | some k ↦ k.points ]
  points_of (json j) = elim (member (codes "points") j >>= read_list) [ none ↦ [] | some ps ↦ ps ]
  points_of empty = []

  -- A reply with status 200 acknowledges the points of its request.
  abbrev pub gain : Result Response → Body → Points
  gain (ok r) body = if r.status == 200 then points_of body else []
  gain (err e) body = []

  abbrev gain_reply : Exchange → Points
  gain_reply (request, answered r) = if r.status == 200 then points_of request.body else []
  gain_reply (request, failed) = []

  unfoldable pub acknowledged : Log → Points
  acknowledged [] = []
  acknowledged (e ∷ log) = gain_reply e ++ acknowledged log

  acknowledged-append : (l k : Log) → acknowledged (l ++ k) ≡ acknowledged l ++ acknowledged k
  unfolding acknowledged
  acknowledged-append [] k = refl
  acknowledged-append (e ∷ l) k =
      ap (λ t. gain_reply e ++ t) (acknowledged-append l k)
      ∙ rw (append_assoc (gain_reply e) (acknowledged l) (acknowledged k))

  gain_received :
      (log : Log) (q : Request) (reply : Reply)
      → acknowledged (log ++ ((q, reply) ∷ [])) ≡ acknowledged log ++ gain_reply (q, reply)
  gain_received log q reply =
      acknowledged-append log ((q, reply) ∷ [])
      ∙ ap (λ t. acknowledged log ++ t) (unfold acknowledged in append-nil (gain_reply (q, reply)))

  pub send-acknowledged :
      (server : Server) (session : Session) (method : Method) (url : Text) (body : Body)
      (timeout : ℕ) (s : St)
      → acknowledged (send server session method url body timeout s).1.log
        ≡ acknowledged s.log ++ gain (send server session method url body timeout s).0 body
  unfolding send
  send-acknowledged server session method url body timeout s =
      gain_received s.log _ _ ∙ ap (λ t. acknowledged s.log ++ t) (same (server s.log _))
    where
      same :
          (reply : Reply)
          → gain_reply (
            record {
              method = method;
              url = url;
              authorization = session.authorization;
              body = body;
              timeout = timeout;
            },
            reply,
          )
            ≡ gain (rostam_bench.Client.State.received reply) body
      same (answered r) = refl
      same failed = refl

  -- Only the transport makes a request raise.
  abbrev pub RaisesTransport {ℓ} : {A : Type ℓ} → Result A → Type 0
  RaisesTransport (ok r) = Unit {0}
  RaisesTransport (err e) = e ≡ transport

  pub send-RaisesTransport :
      (server : Server) (session : Session) (method : Method) (url : Text) (body : Body)
      (timeout : ℕ) (s : St)
      → RaisesTransport (send server session method url body timeout s).0
  unfolding send
  send-RaisesTransport server session method url body timeout s = ground arith

  read_vector-widen :
      IsLawful np
      → (v : List ℕ) → IsF32 v
      → All IsNumber v
      → read_vector (items (map (λ x. real (np.widen x)) v)) ≡ some v
  unfolding read_vector
  read_vector-widen law [] h k = refl
  read_vector-widen law (x ∷ v) h k =
      rw (read_vector-widen law v h.1 k.1, law.narrow-widen x h.0 k.0)

  read_points-json :
      IsLawful np
      → (payloads : Bool) (ids : List ℕ) (rows : List (List ℕ)) → All IsF32 rows
      → All (All IsNumber) rows
      → read_points (items (map (point_json np payloads) (zip (map pos ids) rows)))
        ≡ some (zip ids rows)
  unfolding read_points subscript
  read_points-json law payloads [] rows h k = refl
  read_points-json law payloads (i ∷ ids) [] h k = refl
  read_points-json law payloads (i ∷ ids) (r ∷ rows) h k =
      rw (read_points-json law payloads ids rows h.1 k.1, read_vector-widen law r h.0 k.0)

  pub points_of-octets :
      (b : Bytes) (k : Bulk) → parse_bulk b ≡ some k → points_of (octets b) ≡ k.points
  unfolding points_of
  points_of-octets b k e = rw (e, points_of)

  -- The JSON body carries each id with its vector, in order.
  pub points_of-json_body :
      IsLawful np
      → (ids : List ℕ) (m : Matrix) (payloads upsert : Bool) → All IsF32 m.rows
      → All (All IsNumber) m.rows
      → points_of (json (json_body np (map pos ids) m payloads upsert)) ≡ zip ids m.rows
  unfolding points_of json_body subscript
  points_of-json_body law ids m payloads upsert h k =
      rw (read_points-json law payloads ids m.rows h k, points_of)
