-- ===== src/Client/Insert.antt =====
-- `insert_embeddings`, `_json_body` and `optimize` of vectordbbench/rostam/rostam.py.
use rostam_bench.Base.{
  ℕ, zero, suc, ◌+◌, ◌-◌, ◌*◌, ◌/◌, Bool, true, false, not, ◌&&◌, Option, none, some, List, [], ◌∷◌,
  map, length, take, drop, min, zip, ◌==◌, if◌then◌else◌,
}
use rostam_bench.Base.Int.{ℤ}
use rostam_bench.Python.Errors.{
  Text, ok, err, Exn, runtime_error, insert_failed, build_failed, map_result,
}
use rostam_bench.Python.Json.{Json, bool, int, real, str, arr, obj, end, field, items, to_int}
use rostam_bench.Python.Dumps.{codes}
use rostam_bench.Numpy.{Numpy, Matrix}
use rostam_bench.Wire.Bulk.{binary_body}
use rostam_bench.Client.Http.{Method, json, octets, Response, Server, unsupported}
use rostam_bench.Client.State.{
  LoadPath, bulk, batch, Session, Rostam, Action, pure, raise, lift, gets, modify, ◌>>=◌, ◌>>◌,
  send,
}
use rostam_bench.Client.Session.{sess, url}

abbrev pub insert_batch : ℕ
insert_batch = 1000

abbrev pub inline : LoadPath → Bool
inline batch = true
inline p = false

abbrev pub payload_path : LoadPath → Bool
payload_path bulk = false
payload_path p = true

unfoldable pub insert_url : Rostam → Text
insert_url self = url self (
    self.collection_name
    ∷ codes "points"
    ∷ (if inline self.load_path then codes "batch" else codes "bulk")
    ∷ [])

-- One element of `points`.
abbrev pub point_json : Numpy → Bool → ℤ × List ℕ → Json
point_json np payloads (i, v) =
    let vector = arr (items (map (λ x. real (np.widen x)) v)) in
    obj (
      field (codes "id") (int i) (
        field (codes "vector") vector (
          if payloads
          then field (codes "metadata")
              (obj (
                field (codes "id")
                  (obj (field (codes "kind") (str (codes "int")) (field (codes "int") (int i) end)))
                  end))
              end
          else end)))

unfoldable pub json_body : Numpy → List ℤ → Matrix → Bool → Bool → Json
json_body np ids m payloads upsert = obj (
    field (codes "points") (arr (items (map (point_json np payloads) (zip ids m.rows))))
      (if upsert then field (codes "upsert") (bool true) end else end))

-- `range(start, n, step)` with the number of its elements.
abbrev pub range_by : ℕ → ℕ → ℕ → List ℕ
range_by zero start step = []
range_by (suc r) start step = start ∷ range_by r (start + step) step

abbrev pub starts : ℕ → List ℕ
starts n = range_by ((n + (insert_batch - 1)) / insert_batch) 0 insert_batch

-- `xs[start:end]`
abbrev pub slice {ℓ} : {A : Type ℓ} → ℕ → ℕ → List A → List A
slice start stop xs = take (stop - start) (drop start xs)

abbrev pub slice_rows : ℕ → ℕ → Matrix → Matrix
slice_rows start stop m = record m { rows = slice start stop m.rows }

-- What a round of the loop decides: to go on, or the pair that is returned.
abbrev pub Round : Type 0
Round = Option (ℕ × Exn)

abbrev pub rejected : ℕ → Response → Exn
rejected start r = runtime_error (insert_failed start r.status r.text)

module _ (np : Numpy) (server : Server) where
  -- The last post of a round.
  unfoldable pub post_json : Session → Text → Rostam → ℕ → List ℤ → Matrix → Action Round
  post_json session target self start ids chunk = do
    r ←
        send server session Method.post target
          (json (json_body np ids chunk (payload_path self.load_path) (inline self.load_path))) 600
    pure (if r.status == 200 then none else some (start, rejected start r))

  -- The answer to a binary post, with the JSON post that a first rejection falls back to.
  unfoldable pub after_binary : Action Round → ℕ → Response → Action Round
  after_binary fallback start r = do
    proven ← gets (λ self. self.binary_proven)
    if unsupported r.status && not proven
        then modify (λ self. record self { binary = false }) >> fallback
        else if r.status == 200
        then modify (λ self. record self { binary_proven = true }) >> pure none
        else pure (some (start, rejected start r))

  unfoldable pub round : Session → Text → List ℤ → Matrix → ℕ → Action Round
  round session target metadata rows start = do
    let n = length metadata
    let stop = min (start + insert_batch) n
    let ids = slice start stop metadata
    let chunk = slice_rows start stop rows
    self ← gets (λ self. self)
    let fallback = post_json session target self start ids chunk
    if self.binary
        then (do
          body ←
              lift (binary_body np ids chunk (inline self.load_path) (payload_path self.load_path))
          r ← send server session Method.post target (octets body) 600
          after_binary fallback start r)
        else fallback

  -- `for start in …`, and `return n, None` after it.
  unfoldable pub insert_loop : Session → Text → List ℤ → Matrix → List ℕ → Action (ℕ × Option Exn)
  insert_loop session target metadata rows [] = pure (length metadata, none)
  insert_loop session target metadata rows (start ∷ more) = do
    let rest = insert_loop session target metadata rows more
    result ← round session target metadata rows start
    elim result [ none ↦ rest | some (count, e) ↦ pure (count, some e) ]

  -- `except Exception as e: return 0, e`
  abbrev pub caught : Action (ℕ × Option Exn) → Action (ℕ × Option Exn)
  caught m s = let (r, s') = m s in elim r [ ok a ↦ (ok a, s') | err e ↦ (ok (0, some e), s') ]

  unfoldable pub insert_embeddings : List (List ℕ) → List Json → Action (ℕ × Option Exn)
  insert_embeddings embeddings metadata = do
    ids ← lift (map_result to_int metadata)
    session ← gets sess
    target ← gets insert_url
    rows ← lift (np.matrix embeddings)
    caught (insert_loop session target ids rows (starts (length ids)))

module _ (server : Server) where
  unfoldable pub optimize : Action (Unit {0})
  unfolding send
  optimize = do
    self ← gets (λ self. self)
    if inline self.load_path then pure tt else (do
      r ←
          send server (sess self) Method.post
            (url self (self.collection_name ∷ codes "points" ∷ codes "bulk" ∷ codes "build" ∷ []))
            (json (obj end)) (24 * 3600)
      if r.status == 200 then pure tt else raise (runtime_error (build_failed r.status r.text)))
