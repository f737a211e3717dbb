-- ===== src/Client/RoundPoints.antt =====
-- What one round of `insert_embeddings` delivers.
use rostam_bench.Base.{
  ℕ, ◌+◌, ◌-◌, ◌≡◌, Bool, true, false, none, some, List, [], ◌++◌, arith, map, length, length-map,
  drop, zip, min, append-nil, ◌==◌, if◌then◌else◌,
}
use rostam_bench.Base.Int.{ℤ, pos}
use rostam_bench.Python.Errors.{Text, Bytes, Result, ok, err, transport}
use rostam_bench.Numpy.{Numpy, Matrix, IsLawful}
use rostam_bench.Wire.Bulk.{binary_body}
use rostam_bench.Wire.Layout.{parse_bulk}
use rostam_bench.Wire.BulkRoundTrip.{IsChunk, bulk_of, parse_bulk-binary_body}
use rostam_bench.Client.Http.{Method, Body, json, octets, Response, Server}
use rostam_bench.Client.State.{Session, Rostam, St, Action, send, ◌>>=◌}
use rostam_bench.Client.Insert.{
  Round, insert_batch, inline, payload_path, slice, slice_rows, json_body, post_json, after_binary,
  round,
}
use rostam_bench.Client.Acknowledged.{
  Points, acknowledged, points_of, gain, send-acknowledged, RaisesTransport, send-RaisesTransport,
  points_of-json_body, points_of-octets,
}
use rostam_bench.Client.Slices.{IsLoad, slice-IsChunk, slice-numbers, map-take, map-drop}

-- What a round has won: its points, or nothing.
abbrev pub won : Result Round → Points → Points
won (ok none) ps = ps
won (ok (some e)) ps = []
won (err e) ps = []

-- A round that ends the loop reports its start.
abbrev pub Reports : ℕ → Result Round → Type 0
Reports start (ok (some (count, e))) = count ≡ start
Reports start (ok none) = Unit {0}
Reports start (err e) = e ≡ transport

module _ (np : Numpy) (server : Server) where
  abbrev pub Wins : ℕ → Points → St → Result Round × St → Type 0
  Wins start ps s (r, s') =
      (acknowledged np s'.log ≡ acknowledged np s.log ++ won r ps) × Reports start r

  post_json-Wins :
      (session : Session) (target : Text) (self : Rostam) (start : ℕ) (ids : List ℤ) (m : Matrix)
      (ps : Points) (s : St)
      → points_of np
          (json (json_body np ids m (payload_path self.load_path) (inline self.load_path)))
        ≡ ps
      → Wins start ps s (post_json np server session target self start ids m s)
  unfolding post_json
  post_json-Wins session target self start ids m ps s e = ground (
    arith,
    send-acknowledged np server session Method.post target
        (json (json_body np ids m (payload_path self.load_path) (inline self.load_path))) 600 s,
    send-RaisesTransport np server session Method.post target
        (json (json_body np ids m (payload_path self.load_path) (inline self.load_path))) 600 s,
  )

  after_binary-Wins :
      (fallback : Action Round) (start : ℕ) (r : Response) (ps : Points) (s s₀ : St)
      → acknowledged np s.log ≡ acknowledged np s₀.log ++ (if r.status == 200 then ps else [])
      → ((t : St) → Wins start ps t (fallback t))
      → Wins start ps s₀ (after_binary np server fallback start r s)
  unfolding after_binary
  after_binary-Wins fallback start r ps s s₀ h wins = ground (
    arith,
    append-nil (acknowledged np s₀.log),
    wins (record s { self = record (s.self) { binary = false } }),
  )

  reply-Wins :
      (body : Body) (fallback : Action Round) (start : ℕ) (ps : Points) (s : St)
      → points_of np body ≡ ps
      → ((t : St) → Wins start ps t (fallback t))
      → (r : Result Response) (t : St)
      → acknowledged np t.log ≡ acknowledged np s.log ++ gain np r body
      → RaisesTransport np r
      → Wins start ps s (((λ u. (r, t)) >>= after_binary np server fallback start) s)
  reply-Wins body fallback start ps s e wins (ok r) t sent raised =
      after_binary-Wins fallback start r ps t s (rw e at sent) wins
  reply-Wins body fallback start ps s e wins (err x) t sent raised = (sent, raised)

  binary_post-Wins :
      (session : Session) (target : Text) (body : Body) (fallback : Action Round) (start : ℕ)
      (ps : Points) (s : St)
      → points_of np body ≡ ps
      → ((t : St) → Wins start ps t (fallback t))
      → Wins start ps s (
          (send server session Method.post target body 600
              >>= after_binary np server fallback start)
            s)
  binary_post-Wins session target body fallback start ps s e wins =
      reply-Wins body fallback start ps s e wins
        (send server session Method.post target body 600 s).0
        (send server session Method.post target body 600 s).1
        (send-acknowledged np server session Method.post target body 600 s)
        (send-RaisesTransport np server session Method.post target body 600 s)

  abbrev pub stop_at : ℕ → List ℕ → ℕ
  stop_at start ids = min (start + insert_batch) (length ids)

  abbrev pub chunk_points : ℕ → List ℕ → Matrix → Points
  chunk_points start ids m =
      zip (slice start (stop_at start ids) ids) (slice start (stop_at start ids) m.rows)

  slice-map : (a b : ℕ) (ids : List ℕ) → slice a b (map pos ids) ≡ map pos (slice a b ids)
  slice-map a b ids = rw (map-drop pos a ids) (map-take pos (b - a) (drop a ids))

  either-Wins :
      (b : Bool) (start : ℕ) (ps : Points) (s : St) (x y : Action Round)
      → Wins start ps s (x s)
      → Wins start ps s (y s)
      → Wins start ps s ((if b then x else y) s)
  either-Wins true start ps s x y hx hy = hx
  either-Wins false start ps s x y hx hy = hy

  pub round-Wins :
      IsLawful np
      → (session : Session) (target : Text) (ids : List ℕ) (m : Matrix) (start : ℕ) (s : St)
      → IsLoad ids m
      → Wins start
          (chunk_points start ids m)
          s
          (round np server session target (map pos ids) m start s)
  unfolding round
  round-Wins law session target ids m start s h =
      rw (length-map pos ids, slice-map start (stop_at start ids) ids)
        (either-Wins s.self.binary start (chunk_points start ids m) s _ fallback
          (rw body.1 (
            binary_post-Wins session target (octets body.0) fallback start
              (chunk_points start ids m) s (unfold bulk_of in points_of-octets np body.0 _ body.2)
              by_json))
          (by_json s))
    where
      chunk : Matrix
      chunk = slice_rows start (stop_at start ids) m

      chunk_ids : List ℕ
      chunk_ids = slice start (stop_at start ids) ids

      fallback : Action Round
      fallback = post_json np server session target s.self start (map pos chunk_ids) chunk

      chunk_valid : IsChunk chunk_ids chunk
      chunk_valid = slice-IsChunk start (stop_at start ids) ids m h (omega arith)

      body :
          (b : Bytes) × (binary_body np
              (map pos chunk_ids)
              chunk
              (inline s.self.load_path)
              (payload_path s.self.load_path)
            ≡ ok b)
          × (parse_bulk b
              ≡ some (
                  bulk_of
                    (inline s.self.load_path)
                    (payload_path s.self.load_path)
                    chunk_ids
                    chunk))
      body =
          parse_bulk-binary_body law chunk_ids chunk (inline s.self.load_path)
            (payload_path s.self.load_path) chunk_valid

      by_json : (t : St) → Wins start (chunk_points start ids m) t (fallback t)
      by_json t =
          post_json-Wins session target s.self start (map pos chunk_ids) chunk
            (chunk_points start ids m) t
            (points_of-json_body np law chunk_ids chunk (payload_path s.self.load_path)
              (inline s.self.load_path) chunk_valid.floats_fit
              (slice-numbers start (stop_at start ids) ids m h))
