-- ===== src/Client/Search.antt =====
-- `search_embedding` of vectordbbench/rostam/rostam.py.
use rostam_bench.Base.{
  ℕ, true, false, not, ◌&&◌, Option, none, some, List, [], ◌∷◌, map, leb, ltb, if◌then◌else◌,
}
use rostam_bench.Base.Int.{ℤ}
use rostam_bench.Python.Errors.{
  Text, Result, ok, err, ◌>>=◌ as ◌>>>=◌, or_raise, http_error, bad_json,
}
use rostam_bench.Python.Json.{
  Json, Items, nil, cons, int, real, arr, obj, end, field, items, to_int, subscript, get_or_empty,
  iterate,
}
use rostam_bench.Python.Dumps.{codes}
use rostam_bench.Numpy.{Numpy}
use rostam_bench.Wire.Query.{query_body}
use rostam_bench.Client.Http.{Method, json, octets, Response, Server, unsupported}
use rostam_bench.Client.State.{Session, Rostam, Action, lift, gets, modify, ◌>>=◌, ◌>>◌, send}
use rostam_bench.Client.Session.{sess, url}

-- `[int(h["id"]) for h in hits]`
unfoldable pub hit_ids : Items → Result (List ℤ)
hit_ids nil = ok []
hit_ids (cons h hs) =
    let rest = hit_ids hs in
    subscript (codes "id") h >>>= λ j. to_int j >>>= λ i. rest >>>= λ is. ok (i ∷ is)

-- `[int(h["id"]) for h in r.json().get("results", [])]`
unfoldable pub hits : Response → Result (List ℤ)
unfolding hit_ids
hits r = or_raise r.json bad_json >>>= λ j.
    get_or_empty (codes "results") j >>>= λ l. iterate l >>>= hit_ids

-- `r.raise_for_status()`
abbrev pub raise_for_status : Response → Result (Unit {0})
raise_for_status r =
    if leb 400 r.status && ltb r.status 600 then err (http_error r.status) else ok tt

abbrev filter_field : Option Json → rostam_bench.Python.Json.Fields
filter_field none = end
filter_field (some f) = field (codes "filter") f end

unfoldable pub search_body : List ℕ → ℤ → Option Json → Json
search_body query k filter = obj (
    field (codes "query") (arr (items (map real query)))
      (field (codes "k") (int k) (filter_field filter)))

unfoldable pub search_url : Rostam → Text
search_url self = url self (self.collection_name ∷ codes "points" ∷ codes "search" ∷ [])

module _ (np : Numpy) (server : Server) where
  unfoldable pub search_json : Session → Text → List ℕ → ℤ → Action (List ℤ)
  unfolding send
  search_json session target query k = do
    filter ← gets (λ self. self.query_filter)
    r ← send server session Method.post target (json (search_body query k filter)) 120
    lift (raise_for_status r)
    lift (hits r)

  -- The answer to a binary query, with the JSON query that a first rejection falls back to.
  unfoldable pub after_query : Action (List ℤ) → Response → Action (List ℤ)
  after_query fallback r = do
    proven ← gets (λ self. self.binary_query_proven)
    if unsupported r.status && not proven
        then modify (λ self. record self { binary_query = false }) >> fallback
        else (do
          lift (raise_for_status r)
          modify (λ self. record self { binary_query_proven = true })
          lift (hits r))

  unfoldable pub search_embedding : List ℕ → ℤ → Action (List ℤ)
  unfolding search_json after_query send
  search_embedding query k = do
    self ← gets (λ self. self)
    let session = sess self
    let target = search_url self
    let fallback = search_json session target query k
    if self.binary_query
        then (do
          body ← lift (query_body np query k self.filter_blob)
          r ← send server session Method.post target (octets body) 120
          after_query fallback r)
        else fallback
