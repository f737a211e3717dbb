-- ===== src/Client/Meaning.antt =====
-- The two query wires say the same: what a receiver makes of the binary and of the JSON query.
use rostam_bench.Base.{
  ℕ, ◌≡◌, refl, Bool, true, false, Option, none, some, List, [], ◌∷◌, arith, map, length,
}
use rostam_bench.Base.Int.{pos}
use rostam_bench.Python.Errors.{Text, Bytes, ok}
use rostam_bench.Python.Json.{Json, Fields, int, real, arr, obj, items, subscript}
use rostam_bench.Python.Dumps.{codes, dumps}
use rostam_bench.Python.Bytes.{IsU32}
use rostam_bench.Numpy.{Numpy, IsLawful}
use rostam_bench.Wire.Query.{query_body}
use rostam_bench.Wire.QueryRoundTrip.{as_filter, parse_query-query_body}
use rostam_bench.Wire.Layout.{Query, parse_query, ◌>>=◌}
use rostam_bench.Client.Http.{Body, json, octets, empty, Reply, Server}
use rostam_bench.Client.State.{Rostam, St}
use rostam_bench.Client.Search.{search_body, search_embedding}
use rostam_bench.Client.Invariant.{Synced, IsValid}
use rostam_bench.Client.Acknowledged.{member, read_vector}

module _ (np : Numpy) (float_repr : ℕ → Text) where
  abbrev json_query : Json → Json → Option Json → Option Query
  json_query (arr xs) (int (pos k)) f = do
    v ← read_vector np xs
    some (record {
      k = k;
      vector = v;
      filter = elim f [ none ↦ none | some t ↦ some (dumps float_repr t) ];
    })
  json_query q k f = none

  -- The query that a body carries: how many hits, the float32 vector, the text of the filter.
  unfoldable pub meaning : Body → Option Query
  meaning (octets b) = parse_query b
  meaning (json j) = do
    q ← member (codes "query") j
    k ← member (codes "k") j
    json_query q k (member (codes "filter") j)
  meaning empty = none

  read_vector-real : (q : List ℕ) → read_vector np (items (map real q)) ≡ some (map np.narrow q)
  unfolding read_vector
  read_vector-real [] = refl
  read_vector-real (x ∷ q) = rw (read_vector-real q)

  -- The query that a client asks, whichever wire carries it.
  abbrev pub asked : Rostam → List ℕ → ℕ → Query
  asked self q k = record { k = k; vector = map np.narrow q; filter = as_filter self.filter_blob }

  as_filter-dumps :
      (fs : Fields) → as_filter (dumps float_repr (obj fs)) ≡ some (dumps float_repr (obj fs))
  unfolding dumps
  as_filter-dumps fs = refl

  meaning-json :
      (q : List ℕ) (k : ℕ) (f : Option Json) (blob : Bytes)
      → Synced float_repr f blob
      → meaning (json (search_body q (pos k) f))
        ≡ some (record { k = k; vector = map np.narrow q; filter = as_filter blob })
  unfolding meaning search_body subscript
  meaning-json q k none blob h = rw (read_vector-real q, h)
  meaning-json q k (some f) blob (fs, e, b) = rw (read_vector-real q, b, e, as_filter-dumps fs)

  -- A server whose answer depends on nothing but the query that it reads in the body.
  abbrev pub by_meaning : (Option Query → Reply) → Server
  by_meaning answer log r = answer (meaning r.body)

  abbrev pub with_binary_query : Bool → St → St
  with_binary_query b s = record s { self = record (s.self) { binary_query = b } }

  -- For a client in a valid state, and `k`, the dimension and the encoded filter below 2 ^ 32 in size:
  -- the binary body of a query is built, and it and the JSON body read as one and the same query, with
  -- the client's `k`, the vector as float32 values and the filter text, if a filter is set.
  pub query_body-meaning :
      IsLawful np
      → (self : Rostam) (q : List ℕ) (k : ℕ) → IsValid float_repr self
      → IsU32 k
      → IsU32 (length q)
      → IsU32 (length self.filter_blob)
      → (b : Bytes) × (query_body np q (pos k) self.filter_blob ≡ ok b)
        × (meaning (octets b) ≡ some (asked self q k))
        × (meaning (json (search_body q (pos k) self.query_filter)) ≡ some (asked self q k))
  query_body-meaning law self q k v hk hq hb =
      let (b, e, p) = parse_query-query_body law q k self.filter_blob hk hq hb in
      (b, e, unfold meaning in p, meaning-json q k self.query_filter self.filter_blob v.synced)

  -- For a client in a valid state, `k`, the dimension and the encoded filter below 2 ^ 32 in size, and
  -- a server that answers by the query it reads in the body: a search returns or raises the same with
  -- the binary wire on as with it off, the fallback to JSON included.
  pub search_embedding-same_wires :
      IsLawful np
      → (answer : Option Query → Reply) (q : List ℕ) (k : ℕ) (s : St) → IsValid float_repr s.self
      → IsU32 k
      → IsU32 (length q)
      → IsU32 (length s.self.filter_blob)
      → (search_embedding np (by_meaning answer) q (pos k) (with_binary_query true s)).0
        ≡ (search_embedding np (by_meaning answer) q (pos k) (with_binary_query false s)).0
  unfolding search_embedding
  search_embedding-same_wires law answer q k s v hk hq hb =
      let (b, e, m, j) = query_body-meaning law s.self q k v hk hq hb in ground (arith, e, m, j)
