-- ===== src/Client/Load.antt =====
-- `insert_embeddings` as a whole: every point once and in order, and what its count says.
use rostam_bench.Base.{
  ℕ, ◌+◌, ◌/◌, ◌≤◌, ◌<◌, ◌≡◌, refl, ◌⊎◌, inl, inr, Option, none, some, List, [], ◌∷◌, ◌++◌, arith,
  map, length, length-map, take, zip, All,
}
use rostam_bench.Base.Int.{pos}
use rostam_bench.Python.Errors.{Result, ok, err, Exn, transport, map_result}
use rostam_bench.Python.Json.{int, to_int}
use rostam_bench.Numpy.{Numpy, Matrix, IsLawful}
use rostam_bench.Client.Http.{Server}
use rostam_bench.Client.State.{St}
use rostam_bench.Client.Session.{sess}
use rostam_bench.Client.Insert.{
  insert_url, insert_loop, insert_embeddings, starts, insert_batch, caught,
}
use rostam_bench.Client.Acknowledged.{acknowledged}
use rostam_bench.Client.Slices.{IsLoad}
use rostam_bench.Client.LoopPoints.{Delivers, loop-Delivers}

-- What the returned pair says of the number `d` of points delivered, out of `n`.
abbrev pub Counts : ℕ → ℕ → ℕ × Option Exn → Type 0
Counts n d (count, none) = (count ≡ n) × (n ≤ d)
Counts n d (count, some e) = ((count ≡ d) × (count < n)) ⊎ ((count ≡ 0) × (e ≡ transport))

-- The array that the rows become.
abbrev pub narrowed : Numpy → ℕ → List (List ℕ) → Matrix
narrowed np dim rows = record { cols = dim; rows = map (map np.narrow) rows }

to_ints : (ids : List ℕ) → map_result to_int (map (λ i. int (pos i)) ids) ≡ ok (map pos ids)
unfolding map_result to_int
to_ints [] = refl
to_ints (i ∷ ids) = rw (to_ints ids)

module _ (np : Numpy) (server : Server) (ids : List ℕ) (m : Matrix) where
  abbrev Loaded : St → Result (ℕ × Option Exn) × St → Type 0
  Loaded s (r, s') =
      (d : ℕ) × (pair : ℕ × Option Exn) × (r ≡ ok pair)
      × (acknowledged np s'.log ≡ acknowledged np s.log ++ zip (take d ids) (take d m.rows))
      × Counts (length ids) d pair

  caught-Loaded :
      (s : St) (r : Result (ℕ × Option Exn)) (t : St)
      → Delivers np server ids m 0 s (r, t)
      → Loaded s (caught np server (λ u. (r, t)) s)
  caught-Loaded s (ok (c, none)) t (d, log, far) = (d, (c, none), refl, log, (far.0, omega arith))
  caught-Loaded s (ok (c, some e)) t (d, log, far) =
      (d, (c, some e), refl, log, inl (omega arith, far.1))
  caught-Loaded s (err e) t (d, log, far) = (d, (0, some e), refl, log, inr (refl, far))

-- Loading one id for each row, ids below 2 ^ 64, rows of one length below 2 ^ 32 and float32 values
-- that are no NaN, always returns a pair. The points that the server acknowledged meanwhile are the first `d` of
-- the load, each id with its row, in order and none twice, whichever body carried them. With no
-- error the count is that of all points and all were acknowledged. With an error the count is `d`
-- and less than that of all, or it is 0 and the transport raised.
pub insert_embeddings-delivers :
    {np : Numpy}
    → IsLawful np
    → (server : Server) (dim : ℕ) (x : List ℕ) (xs : List (List ℕ)) (ids : List ℕ) (s : St)
    → All (λ r. length r ≡ dim) (x ∷ xs)
    → IsLoad ids (narrowed np dim (x ∷ xs))
    → let (r, s') = insert_embeddings np server (x ∷ xs) (map (λ i. int (pos i)) ids) s in
      (d : ℕ) × (pair : ℕ × Option Exn) × (r ≡ ok pair)
      × (acknowledged np s'.log
          ≡ acknowledged np s.log ++ zip (take d ids) (take d (map (map np.narrow) (x ∷ xs))))
      × Counts (length ids) d pair
unfolding insert_embeddings
insert_embeddings-delivers {np} law server dim x xs ids s shaped load =
    rw (to_ints ids, law.matrix_rows dim x xs shaped, length-map pos ids)
      (caught-Loaded np server ids m s
        (insert_loop np server session target (map pos ids) m (starts (length ids)) s).0
        (insert_loop np server session target (map pos ids) m (starts (length ids)) s).1
        (loop-Delivers np server ids m law load session target ((length ids + 999) / insert_batch) 0
          s (omega arith) (omega arith)))
  where
    m : Matrix
    m = narrowed np dim (x ∷ xs)

    session : rostam_bench.Client.State.Session
    session = sess s.self

    target : List ℕ
    target = insert_url s.self
