-- ===== src/Smoke/Passes.antt =====
-- What a passing smoke test shows.
use rostam_bench.Base.{
  ℕ, zero, suc, ◌+◌, ◌*◌, ◌≤◌, ◌<◌, ◌≡◌, refl, ap, sym, ◌∙◌, true, none, some, Option, List, [],
  ◌∷◌, ◌++◌, arith, map, length, length-map, take, zip, All,
}
use mathlib.Core.Path.{subst}
use rostam_bench.Python.Errors.{Text, Result, ok, err, Exn}
use rostam_bench.Python.Dumps.{codes}
use rostam_bench.Numpy.{Numpy, IsLawful, IsF32, IsNumber}
use rostam_bench.Client.Http.{Log, Server}
use rostam_bench.Client.State.{Rostam, St}
use rostam_bench.Client.Session.{init, new_session}
use rostam_bench.Client.Create.{construct}
use rostam_bench.Client.Insert.{insert_embeddings, optimize}
use rostam_bench.Client.Acknowledged.{acknowledged}
use rostam_bench.Client.Slices.{IsLoad}
use rostam_bench.Client.Load.{Counts, insert_embeddings-delivers}
use rostam_bench.PyClient.Recall.{neighbours}
use rostam_bench.Smoke.Answers.{bind_ok, Answered, build_and_search-Answered}
use rostam_bench.Smoke.{
  smoke_config, build_and_search, smoke_case, range_from, tolist, numbered, check_count, load,
  block, recalled, started, main,
}

take_all : {A : Type 0} (d : ℕ) (xs : List A) → length xs ≤ d → take d xs ≡ xs
take_all zero [] h = refl
take_all zero (x ∷ xs) h = absurd (omega arith)
take_all (suc d) [] h = refl
take_all (suc d) (x ∷ xs) h = ap (λ l. x ∷ l) (take_all d xs (omega arith))

length-range_from : (i n : ℕ) → length (range_from i n) ≡ n
length-range_from i zero = refl
length-range_from i (suc n) = ap suc (length-range_from (i + 1) n)

narrow-row :
    {np : Numpy}
    → IsLawful np
    → (row : List ℕ) → IsF32 row
    → All IsNumber row
    → map np.narrow (map np.widen row) ≡ row
narrow-row law [] f n = refl
narrow-row {np} law (b ∷ row) f n = rw (law.narrow-widen b f.0 n.0, narrow-row law row f.1 n.1)

narrow-rows :
    {np : Numpy}
    → IsLawful np
    → (rows : List (List ℕ)) → All IsF32 rows
    → All (All IsNumber) rows
    → map (map np.narrow) (map (map np.widen) rows) ≡ rows
narrow-rows law [] f n = refl
narrow-rows {np} law (row ∷ rows) f n =
    rw (narrow-row law row f.0 n.0, narrow-rows law rows f.1 n.1)

module _ (np : Numpy) (server : Server) (nearest : List (List ℕ) → List ℕ → List ℕ) where
  recalled-ok :
      (total hits : ℕ) (r : Result ℕ)
      → recalled np server nearest total r ≡ ok hits
      → (r ≡ ok hits) × (9 * total < 10 * hits)
  recalled-ok total hits (ok h) e = ground (arith, e)
  recalled-ok total hits (err x) e = absurd (ground (arith, e))

  -- The client that passed, and where its block ended.
  started-ok :
      (base query : List (List ℕ)) (a : Result Rostam × Log) (hits : ℕ)
      → (started np server nearest base query a).0 ≡ ok hits
      → (self : Rostam) × (log : Log) × (a ≡ (ok self, log))
        × ((block np server nearest base query
              (record { self = record self { session = some (new_session self) }; log = log })).0
            ≡ ok hits)
        × (9 * (length query * neighbours) < 10 * hits)
  unfolding init
  started-ok base query (err x, log) hits e = absurd (ground (arith, e))
  started-ok base query (ok self, log) hits e =
      let s : St = record { self = record self { session = some (new_session self) }; log = log } in
      let (good, enough) =
        recalled-ok (length query * neighbours) hits (block np server nearest base query s).0 e in
      (self, log, refl, good, enough)

  check_count-ok :
      (n : ℕ) (pair : ℕ × Option Exn) (s t : St)
      → check_count np server nearest n pair s ≡ (ok tt, t)
      → (pair ≡ (n, none)) × (s ≡ t)
  check_count-ok n (cnt, some x) s t e = absurd (ground (arith, e))
  check_count-ok n (cnt, none) s t e = ground (arith, e)

  load-ok :
      (base : List (List ℕ)) (s t : St)
      → load np server nearest base s ≡ (ok tt, t)
      → insert_embeddings np server
          (tolist np server nearest base)
          (numbered np server nearest (length base))
          s
        ≡ (ok (length base, none), t)
  unfolding load
  load-ok base s t e =
      let done_with =
        insert_embeddings np server (tolist np server nearest base)
          (numbered np server nearest (length base)) s in
      let (pair, returned, checked) =
        bind_ok done_with (check_count np server nearest (length base)) tt t e in
      let (same, state) = check_count-ok (length base) pair done_with.1 t checked in
      ground (arith, returned, same, state)

  block-load :
      (base query : List (List ℕ)) (s : St) (hits : ℕ)
      → (block np server nearest base query s).0 ≡ ok hits
      → (t : St) × (load np server nearest base s ≡ (ok tt, t))
        × (build_and_search np server nearest base query t
            ≡ (ok hits, (block np server nearest base query s).1))
  unfolding block
  block-load base query s hits e =
      let loaded = load np server nearest base s in
      let end = (block np server nearest base query s).1 in
      let (u, fine, rest) =
        bind_ok loaded (λ _. build_and_search np server nearest base query) hits end
          (ap (λ r. (r, end)) e) in
      (loaded.1, ap (λ r. (r, loaded.1)) fine, rest)

  all_counted : (n d : ℕ) (pair : ℕ × Option Exn) → pair ≡ (n, none) → Counts n d pair → n ≤ d
  all_counted n d (cnt, none) e c = c.1
  all_counted n d (cnt, some x) e c = absurd (ground (arith, e))

  widened-shaped :
      (dim : ℕ) (rows : List (List ℕ))
      → All (λ r. length r ≡ dim) rows
      → All (λ r. length r ≡ dim) (map (map np.widen) rows)
  widened-shaped dim [] h = tt
  widened-shaped dim (row ∷ rows) (h, hs) =
      (length-map np.widen row ∙ h, widened-shaped dim rows hs)

  -- A load that counts every row as inserted has every row acknowledged.
  load-acknowledged :
      IsLawful np
      → (dim : ℕ) (row : List ℕ) (rows : List (List ℕ)) (s t : St)
      → All (λ r. length r ≡ dim) (row ∷ rows)
      → IsLoad (range_from 0 (length (row ∷ rows))) (record { cols = dim; rows = row ∷ rows })
      → load np server nearest (row ∷ rows) s ≡ (ok tt, t)
      → acknowledged np t.log
        ≡ acknowledged np s.log ++ zip (range_from 0 (length (row ∷ rows))) (row ∷ rows)
  load-acknowledged law dim row rows s t shaped fits e =
      let returned = load-ok base s t e in
      let (d, pair, good, log, counts) =
        insert_embeddings-delivers law server dim (map np.widen row) (map (map np.widen) rows) ids s
          (widened-shaped dim base shaped)
          (subst (λ (m : List (List ℕ)). IsLoad ids (record { cols = dim; rows = m }))
            (sym narrowed_back) fits) in
      let reached : n ≤ d =
        all_counted n d pair (ground (arith, good, returned))
          (subst (λ k. Counts k d pair) (length-range_from 0 n) counts) in
      ap (λ (u : St). acknowledged np u.log) (ap (λ z. z.1) (sym returned))
      ∙ log
      ∙ ap (λ l. acknowledged np s.log ++ l)
          (ap (zip (take d ids)) (ap (take d) narrowed_back ∙ take_all d base reached)
            ∙ ap (λ l. zip l base) (take_all d ids (omega (arith, reached, length-range_from 0 n))))
    where
      base : List (List ℕ)
      base = row ∷ rows

      n : ℕ
      n = length base

      ids : List ℕ
      ids = range_from 0 n

      narrowed_back : map (map np.narrow) (map (map np.widen) base) ≡ base
      narrowed_back = narrow-rows law base fits.floats_fit fits.numbers

  -- For a lawful numpy and a base whose rows are float32 values of one length below 2 ^ 32, and no NaN,
  -- under numbers below 2 ^ 64: whatever the
  -- server does, a test that passes constructed its client, every row of the base was acknowledged
  -- under its number by the end of the load, in order and none twice, `optimize` then succeeded, and
  -- the client's searches for the queries, one after the other from there on, returned ids that name
  -- more than nine tenths of the neighbours, all together.
  pub main-acknowledged :
      IsLawful np
      → (url : Text) (ef dim : ℕ) (row : List ℕ) (rows query : List (List ℕ)) (log : Log) (hits : ℕ)
      → All (λ r. length r ≡ dim) (row ∷ rows)
      → IsLoad (range_from 0 (length (row ∷ rows))) (record { cols = dim; rows = row ∷ rows })
      → (main np server nearest url ef dim (row ∷ rows) query log).0 ≡ ok hits
      → (self : Rostam) × (made : Log) × (t : St) × (construct server dim
            (smoke_config url)
            (smoke_case ef)
            (codes "smoke_sift")
            true
            log
          ≡ (ok self, made))
        × (load np server nearest
              (row ∷ rows)
              (record { self = record self { session = some (new_session self) }; log = made })
            ≡ (ok tt, t))
        × (acknowledged np t.log
            ≡ acknowledged np made ++ zip (range_from 0 (length (row ∷ rows))) (row ∷ rows))
        × (u : St) × (optimize server t ≡ (ok tt, u))
        × Answered np server nearest (row ∷ rows) query hits u
        × (9 * (length query * neighbours) < 10 * hits)
  unfolding main
  main-acknowledged law url ef dim row rows query log hits shaped fits e =
      let (self, made, built, passed, enough) =
        started-ok (row ∷ rows) query
          (construct server dim (smoke_config url) (smoke_case ef) (codes "smoke_sift") true log)
          hits e in
      let s : St = record {
        self = record self { session = some (new_session self) };
        log = made;
      } in
      let (t, loaded, rest) = block-load (row ∷ rows) query s hits passed in
      let (u, optimized, answered) =
        build_and_search-Answered np server nearest (row ∷ rows) query hits t _ rest in
      (
        self,
        made,
        t,
        built,
        loaded,
        load-acknowledged law dim row rows s t shaped fits loaded,
        u,
        optimized,
        answered,
        enough,
      )
