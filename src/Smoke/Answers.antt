-- ===== src/Smoke/Answers.antt =====
-- What the server answers behind the load of a passing smoke test.
use rostam_bench.Base.{ℕ, zero, suc, ◌+◌, ◌≡◌, refl, ap, List, [], ◌∷◌, arith, map, length}
use mathlib.Core.Path.{subst}
use rostam_bench.Base.Int.{ℤ, pos}
use rostam_bench.Python.Errors.{Result, ok, err}
use rostam_bench.Numpy.{Numpy}
use rostam_bench.Client.Http.{Server}
use rostam_bench.Client.State.{St, Action, ◌>>=◌}
use rostam_bench.Client.Insert.{optimize}
use rostam_bench.Client.Search.{search_embedding}
use rostam_bench.PyClient.Recall.{common, naturals, neighbours}
use rostam_bench.Smoke.{build_and_search, search_all, divided}

-- A part of a chain of actions that ends well ended well.
pub bind_ok :
    {A B : Type 0} (p : Result A × St) (f : A → Action B) (b : B) (t : St)
    → ((λ u. p) >>= f) p.1 ≡ (ok b, t)
    → (a : A) × (p.0 ≡ ok a) × (f a p.1 ≡ (ok b, t))
bind_ok (ok a, s) f b t e = (a, refl, e)
bind_ok (err x, s) f b t e = absurd (ground (arith, e))

module _ (np : Numpy) (server : Server) (nearest : List (List ℕ) → List ℕ → List ℕ) where
  -- Searches for the queries one after the other from `s` on, each of which the server answered, and
  -- the number of the true neighbours that the answers name.
  abbrev pub Answered : List (List ℕ) → List (List ℕ) → ℕ → St → Type 0
  Answered base [] hits s = hits ≡ 0
  Answered base (q ∷ query) hits s =
      (ids : List ℤ) × (s' : St) × (rest : ℕ) × (search_embedding np server (map np.widen q)
          (pos 10) s
        ≡ (ok ids, s'))
      × (hits ≡ common (naturals ids) (nearest base q) + rest)
      × Answered base query rest s'

  search_all-Answered :
      (base query : List (List ℕ)) (so_far hits : ℕ) (s t : St)
      → search_all np server nearest query (map (nearest base) query) so_far s ≡ (ok hits, t)
      → (found : ℕ) × (hits ≡ so_far + found) × Answered base query found s
  unfolding search_all
  search_all-Answered base [] so_far hits s t e = (0, ground (arith, e), refl)
  search_all-Answered base (q ∷ query) so_far hits s t e =
      let (ids, asked, rest) =
        bind_ok (search_embedding np server (map np.widen q) (pos neighbours) s)
          (λ ids.
            search_all np server nearest query (map (nearest base) query)
              (so_far + common (naturals ids) (nearest base q)))
          hits t e in
      let s' = (search_embedding np server (map np.widen q) (pos neighbours) s).1 in
      let (found, counts, answered) =
        search_all-Answered base query (so_far + common (naturals ids) (nearest base q)) hits s' t
          rest in
      (
        common (naturals ids) (nearest base q) + found,
        omega (arith, counts),
        (ids, s', found, ap (λ r. (r, s')) asked, refl, answered),
      )

  divided-ok :
      (hits n found : ℕ) (s t : St)
      → divided np server nearest hits n s ≡ (ok found, t)
      → hits ≡ found
  divided-ok hits zero found s t e = absurd (ground (arith, e))
  divided-ok hits (suc n) found s t e = ground (arith, e)

  -- What comes behind the load.
  pub build_and_search-Answered :
      (base query : List (List ℕ)) (hits : ℕ) (s t : St)
      → build_and_search np server nearest base query s ≡ (ok hits, t)
      → (u : St) × (optimize server s ≡ (ok tt, u)) × Answered base query hits u
  build_and_search-Answered base query hits s t e =
      let (built, optimized, rest) =
        bind_ok (optimize server s)
          (λ _. search_all np server nearest query (map (nearest base) query) 0 >>= λ n.
            divided np server nearest n (length query))
          hits t e in
      let u = (optimize server s).1 in
      let (counted, searched, last) =
        bind_ok (search_all np server nearest query (map (nearest base) query) 0 u)
          (λ n. divided np server nearest n (length query)) hits t rest in
      let v = (search_all np server nearest query (map (nearest base) query) 0 u).1 in
      let same = divided-ok counted (length query) hits v t last in
      let (found, sum, answered) =
        search_all-Answered base query 0 counted u v (ap (λ r. (r, v)) searched) in
      let all : found ≡ hits = omega (arith, same, sum) in
      (u, ap (λ r. (r, u)) optimized, subst (λ n. Answered base query n u) all answered)
