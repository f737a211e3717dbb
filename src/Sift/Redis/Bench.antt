-- ===== src/Sift/Redis/Bench.antt =====
-- sift1m/redis_bench.py: `main`.
use rostam_bench.Base.{ℕ, suc, ◌≡◌, refl, ap, ◌∙◌, Option, List, [], ◌∷◌, map, All, ◌≤◌, length}
use rostam_bench.Base.Int.{pos}
use rostam_bench.Python.Errors.{Text, Bytes}
use rostam_bench.PyClient.Socket.{Outcome, done, raised, response_error, ◌>>=◌}
use rostam_bench.PyClient.Recall.{neighbours, naturals}
use rostam_bench.Sift.Sweep.{Row, ef_sweep, sweep}
use rostam_bench.Sift.Redis.{Value, item, Redis, idx, prefix}
use rostam_bench.Sift.Redis.Load.{load}
use rostam_bench.Sift.Redis.Reply.{reply_ids, found_items, DecodesKeys, reply_ids-found}
use rostam_bench.Sift.Redis.Index.{wait}

module _ {S : Type 0} (utf8 : Bytes → Option Text)
    (at_least_one : Value → Outcome rostam_bench.Base.Bool) (redis : Redis S) where
  -- `except redis.ResponseError: pass`
  dropped : S → Outcome S → Outcome S
  dropped s (raised response_error) = done s
  dropped s r = r

  unfoldable pub search : ℕ → List ℕ → S → Outcome (List ℕ × S)
  search ef query s =
      redis.search
        (record { name = idx; k = neighbours; ef_runtime = ef; vec = redis.tobytes query }) s
      >>= λ res. reply_ids utf8 res.0 >>= λ ids. done (naturals ids, res.1)

  -- Everything in front of the sweep, for an array of the width `dim`.
  unfoldable pub prepare : ℕ → ℕ → List (List ℕ) → S → Outcome S
  unfolding dropped
  prepare fuel dim base s = redis.ping s >>= λ s₁. dropped s₁ (redis.drop_index idx s₁) >>= λ s₂.
      redis.create_index
        (record { name = idx; key_prefix = prefix; dim = dim; m = 16; ef_construction = 200 }) s₂
      >>= λ s₃. load redis base s₃ >>= λ s₄.
          wait at_least_one redis fuel s₄ >>= λ s₅. done (redis.sleep 15 s₅)

  -- `main`, with the arrays of the files.
  unfoldable pub main :
      ℕ → (ℕ → ℕ) → ℕ → List (List ℕ) → List (List ℕ) → List (List ℕ) → S → Outcome (List Row × S)
  unfolding prepare
  main fuel clock dim base queries gt s =
      prepare fuel dim base s >>= λ built. sweep search clock ef_sweep queries gt 3 built

  naturals-pos :
      (hits : List (ℕ × Value)) → naturals (map (λ h. pos h.0) hits) ≡ map (λ h. h.0) hits
  naturals-pos [] = refl
  naturals-pos ((i, fields) ∷ hits) = ap (λ l. i ∷ l) (naturals-pos hits)

  -- If the service's reply to a search names keys of the load, each with any fields and behind any
  -- count, and keys are decoded as what they stand for, the search returns the numbers of their rows,
  -- in order.
  pub search-found :
      (ef : ℕ) (query : List ℕ) (s s' : S) (count : Value) (hits : List (ℕ × Value))
      → DecodesKeys utf8
      → redis.search
          (record { name = idx; k = neighbours; ef_runtime = ef; vec = redis.tobytes query })
          s
        ≡ done (item count (found_items utf8 hits), s')
      → search ef query s ≡ done (map (λ h. h.0) hits, s')
  unfolding search
  search-found ef query s s' count hits h e =
      ap (λ o. o >>= λ res. reply_ids utf8 res.0 >>= λ ids. done (naturals ids, res.1)) e
      ∙ ap (λ o. o >>= λ ids. done (naturals ids, s')) (reply_ids-found utf8 count hits h)
      ∙ ap (λ l. done (l, s')) (naturals-pos hits)
