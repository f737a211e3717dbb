-- ===== src/Sift/Redis/Load.antt =====
-- The load of sift1m/redis_bench.py: the vectors go through a pipeline that is executed every 2000
-- commands and once at the end.
use rostam_bench.Base.{
  ℕ, suc, ◌+◌, ◌%◌, ◌<◌, ◌≡◌, refl, ap, ◌∙◌, inl, inr, List, [], ◌∷◌, ◌++◌, arith, length,
  length-append, append_assoc, ◌==◌, if◌then◌else◌, Bool-cases,
}
use rostam_bench.Python.Errors.{Bytes}
use rostam_bench.PyClient.Socket.{Outcome, done, ◌>>=◌}
use rostam_bench.Sift.Redis.{Hset, Redis, key_of}

abbrev pub flush_every : ℕ
flush_every = 2000

abbrev pub hset : (List ℕ → Bytes) → ℕ → List ℕ → Hset
hset tobytes i row = record { key = key_of i; vec = tobytes row }

-- What the calls of `execute` send, from row `i` on, with the commands of `pipe` in the pipeline.
unfoldable pub batches : (List ℕ → Bytes) → ℕ → List (List ℕ) → List Hset → List (List Hset)
batches tobytes i [] pipe = pipe ∷ []
batches tobytes i (row ∷ base) pipe =
    let filled = pipe ++ (hset tobytes i row ∷ []) in
    let flushed = batches tobytes (i + 1) base [] in
    let kept = batches tobytes (i + 1) base filled in
    if i % flush_every == 1999 then filled ∷ flushed else kept

module _ {S : Type 0} (redis : Redis S) where
  unfoldable pub execute_all : List (List Hset) → S → Outcome S
  execute_all [] s = done s
  execute_all (b ∷ bs) s = redis.execute b s >>= λ s'. execute_all bs s'

  unfoldable pub load : List (List ℕ) → S → Outcome S
  unfolding batches execute_all
  load base s = execute_all (batches redis.tobytes 0 base []) s

-- All commands, in the order of the rows.
abbrev pub hsets : (List ℕ → Bytes) → ℕ → List (List ℕ) → List Hset
hsets tobytes i [] = []
hsets tobytes i (row ∷ base) = hset tobytes i row ∷ hsets tobytes (i + 1) base

abbrev pub joined : List (List Hset) → List Hset
joined [] = []
joined (b ∷ bs) = b ++ joined bs

-- The sizes that the batches must have: 2000 each, and less for the last.
abbrev pub IsCut : List (List Hset) → Type 0
IsCut [] = ⊥
IsCut (b ∷ []) = length b < flush_every
IsCut (b ∷ c ∷ bs) = (length b ≡ flush_every) × IsCut (c ∷ bs)

IsCut-flush :
    (b : List Hset) (bs : List (List Hset)) → length b ≡ flush_every → IsCut bs → IsCut (b ∷ bs)
IsCut-flush b [] e h = absurd h
IsCut-flush b (c ∷ bs) e h = (e, h)

batches-IsCut :
    (tobytes : List ℕ → Bytes) (i : ℕ) (base : List (List ℕ)) (pipe : List Hset)
    → length pipe ≡ i % flush_every
    → (joined (batches tobytes i base pipe) ≡ pipe ++ hsets tobytes i base)
      × IsCut (batches tobytes i base pipe)
unfolding batches
batches-IsCut tobytes i [] pipe h = (refl, omega arith)
batches-IsCut tobytes i (row ∷ base) pipe h =
    let filled = pipe ++ (hset tobytes i row ∷ []) in
    let size : length filled ≡ suc (i % flush_every) =
      omega (arith, h, length-append pipe (hset tobytes i row ∷ [])) in
    elim (Bool-cases (i % flush_every == 1999)) [
      | inl full ↦
          let (all, cut) = batches-IsCut tobytes (i + 1) base [] (ground (arith, full)) in
          rw full (
            ap (λ l. filled ++ l) all ∙ append_assoc pipe (hset tobytes i row ∷ []) _,
            IsCut-flush filled _ (ground (arith, full, size)) cut,
          )
      | inr partial ↦
          let (all, cut) =
            batches-IsCut tobytes (i + 1) base filled (ground (arith, partial, size)) in
          rw partial (all ∙ append_assoc pipe (hset tobytes i row ∷ []) _, cut)
    ]

-- The calls of `execute` send the command of every row exactly once, in the order of the rows and
-- under the row's number, 2000 in each call but the last, which sends less.
pub batches-hsets :
    (tobytes : List ℕ → Bytes) (base : List (List ℕ))
    → (joined (batches tobytes 0 base []) ≡ hsets tobytes 0 base)
      × IsCut (batches tobytes 0 base [])
batches-hsets tobytes base = batches-IsCut tobytes 0 base [] refl
