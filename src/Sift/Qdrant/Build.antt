-- ===== src/Sift/Qdrant/Build.antt =====
-- The build of the collection: what is there is deleted, the new one is created and filled, and the
-- script waits for the index.
use rostam_bench.Base.{
  ℕ, zero, suc, ◌-◌, ◌*◌, ◌/◌, ◌<◌, ◌≡◌, ap, ◌∙◌, ◌≤◌, inl, inr, Bool, true, false, ◌&&◌, Option,
  none, some, List, arith, length, drop, leb, list_eq, if◌then◌else◌, Bool-cases,
}
use rostam_bench.Python.Errors.{Text}
use rostam_bench.Python.Dumps.{codes}
use rostam_bench.PyClient.Socket.{Outcome, done, raised, stuck, bind-done, done_injective, ◌>>=◌}
use rostam_bench.Sift.Qdrant.{Collection, Info, QdrantClient}

-- `COLL`
abbrev pub coll : Text
coll = codes "sift"

-- `s.endswith(suffix)`
unfoldable pub ends_with : Text → Text → Bool
unfolding list_eq
ends_with s suffix =
    leb (length suffix) (length s) && list_eq (drop (length s - length suffix) s) suffix

abbrev pub or_zero : Option ℕ → ℕ
or_zero none = 0
or_zero (some n) = n

-- `int(n * 0.99)`, as the rounding of the product gives it for every `n` below 2 ^ 45.
abbrev pub most : ℕ → ℕ
most n = n * 99 / 100

-- The test on the answer that ends the wait.
unfoldable pub is_ready : ℕ → Info → Bool
unfolding ends_with
is_ready n info = ends_with info.status (codes "green") && leb (most n) (or_zero info.indexed)

module _ {S : Type 0} (client : QdrantClient S) where
  -- `while True`: it ends with the first answer that is ready.
  unfoldable pub wait : ℕ → ℕ → S → Outcome S
  wait zero n s = raised stuck
  wait (suc fuel) n s = client.get_collection coll s >>= λ got. elim (is_ready n got.0) [
    | true ↦ done got.1
    | false ↦ wait fuel n (client.sleep 2 got.1)
  ]

  -- What a round does behind the test.
  decided : ℕ → ℕ → S → Bool → Outcome S
  decided fuel n s true = done s
  decided fuel n s false = wait fuel n (client.sleep 2 s)

  -- `if client.collection_exists(COLL): client.delete_collection(COLL)`
  unfoldable pub drop_old : S → Outcome S
  drop_old s = client.collection_exists coll s >>= λ there.
      if there.0 then client.delete_collection coll there.1 else done there.1

  unfoldable pub build : ℕ → Collection → List (List ℕ) → S → Outcome S
  unfolding drop_old wait
  build fuel collection base s = drop_old s >>= λ s₁.
      client.create_collection collection s₁ >>= λ s₂.
      client.upload_collection coll base 2000 2 s₂ >>= λ s₃. wait fuel (length base) s₃

  -- The world after `k` answers and the sleeps behind them, if the answers are those of `info` and
  -- leave `next`.
  abbrev pub polled : (S → S) → ℕ → S → S
  polled next zero s = s
  polled next (suc k) s = polled next k (client.sleep 2 (next s))

  -- If the service answers every question and the answer after `k` sleeps is the first that is ready,
  -- then fuel above `k` is enough: the wait ends with that answer.
  pub wait-polled :
      (info : S → Info) (next : S → S)
      → ((s : S) → client.get_collection coll s ≡ done (info s, next s))
      → (k fuel n : ℕ) (s : S) → k < fuel
      → ((j : ℕ) → j < k → is_ready n (info (polled next j s)) ≡ false)
      → is_ready n (info (polled next k s)) ≡ true
      → wait fuel n s ≡ done (next (polled next k s))
  unfolding wait decided
  wait-polled info next answers k zero n s f before ready = absurd (omega arith)
  wait-polled info next answers zero (suc fuel) n s f before ready =
      let now : is_ready n (info s) ≡ true = ready in ground (arith, answers s, now)
  wait-polled info next answers (suc k) (suc fuel) n s f before ready =
      let first : is_ready n (info s) ≡ false = before 0 (omega arith) in
      rw (answers s) (
        ap (decided fuel n (next s)) first
        ∙ wait-polled info next answers k fuel n (client.sleep 2 (next s)) (omega arith)
            (λ j h. before (suc j) (omega arith)) ready)

  -- A wait that ends had an answer that was ready, and nothing came behind it.
  pub wait-is_ready :
      (fuel n : ℕ) (s end : S)
      → wait fuel n s ≡ done end
      → (s' : S) × (info : Info) × (client.get_collection coll s' ≡ done (info, end))
        × (is_ready n info ≡ true)
  unfolding wait
  wait-is_ready zero n s end e = absurd (ground (arith, e))
  wait-is_ready (suc fuel) n s end e =
      let (got, p, rest) = bind-done (client.get_collection coll s) _ end e in
      elim (Bool-cases (is_ready n got.0)) [
        | inl yes_ready ↦ (
          s,
          got.0,
          p ∙ ap (λ z. done (got.0, z)) (done_injective (rw yes_ready at rest)),
          yes_ready,
        )
        | inr not_ready ↦ wait-is_ready fuel n (client.sleep 2 got.1) end (rw not_ready at rest)
      ]

  -- Whatever the service does: a build that ends had, as the last answer to its questions, one with
  -- the status green and at least 99 hundredths of the vectors, rounded down, indexed, and did nothing
  -- behind it.
  pub build-is_ready :
      (fuel : ℕ) (collection : Collection) (base : List (List ℕ)) (s end : S)
      → build fuel collection base s ≡ done end
      → (s' : S) × (info : Info) × (client.get_collection coll s' ≡ done (info, end))
        × (ends_with info.status (codes "green") ≡ true)
        × (most (length base) ≤ or_zero info.indexed)
  unfolding build is_ready
  build-is_ready fuel collection base s end e =
      let (s₁, dropped, e₁) = bind-done (drop_old s) _ end e in
      let (s₂, created, e₂) = bind-done (client.create_collection collection s₁) _ end e₁ in
      let (s₃, filled, e₃) = bind-done (client.upload_collection coll base 2000 2 s₂) _ end e₂ in
      let (s', info, last, good) = wait-is_ready fuel (length base) s₃ end e₃ in
      (s', info, last, ground (arith, good), ground (arith, good))
