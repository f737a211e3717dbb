-- ===== src/Client/LoopPoints.antt =====
-- What the whole loop of `insert_embeddings` delivers.
use rostam_bench.Base.{
  ℕ, zero, suc, ◌+◌, ◌-◌, ◌*◌, ◌≤◌, ◌<◌, ◌≡◌, refl, ap, sym, ◌∙◌, Option, none, some, List, ◌++◌,
  arith, map, length, length-map, take, drop, zip, append_assoc, append-nil,
}
use rostam_bench.Base.Int.{pos}
use rostam_bench.Python.Errors.{Text, Result, ok, err, Exn, transport}
use rostam_bench.Numpy.{Numpy, Matrix, IsLawful}
use rostam_bench.Client.Http.{Server}
use rostam_bench.Client.State.{Session, St, Action, pure, ◌>>=◌}
use rostam_bench.Client.Insert.{Round, insert_batch, round, insert_loop, range_by}
use rostam_bench.Client.Acknowledged.{Points, acknowledged}
use rostam_bench.Client.Slices.{IsLoad, zip-take_add, drop-drop}
use rostam_bench.Client.RoundPoints.{Wins, stop_at, round-Wins}

-- How far a loop that began at `start` came, `d` points further on, by its result.
abbrev pub Reaches : ℕ → ℕ → ℕ → Result (ℕ × Option Exn) → Type 0
Reaches start n d (ok (count, none)) = (count ≡ n) × (n ≤ start + d)
Reaches start n d (ok (count, some e)) = (count ≡ start + d) × (count < n)
Reaches start n d (err e) = e ≡ transport

Reaches-shift :
    (start w d n : ℕ) (r : Result (ℕ × Option Exn))
    → Reaches (start + w) n d r
    → Reaches start n (w + d) r
Reaches-shift start w d n (ok (c, none)) h = omega arith
Reaches-shift start w d n (ok (c, some e)) h = omega arith
Reaches-shift start w d n (err e) h = h

module _ (np : Numpy) (server : Server) (ids : List ℕ) (m : Matrix) where
  abbrev pub part : ℕ → ℕ → Points
  part start d = zip (take d (drop start ids)) (take d (drop start m.rows))

  abbrev pub Delivers : ℕ → St → Result (ℕ × Option Exn) × St → Type 0
  Delivers start s (r, s') =
      (d : ℕ) × (acknowledged np s'.log ≡ acknowledged np s.log ++ part start d)
      × Reaches start (length ids) d r

  abbrev continue : Action (ℕ × Option Exn) → Round → Action (ℕ × Option Exn)
  continue k result = elim result [ none ↦ k | some (count, e) ↦ pure (count, some e) ]

  part-add : (start w d : ℕ) → part start w ++ part (start + w) d ≡ part start (w + d)
  part-add start w d =
      rw (← drop-drop start w ids, ← drop-drop start w m.rows)
        (zip-take_add w d (drop start ids) (drop start m.rows))

  step-Delivers :
      (start w : ℕ) (s : St) (k : Action (ℕ × Option Exn)) (r : Result Round) (t : St)
      → start < length ids
      → Wins np server start (part start w) s (r, t)
      → Delivers (start + w) t (k t)
      → Delivers start s (((λ u. (r, t)) >>= continue k) s)
  step-Delivers start w s k (ok none) t lt wins (d, log, far) = (
    w + d,
    log
        ∙ rw wins.0 (
            append_assoc (acknowledged np s.log) (part start w) (part (start + w) d)
            ∙ ap (λ l. acknowledged np s.log ++ l) (part-add start w d)),
    Reaches-shift start w d (length ids) (k t).0 far,
  )
  step-Delivers start w s k (ok (some (c, e))) t lt wins rest = (0, wins.0, omega arith)
  step-Delivers start w s k (err e) t lt wins rest = (0, wins.0, wins.1)

  round-part :
      IsLawful np
      → IsLoad ids m
      → (session : Session) (target : Text) (start w : ℕ) (s : St)
      → stop_at np server start ids - start ≡ w
      → Wins np server start
          (part start w)
          s
          (round np server session target (map pos ids) m start s)
  round-part law h session target start w s e =
      rw (← e) (round-Wins np server law session target ids m start s h)

  pub loop-Delivers :
      IsLawful np
      → IsLoad ids m
      → (session : Session) (target : Text) (r start : ℕ) (s : St)
      → length ids ≤ start + r * insert_batch
      → start + r * insert_batch < length ids + insert_batch
      → Delivers start s
          (insert_loop np server session target (map pos ids) m (range_by r start insert_batch) s)
  unfolding insert_loop
  loop-Delivers law h session target zero start s lo hi =
      (0, sym (append-nil (acknowledged np s.log)), (length-map pos ids, omega arith))
  loop-Delivers law h session target (suc zero) start s lo hi =
      let done = round np server session target (map pos ids) m start s in
      let w = stop_at np server start ids - start in
      step-Delivers start w s (pure (length (map pos ids), none)) done.0 done.1 (omega arith)
        (round-part law h session target start w s refl)
        (0, sym (append-nil (acknowledged np done.1.log)), (length-map pos ids, omega arith))
  loop-Delivers law h session target (suc (suc r)) start s lo hi =
      let done = round np server session target (map pos ids) m start s in
      step-Delivers start insert_batch s
        (insert_loop np server session target (map pos ids) m
          (range_by (suc r) (start + insert_batch) insert_batch))
        done.0 done.1 (omega arith)
        (round-part law h session target start insert_batch s (omega arith))
        (loop-Delivers law h session target (suc r) (start + insert_batch) done.1 (omega arith)
          (omega arith))
