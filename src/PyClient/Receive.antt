-- ===== src/PyClient/Receive.antt =====
-- `_recvn` on any way of cutting the stream into pieces.
use rostam_bench.Base.{
  ℕ, zero, suc, ◌+◌, ◌-◌, ◌≤◌, ◌<◌, ◌≡◌, refl, ap, sym, ◌∙◌, inl, inr, Bool, true, false, List, [],
  ◌∷◌, ◌++◌, arith, length, take, drop, All, leb, ltb, ◌==◌, if◌then◌else◌, length-append,
  length-take, append_assoc, append-nil, take-append-drop, Bool-cases,
}
use rostam_bench.Python.Errors.{Bytes}
use rostam_bench.PyClient.Socket.{
  Socket, Outcome, done, raised, server_closed, recv, recv_loop, recvn,
}

-- All that the peer has still to deliver.
abbrev pub stream : Socket → Bytes
stream [] = []
stream (p ∷ ps) = p ++ stream ps

-- `recv_into` returns 0 bytes only at the end of the stream.
abbrev pub IsLive : Socket → Type 0
IsLive = All (λ p. 1 ≤ length p)

take-append_le :
    (m : ℕ) (p x : Bytes)
    → length p ≤ m
    → (take m (p ++ x) ≡ p ++ take (m - length p) x) × (drop m (p ++ x) ≡ drop (m - length p) x)
take-append_le m [] x h =
    let e : m ≡ m - 0 = omega arith in (ap (λ n. take n x) e, ap (λ n. drop n x) e)
take-append_le zero (b ∷ p) x h = absurd (omega arith)
take-append_le (suc m) (b ∷ p) x h =
    let (t, d) = take-append_le m p x (omega arith) in
    let e : suc m - suc (length p) ≡ m - length p = omega arith in rw e (ap (λ l. b ∷ l) t, d)

-- What one call delivers.
recv_lem :
    (size : ℕ) (p : Bytes) (ps : Socket)
    → 1 ≤ size
    → IsLive (p ∷ ps)
    → let (piece, rest) = recv size (p ∷ ps) in
      (stream (p ∷ ps) ≡ piece ++ stream rest)
      × (1 ≤ length piece)
      × (length piece ≤ size)
      × IsLive rest
unfolding recv
recv_lem size p ps h live = elim (Bool-cases (leb (length p) size)) [
  | inl all ↦ rw all (refl, live.0, ground arith, live.1)
  | inr cut ↦ rw cut (
    ap (λ l. l ++ stream ps) (sym (take-append-drop size p))
        ∙ append_assoc (take size p) (drop size p) (stream ps),
    rw length-take (ground arith),
    rw length-take (omega arith),
    (rw rostam_bench.Base.length-drop (ground arith), live.1),
  )
]

abbrev Receives : ℕ → Bytes → Bytes → Outcome (Bytes × Socket) → Type 0
Receives m buf all r =
    (rest : Socket) × (r ≡ done (buf ++ take m all, rest))
    × (stream rest ≡ drop m all)
    × IsLive rest

loop-stop :
    (fuel n : ℕ) (buf : Bytes) (sock : Socket)
    → n ≤ length buf
    → recv_loop fuel n buf sock ≡ done (buf, sock)
unfolding recv_loop
loop-stop zero n buf sock h = ground arith
loop-stop (suc fuel) n buf sock h = ground arith

loop-step :
    (fuel n : ℕ) (buf : Bytes) (sock : Socket)
    → length buf < n
    → 1 ≤ length (recv (n - length buf) sock).0
    → recv_loop (suc fuel) n buf sock
      ≡ recv_loop fuel n (buf ++ (recv (n - length buf) sock).0) (recv (n - length buf) sock).1
unfolding recv_loop
loop-step fuel n buf sock h k = ground arith

loop-closed :
    (fuel n : ℕ) (buf : Bytes)
    → length buf < n
    → recv_loop (suc fuel) n buf [] ≡ raised server_closed
unfolding recv_loop recv
loop-closed fuel n buf h = ground arith

Receives-stop :
    (fuel n : ℕ) (buf : Bytes) (sock : Socket)
    → n ≡ length buf + 0
    → IsLive sock
    → Receives 0 buf (stream sock) (recv_loop fuel n buf sock)
Receives-stop fuel n buf sock e live =
    (sock, rw append-nil (loop-stop fuel n buf sock (omega arith)), refl, live)

recv_loop-Receives :
    (fuel n m : ℕ) (buf : Bytes) (sock : Socket)
    → n ≡ length buf + m
    → m ≤ fuel
    → m ≤ length (stream sock)
    → IsLive sock
    → Receives m buf (stream sock) (recv_loop fuel n buf sock)
recv_loop-Receives fuel n zero buf sock e f l live = Receives-stop fuel n buf sock e live
recv_loop-Receives zero n (suc m) buf sock e f l live = absurd (omega arith)
recv_loop-Receives (suc fuel) n (suc m) buf [] e f l live = absurd (omega arith)
recv_loop-Receives (suc fuel) n (suc m) buf (p ∷ ps) e f l live =
    let piece = (recv (n - length buf) (p ∷ ps)).0 in
    let left = (recv (n - length buf) (p ∷ ps)).1 in
    let (whole, some_byte, fits, live') = recv_lem (n - length buf) p ps (omega arith) live in
    let (t, d) = take-append_le (suc m) piece (stream left) (omega arith) in
    let (rest, r, s, k) =
      recv_loop-Receives fuel n (suc m - length piece) (buf ++ piece) left
        (omega (arith, length-append buf piece)) (omega arith)
        (omega (arith, ap length whole, length-append piece (stream left))) live' in
    (
      rest,
      loop-step fuel n buf (p ∷ ps) (omega arith) some_byte
          ∙ r
          ∙ ap (λ l. done (l, rest))
              (append_assoc buf piece _
                ∙ ap (λ l. buf ++ l) (sym t ∙ ap (take (suc m)) (sym whole))),
      s ∙ sym d ∙ ap (drop (suc m)) (sym whole),
      k,
    )

-- From a stream that holds `n` bytes, however it is cut into pieces that are not empty, `_recvn`
-- returns exactly the first `n` and leaves those behind them.
pub recvn-take :
    (n : ℕ) (sock : Socket)
    → IsLive sock
    → n ≤ length (stream sock)
    → (rest : Socket) × (recvn n sock ≡ done (take n (stream sock), rest))
      × (stream rest ≡ drop n (stream sock))
      × IsLive rest
unfolding recvn
recvn-take n sock live h = recv_loop-Receives n n n [] sock (omega arith) (omega arith) h live

closes :
    (fuel n m : ℕ) (buf : Bytes) (sock : Socket)
    → n ≡ length buf + m
    → m ≤ fuel
    → length (stream sock) < m
    → IsLive sock
    → recv_loop fuel n buf sock ≡ raised server_closed
closes zero n m buf sock e f l live = absurd (omega arith)
closes (suc fuel) n m buf [] e f l live = loop-closed fuel n buf (omega arith)
closes (suc fuel) n m buf (p ∷ ps) e f l live =
    let piece = (recv (n - length buf) (p ∷ ps)).0 in
    let left = (recv (n - length buf) (p ∷ ps)).1 in
    let (whole, some_byte, fits, live') = recv_lem (n - length buf) p ps (omega arith) live in
    let sizes = ap length whole in
    loop-step fuel n buf (p ∷ ps) (omega arith) some_byte
    ∙ closes fuel n (m - length piece) (buf ++ piece) left (omega (arith, length-append buf piece))
        (omega arith) (omega (arith, sizes, length-append piece (stream left))) live'

-- From a stream with fewer than `n` bytes, however it is cut into pieces that are not empty, `_recvn`
-- ends with the connection error.
pub recvn-server_closed :
    (n : ℕ) (sock : Socket)
    → IsLive sock
    → length (stream sock) < n
    → recvn n sock ≡ raised server_closed
unfolding recvn
recvn-server_closed n sock live h = closes n n n [] sock (omega arith) (omega arith) h live
