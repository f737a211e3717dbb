-- ===== src/PyClient/Socket.antt =====
-- `_recvn` and `search` of sift1m/rostam_py_client.py. A socket is what the peer has still to
-- deliver, in the pieces that the network makes of it; where none is left, the peer has closed.
use rostam_bench.Base.{
  ℕ, zero, suc, ◌+◌, ◌-◌, none, some, List, [], ◌∷◌, ◌++◌, length, take, drop, leb, ltb, ◌==◌,
  arith, ◌≡◌, refl, ◌⊎◌, inl, inr, if◌then◌else◌,
}
use rostam_bench.Python.Errors.{Bytes}
use rostam_bench.Python.Bytes.{take32, take64}

abbrev pub Socket : Type 0
Socket = List Bytes

-- What ends a search: `ConnectionError`, `RuntimeError` with the status, an index or a `struct.unpack`
-- behind the end. `stuck` is no Python exception: the fuel of a loop ran out.
pub data PyError : Type 0 where
  server_closed index_error struct_error zero_division rpc_error stuck : PyError
  value_error type_error attribute_error decode_error response_error assertion_error key_error :
      PyError
  server_status : ℕ → PyError

pub data Outcome {ℓ} (A : Type ℓ) : Type ℓ where
  done : A → Outcome A
  raised : PyError → Outcome A

infixl 5 ◌>>=◌
abbrev pub ◌>>=◌ {ℓ κ} : {A : Type ℓ} {B : Type κ} → Outcome A → (A → Outcome B) → Outcome B
done a >>= f = f a
raised e >>= f = raised e

pub Outcome-cases {ℓ} :
    {A : Type ℓ} (r : Outcome A) → ((a : A) × (r ≡ done a)) ⊎ ((e : PyError) × (r ≡ raised e))
Outcome-cases (done a) = inl (a, refl)
Outcome-cases (raised e) = inr (e, refl)

pub bind_assoc {ℓ κ ι} :
    {A : Type ℓ} {B : Type κ} {C : Type ι} (m : Outcome A) (f : A → Outcome B) (g : B → Outcome C)
    → ((m >>= f) >>= g) ≡ (m >>= λ a. f a >>= g)
bind_assoc (done a) f g = refl
bind_assoc (raised e) f g = refl

pub bind_ext {ℓ κ} :
    {A : Type ℓ} {B : Type κ} (m : Outcome A) (f g : A → Outcome B)
    → ((a : A) → f a ≡ g a)
    → (m >>= f) ≡ (m >>= g)
bind_ext (done a) f g h = h a
bind_ext (raised e) f g h = refl

-- A chain that ends had every part end.
pub bind-done {ℓ κ} :
    {A : Type ℓ} {B : Type κ} (m : Outcome A) (f : A → Outcome B) (b : B)
    → (m >>= f) ≡ done b
    → (a : A) × (m ≡ done a) × (f a ≡ done b)
bind-done (done a) f b e = (a, refl, e)
bind-done (raised x) f b e = absurd (ground (arith, e))

pub done_injective : {A : Type 0} {a b : A} → done a ≡ done b → a ≡ b
done_injective e = ground (arith, e)

-- `sock.recv_into(view, size)`: one piece, or as much of it as there is room for.
unfoldable pub recv : ℕ → Socket → Bytes × Socket
recv size [] = ([], [])
recv size (p ∷ ps) = if leb (length p) size then (p, ps) else (take size p, drop size p ∷ ps)

-- `while got < n`; `buf` holds the bytes received so far.
unfoldable pub recv_loop : ℕ → ℕ → Bytes → Socket → Outcome (Bytes × Socket)
recv_loop zero n buf sock = if ltb (length buf) n then raised stuck else done (buf, sock)
recv_loop (suc fuel) n buf sock =
    let (piece, rest) = recv (n - length buf) sock in
    let next = recv_loop fuel n (buf ++ piece) rest in
    if ltb (length buf) n
    then if length piece == 0 then raised server_closed else next
    else done (buf, sock)

-- Each round but a failing one brings a byte, so `n` rounds are enough.
unfoldable pub recvn : ℕ → Socket → Outcome (Bytes × Socket)
unfolding recv_loop
recvn n sock = recv_loop n n [] sock

-- `struct.unpack(">I", b[i:i+4])[0]` and `struct.unpack(">Q", b[i:i+8])[0]`
unfoldable pub unpack32 : ℕ → Bytes → Outcome ℕ
unpack32 i b = elim (take32 (drop i b)) [ none ↦ raised struct_error | some (n, rest) ↦ done n ]

unfoldable pub unpack64 : ℕ → Bytes → Outcome ℕ
unpack64 i b = elim (take64 (drop i b)) [ none ↦ raised struct_error | some (n, rest) ↦ done n ]

-- The loop over `range(count)`.
unfoldable pub read_ids : ℕ → ℕ → Bytes → Outcome (List ℕ)
read_ids zero off body = done []
read_ids (suc count) off body =
    let rest = read_ids count (off + 12) body in
    unpack64 off body >>= λ i. rest >>= λ is. done (i ∷ is)

abbrev status_of : Bytes → Outcome ℕ
status_of [] = raised index_error
status_of (b ∷ bs) = done b

-- `search`, behind `sock.sendall(frame)`.
unfoldable pub search_reply : Socket → Outcome (List ℕ × Socket)
search_reply sock = recvn 4 sock >>= λ head. unpack32 0 head.0 >>= λ blen.
    recvn blen head.1 >>= λ got. status_of got.0 >>= λ status.
    if status == 0
    then (unpack32 5 got.0 >>= λ count. read_ids count 9 got.0 >>= λ ids. done (ids, got.1))
    else raised (server_status status)
