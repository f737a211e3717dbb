-- ===== src/PyClient/Response.antt =====
-- `search` of rostam_py_client.py on the replies that the file's header describes.
use rostam_bench.Base.{
  ℕ, ◌+◌, ◌*◌, ◌≡◌, ◌≢◌, refl, ap, sym, ◌∙◌, List, [], ◌∷◌, ◌++◌, arith, length, take, drop, All,
  map, concat_map, length-append, append_assoc, append-nil, take-append, drop-append,
}
use rostam_bench.Python.Errors.{Bytes}
use rostam_bench.Python.Bytes.{
  IsU32, IsU64, be32, be64, take32-be32, take64-be64, length-be32, length-be64,
}
use rostam_bench.PyClient.Socket.{
  Socket, done, raised, server_status, recvn, unpack32, unpack64, read_ids, search_reply,
}
use rostam_bench.PyClient.Receive.{stream, IsLive, recvn-take}

-- `(id:8, distBits:4)`
abbrev pub hit_bytes : ℕ × ℕ → Bytes
hit_bytes (i, dist) = be64 i ++ be32 dist

-- `[status:1][payloadLen:4]` and `[count:4][ count * (id:8, distBits:4) ]`
abbrev pub reply_body : ℕ → List (ℕ × ℕ) → Bytes
reply_body status hits =
    status ∷ (be32 (4 + 12 * length hits) ++ (be32 (length hits) ++ concat_map hit_bytes hits))

-- `[len:4]` and the body.
abbrev pub reply_bytes : ℕ → List (ℕ × ℕ) → Bytes
reply_bytes status hits = be32 (length (reply_body status hits)) ++ reply_body status hits

length-hits : (hits : List (ℕ × ℕ)) → length (concat_map hit_bytes hits) ≡ 12 * length hits
length-hits [] = omega arith
length-hits ((i, d) ∷ hits) = omega (
  arith,
  length-append (be64 i ++ be32 d) (concat_map hit_bytes hits),
  length-append (be64 i) (be32 d),
  length-be64 i,
  length-be32 d,
  length-hits hits,
)

length-body :
    (status : ℕ) (hits : List (ℕ × ℕ)) → length (reply_body status hits) ≡ 9 + 12 * length hits
length-body status hits = omega (
  arith,
  length-append (be32 (4 + 12 * length hits)) (be32 (length hits) ++ concat_map hit_bytes hits),
  length-append (be32 (length hits)) (concat_map hit_bytes hits),
  length-be32 (4 + 12 * length hits),
  length-be32 (length hits),
  length-hits hits,
)

unpack64-at :
    (pre : Bytes) (i : ℕ) (rest : Bytes) (off : ℕ)
    → off ≡ length pre
    → IsU64 i
    → unpack64 off (pre ++ (be64 i ++ rest)) ≡ done i
unfolding unpack64
unpack64-at pre i rest off e h =
    rw (drop-append pre (be64 i ++ rest) off e, take64-be64 i rest h, unpack64)

unpack32-at :
    (pre : Bytes) (i : ℕ) (rest : Bytes) (off : ℕ)
    → off ≡ length pre
    → IsU32 i
    → unpack32 off (pre ++ (be32 i ++ rest)) ≡ done i
unfolding unpack32
unpack32-at pre i rest off e h =
    rw (drop-append pre (be32 i ++ rest) off e, take32-be32 i rest h, unpack32)

abbrev pub hit_id : ℕ × ℕ → ℕ
hit_id (i, d) = i

read_ids-hits :
    (hits : List (ℕ × ℕ)) (pre : Bytes) (off : ℕ)
    → off ≡ length pre
    → All (λ h. IsU64 h.0) hits
    → read_ids (length hits) off (pre ++ concat_map hit_bytes hits) ≡ done (map hit_id hits)
unfolding read_ids
read_ids-hits [] pre off e h = refl
read_ids-hits ((i, d) ∷ hits) pre off e h =
    let x = be64 i ++ be32 d in
    let sizes : off + 12 ≡ length (pre ++ x) = omega (
      arith,
      e,
      length-append pre x,
      length-append (be64 i) (be32 d),
      length-be64 i,
      length-be32 d,
    ) in
    rw (
      at_id,
      ap (read_ids (length hits) (off + 12)) (sym (append_assoc pre x (concat_map hit_bytes hits)))
          ∙ read_ids-hits hits (pre ++ x) (off + 12) sizes h.1,
    )
  where
    at_id : unpack64 off (pre ++ ((be64 i ++ be32 d) ++ concat_map hit_bytes hits)) ≡ done i
    at_id =
        ap (λ l. unpack64 off (pre ++ l))
          (append_assoc (be64 i) (be32 d) (concat_map hit_bytes hits))
        ∙ unpack64-at pre i (be32 d ++ concat_map hit_bytes hits) off e h.0

-- The two calls of `_recvn` take the reply apart.
received_reply :
    (status : ℕ) (hits : List (ℕ × ℕ)) (more : Bytes) (sock : Socket)
    → IsLive sock
    → stream sock ≡ reply_bytes status hits ++ more
    → (mid : Socket) × (rest : Socket) × (recvn 4 sock
        ≡ done (be32 (length (reply_body status hits)), mid))
      × (recvn (length (reply_body status hits)) mid ≡ done (reply_body status hits, rest))
      × (stream rest ≡ more)
      × IsLive rest
received_reply status hits more sock live e = (
  mid,
  second.0,
  first.1 ∙ ap (λ l. done (l, mid)) head_is,
  second.1 ∙ ap (λ l. done (l, second.0)) body_is,
  second.2 ∙ ap (drop (length body)) mid_is ∙ drop-append body more (length body) refl,
  second.3,
)
  where
    body : Bytes
    body = reply_body status hits

    size : Bytes
    size = be32 (length body)

    split : stream sock ≡ size ++ (body ++ more)
    split = e ∙ append_assoc size body more

    first :
        (t : Socket) × (recvn 4 sock ≡ done (take 4 (stream sock), t))
        × (stream t ≡ drop 4 (stream sock))
        × IsLive t
    first = recvn-take 4 sock live (
        omega
          (arith, ap length split, length-append size (body ++ more), length-be32 (length body)))

    mid : Socket
    mid = first.0

    head_is : take 4 (stream sock) ≡ size
    head_is =
        ap (take 4) split ∙ take-append size (body ++ more) 4 (sym (length-be32 (length body)))

    mid_is : stream mid ≡ body ++ more
    mid_is =
        first.2
        ∙ ap (drop 4) split
        ∙ drop-append size (body ++ more) 4 (sym (length-be32 (length body)))

    second :
        (t : Socket) × (recvn (length body) mid ≡ done (take (length body) (stream mid), t))
        × (stream t ≡ drop (length body) (stream mid))
        × IsLive t
    second =
        recvn-take (length body) mid first.3
          (omega (arith, ap length mid_is, length-append body more))

    body_is : take (length body) (stream mid) ≡ body
    body_is = ap (take (length body)) mid_is ∙ take-append body more (length body) refl

size_read : (n : ℕ) → IsU32 n → unpack32 0 (be32 n) ≡ done n
size_read n h = ap (unpack32 0) (sym (append-nil (be32 n))) ∙ unpack32-at [] n [] 0 refl h

count_read :
    (status : ℕ) (hits : List (ℕ × ℕ))
    → IsU32 (length hits)
    → unpack32 5 (reply_body status hits) ≡ done (length hits)
count_read status hits h =
    unpack32-at (status ∷ be32 (4 + 12 * length hits)) (length hits) (concat_map hit_bytes hits) 5
      (omega (arith, length-be32 (4 + 12 * length hits))) h

ids_read :
    (status : ℕ) (hits : List (ℕ × ℕ))
    → All (λ h. IsU64 h.0) hits
    → read_ids (length hits) 9 (reply_body status hits) ≡ done (map hit_id hits)
ids_read status hits h =
    ap (λ l. read_ids (length hits) 9 (status ∷ l))
      (sym (
        append_assoc (be32 (4 + 12 * length hits)) (be32 (length hits))
          (concat_map hit_bytes hits)))
    ∙ read_ids-hits hits (status ∷ (be32 (4 + 12 * length hits) ++ be32 (length hits))) 9
        (omega (
          arith,
          length-append (be32 (4 + 12 * length hits)) (be32 (length hits)),
          length-be32 (4 + 12 * length hits),
          length-be32 (length hits),
        ))
        h

-- For hits with ids below 2 ^ 64 whose body's length is below 2 ^ 32, a status-0 reply that arrives in
-- any pieces that are not empty makes `search` return exactly the ids, in order, and leave on the
-- socket exactly the bytes behind the reply, still in pieces that are not empty.
pub search_reply-hits :
    (hits : List (ℕ × ℕ)) (more : Bytes) (sock : Socket)
    → All (λ h. IsU64 h.0) hits
    → IsU32 (9 + 12 * length hits)
    → IsLive sock
    → stream sock ≡ reply_bytes 0 hits ++ more
    → (rest : Socket) × (search_reply sock ≡ done (map hit_id hits, rest))
      × (stream rest ≡ more)
      × IsLive rest
unfolding search_reply
search_reply-hits hits more sock hi fits live e =
    let (mid, rest, r1, r2, s, live') = received_reply 0 hits more sock live e in
    (
      rest,
      rw (
        r1,
        size_read (length (reply_body 0 hits)) (omega (arith, length-body 0 hits)),
        r2,
        count_read 0 hits (omega arith),
        ids_read 0 hits hi,
      ),
      s,
      live',
    )

-- A reply with a status other than 0 whose body's length is below 2 ^ 32, with any hits and in any
-- pieces that are not empty, makes `search` raise with that status.
pub search_reply-status :
    (status : ℕ) (hits : List (ℕ × ℕ)) (more : Bytes) (sock : Socket)
    → status ≢ 0
    → IsU32 (9 + 12 * length hits)
    → IsLive sock
    → stream sock ≡ reply_bytes status hits ++ more
    → search_reply sock ≡ raised (server_status status)
unfolding search_reply
search_reply-status status hits more sock ne fits live e =
    let (mid, rest, r1, r2, s, live') = received_reply status hits more sock live e in
    rw
      (r1, size_read (length (reply_body status hits)) (omega (arith, length-body status hits)), r2)
      (ground arith)
