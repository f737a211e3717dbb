-- ===== src/Tests/PyClientRuns.antt =====
-- The socket client at concrete inputs.
use rostam_bench.Base.{ℕ, ◌≡◌, refl, some, List, [], ◌∷◌, arith, take, drop, map}
use rostam_bench.Base.Int.{pos}
use rostam_bench.Python.Errors.{Bytes, ok}
use rostam_bench.PyClient.Frame.{op, coll, encode_search, parse_request}
use rostam_bench.PyClient.Request.{parse_request-encode_search}
use rostam_bench.PyClient.Socket.{
  Socket, done, raised, server_closed, server_status, recvn, recv, search_reply,
}
use rostam_bench.PyClient.Receive.{stream, IsLive, recvn-take, recvn-server_closed}
use rostam_bench.PyClient.Response.{hit_id, reply_bytes, search_reply-hits, search_reply-status}

parse_request-encode_search_example :
    (b : Bytes) × (encode_search (0x3f80_0000 ∷ 7 ∷ []) (pos 10) ≡ ok b)
    × (parse_request b
        ≡ some (record {
          op = op;
          flags = 0;
          collection = coll;
          k = 10;
          query = 0x3f80_0000 ∷ 7 ∷ [];
        }))
parse_request-encode_search_example =
    parse_request-encode_search (0x3f80_0000 ∷ 7 ∷ []) 10 (omega arith) (omega arith) (omega arith)

abbrev pieces : Socket
pieces = (1 ∷ 2 ∷ 3 ∷ []) ∷ (4 ∷ []) ∷ (5 ∷ 6 ∷ []) ∷ []

recvn-take_example :
    (rest : Socket) × (recvn 5 pieces ≡ done (take 5 (stream pieces), rest))
    × (stream rest ≡ drop 5 (stream pieces))
    × IsLive rest
recvn-take_example = recvn-take 5 pieces (omega arith) (omega arith)

three_pieces : recvn 5 pieces ≡ done (1 ∷ 2 ∷ 3 ∷ 4 ∷ 5 ∷ [], (6 ∷ []) ∷ [])
unfolding recvn recv
three_pieces = refl

recvn-server_closed_example : recvn 9 pieces ≡ raised server_closed
recvn-server_closed_example = recvn-server_closed 9 pieces (omega arith) (omega arith)

abbrev two_hits : List (ℕ × ℕ)
two_hits = (7, 0) ∷ (300, 0x3f80_0000) ∷ []

-- The reply in one piece, and the first byte of the next in another.
abbrev delivered : ℕ → Socket
delivered status = reply_bytes status two_hits ∷ (0 ∷ []) ∷ []

search_reply-hits_example :
    (rest : Socket) × (search_reply (delivered 0) ≡ done (map hit_id two_hits, rest))
    × (stream rest ≡ 0 ∷ [])
    × IsLive rest
unfolding rostam_bench.Python.Bytes.be32
search_reply-hits_example =
    search_reply-hits two_hits (0 ∷ []) (delivered 0) (omega arith) (omega arith) (omega arith) refl

search_reply-status_example : search_reply (delivered 2) ≡ raised (server_status 2)
unfolding rostam_bench.Python.Bytes.be32
search_reply-status_example =
    search_reply-status 2 two_hits (0 ∷ []) (delivered 2) (omega arith) (omega arith) (omega arith)
      refl

abbrev one_reply : Socket
one_reply = reply_bytes 0 two_hits ∷ []
