-- ===== src/Tests/LatencyRuns.antt =====
-- The latency of the socket client at a concrete input.
use rostam_bench.Base.{ℕ, zero, suc, ◌≤◌, ◌≡◌, refl, ap, List, [], ◌∷◌, ◌++◌, arith, map, length}
use rostam_bench.Python.Errors.{Bytes}
use rostam_bench.PyClient.Receive.{stream, IsLive}
use rostam_bench.PyClient.Socket.{Socket, done}
use rostam_bench.PyClient.Response.{reply_bytes}
use rostam_bench.PyClient.Recall.{truth_of, Run, IsRun, replies, found}
use rostam_bench.PyClient.Latency.{latency, search_frame, IsShort, latency-replies}
use rostam_bench.Sift.Quantile.{Report}
use rostam_bench.Sift.Latency.{timed_queries, IsFair}
use rostam_bench.Tests.Samples.{copies, length-copies, copies-All}

-- Every query is answered by the points 7 and 300; the first is a neighbour.
abbrev run : Run
run = ((7, 0) ∷ (300, 0x3f80_0000) ∷ [], 6 ∷ 1 ∷ [])

abbrev reply : Bytes
reply = reply_bytes 0 ((7, 0) ∷ (300, 0x3f80_0000) ∷ [])

abbrev query : List ℕ
query = 1 ∷ 2 ∷ []

abbrev runs : List Run
runs = copies timed_queries run

abbrev queries : List (List ℕ)
queries = copies timed_queries query

-- One piece for each reply.
abbrev sock : Socket
sock = copies timed_queries reply

stream-copies : (n : ℕ) → stream (copies n reply) ≡ replies (copies n run)
unfolding rostam_bench.Python.Bytes.be32
stream-copies zero = refl
stream-copies (suc n) = ap (λ s. reply ++ s) (stream-copies n)

IsLive-copies : (n : ℕ) → IsLive (copies n reply)
unfolding rostam_bench.Python.Bytes.be32
IsLive-copies zero = tt
IsLive-copies (suc n) = (omega arith, IsLive-copies n)

long_enough : (n k : ℕ) → n ≡ k → k ≤ n
long_enough n k h = omega (arith, h)

latency-replies_example :
    (r : Report) × (rest : Socket) × (latency (λ i. i) queries (map (λ (x : Run). x.1) runs) sock
      ≡ done (r, rest))
    × (stream rest ≡ [])
    × IsFair search_frame (λ i. i) truth_of timed_queries (found runs) r
latency-replies_example =
    latency-replies (λ i. i) queries runs sock
      (long_enough (length queries) timed_queries (length-copies timed_queries query))
      (copies-All IsShort timed_queries query (omega arith)) (length-copies timed_queries run)
      (copies-All IsRun timed_queries run (omega arith)) (IsLive-copies timed_queries)
      (stream-copies timed_queries)
