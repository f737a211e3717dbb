-- ===== src/PyClient/Latency.antt =====
-- `latency`, `_qps_worker` and `saturated_qps` of sift1m/rostam_py_client.py. Times are ticks of the
-- clock.
use rostam_bench.Base.{
  ℕ, zero, suc, ◌+◌, ◌*◌, ◌≤◌, ◌≡◌, refl, ap, ◌++◌, sym, ◌∙◌, List, [], ◌∷◌, arith, map, length,
  length-map, All,
}
use rostam_bench.Base.Int.{pos}
use rostam_bench.Python.Errors.{Bytes, Result, ok, err}
use rostam_bench.Python.Bytes.{IsU32, be32}
use rostam_bench.PyClient.Frame.{encode_search}
use rostam_bench.PyClient.Request.{body_bytes, encode_search-bytes}
use rostam_bench.PyClient.Receive.{stream, IsLive}
use rostam_bench.PyClient.Socket.{
  Socket, Outcome, done, raised, struct_error, search_reply, ◌>>=◌, bind_ext,
}
use rostam_bench.PyClient.Recall.{
  neighbours, truth_of, count_hits, count_hits-replies, Run, IsRun, replies, found,
}
use rostam_bench.Sift.Quantile.{Report}
use rostam_bench.Sift.Latency.{timed_queries, first_n, counted, measure, IsFair, measure-IsFair}
use rostam_bench.Sift.Pool.{Process, Rate}
use rostam_bench.Sift.Pool
use rostam_bench.Sift.Worker

-- The only exception of `encode_search` is `struct.error`.
abbrev packed : Result Bytes → Outcome Bytes
packed (ok b) = done b
packed (err e) = raised struct_error

abbrev pub encoded : List ℕ → Outcome Bytes
encoded query = packed (encode_search query (pos neighbours))

-- `search(sock, frame)`: what `sendall` sends, the peer answers by what it delivers.
abbrev pub search_frame : Bytes → Socket → Outcome (List ℕ × Socket)
search_frame frame sock = search_reply sock

abbrev search_only : Bytes → Socket → Outcome Socket
search_only frame sock = search_reply sock >>= λ got. done got.1

unfoldable pub latency :
    (ℕ → ℕ) → List (List ℕ) → List (List ℕ) → Socket → Outcome (Report × Socket)
latency clock queries gt sock = first_n encoded timed_queries queries >>= λ frames.
    measure search_frame clock truth_of timed_queries frames gt sock

unfoldable pub qps_worker : List Bytes → ℕ → (ℕ → ℕ) → ℕ → ℕ → Socket → Outcome (ℕ × Socket)
qps_worker frames = Worker.qps_worker search_only frames

unfoldable pub saturated_qps : List (List ℕ) → ℕ → List (Process Socket) → ℕ → ℕ → Outcome Rate
saturated_qps queries duration processes t0 t1 =
    first_n encoded (length queries) queries >>= λ frames.
    Pool.saturated_qps search_only frames duration processes t0 t1

-- The query and the frame around it are short enough for their length fields.
abbrev pub IsShort : List ℕ → Type 0
IsShort query = IsU32 (32 + 4 * length query)

encoded-ok : (query : List ℕ) → IsShort query → (b : Bytes) × (encoded query ≡ done b)
encoded-ok query h = (
  be32 (length (body_bytes neighbours query)) ++ body_bytes neighbours query,
  ap packed (encode_search-bytes query neighbours (omega arith) h),
)

frames-ok :
    (n : ℕ) (queries : List (List ℕ))
    → n ≤ length queries
    → All IsShort queries
    → (frames : List Bytes) × (first_n encoded n queries ≡ done frames) × (length frames ≡ n)
unfolding first_n
frames-ok zero queries h short = ([], refl, refl)
frames-ok (suc n) [] h short = absurd (omega arith)
frames-ok (suc n) (q ∷ queries) h (one, short) =
    let (b, e) = encoded-ok q one in
    let (bs, made, many) = frames-ok n queries (omega arith) short in
    (b ∷ bs, rw (e, made) refl, omega (arith, many))

-- The loop of `latency` is that of the recall, for as many frames as rows.
counted-count_hits :
    (clock : ℕ → ℕ) (frames : List Bytes) (gt : List (List ℕ)) (hits : ℕ) (sock : Socket)
    → length frames ≡ length gt
    → counted search_frame clock truth_of (length gt) frames gt hits sock ≡ count_hits gt hits sock
unfolding counted count_hits
counted-count_hits clock frames [] hits sock h = refl
counted-count_hits clock [] (row ∷ gt) hits sock h = absurd (omega arith)
counted-count_hits clock (f ∷ frames) (row ∷ gt) hits sock h =
    bind_ext (search_reply sock) _ _
      (λ got. counted-count_hits clock frames gt _ got.1 (omega arith))

rows-short :
    (runs : List Run)
    → All IsRun runs
    → All (λ row. length (truth_of row) ≤ neighbours) (map (λ r. r.1) runs)
rows-short [] h = tt
rows-short ((hits, row) ∷ runs) (h, hs) =
    (omega (arith, h.2, length-map (λ x. x + 1) row), rows-short runs hs)

-- For at least `LAT_N` queries, short enough to be framed, and `LAT_N` replies of status 0, with ids
-- and sizes in the ranges of their fields and in any pieces that are not empty, each with a row of at
-- most `K` neighbours: `latency` returns. Its hits are the neighbours that the replies name, which
-- are at most `K` for each search, its percentiles have the ranks of half and of 99 hundredths among
-- the times that the clock shows around each search, and the median is not the greater one.
pub latency-replies :
    (clock : ℕ → ℕ) (queries : List (List ℕ)) (runs : List Run) (sock : Socket)
    → timed_queries ≤ length queries
    → All IsShort queries
    → length runs ≡ timed_queries
    → All IsRun runs
    → IsLive sock
    → stream sock ≡ replies runs
    → (r : Report) × (rest : Socket) × (latency clock queries (map (λ x. x.1) runs) sock
        ≡ done (r, rest))
      × (stream rest ≡ [])
      × IsFair search_frame clock truth_of timed_queries (found runs) r
unfolding latency
latency-replies clock queries runs sock enough short size ok_runs live e =
    let gt = map (λ (x : Run). x.1) runs in
    let (frames, made, many) = frames-ok timed_queries queries enough short in
    let (rest, counts, gone, few) = count_hits-replies runs 0 sock ok_runs live e in
    let same : length gt ≡ timed_queries = length-map (λ (x : Run). x.1) runs ∙ size in
    let (r, ran, fair) =
      measure-IsFair search_frame clock truth_of timed_queries frames gt sock (found runs) rest
        (omega arith) (rows-short runs ok_runs)
        (rw same at (counted-count_hits clock frames gt 0 sock (many ∙ sym same))
          ∙ counts
          ∙ ap (λ n. done (n, rest)) (omega arith)) in
    (r, rest, rw made ran, gone, fair)
