-- ===== src/PyClient/Recall.antt =====
-- The loop of `latency` of sift1m/rostam_py_client.py, without the clock: the searches over one
-- socket, and how many of the nearest neighbours they found.
use rostam_bench.Base.{
  ℕ, suc, ◌+◌, ◌*◌, ◌≤◌, ◌≡◌, ap, ◌∙◌, ◌++◌, Bool, false, not, ◌&&◌, ◌||◌, List, [], ◌∷◌, arith,
  map, length, All, ◌==◌, if◌then◌else◌,
}
use rostam_bench.Base.Int.{ℤ, pos, negsuc}
use rostam_bench.Python.Errors.{Bytes}
use rostam_bench.Python.Bytes.{IsU32, IsU64}
use rostam_bench.PyClient.Receive.{stream, IsLive}
use rostam_bench.PyClient.Response.{hit_id, reply_bytes, search_reply-hits}
use rostam_bench.PyClient.Socket.{Socket, Outcome, done, ◌>>=◌, search_reply}

-- `K`
abbrev pub neighbours : ℕ
neighbours = 10

unfoldable pub elem : ℕ → List ℕ → Bool
elem x [] = false
elem x (y ∷ ys) = x == y || elem x ys

-- The ids that can be in a row of the ground truth.
abbrev pub naturals : List ℤ → List ℕ
naturals [] = []
naturals (pos n ∷ is) = n ∷ naturals is
naturals (negsuc n ∷ is) = naturals is

-- `len(set(ids) & truth)`, where `truth` is the set of the members of a list.
unfoldable pub common : List ℕ → List ℕ → ℕ
unfolding elem
common ids [] = 0
common ids (x ∷ truth) =
    let rest = common ids truth in if elem x ids && not (elem x truth) then suc rest else rest

-- The neighbours are numbered from 0, the ids of the server from 1.
abbrev pub truth_of : List ℕ → List ℕ
truth_of = map (λ x. x + 1)

-- One search for each row of `gt`, behind `hits` neighbours found so far.
unfoldable pub count_hits : List (List ℕ) → ℕ → Socket → Outcome (ℕ × Socket)
unfolding common
count_hits [] hits sock = done (hits, sock)
count_hits (row ∷ gt) hits sock =
    search_reply sock >>= λ got. count_hits gt (hits + common got.0 (truth_of row)) got.1

pub common_le : (ids truth : List ℕ) → common ids truth ≤ length truth
unfolding common
common_le ids [] = omega arith
common_le ids (x ∷ truth) = ground (arith, common_le ids truth)

length-truth : (row : List ℕ) → length (truth_of row) ≡ length row
length-truth [] = omega arith
length-truth (x ∷ row) = omega (arith, length-truth row)

-- A reply of the server with its row of neighbours.
abbrev pub Run : Type 0
Run = List (ℕ × ℕ) × List ℕ

abbrev pub IsRun : Run → Type 0
IsRun (hits, row) =
    All (λ h. IsU64 h.0) hits × IsU32 (9 + 12 * length hits) × (length row ≤ neighbours)

-- The replies, one behind the other.
abbrev pub replies : List Run → Bytes
replies [] = []
replies ((hits, row) ∷ runs) = reply_bytes 0 hits ++ replies runs

-- The neighbours that the replies name.
abbrev pub found : List Run → ℕ
found [] = 0
found ((hits, row) ∷ runs) = common (map hit_id hits) (truth_of row) + found runs

-- If each reply has status 0 and ids and a size in the ranges of their fields, and each row at most
-- `K` neighbours, then on the replies in any pieces that are not empty the loop ends, having counted
-- the neighbours that the replies name, which are at most `K` for each search.
pub count_hits-replies :
    (runs : List Run) (so_far : ℕ) (sock : Socket)
    → All IsRun runs
    → IsLive sock
    → stream sock ≡ replies runs
    → (rest : Socket) × (count_hits (map (λ r. r.1) runs) so_far sock
        ≡ done (so_far + found runs, rest))
      × (stream rest ≡ [])
      × (found runs ≤ length runs * neighbours)
unfolding count_hits
count_hits-replies [] so_far sock h live e =
    (sock, ap (λ n. done (n, sock)) (omega arith), e, omega arith)
count_hits-replies ((hits, row) ∷ runs) so_far sock (h, hs) live e =
    let (mid, first, left, live') = search_reply-hits hits (replies runs) sock h.0 h.1 live e in
    let (rest, later, gone, few) =
      count_hits-replies runs (so_far + common (map hit_id hits) (truth_of row)) mid hs live'
        left in
    (
      rest,
      rw first (later ∙ ap (λ n. done (n, rest)) (omega arith)),
      gone,
      omega (arith, few, h.2, common_le (map hit_id hits) (truth_of row), length-truth row),
    )
