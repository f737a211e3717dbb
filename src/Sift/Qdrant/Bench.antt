-- ===== src/Sift/Qdrant/Bench.antt =====
-- sift1m/qdrant_bench.py: `main`, which builds the collection and sweeps over the widths.
use rostam_bench.Base.{ℕ, ◌≡◌, Bool, List, length, some, map, All, ◌≤◌}
use rostam_bench.PyClient.Socket.{Outcome, done, bind-done, ◌>>=◌}
use rostam_bench.PyClient.Recall.{neighbours}
use rostam_bench.Sift.Sweep.{Row, ef_sweep, sweep, IsRecall, sweep-IsRecall}
use rostam_bench.Sift.Qdrant.{Collection, Info, QdrantClient}
use rostam_bench.Sift.Qdrant.Build.{coll, build, build-is_ready, most, or_zero}

-- The arguments of `create_collection`; `sq8` is `SQ8`.
abbrev pub quantized : Bool → ℕ → Collection
quantized sq8 dim = record {
  name = coll;
  size = dim;
  on_disk = some sq8;
  m = 16;
  ef_construct = 200;
  int8 = sq8;
}

module _ {S : Type 0} (client : QdrantClient S) where
  abbrev pub search : ℕ → List ℕ → S → Outcome (List ℕ × S)
  search ef query s =
      client.query_points
        (record { collection = coll; query = query; limit = neighbours; hnsw_ef = ef }) s

  -- `main`, with the arrays of the files; `dim` is the width of `base`.
  unfoldable pub main :
      ℕ
      → (ℕ → ℕ)
      → Bool
      → ℕ
      → List (List ℕ)
      → List (List ℕ)
      → List (List ℕ)
      → S
      → Outcome (List Row × S)
  main fuel clock sq8 dim base queries gt s =
      build client fuel (quantized sq8 dim) base s >>= λ built.
      sweep search clock ef_sweep queries gt 2 (client.sleep 20 built)

  -- Whatever the service does: a run that ends measured behind an answer with most of the vectors
  -- indexed, and printed one line for each width, in order, with a recall of at most 1, if no row has
  -- more than `K` neighbours.
  pub main-IsRecall :
      (fuel : ℕ) (clock : ℕ → ℕ) (sq8 : Bool) (dim : ℕ) (base queries gt : List (List ℕ))
      (s end : S) (rows : List Row)
      → All (λ row. length row ≤ neighbours) gt
      → main fuel clock sq8 dim base queries gt s ≡ done (rows, end)
      → ((s' : S) × (info : Info) × (built : S) × (client.get_collection coll s'
            ≡ done (info, built))
          × (most (length base) ≤ or_zero info.indexed)
          × (sweep search clock ef_sweep queries gt 2 (client.sleep 20 built) ≡ done (rows, end)))
        × (map (λ r. r.ef) rows ≡ ef_sweep)
        × All (IsRecall search clock) rows
  unfolding main
  main-IsRecall fuel clock sq8 dim base queries gt s end rows h e =
      let (built, made, swept) =
        bind-done (build client fuel (quantized sq8 dim) base s) _ (rows, end) e in
      let (s', info, last, green, indexed) =
        build-is_ready client fuel (quantized sq8 dim) base s built made in
      let (widths, recalls, whole) =
        sweep-IsRecall search clock ef_sweep queries gt 2 (client.sleep 20 built) end rows h
          swept in
      ((s', info, built, last, indexed, swept), widths, recalls)
