-- ===== src/Sift/Hnswlib.antt =====
-- sift1m/hnswlib_bench.py: `main` without the measuring of memory. The index of hnswlib is a function
-- on a state.
use rostam_bench.Base.{ℕ, zero, suc, ◌+◌, ◌-◌, ◌*◌, ◌≡◌, List, [], ◌∷◌, length, map}
use rostam_bench.PyClient.Socket.{Outcome, done, raised, index_error, ◌>>=◌}
use rostam_bench.PyClient.Recall.{common, neighbours}
use rostam_bench.Sift.Sweep.{Row, line_of, ef_sweep}
use rostam_bench.Sift.Answers.{agreed}

-- The arguments of `init_index`.
pub record IndexSize : Type 0 where
  pub dim : ℕ
  pub max_elements : ℕ
  pub ef_construction : ℕ
  pub m : ℕ
  pub random_seed : ℕ

pub record Hnswlib (S : Type 0) : Type 0 where
  pub init_index : IndexSize → S → Outcome S
  -- the vectors and their labels
  pub add_items : List (List ℕ) → List ℕ → S → Outcome S
  pub set_ef : ℕ → S → S
  -- the labels of the `k` nearest of each query
  pub knn_query : List (List ℕ) → ℕ → S → Outcome (List (List ℕ) × S)

-- `np.arange(n)`, from `i` on.
abbrev pub arange : ℕ → ℕ → List ℕ
arange i zero = []
arange i (suc n) = i ∷ arange (i + 1) n

-- `sum(len(set(labels[i]) & set(gt[i])) for i in range(n))`
unfoldable pub label_hits : ℕ → List (List ℕ) → List (List ℕ) → Outcome ℕ
label_hits zero labels gt = done 0
label_hits (suc n) [] gt = raised index_error
label_hits (suc n) (l ∷ labels) [] = raised index_error
label_hits (suc n) (l ∷ labels) (row ∷ gt) =
    label_hits n labels gt >>= λ rest. done (common l row + rest)

module _ {S : Type 0} (index : Hnswlib S) (clock : ℕ → ℕ) where
  -- The sweep; `i` readings of the clock were taken.
  unfoldable pub widths : List ℕ → List (List ℕ) → List (List ℕ) → ℕ → S → Outcome (List Row × S)
  unfolding label_hits line_of
  widths [] query gt i s = done ([], s)
  widths (ef ∷ efs) query gt i s = index.knn_query query neighbours (index.set_ef ef s) >>= λ got.
      label_hits (length query) got.0 gt >>= λ hits.
      line_of ef hits (length query) (clock (i + 1) - clock i) >>= λ line.
      widths efs query gt (i + 2) got.1 >>= λ rows. done (line ∷ rows.0, rows.1)

  -- `main`, with the arrays of the files; `dim` is the width of `base`.
  unfoldable pub main :
      ℕ → List (List ℕ) → List (List ℕ) → List (List ℕ) → S → Outcome (List Row × S)
  unfolding widths
  main dim base query gt s =
      index.init_index
        (record {
          dim = dim;
          max_elements = length base;
          ef_construction = 200;
          m = 16;
          random_seed = 42;
        })
        s
      >>= λ s₁.
          index.add_items base (arange 0 (length base)) s₁ >>= λ s₂. widths ef_sweep query gt 2 s₂

  -- The documented behaviour of an index: it has the width that was set, and answers each query on its
  -- own, by its graph and its width, which no search changes.
  pub record IsLawful {G : Type 0} (graph : S → G) (width : S → ℕ)
      (nearest : G → ℕ → ℕ → List ℕ → List ℕ) : Type 0 where
    pub width_set : (ef : ℕ) (s : S) → width (index.set_ef ef s) ≡ ef
    pub graph_set : (ef : ℕ) (s : S) → graph (index.set_ef ef s) ≡ graph s
    pub answers :
        (qs : List (List ℕ)) (k : ℕ) (s : S)
        → (s' : S) × (index.knn_query qs k s ≡ done (map (nearest (graph s) (width s) k) qs, s'))
          × (graph s' ≡ graph s)

  -- The neighbours that the searches at a width have in common with the rows of the ground truth.
  abbrev pub hits_at : (List ℕ → List ℕ) → List (List ℕ) → List (List ℕ) → ℕ
  hits_at ids query gt = agreed ids (λ row. row) (length query) query gt

  -- The width, the hits and the neighbours that were to be found.
  abbrev pub figures : Row → ℕ × (ℕ × ℕ)
  figures r = (r.ef, (r.hits, r.wanted))

  abbrev pub figures_at :
      (ℕ → ℕ → List ℕ → List ℕ) → List (List ℕ) → List (List ℕ) → ℕ → ℕ × (ℕ × ℕ)
  figures_at nearest query gt ef = (ef, (hits_at (nearest ef 10) query gt, length query * 10))
