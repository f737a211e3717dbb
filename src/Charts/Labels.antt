-- ===== src/Charts/Labels.antt =====
-- `decollide` of netkv/charts/mkcharts.py, which moves the labels at the ends of the lines apart.
-- Heights are counted in a unit that divides them all, and grow downwards; how the floats of the
-- script round is not modelled.
use rostam_bench.Base.{ℕ, ◌+◌, ◌==◌, List, [], ◌∷◌, map, if◌then◌else◌}
use rostam_bench.Base.Int.{ℤ, pos}
use rostam_bench.Base.Arith.{◌+ℤ◌, ◌-ℤ◌, ltb_ℤ, leb_ℤ, min_ℤ, max_ℤ}
use rostam_bench.PyClient.Socket.{Outcome, done, raised, value_error, ◌>>=◌}

-- An index of `out` with its value. The list of all stands in the order of `order`, so that the value
-- at its place `k` is `out[order[k]]`.
abbrev pub Placed : Type 0
Placed = ℕ × ℤ

abbrev pub indexed : ℕ → List ℤ → List Placed
indexed i [] = []
indexed i (y ∷ ys) = (i, y) ∷ indexed (i + 1) ys

unfoldable pub insert : Placed → List Placed → List Placed
insert p [] = p ∷ []
insert p (q ∷ ps) = let rest = insert p ps in if leb_ℤ p.1 q.1 then p ∷ q ∷ ps else q ∷ rest

-- `sorted(range(len(ys)), key=lambda i: ys[i])`; equal heights keep their order.
unfoldable pub order : List Placed → List Placed
unfolding insert
order [] = []
order (p ∷ ps) = insert p (order ps)

-- The height of a label below one at `above`.
unfoldable pub pushed : ℤ → ℤ → ℤ → ℤ
pushed gap above y = if ltb_ℤ (y -ℤ above) gap then above +ℤ gap else y

-- The top-down pass behind a label at `above`.
unfoldable pub down_from : ℤ → ℤ → List Placed → List Placed
unfolding pushed
down_from gap above [] = []
down_from gap above ((i, y) ∷ ps) = (i, pushed gap above y) ∷ down_from gap (pushed gap above y) ps

unfoldable pub down : ℤ → List Placed → List Placed
unfolding down_from
down gap [] = []
down gap ((i, y) ∷ ps) = (i, y) ∷ down_from gap y ps

-- The label `i` above the labels that the bottom-up correction has been through.
unfoldable pub lifted : ℤ → Placed → List Placed → List Placed
lifted gap p [] = p ∷ []
lifted gap (i, y) ((j, z) ∷ ps) = (i, if ltb_ℤ (z -ℤ y) gap then z -ℤ gap else y) ∷ (j, z) ∷ ps

-- The bottom-up correction.
unfoldable pub up : ℤ → List Placed → List Placed
unfolding lifted
up gap [] = []
up gap (p ∷ ps) = lifted gap p (up gap ps)

-- `min(out)` and `max(out)`, for labels behind a first one.
abbrev pub lowest : ℤ → List Placed → ℤ
lowest m [] = m
lowest m ((i, y) ∷ ps) = lowest (min_ℤ m y) ps

abbrev pub highest : ℤ → List Placed → ℤ
highest m [] = m
highest m ((i, y) ∷ ps) = highest (max_ℤ m y) ps

unfoldable pub shift : ℤ → ℤ → ℤ → List Placed → ℤ
shift lo hi y ps = max_ℤ (pos 0) (lo -ℤ lowest y ps) -ℤ max_ℤ (pos 0) (highest y ps -ℤ hi)

abbrev pub moved : ℤ → List Placed → List Placed
moved d = map (λ p. (p.0, p.1 +ℤ d))

-- What the shift makes of the labels; `min` of no label raises.
unfoldable pub settled : ℤ → ℤ → List Placed → Outcome (List Placed)
unfolding shift
settled lo hi [] = raised value_error
settled lo hi ((i, y) ∷ ps) = done (moved (shift lo hi y ps) ((i, y) ∷ ps))

-- The labels in `order`, where they come to stand.
unfoldable pub placed : ℤ → ℤ → ℤ → List ℤ → Outcome (List Placed)
unfolding order down up settled
placed gap lo hi ys = settled lo hi (up gap (down gap (order (indexed 0 ys))))

-- `out[i]`, which `order` has for every index.
unfoldable pub value_at : ℕ → List Placed → ℤ
value_at i [] = pos 0
value_at i ((j, y) ∷ ps) = let rest = value_at i ps in if i == j then y else rest

abbrev pub read_back : ℕ → List ℤ → List Placed → List ℤ
read_back i [] out = []
read_back i (y ∷ ys) out = value_at i out ∷ read_back (i + 1) ys out

unfoldable pub decollide : ℤ → ℤ → ℤ → List ℤ → Outcome (List ℤ)
unfolding placed value_at
decollide gap lo hi ys = placed gap lo hi ys >>= λ out. done (read_back 0 ys out)
