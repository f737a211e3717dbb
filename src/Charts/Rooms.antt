-- ===== src/Charts/Rooms.antt =====
-- Where the bars of `bar_chart` of netkv/charts/mkcharts.py stand.
use rostam_bench.Base.{
  ℕ, zero, suc, ◌+◌, ◌-◌, ◌*◌, ◌≤◌, ◌<◌, ◌≡◌, refl, ap, inl, inr, arith, Bool-cases,
}
use rostam_bench.Base.Int.{ℤ, pos}
use rostam_bench.Base.Arith.{sub_ℕ, leb_ℤ, ◌+ℤ◌, ◌≤ℤ◌, int_laws}
use rostam_bench.PyClient.Socket.{done}
use rostam_bench.Charts.Svg.{ml, mt, pw, ph, height}
use rostam_bench.Charts.Bar.{times, unit, half_bar, group_x, bar_x, bar_width}

-- Where the room of the group `gi` begins, when the plot is cut into `ng` rooms of one width.
abbrev pub room : ℕ → ℕ → ℕ → ℕ
room ng ns gi = ml * unit ng ns + pw * (4 * ns) * gi

times_pos : (k h : ℕ) → times k (pos h) ≡ pos (k * h)
unfolding times
times_pos zero h = ap pos (omega arith)
times_pos (suc k) h = rw (times_pos k h) (omega int_laws)

-- Half the width of a bar, where bars of the width of the gap have room.
half_bar-pos :
    (ng ns : ℕ)
    → 1 ≤ ng
    → 1 ≤ ns
    → 2 * (ng * ns) + 22 * ng ≤ pw
    → (h : ℕ) × (half_bar ng ns ≡ done (pos h)) × (4 * (ng * ns) ≤ h) × (h + 44 * ng ≤ 2 * pw)
unfolding half_bar
half_bar-pos zero ns g s fits = absurd (omega arith)
half_bar-pos (suc g) zero gs s fits = absurd (omega arith)
half_bar-pos (suc g) (suc s) gs ss fits =
    let wide : sub_ℕ (2 * pw) (44 * suc g) ≡ pos (2 * pw - 44 * suc g) = ground arith in
    elim (Bool-cases (leb_ℤ (pos (92 * (suc g * suc s))) (pos (2 * pw - 44 * suc g)))) [
      | inl e ↦ (92 * (suc g * suc s), rw (wide, e) refl, omega arith, ground (arith, e))
      | inr e ↦ (2 * pw - 44 * suc g, rw (wide, e) refl, omega arith, omega arith)
    ]

mul_le : (k a b : ℕ) → a ≤ b → k * a ≤ k * b
mul_le zero a b h = omega arith
mul_le (suc k) a b h = omega (arith, mul_le k a b h)

-- A group of bars is as wide as its room less 11 on both sides.
group-room :
    (ng ns gi h : ℕ)
    → h + 44 * ng ≤ 2 * pw
    → room ng ns gi + ns * h + 11 * unit ng ns ≤ group_x ng ns gi
unfolding group_x
group-room ng ns gi h fits =
    let all : ns * (h + 44 * ng) ≤ ns * (2 * pw) = mul_le ns (h + 44 * ng) (2 * pw) fits in
    omega (arith, all)

bar_x-pos :
    (ng ns gi h si : ℕ)
    → ns * h ≤ group_x ng ns gi
    → bar_x ng ns (pos h) gi si ≡ pos (group_x ng ns gi + 2 * si * h + unit ng ns - ns * h)
unfolding bar_x
bar_x-pos ng ns gi h si fits = rw (times_pos ns h, times_pos (2 * si) h) (omega int_laws)

bar_width-pos :
    (ng ns h : ℕ) → unit ng ns ≤ h → bar_width ng ns (pos h) ≡ pos (2 * h - 2 * unit ng ns)
unfolding bar_width
bar_width-pos ng ns h wide = rw (times_pos 2 h) (omega int_laws)

-- The bar `si` of the group `gi` stands in the room of its group, 12 from both sides, and ends 2 before
-- the next bar begins. Lengths are over `unit ng ns`.
pub record IsInRoom (ng ns : ℕ) (half : ℤ) (gi si : ℕ) : Type 0 where
  pub is_wide : pos 0 ≤ℤ bar_width ng ns half
  pub begins : pos (room ng ns gi + 12 * unit ng ns) ≤ℤ bar_x ng ns half gi si
  pub ends :
      bar_x ng ns half gi si +ℤ bar_width ng ns half +ℤ pos (12 * unit ng ns)
      ≤ℤ pos (room ng ns (gi + 1))
  pub gap :
      bar_x ng ns half gi si +ℤ bar_width ng ns half +ℤ pos (2 * unit ng ns)
      ≡ bar_x ng ns half gi (si + 1)

-- A bar for the value `v` begins in the plot and ends on its base line. Heights are over `ymax`.
abbrev pub IsInPlot : ℕ → ℕ → Type 0
IsInPlot ymax v =
    (y : ℤ) × (height ymax v ≡ done y)
    × (pos (mt * ymax) ≤ℤ y)
    × (y +ℤ pos (v * ph) ≡ pos ((mt + ph) * ymax))

height-IsInPlot : (ymax v : ℕ) → 1 ≤ ymax → v ≤ ymax → IsInPlot ymax v
unfolding height
height-IsInPlot zero v some_scale fits = absurd (omega arith)
height-IsInPlot (suc n) v some_scale fits =
    let above : sub_ℕ ((mt + ph) * suc n) (v * ph) ≡ pos ((mt + ph) * suc n - v * ph) =
      ground arith in
    (pos ((mt + ph) * suc n - v * ph), ap done above, omega arith, omega int_laws)

in_room :
    (ng ns gi si h : ℕ)
    → si < ns
    → unit ng ns ≤ h
    → h + 44 * ng ≤ 2 * pw
    → IsInRoom ng ns (pos h) gi si
unfolding group_x
in_room ng ns gi si h last wide fits =
    let inside = group-room ng ns gi h fits in
    let bars : (si + 1) * h ≤ ns * h = omega (arith, mul_le h (si + 1) ns (omega arith)) in
    let here = bar_x-pos ng ns gi h si (omega (arith, inside)) in
    let there = bar_x-pos ng ns gi h (si + 1) (omega (arith, inside)) in
    let width = bar_width-pos ng ns h wide in
    record {
      is_wide = rw width (omega arith);
      begins = rw here (omega (arith, inside));
      ends = rw (here, width) (omega (int_laws, inside, bars));
      gap = rw (here, there, width) (omega (int_laws, inside));
    }

-- For groups and bars that leave a bar the width of the gap, and values within a scale that is not 0:
-- `bar_chart` finds a width for the bars, the rooms of the groups make up the plot from its left to
-- its right side, every bar stands in the room of its group, 12 from both sides and 2 before the next
-- bar, and between the top of the plot and its base line, on which it stands.
pub half_bar-IsInRoom :
    (ng ns gi si ymax v : ℕ)
    → gi < ng
    → si < ns
    → 2 * (ng * ns) + 22 * ng ≤ pw
    → 1 ≤ ymax
    → v ≤ ymax
    → (half : ℤ) × (half_bar ng ns ≡ done half)
      × (room ng ns 0 ≡ ml * unit ng ns)
      × (room ng ns ng ≡ (ml + pw) * unit ng ns)
      × IsInRoom ng ns half gi si
      × IsInPlot ymax v
half_bar-IsInRoom ng ns gi si ymax v in_g in_s fits some_scale scaled =
    let (h, e, wide, narrow) = half_bar-pos ng ns (omega arith) (omega arith) fits in
    (
      pos h,
      e,
      omega arith,
      omega arith,
      in_room ng ns gi si h in_s wide narrow,
      height-IsInPlot ymax v some_scale scaled,
    )
