-- ===== src/Charts/Bar.antt =====
-- `bar_chart` of netkv/charts/mkcharts.py.
use rostam_bench.Base.{
  ℕ, zero, suc, ◌+◌, ◌-◌, ◌*◌, Option, none, some, List, [], ◌∷◌, ◌++◌, length, ltb, if◌then◌else◌,
}
use rostam_bench.Base.Int.{ℤ, pos}
use rostam_bench.Base.Arith.{sub_ℕ, min_ℤ, ◌+ℤ◌, ◌-ℤ◌}
use rostam_bench.Python.Errors.{Text}
use rostam_bench.Python.Decimal.{decimal}
use rostam_bench.Python.Dumps.{codes}
use rostam_bench.PyClient.Socket.{Outcome, done, raised, zero_division, ◌>>=◌}
use rostam_bench.Sift.Quantile.{item}
use rostam_bench.Charts.Escape.{esc}
use rostam_bench.Charts.Svg.{
  Format, Theme, page_h, ml, mt, pw, ph, theme_of, joined, head, height, each, yaxis,
}
use rostam_bench.Charts.Line.{color, Series, x_title}

-- `k` times an integer.
unfoldable pub times : ℕ → ℤ → ℤ
times zero z = pos 0
times (suc k) z = z +ℤ times k z

-- The indices of a list.
abbrev pub enumerate {ℓ} : {A : Type ℓ} → ℕ → List A → List (ℕ × A)
enumerate i [] = []
enumerate i (a ∷ rest) = (i, a) ∷ enumerate (i + 1) rest

-- Horizontal lengths of a chart with `ng` groups of `ns` bars are over `unit ng ns`.
abbrev pub unit : ℕ → ℕ → ℕ
unit ng ns = 4 * (ng * ns)

-- Half of `bw`, which is min(46, (gw - 22) / ns) for `gw` = PW / ng.
unfoldable pub half_bar : ℕ → ℕ → Outcome ℤ
half_bar zero ns = raised zero_division
half_bar (suc g) zero = raised zero_division
half_bar (suc g) (suc s) = done (min_ℤ (pos (92 * (suc g * suc s))) (sub_ℕ (2 * pw) (44 * suc g)))

-- `gx`
unfoldable pub group_x : ℕ → ℕ → ℕ → ℕ
group_x ng ns gi = ml * unit ng ns + pw * (4 * ns) * gi + 2 * pw * ns

-- `x` of the bar `si`.
unfoldable pub bar_x : ℕ → ℕ → ℤ → ℕ → ℕ → ℤ
unfolding group_x times
bar_x ng ns half gi si =
    pos (group_x ng ns gi) -ℤ times ns half +ℤ times (2 * si) half +ℤ pos (unit ng ns)

-- `bw-2`
unfoldable pub bar_width : ℕ → ℕ → ℤ → ℤ
unfolding times
bar_width ng ns half = times 2 half -ℤ pos (2 * unit ng ns)

module _ (format : Format) where
  unfoldable pub bar : Theme → ℕ → ℕ → ℤ → ℕ → ℕ → ℕ × Series → Outcome Text
  unfolding color item height bar_x bar_width
  bar t ng ns half ymax gi (si, (name, vals)) = do
    c ← color t si name
    v ← item gi vals
    y ← height ymax v
    let x = bar_x ng ns half gi si
    done (
        joined (
          codes "<rect x=\""
          ∷ format.fixed1 x (unit ng ns)
          ∷ codes "\" y=\""
          ∷ format.fixed1 y ymax
          ∷ codes "\" width=\""
          ∷ format.fixed1 (bar_width ng ns half) (unit ng ns)
          ∷ codes "\" height=\""
          ∷ format.fixed1 (pos (v * ph)) ymax
          ∷ codes "\" fill=\""
          ∷ c
          ∷ codes "\" rx=\"4\" ry=\"4\"/>"
          ∷ codes "<text class=\"lb\" x=\""
          ∷ format.fixed1 (x +ℤ (half -ℤ pos (unit ng ns))) (unit ng ns)
          ∷ codes "\" y=\""
          ∷ format.fixed1 (y -ℤ pos (6 * ymax)) ymax
          ∷ codes "\" text-anchor=\"middle\">"
          ∷ format.general v
          ∷ codes "</text>"
          ∷ []))

  unfoldable pub group_label : ℕ → ℕ → ℕ × Text → Text
  unfolding group_x
  group_label ng ns (gi, g) = joined (
      codes "<text class=\"ax\" x=\""
      ∷ format.fixed1 (pos (group_x ng ns gi)) (unit ng ns)
      ∷ codes "\" y=\""
      ∷ decimal (mt + ph + 20)
      ∷ codes "\" text-anchor=\"middle\">"
      ∷ esc g
      ∷ codes "</text>"
      ∷ [])

  unfoldable pub group : Theme → ℕ → ℕ → ℤ → ℕ → List Series → ℕ × Text → Outcome Text
  unfolding each bar group_label
  group t ng ns half ymax series (gi, g) =
      each (bar t ng ns half ymax gi) (enumerate 0 series) >>= λ bars.
      done (group_label ng ns (gi, g) ++ joined bars)

  unfoldable pub legend_entry : Theme → ℕ × Series → Outcome Text
  unfolding color
  legend_entry t (si, (name, vals)) = color t si name >>= λ c. done (
      joined (
        codes "<rect x=\""
        ∷ decimal (ml + pw + 13)
        ∷ codes "\" y=\""
        ∷ decimal (mt + 12 + si * 22 - 8)
        ∷ codes "\" width=\"10\" height=\"10\" fill=\""
        ∷ c
        ∷ codes "\" rx=\"2\"/>"
        ∷ codes "<text class=\"lb\" x=\""
        ∷ decimal (ml + pw + 13 + 16)
        ∷ codes "\" y=\""
        ∷ decimal (mt + 12 + si * 22 + 1)
        ∷ codes "\">"
        ∷ esc name
        ∷ codes "</text>"
        ∷ []))

  -- A single series has no legend.
  unfoldable pub legend : Theme → List Series → Outcome (List Text)
  unfolding each legend_entry
  legend t series =
      each (legend_entry t) (enumerate 0 (if ltb 1 (length series) then series else []))

  -- `if note:`
  unfoldable pub note_line : Option Text → Text
  note_line none = []
  note_line (some []) = []
  note_line (some (c ∷ note)) = joined (
      codes "<text class=\"an\" x=\""
      ∷ decimal ml
      ∷ codes "\" y=\""
      ∷ decimal (page_h - 10)
      ∷ codes "\">"
      ∷ esc (c ∷ note)
      ∷ codes "</text>"
      ∷ [])

  unfoldable pub bar_chart :
      Text → Text → Text → List Text → List Series → ℕ → List ℕ → Text → Option Text → Outcome Text
  unfolding theme_of head yaxis half_bar each group x_title legend note_line
  bar_chart theme title sub groups series ymax ticks xlabel note = do
    t ← theme_of theme
    axis ← yaxis format t ymax ticks
    half ← half_bar (length groups) (length series)
    bars ← each (group t (length groups) (length series) half ymax series) (enumerate 0 groups)
    entries ← legend t series
    done (
        joined (
          head t title sub
          ∷ axis
          ∷ joined bars
          ∷ x_title format xlabel 38
          ∷ joined entries
          ∷ note_line note
          ∷ codes "</svg>"
          ∷ []))
