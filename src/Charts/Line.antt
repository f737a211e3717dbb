-- ===== src/Charts/Line.antt =====
-- `line_chart` of netkv/charts/mkcharts.py.
use rostam_bench.Base.{
  ℕ, zero, suc, ◌+◌, ◌-◌, ◌*◌, Option, none, some, List, [], ◌∷◌, ◌++◌, map, length, zip, ltb,
  list_eq, ◌==◌, if◌then◌else◌,
}
use rostam_bench.Base.Int.{ℤ, pos}
use rostam_bench.Base.Arith.{pos_part, neg_part, ◌+ℤ◌, ◌-ℤ◌}
use rostam_bench.Python.Errors.{Text}
use rostam_bench.Python.Decimal.{decimal}
use rostam_bench.Python.Dumps.{codes}
use rostam_bench.PyClient.Socket.{Outcome, done, raised, index_error, zero_division, ◌>>=◌}
use rostam_bench.Sift.Quantile.{item}
use rostam_bench.Charts.Escape.{esc}
use rostam_bench.Charts.Labels.{decollide}
use rostam_bench.Charts.Svg.{
  Format, Theme, ml, mt, pw, ph, theme_of, joined, head, height, each, yaxis,
}

-- `SLOT`
abbrev pub slots : List (Text × ℕ)
slots =
    (codes "Rostam", 0)
    ∷ (codes "Memcached", 1)
    ∷ (codes "Dragonfly", 2)
    ∷ (codes "Valkey", 3)
    ∷ (codes "Redis", 4)
    ∷ (codes "KeyDB", 5)
    ∷ (codes "Aerospike", 6)
    ∷ []

-- The slot of a name that has one, and else the index of the series.
unfoldable pub slot_in : List (Text × ℕ) → Text → ℕ → ℕ
unfolding list_eq
slot_in [] name i = i
slot_in ((n, k) ∷ rest) name i =
    let other = slot_in rest name i in if list_eq n name then k else other

unfoldable pub color : Theme → ℕ → Text → Outcome Text
unfolding slot_in item
color t i name = item (slot_in slots name i) t.series

-- The colours of the names, from index `i` on.
unfoldable pub colors : Theme → ℕ → List Text → Outcome (List Text)
unfolding color
colors t i [] = done []
colors t i (name ∷ names) = color t i name >>= λ c. colors t (i + 1) names >>= λ cs. done (c ∷ cs)

-- The numerators of `xpos` from index `i` on, over `n - 1`.
abbrev pub positions : ℕ → ℕ → ℕ → List ℕ
positions i zero n = []
positions i (suc left) n = (ml * (n - 1) + pw * i) ∷ positions (i + 1) left n

unfoldable pub xpos : ℕ → Outcome (List ℕ)
xpos n = if n == 1 then raised zero_division else done (positions 0 n n)

-- `vals[-1]`
unfoldable pub last : List ℕ → Outcome ℕ
last [] = raised index_error
last (v ∷ []) = done v
last (v ∷ u ∷ vals) = last (u ∷ vals)

-- `" ".join(texts)`
unfoldable pub spaced : List Text → Text
spaced [] = []
spaced (t ∷ []) = t
spaced (t ∷ u ∷ ts) = t ++ (codes " " ++ spaced (u ∷ ts))

-- A series of a chart.
abbrev pub Series : Type 0
Series = Text × List ℕ

-- The heights of the ends, and of the labels, over `ymax`.
unfoldable pub ends_of : ℕ → List Series → Outcome (List ℤ)
unfolding each last height
ends_of ymax series = each (λ s. last s.1 >>= height ymax) series

unfoldable pub label_heights : ℕ → List ℤ → Outcome (List ℤ)
unfolding decollide
label_heights ymax ends =
    decollide (pos (15 * ymax)) (pos ((mt - 6) * ymax)) (pos ((mt + ph + 6) * ymax)) ends

module _ (format : Format) where
  unfoldable pub x_label : ℕ → ℕ × Text → Text
  x_label n (x, lab) = joined (
      codes "<text class=\"ax\" x=\""
      ∷ format.fixed1 (pos x) (n - 1)
      ∷ codes "\" y=\""
      ∷ decimal (mt + ph + 20)
      ∷ codes "\" text-anchor=\"middle\">"
      ∷ lab
      ∷ codes "</text>"
      ∷ [])

  -- `ML+PW/2` is the numerator over 2.
  unfoldable pub x_title : Text → ℕ → Text
  x_title xlabel below = joined (
      codes "<text class=\"ax\" x=\""
      ∷ format.fixed1 (pos (2 * ml + pw)) 2
      ∷ codes "\" y=\""
      ∷ decimal (mt + ph + below)
      ∷ codes "\" text-anchor=\"middle\">"
      ∷ esc xlabel
      ∷ codes "</text>"
      ∷ [])

  unfoldable pub rule_line : Theme → ℕ → Option (ℕ × Text) → Outcome Text
  unfolding height
  rule_line t ymax none = done []
  rule_line t ymax (some (val, txt)) = height ymax val >>= λ y. done (
      joined (
        codes "<line x1=\""
        ∷ decimal ml
        ∷ codes "\" y1=\""
        ∷ format.fixed1 y ymax
        ∷ codes "\" x2=\""
        ∷ decimal (ml + pw)
        ∷ codes "\" y2=\""
        ∷ format.fixed1 y ymax
        ∷ codes "\" stroke=\""
        ∷ t.rule
        ∷ codes "\" stroke-width=\"1.5\" stroke-dasharray=\"5 4\"/>"
        ∷ codes "<text class=\"an\" x=\""
        ∷ decimal (ml + 6)
        ∷ codes "\" y=\""
        ∷ format.fixed1 (y -ℤ pos (7 * ymax)) ymax
        ∷ codes "\">"
        ∷ esc txt
        ∷ codes "</text>"
        ∷ []))

  unfoldable pub point : ℕ → ℕ → ℕ × ℕ → Outcome Text
  unfolding height
  point n ymax (x, v) = height ymax v >>= λ y.
      done (joined (format.fixed1 (pos x) (n - 1) ∷ codes "," ∷ format.fixed1 y ymax ∷ []))

  unfoldable pub polyline : Text → List Text → Text
  unfolding spaced
  polyline c points = joined (
      codes "<polyline points=\""
      ∷ spaced points
      ∷ codes "\" fill=\"none\" stroke=\""
      ∷ c
      ∷ codes "\" stroke-width=\"2\" stroke-linejoin=\"round\" stroke-linecap=\"round\"/>"
      ∷ [])

  unfoldable pub marker : Theme → Text → ℕ → ℕ → ℕ × ℕ → Outcome Text
  unfolding height
  marker t c n ymax (x, v) = height ymax v >>= λ y. done (
      joined (
        codes "<circle cx=\""
        ∷ format.fixed1 (pos x) (n - 1)
        ∷ codes "\" cy=\""
        ∷ format.fixed1 y ymax
        ∷ codes "\" r=\"4.5\" fill=\""
        ∷ c
        ∷ codes "\" stroke=\""
        ∷ t.surface
        ∷ codes "\" stroke-width=\"2\"/>"
        ∷ []))

  -- The line of a series and its markers.
  unfoldable pub curve : Theme → ℕ → ℕ → List ℕ → Series × Text → Outcome Text
  unfolding each point polyline marker
  curve t n ymax xs ((name, vals), c) = each (point n ymax) (zip xs vals) >>= λ points.
      each (marker t c n ymax) (zip xs vals) >>= λ markers.
      done (polyline c points ++ joined markers)

  -- The line back to the end of the curve, if the label is more than 1.5 away from it.
  unfoldable pub leader : ℕ → Text → ℤ → ℤ → Text
  leader ymax c ey ly =
      let d = ly -ℤ ey in
      if ltb (3 * ymax) (2 * (pos_part d + neg_part d))
      then joined (
          codes "<path d=\"M "
          ∷ format.fixed1 (pos (ml + pw + 3)) 1
          ∷ codes " "
          ∷ format.fixed1 ey ymax
          ∷ codes " L "
          ∷ format.fixed1 (pos (ml + pw + 9)) 1
          ∷ codes " "
          ∷ format.fixed1 ly ymax
          ∷ codes "\" stroke=\""
          ∷ c
          ∷ codes "\" stroke-width=\"1\" fill=\"none\" opacity=\"0.65\"/>"
          ∷ [])
      else []

  unfoldable pub end_label : ℕ → (Text × Text) × (ℤ × ℤ) → Text
  unfolding leader
  end_label ymax ((name, c), (ey, ly)) =
      leader ymax c ey ly
      ++ joined (
          codes "<circle cx=\""
          ∷ decimal (ml + pw + 13)
          ∷ codes "\" cy=\""
          ∷ format.fixed1 ly ymax
          ∷ codes "\" r=\"4.5\" fill=\""
          ∷ c
          ∷ codes "\"/>"
          ∷ codes "<text class=\"lb\" x=\""
          ∷ decimal (ml + pw + 23)
          ∷ codes "\" y=\""
          ∷ format.fixed1 (ly +ℤ pos (4 * ymax)) ymax
          ∷ codes "\">"
          ∷ esc name
          ∷ codes "</text>"
          ∷ [])

  unfoldable pub line_chart :
      Text
      → Text
      → Text
      → List Text
      → List Series
      → ℕ
      → List ℕ
      → Text
      → Option (ℕ × Text)
      → Outcome Text
  unfolding theme_of head yaxis xpos x_label x_title rule_line colors ends_of label_heights curve
      end_label
  line_chart theme title sub xs series ymax ticks xlabel rule = do
    t ← theme_of theme
    axis ← yaxis format t ymax ticks
    xp ← xpos (length xs)
    above ← rule_line t ymax rule
    let names = map (λ (s : Series). s.0) series
    cs ← colors t 0 names
    ends ← ends_of ymax series
    lab_y ← label_heights ymax ends
    curves ← each (curve t (length xs) ymax xp) (zip series cs)
    done (
        joined (
          head t title sub
          ∷ axis
          ∷ joined (map (x_label (length xs)) (zip xp xs))
          ∷ x_title xlabel 40
          ∷ above
          ∷ joined curves
          ∷ joined (map (end_label ymax) (zip (zip names cs) (zip ends lab_y)))
          ∷ codes "</svg>"
          ∷ []))
