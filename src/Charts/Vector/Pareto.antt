-- ===== src/Charts/Vector/Pareto.antt =====
-- `chart_pareto`: throughput over recall. The plot is bounded by x0 = 62, x1 = 768, y0 = 414, y1 = 26.
use rostam_bench.Base.{Bool, List, [], ◌∷◌, ◌++◌, some, map, if◌then◌else◌}
use rostam_bench.Python.Errors.{Text}
use rostam_bench.Python.Dumps.{codes}
use rostam_bench.Charts.Svg.{joined}
use rostam_bench.Charts.Line.{spaced}
use rostam_bench.Charts.Vector.Data.{Engine, rostam, order, curve, label, is_lead, Colors}
use rostam_bench.Charts.Vector.Shapes.{
  Floats, Style, plain, int, text, turned, line, circle, svg, fmt,
}

-- The last of a list that is not empty.
abbrev pub last_of {ℓ} : {A : Type ℓ} → A → List A → A
last_of a [] = a
last_of a (b ∷ rest) = last_of b rest

abbrev pub pareto_title : Text
pareto_title =
    codes
      "Recall versus queries per second. Rostam's curve is above every other engine across the full recall range."

module _ {F : Type 0} (floats : Floats F) where
  abbrev pub x_of : F → F
  x_of r = floats.add (int floats 62) (
      floats.mul
        (floats.div (floats.sub r (floats.number 865 3))
          (floats.sub (floats.number 10 1) (floats.number 865 3)))
        (int floats 706))

  abbrev pub y_of : F → F
  y_of q = floats.sub (int floats 414) (
      floats.mul
        (floats.div (floats.sub (floats.log10 q) (floats.log10 (floats.number 2000 1))) (
          floats.sub (floats.log10 (floats.number 52_000 1)) (floats.log10 (floats.number 2000 1))))
        (int floats 388))

  abbrev pub across : Colors → F → Text
  across t q =
      line floats (int floats 62) (y_of q) (int floats 768) (y_of q) t.grid
      ++ text floats (int floats 53) (floats.add (y_of q) (floats.number 35 1)) (fmt floats q)
          (record (plain t.faint) { anchor = codes "end" })

  abbrev pub upright : Colors → F → Text
  upright t r =
      line floats (x_of r) (int floats 414) (x_of r) (int floats 26) t.grid
      ++ text floats (x_of r) (int floats 432) (floats.fixed2 r)
          (record (plain t.faint) { anchor = codes "middle" })

  -- The style of the titles of the axes.
  abbrev pub axis_style : Colors → Style
  axis_style t = record (plain t.faint) {
    size = codes "10";
    anchor = codes "middle";
    spacing = some (codes "0.12em");
  }

  abbrev pub axes : Colors → Text
  axes t =
      line floats (int floats 62) (int floats 414) (int floats 768) (int floats 414) t.rule
      ++ (text floats (floats.div (int floats 830) (int floats 2)) (int floats 454)
            (codes "RECALL @ k=100") (axis_style t)
          ++ (turned floats 16 (floats.div (int floats 440) (int floats 2)) (codes "QUERIES / SEC")
              (axis_style t)))

  abbrev pub place : F × F → Text
  place (r, q) = floats.fixed1 (x_of r) ++ (codes "," ++ floats.fixed1 (y_of q))

  -- `"M"` in front of the first place of a path and `"L"` in front of the others.
  abbrev pub path_of : (F × F) × List (F × F) → Text
  path_of (p, ps) = spaced ((codes "M" ++ place p) ∷ map (λ (z : F × F). codes "L" ++ place z) ps)

  unfoldable pub curve_line : Bool → Text → (F × F) × List (F × F) → Text
  unfolding spaced
  curve_line lead col points = joined (
      codes "<path d=\""
      ∷ path_of points
      ∷ codes "\" fill=\"none\" stroke=\""
      ∷ col
      ∷ codes "\" stroke-width=\""
      ∷ (if lead then codes "2.8" else codes "1.6")
      ∷ codes "\" stroke-linecap=\"round\" stroke-linejoin=\"round\" opacity=\""
      ∷ (if lead then codes "1" else codes "0.85")
      ∷ codes "\"/>"
      ∷ [])

  abbrev pub marker : Colors → Bool → Text → F × F → Text
  marker t lead col p =
      circle floats (x_of p.0) (y_of p.1) (if lead then floats.number 44 1 else floats.number 31 1)
        t.bg col (if lead then codes "2.5" else codes "1.7") (codes "1")

  abbrev pub end_label : Engine → Text → F × F → Text
  end_label k col end =
      text floats (floats.add (x_of end.0) (int floats 11)) (floats.add (y_of end.1) (int floats 4))
        (label k) (record (plain col) { size = codes "11.5"; weight = codes "600" })

  unfoldable pub engine_curve : Colors → Engine → Text
  unfolding curve_line text circle
  engine_curve t k =
      let (p, ps) = curve floats.number k in
      joined (
        curve_line (is_lead k) (t.e k) (p, ps)
        ∷ joined (map (marker t (is_lead k) (t.e k)) (p ∷ ps))
        ∷ end_label k (t.e k) (last_of p ps)
        ∷ [])

  -- The figures of the axes.
  abbrev pub rates : List F
  rates = int floats 200 ∷ int floats 500 ∷ int floats 1000 ∷ int floats 2000 ∷ int floats 5000 ∷ []

  abbrev pub recalls : List F
  recalls =
      floats.number 88 2
      ∷ floats.number 90 2
      ∷ floats.number 92 2
      ∷ floats.number 94 2
      ∷ floats.number 96 2
      ∷ floats.number 98 2
      ∷ floats.number 100 2
      ∷ []

  abbrev pub last_recall : Text → F × F → Text
  last_recall col end =
      text floats (floats.add (x_of end.0) (int floats 11))
        (floats.add (y_of end.1) (int floats 19)) (codes "0.9978")
        (record (plain col) { weight = codes "600" })

  abbrev pub pareto_parts : Colors → List Text
  pareto_parts t =
      let points = curve floats.number rostam in
      joined (map (across t) rates)
      ∷ joined (map (upright t) recalls)
      ∷ axes t
      ∷ joined (map (engine_curve t) order)
      ∷ last_recall (t.e rostam) (last_of points.0 points.1)
      ∷ []

  unfoldable pub chart_pareto : Colors → Text
  unfolding line text turned engine_curve svg
  chart_pareto t = svg 880 470 (joined (pareto_parts t)) t pareto_title
