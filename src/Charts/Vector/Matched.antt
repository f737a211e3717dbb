-- ===== src/Charts/Vector/Matched.antt =====
-- `chart_matched`: throughput at a common recall. The plot is bounded by x0 = 60, x1 = 856, y0 = 330,
-- y1 = 20, and a level is `gw` wide.
use rostam_bench.Base.{ℕ, Option, none, some, List, [], ◌∷◌, ◌++◌, map, length, if◌then◌else◌}
use rostam_bench.Python.Errors.{Text}
use rostam_bench.Python.Dumps.{codes}
use rostam_bench.Charts.Svg.{joined}
use rostam_bench.Charts.Bar.{enumerate}
use rostam_bench.Charts.Vector.Data.{Engine, order, Matched, levels, label, is_lead, Colors}
use rostam_bench.Charts.Vector.Shapes.{Floats, plain, int, text, line, rect, svg, fmt}

abbrev pub matched_title : Text
matched_title = codes "Throughput at matched recall for six engines at recall 0.95 through 0.99."

module _ {F : Type 0} (floats : Floats F) where
  abbrev pub y_of : F → F
  y_of q =
      floats.sub (int floats 330)
        (floats.mul (floats.div q (floats.number 34_000 1)) (int floats 310))

  abbrev pub gw : F
  gw = floats.div (int floats 796) (int floats (length levels))

  abbrev pub bw : F
  bw =
      floats.min (floats.number 210 1)
        (floats.div (floats.sub gw (int floats 34)) (int floats (length order)))

  abbrev pub across : Colors → ℕ → Text
  across t q =
      line floats (int floats 60) (y_of (int floats q)) (int floats 856) (y_of (int floats q))
        t.grid
      ++ text floats (int floats 51) (floats.add (y_of (int floats q)) (floats.number 35 1))
          (fmt floats (int floats q)) (record (plain t.faint) { anchor = codes "end" })

  -- `gx + (gw - bw * len(ORDER)) / 2 + bi * bw`
  abbrev pub bar_x : F → ℕ → F
  bar_x gx bi =
      floats.add
        (floats.add gx
          (floats.div (floats.sub gw (floats.mul bw (int floats (length order)))) (int floats 2)))
        (floats.mul (int floats bi) bw)

  abbrev pub lead_figure : Colors → Engine → F → F → Text
  lead_figure t k x q =
      if is_lead k
      then text floats (floats.add x (floats.div (floats.sub bw (int floats 3)) (int floats 2)))
          (floats.sub (y_of q) (int floats 6)) (fmt floats q)
          (record (plain (t.e k)) { anchor = codes "middle"; weight = codes "600" })
      else []

  abbrev pub dash : Colors → F → Text
  dash t x =
      text floats (floats.add x (floats.div bw (int floats 2))) (int floats 324) (codes "–")
        (record (plain t.faint) { anchor = codes "middle" })

  abbrev pub figure_bar : Colors → Engine → F → F → Text
  figure_bar t k x q =
      rect floats x (y_of q) (floats.sub bw (int floats 3)) (floats.sub (int floats 330) (y_of q))
        (t.e k) (if is_lead k then codes "1" else codes "0.8") (codes "1")

  -- The bar of an engine, or a dash where it has no measurement.
  unfoldable pub engine_bar : Colors → F → Option ℕ → ℕ → Engine → Text
  unfolding rect text
  engine_bar t gx none bi k = dash t (bar_x gx bi)
  engine_bar t gx (some n) bi k =
      figure_bar t k (bar_x gx bi) (int floats n) ++ lead_figure t k (bar_x gx bi) (int floats n)

  abbrev pub level_label : Colors → F → Text → Text
  level_label t gx lv =
      text floats (floats.add gx (floats.div gw (int floats 2))) (int floats 350)
        (codes "recall " ++ lv) (record (plain t.muted) { anchor = codes "middle" })

  unfoldable pub level : Colors → ℕ × Matched → Text
  unfolding engine_bar text
  level t z =
      let gx = floats.add (int floats 60) (floats.mul (int floats z.0) gw) in
      joined (map (λ (p : ℕ × Engine). engine_bar t gx (z.1.1 p.1) p.0 p.1) (enumerate 0 order))
      ++ level_label t gx z.1.0

  abbrev pub legend_entry : Colors → F → Engine → Text
  legend_entry t lx k =
      rect floats lx (int floats 370) (int floats 9) (int floats 9) (t.e k) (codes "1") (codes "2")
      ++ text floats (floats.add lx (int floats 14)) (int floats 378) (label k) (plain t.muted)

  -- The legend from `lx` on.
  unfoldable pub legend : Colors → F → List Engine → Text
  unfolding rect text
  legend t lx [] = []
  legend t lx (k ∷ rest) =
      legend_entry t lx k
      ++ legend t
          (floats.add lx (
            floats.add (floats.mul (int floats (length (label k))) (floats.number 65 1))
              (int floats 36)))
          rest

  abbrev pub rates : List ℕ
  rates = 0 ∷ 1000 ∷ 2000 ∷ 3000 ∷ []

  abbrev pub matched_parts : Colors → List Text
  matched_parts t =
      joined (map (across t) rates)
      ∷ joined (map (level t) (enumerate 0 levels))
      ∷ line floats (int floats 60) (int floats 330) (int floats 856) (int floats 330) t.rule
      ∷ legend t (int floats 60) order
      ∷ []

  unfoldable pub chart_matched : Colors → Text
  unfolding line text level legend svg
  chart_matched t = svg 880 400 (joined (matched_parts t)) t matched_title
