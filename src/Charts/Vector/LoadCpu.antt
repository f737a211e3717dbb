-- ===== src/Charts/Vector/LoadCpu.antt =====
-- `chart_loadcpu`: processor time over the time of the load. The plot is bounded by x0 = 68, x1 = 748,
-- y0 = 364, y1 = 28.
use rostam_bench.Base.{ℕ, Bool, List, [], ◌∷◌, ◌++◌, map, if◌then◌else◌}
use rostam_bench.Python.Errors.{Text}
use rostam_bench.Python.Decimal.{decimal}
use rostam_bench.Python.Dumps.{codes}
use rostam_bench.Charts.Svg.{joined}
use rostam_bench.Charts.Vector.Data.{Engine, order, Load, load_of, label, is_lead, Colors}
use rostam_bench.Charts.Vector.Shapes.{Floats, plain, int, text, turned, line, circle, svg, fmt}
use rostam_bench.Charts.Vector.Pareto.{axis_style}

abbrev pub load_title : Text
load_title =
    codes
      "Load wall-clock against CPU seconds spent. Rostam is fastest and cheapest simultaneously."

module _ {F : Type 0} (floats : Floats F) where
  abbrev pub x_of : F → F
  x_of s =
      floats.add (int floats 68)
        (floats.mul (floats.div s (floats.number 15_500 1)) (int floats 680))

  abbrev pub y_of : F → F
  y_of c =
      floats.sub (int floats 364)
        (floats.mul (floats.div c (floats.number 52_000 1)) (int floats 336))

  abbrev pub across : Colors → ℕ → Text
  across t c =
      line floats (int floats 68) (y_of (int floats c)) (int floats 748) (y_of (int floats c))
        t.grid
      ++ text floats (int floats 59) (floats.add (y_of (int floats c)) (floats.number 35 1))
          (fmt floats (int floats c)) (record (plain t.faint) { anchor = codes "end" })

  abbrev pub upright : Colors → ℕ → Text
  upright t s =
      line floats (x_of (int floats s)) (int floats 364) (x_of (int floats s)) (int floats 28)
        t.grid
      ++ text floats (x_of (int floats s)) (int floats 382) (decimal s ++ codes "s")
          (record (plain t.faint) { anchor = codes "middle" })

  abbrev pub axes : Colors → Text
  axes t =
      line floats (int floats 68) (int floats 364) (int floats 748) (int floats 364) t.rule
      ++ (text floats (floats.div (int floats 816) (int floats 2)) (int floats 404)
            (codes "LOAD WALL-CLOCK") (axis_style floats t)
          ++ (turned floats 18 (floats.div (int floats 392) (int floats 2))
                (codes "CPU-SECONDS SPENT") (axis_style floats t)
              ++ text floats (int floats 74) (int floats 38) (codes "← faster · cheaper ↓")
                  (plain t.good)))

  -- `dx` for a circle of the radius `r`, and the side of the text.
  abbrev pub beside : Bool → F → F
  beside right r =
      let reach = floats.add r (int floats 9) in
      if right then reach else floats.sub (int floats 0) reach

  abbrev pub anchor : Bool → Text
  anchor right = if right then codes "start" else codes "end"

  abbrev pub engine_circle : Text → Bool → Load floats.number → F → Text
  engine_circle col lead d r =
      circle floats (x_of d.load) (y_of d.cpu) r col col (if lead then codes "2.5" else codes "1.6")
        (if lead then codes "0.95" else codes "0.3")

  abbrev pub engine_name : Text → Bool → Load floats.number → F → Text → Text
  engine_name col right d dx name =
      text floats (floats.add (x_of d.load) dx) (floats.sub (y_of d.cpu) (int floats 2)) name
        (record (plain col) { size = codes "11.5"; weight = codes "600"; anchor = anchor right })

  abbrev pub engine_figures : Text → Bool → Bool → Load floats.number → F → Text
  engine_figures col lead right d dx =
      text floats (floats.add (x_of d.load) dx) (floats.add (y_of d.cpu) (int floats 12))
        (joined (floats.fixed0 d.load ∷ codes "s · " ∷ fmt floats d.cpu ∷ codes " cpu-s" ∷ []))
        (record (plain col) {
          anchor = anchor right;
          weight = if lead then codes "600" else codes "normal";
        })

  unfoldable pub engine_load : Colors → Engine → Text
  unfolding circle text
  engine_load t k =
      let d = load_of floats.number k in
      let lead = is_lead k in
      let r = floats.add (int floats 5) (floats.mul (floats.sqrt d.cores) (floats.number 26 1)) in
      let right = floats.leb d.load (int floats 1100) in
      let dx = beside right r in
      joined (
        engine_circle (t.e k) lead d r
        ∷ engine_name (t.e k) right d dx (label k)
        ∷ engine_figures (if lead then t.e k else t.muted) lead right d dx
        ∷ [])

  abbrev pub efforts : List ℕ
  efforts = 0 ∷ 1000 ∷ 2000 ∷ 3000 ∷ 4000 ∷ 5000 ∷ []

  abbrev pub seconds : List ℕ
  seconds = 0 ∷ 300 ∷ 600 ∷ 900 ∷ 1200 ∷ 1500 ∷ []

  abbrev pub load_parts : Colors → List Text
  load_parts t =
      joined (map (across t) efforts)
      ∷ joined (map (upright t) seconds)
      ∷ axes t
      ∷ joined (map (engine_load t) order)
      ∷ []

  unfoldable pub chart_loadcpu : Colors → Text
  unfolding line text turned engine_load svg
  chart_loadcpu t = svg 880 420 (joined (load_parts t)) t load_title
