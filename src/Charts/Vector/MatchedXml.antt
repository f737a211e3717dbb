-- ===== src/Charts/Vector/MatchedXml.antt =====
-- `chart_matched` is a well-formed document.
use rostam_bench.Base.{
  ℕ, refl, Bool, true, false, Option, none, some, List, [], ◌∷◌, map, if◌then◌else◌,
}
use rostam_bench.Python.Errors.{Text}
use rostam_bench.Python.Dumps.{codes}
use rostam_bench.Charts.Xml.{run, IsXml}
use rostam_bench.Charts.Svg.{joined}
use rostam_bench.Charts.Bar.{enumerate}
use rostam_bench.Charts.Inside.{IsInside, IsInside-append, joined-IsInside}
use rostam_bench.Charts.Parts.{all_safe, all_texts_safe, unquoted, unquoted-IsUnquoted}
use rostam_bench.Charts.Vector.Data.{Engine, order, Matched, levels, is_lead, Colors}
use rostam_bench.Charts.Vector.Shapes.{Floats, IsLawful, plain, int, text, fmt}
use rostam_bench.Charts.Vector.Matched.{
  y_of, gw, bw, bar_x, across, lead_figure, dash, figure_bar, engine_bar, level_label, level,
  legend_entry, legend, rates, matched_parts, matched_title, chart_matched,
}
use rostam_bench.Charts.Vector.Xml.{
  IsSafeColors, text-IsInside, line-IsInside, rect-IsInside, svg-IsXml, each-IsInside, safe,
  if_IsSafe,
}

module _ {F : Type 0} (floats : Floats F) (law : IsLawful floats) (t : Colors)
    (colors : IsSafeColors t) where
  across-IsInside : (q : ℕ) → IsInside (across floats t q)
  unfolding all_texts_safe all_safe
  across-IsInside q =
      IsInside-append _ _ (line-IsInside floats law _ _ _ _ t.grid colors.grid_safe)
        (text-IsInside floats law _ _ _ _ colors.faint_safe refl)

  lead_figure-IsInside : (k : Engine) (x q : F) → IsInside (lead_figure floats t k x q)
  unfolding all_texts_safe all_safe run
  lead_figure-IsInside k x q = shown (is_lead k)
    where
      figure : Text
      figure =
          text floats
            (floats.add x (floats.div (floats.sub (bw floats) (int floats 3)) (int floats 2)))
            (floats.sub (y_of floats q) (int floats 6)) (fmt floats q)
            (record (plain (t.e k)) { anchor = codes "middle"; weight = codes "600" })

      shown : (b : Bool) → IsInside (if b then figure else [])
      shown true = text-IsInside floats law _ _ _ _ (colors.e_safe k) refl
      shown false = refl

  dash-IsInside : (x : F) → IsInside (dash floats t x)
  unfolding all_texts_safe all_safe
  dash-IsInside x = text-IsInside floats law _ _ _ _ colors.faint_safe refl

  figure_bar-IsInside : (k : Engine) (x q : F) → IsInside (figure_bar floats t k x q)
  unfolding all_safe
  figure_bar-IsInside k x q =
      rect-IsInside floats law _ _ _ _ (t.e k) _ (codes "1") (colors.e_safe k)
        (if_IsSafe (is_lead k) (codes "1") (codes "0.8") (safe (codes "1") refl)
          (safe (codes "0.8") refl))
        (safe (codes "1") refl)

  engine_bar-IsInside :
      (gx : F) (o : Option ℕ) (bi : ℕ) (k : Engine) → IsInside (engine_bar floats t gx o bi k)
  unfolding engine_bar
  engine_bar-IsInside gx none bi k = dash-IsInside (bar_x floats gx bi)
  engine_bar-IsInside gx (some n) bi k =
      IsInside-append (figure_bar floats t k (bar_x floats gx bi) (int floats n))
        (lead_figure floats t k (bar_x floats gx bi) (int floats n))
        (figure_bar-IsInside k (bar_x floats gx bi) (int floats n))
        (lead_figure-IsInside k (bar_x floats gx bi) (int floats n))

  level_label-IsInside : (gx : F) (lv : Text) → IsInside (level_label floats t gx lv)
  unfolding all_texts_safe all_safe
  level_label-IsInside gx lv = text-IsInside floats law _ _ _ _ colors.muted_safe refl

  level-IsInside : (z : ℕ × Matched) → IsInside (level floats t z)
  unfolding level
  level-IsInside z =
      let gx = floats.add (int floats 60) (floats.mul (int floats z.0) (gw floats)) in
      IsInside-append
        (joined (
          map (λ (p : ℕ × Engine). engine_bar floats t gx (z.1.1 p.1) p.0 p.1) (enumerate 0 order)))
        (level_label floats t gx z.1.0)
        (each-IsInside (λ (p : ℕ × Engine). engine_bar floats t gx (z.1.1 p.1) p.0 p.1)
          (enumerate 0 order) (λ p. engine_bar-IsInside gx (z.1.1 p.1) p.0 p.1))
        (level_label-IsInside gx z.1.0)

  legend_entry-IsInside : (lx : F) (k : Engine) → IsInside (legend_entry floats t lx k)
  unfolding all_texts_safe all_safe
  legend_entry-IsInside lx k =
      IsInside-append _ _
        (rect-IsInside floats law _ _ _ _ (t.e k) (codes "1") (codes "2") (colors.e_safe k)
          (safe (codes "1") refl) (safe (codes "2") refl))
        (text-IsInside floats law _ _ _ _ colors.muted_safe refl)

  legend-IsInside : (ks : List Engine) (lx : F) → IsInside (legend floats t lx ks)
  unfolding legend run
  legend-IsInside [] lx = refl
  legend-IsInside (k ∷ ks) lx =
      IsInside-append (legend_entry floats t lx k) _ (legend_entry-IsInside lx k)
        (legend-IsInside ks _)

  pub chart_matched-IsXml : IsXml (chart_matched floats t)
  unfolding chart_matched unquoted
  chart_matched-IsXml =
      svg-IsXml 880 400 (joined (matched_parts floats t)) t matched_title colors
        (unquoted-IsUnquoted matched_title refl)
        (joined-IsInside (matched_parts floats t) (
          each-IsInside (across floats t) (rates floats) across-IsInside,
          (
            each-IsInside (level floats t) (enumerate 0 levels) level-IsInside,
            (
              line-IsInside floats law _ _ _ _ t.rule colors.rule_safe,
              (legend-IsInside order (int floats 60), tt),
            ),
          ),
        ))
