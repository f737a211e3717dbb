-- ===== src/Charts/Vector/ParetoXml.antt =====
-- `chart_pareto` is a well-formed document.
use rostam_bench.Base.{refl, Bool, true, false, List, [], ◌∷◌, ◌++◌, map}
use rostam_bench.Python.Errors.{Text}
use rostam_bench.Python.Dumps.{codes}
use rostam_bench.Charts.Xml.{run, IsXml, IsSafe, value-IsSafe}
use rostam_bench.Charts.Svg.{joined}
use rostam_bench.Charts.Inside.{svg, IsInside, IsInside-append, joined-IsInside}
use rostam_bench.Charts.Parts.{
  IsSafe-append, spaced-IsSafe, map-All, all_safe, all_texts_safe, unquoted, unquoted-IsUnquoted,
}
use rostam_bench.Charts.Inside.{All-every}
use rostam_bench.Charts.Vector.Data.{Engine, rostam, order, curve, is_lead, Colors}
use rostam_bench.Charts.Vector.Shapes.{Floats, IsLawful}
use rostam_bench.Charts.Vector.Pareto.{
  last_of, x_of, y_of, across, upright, axes, place, path_of, curve_line, marker, end_label,
  engine_curve, rates, recalls, last_recall, pareto_parts, pareto_title, chart_pareto,
}
use rostam_bench.Charts.Vector.Xml.{
  IsSafeColors, fixed1-IsSafe, text-IsInside, turned-IsInside, line-IsInside, circle-IsInside,
  svg-IsXml, each-IsInside, safe, if_IsSafe,
}

module _ {F : Type 0} (floats : Floats F) (law : IsLawful floats) (t : Colors)
    (colors : IsSafeColors t) where
  across-IsInside : (q : F) → IsInside (across floats t q)
  unfolding all_texts_safe all_safe
  across-IsInside q =
      IsInside-append _ _ (line-IsInside floats law _ _ _ _ t.grid colors.grid_safe)
        (text-IsInside floats law _ _ _ _ colors.faint_safe refl)

  upright-IsInside : (r : F) → IsInside (upright floats t r)
  unfolding all_texts_safe all_safe
  upright-IsInside r =
      IsInside-append _ _ (line-IsInside floats law _ _ _ _ t.grid colors.grid_safe)
        (text-IsInside floats law _ _ _ _ colors.faint_safe refl)

  place-IsSafe : (p : F × F) → IsSafe (place floats p)
  place-IsSafe (r, q) =
      IsSafe-append _ _ (fixed1-IsSafe floats law (x_of floats r))
        (refl, fixed1-IsSafe floats law (y_of floats q))

  path_of-IsSafe : (points : (F × F) × List (F × F)) → IsSafe (path_of floats points)
  path_of-IsSafe (p, ps) = spaced-IsSafe _ (
    (refl, place-IsSafe p),
    map-All IsSafe (λ (z : F × F). codes "L" ++ place floats z) ps
        (All-every _ (λ z. (refl, place-IsSafe z)) ps),
  )

  axes-IsInside : IsInside (axes floats t)
  unfolding all_texts_safe all_safe
  axes-IsInside = IsInside-append _ _ (line-IsInside floats law _ _ _ _ t.rule colors.rule_safe) (
      IsInside-append _ _ (text-IsInside floats law _ _ _ _ colors.faint_safe refl)
        (turned-IsInside floats law 16 _ _ _ colors.faint_safe refl))

  curve_line-IsInside :
      (lead : Bool) (col : Text) (points : (F × F) × List (F × F))
      → IsSafe col
      → IsInside (curve_line floats lead col points)
  unfolding curve_line run
  curve_line-IsInside true col points h =
      value-IsSafe (codes "path" ∷ svg) (path_of floats points) _ (path_of-IsSafe points)
        (value-IsSafe (codes "path" ∷ svg) col _ h refl)
  curve_line-IsInside false col points h =
      value-IsSafe (codes "path" ∷ svg) (path_of floats points) _ (path_of-IsSafe points)
        (value-IsSafe (codes "path" ∷ svg) col _ h refl)

  marker-IsInside :
      (lead : Bool) (col : Text) (p : F × F) → IsSafe col → IsInside (marker floats t lead col p)
  unfolding all_safe
  marker-IsInside lead col p h =
      circle-IsInside floats law _ _ _ t.bg col _ (codes "1") colors.bg_safe h
        (if_IsSafe lead (codes "2.5") (codes "1.7") (safe (codes "2.5") refl)
          (safe (codes "1.7") refl))
        (safe (codes "1") refl)

  end_label-IsInside :
      (k : Engine) (col : Text) (end : F × F) → IsSafe col → IsInside (end_label floats k col end)
  unfolding all_texts_safe all_safe
  end_label-IsInside k col end h = text-IsInside floats law _ _ _ _ h refl

  engine_curve-IsInside : (k : Engine) → IsInside (engine_curve floats t k)
  unfolding engine_curve all_texts_safe all_safe
  engine_curve-IsInside k =
      let points = curve floats.number k in
      let col = colors.e_safe k in
      joined-IsInside
        (curve_line floats (is_lead k) (t.e k) points
          ∷ joined (map (marker floats t (is_lead k) (t.e k)) (points.0 ∷ points.1))
          ∷ end_label floats k (t.e k) (last_of points.0 points.1)
          ∷ [])
        (
          curve_line-IsInside (is_lead k) (t.e k) points col,
          (
            each-IsInside (marker floats t (is_lead k) (t.e k)) (points.0 ∷ points.1)
                (λ p. marker-IsInside (is_lead k) (t.e k) p col),
            (end_label-IsInside k (t.e k) (last_of points.0 points.1) col, tt),
          ),
        )

  last_recall-IsInside :
      (col : Text) (end : F × F) → IsSafe col → IsInside (last_recall floats col end)
  unfolding all_texts_safe all_safe
  last_recall-IsInside col end h = text-IsInside floats law _ _ _ _ h refl

  pub chart_pareto-IsXml : IsXml (chart_pareto floats t)
  unfolding chart_pareto unquoted
  chart_pareto-IsXml =
      let points = curve floats.number rostam in
      svg-IsXml 880 470 (joined (pareto_parts floats t)) t pareto_title colors
        (unquoted-IsUnquoted pareto_title refl)
        (joined-IsInside (pareto_parts floats t) (
          each-IsInside (across floats t) (rates floats) across-IsInside,
          (
            each-IsInside (upright floats t) (recalls floats) upright-IsInside,
            (
              axes-IsInside,
              (
                each-IsInside (engine_curve floats t) order engine_curve-IsInside,
                (
                  last_recall-IsInside (t.e rostam) (last_of points.0 points.1)
                      (colors.e_safe rostam),
                  tt,
                ),
              ),
            ),
          ),
        ))
