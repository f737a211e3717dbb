-- ===== src/Charts/Vector/LoadCpuXml.antt =====
-- `chart_loadcpu` is a well-formed document.
use rostam_bench.Base.{ℕ, refl, Bool, true, false, [], ◌∷◌, if◌then◌else◌}
use rostam_bench.Python.Errors.{Text}
use rostam_bench.Python.Dumps.{codes}
use rostam_bench.Charts.Xml.{IsXml, IsSafe}
use rostam_bench.Charts.Svg.{joined}
use rostam_bench.Charts.Inside.{IsInside, IsInside-append, joined-IsInside}
use rostam_bench.Charts.Parts.{all_safe, all_texts_safe, unquoted, unquoted-IsUnquoted}
use rostam_bench.Charts.Vector.Data.{Engine, order, Load, load_of, label, is_lead, Colors}
use rostam_bench.Charts.Vector.Shapes.{Floats, IsLawful, int}
use rostam_bench.Charts.Vector.LoadCpu.{
  across, upright, axes, beside, engine_circle, engine_name, engine_figures, engine_load, efforts,
  seconds, load_parts, load_title, chart_loadcpu,
}
use rostam_bench.Charts.Vector.Xml.{
  IsSafeColors, text-IsInside, turned-IsInside, line-IsInside, circle-IsInside, svg-IsXml,
  each-IsInside, safe, if_IsSafe,
}

module _ {F : Type 0} (floats : Floats F) (law : IsLawful floats) (t : Colors)
    (colors : IsSafeColors t) where
  across-IsInside : (c : ℕ) → IsInside (across floats t c)
  unfolding all_texts_safe all_safe
  across-IsInside c =
      IsInside-append _ _ (line-IsInside floats law _ _ _ _ t.grid colors.grid_safe)
        (text-IsInside floats law _ _ _ _ colors.faint_safe refl)

  upright-IsInside : (s : ℕ) → IsInside (upright floats t s)
  unfolding all_texts_safe all_safe
  upright-IsInside s =
      IsInside-append _ _ (line-IsInside floats law _ _ _ _ t.grid colors.grid_safe)
        (text-IsInside floats law _ _ _ _ colors.faint_safe refl)

  axes-IsInside : IsInside (axes floats t)
  unfolding all_texts_safe all_safe
  axes-IsInside = IsInside-append _ _ (line-IsInside floats law _ _ _ _ t.rule colors.rule_safe) (
      IsInside-append _ _ (text-IsInside floats law _ _ _ _ colors.faint_safe refl) (
        IsInside-append _ _ (turned-IsInside floats law 18 _ _ _ colors.faint_safe refl)
          (text-IsInside floats law _ _ _ _ colors.good_safe refl)))

  engine_circle-IsInside :
      (col : Text) (lead : Bool) (d : Load floats.number) (r : F)
      → IsSafe col
      → IsInside (engine_circle floats col lead d r)
  unfolding all_safe
  engine_circle-IsInside col lead d r h =
      circle-IsInside floats law _ _ r col col _ _ h h
        (if_IsSafe lead (codes "2.5") (codes "1.6") (safe (codes "2.5") refl)
          (safe (codes "1.6") refl))
        (if_IsSafe lead (codes "0.95") (codes "0.3") (safe (codes "0.95") refl)
          (safe (codes "0.3") refl))

  engine_name-IsInside :
      (col : Text) (right : Bool) (d : Load floats.number) (dx : F) (name : Text)
      → IsSafe col
      → IsInside (engine_name floats col right d dx name)
  unfolding all_texts_safe all_safe
  engine_name-IsInside col true d dx name h = text-IsInside floats law _ _ _ _ h refl
  engine_name-IsInside col false d dx name h = text-IsInside floats law _ _ _ _ h refl

  engine_figures-IsInside :
      (col : Text) (lead right : Bool) (d : Load floats.number) (dx : F)
      → IsSafe col
      → IsInside (engine_figures floats col lead right d dx)
  unfolding all_texts_safe all_safe
  engine_figures-IsInside col true true d dx h = text-IsInside floats law _ _ _ _ h refl
  engine_figures-IsInside col true false d dx h = text-IsInside floats law _ _ _ _ h refl
  engine_figures-IsInside col false true d dx h = text-IsInside floats law _ _ _ _ h refl
  engine_figures-IsInside col false false d dx h = text-IsInside floats law _ _ _ _ h refl

  engine_load-IsInside : (k : Engine) → IsInside (engine_load floats t k)
  unfolding engine_load
  engine_load-IsInside k =
      let d = load_of floats.number k in
      let lead = is_lead k in
      let r = floats.add (int floats 5) (floats.mul (floats.sqrt d.cores) (floats.number 26 1)) in
      let right = floats.leb d.load (int floats 1100) in
      let dx = beside floats right r in
      let col = if lead then t.e k else t.muted in
      joined-IsInside
        (engine_circle floats (t.e k) lead d r
          ∷ engine_name floats (t.e k) right d dx (label k)
          ∷ engine_figures floats col lead right d dx
          ∷ [])
        (
          engine_circle-IsInside (t.e k) lead d r (colors.e_safe k),
          (
            engine_name-IsInside (t.e k) right d dx (label k) (colors.e_safe k),
            (
              engine_figures-IsInside col lead right d dx
                  (if_IsSafe lead (t.e k) t.muted (colors.e_safe k) colors.muted_safe),
              tt,
            ),
          ),
        )

  pub chart_loadcpu-IsXml : IsXml (chart_loadcpu floats t)
  unfolding chart_loadcpu unquoted
  chart_loadcpu-IsXml =
      svg-IsXml 880 420 (joined (load_parts floats t)) t load_title colors
        (unquoted-IsUnquoted load_title refl)
        (joined-IsInside (load_parts floats t) (
          each-IsInside (across floats t) (efforts floats) across-IsInside,
          (
            each-IsInside (upright floats t) (seconds floats) upright-IsInside,
            (axes-IsInside, (each-IsInside (engine_load floats t) order engine_load-IsInside, tt)),
          ),
        ))
