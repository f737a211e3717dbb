-- ===== src/Charts/Vector/Script.antt =====
-- The charts that the script draws and writes.
use rostam_bench.Base.{
  ◌≡◌, refl, Bool, true, false, ◌⊎◌, some, List, [], ◌∷◌, list_eq, if◌then◌else◌,
}
use rostam_bench.Python.Errors.{Text}
use rostam_bench.Python.Dumps.{codes}
use rostam_bench.Charts.Xml.{IsXml}
use rostam_bench.Charts.Parts.{all_safe, all_safe-IsSafe}
use rostam_bench.Charts.Files.{Files, main, main-origin}
use rostam_bench.Charts.Vector.Data.{
  Engine, rostam, milvus, pgvector, weaviate, qdrant, redis, Colors, light_colors, dark_colors,
}
use rostam_bench.Charts.Vector.Shapes.{Floats, IsLawful}
use rostam_bench.Charts.Vector.Pareto.{chart_pareto}
use rostam_bench.Charts.Vector.Matched.{chart_matched}
use rostam_bench.Charts.Vector.LoadCpu.{chart_loadcpu}
use rostam_bench.Charts.Vector.Xml.{IsSafeColors}
use rostam_bench.Charts.Vector.ParetoXml.{chart_pareto-IsXml}
use rostam_bench.Charts.Vector.MatchedXml.{chart_matched-IsXml}
use rostam_bench.Charts.Vector.LoadCpuXml.{chart_loadcpu-IsXml}

-- `THEME[theme]`, for the two themes of the loop.
unfoldable pub theme_colors : Text → Colors
unfolding list_eq
theme_colors theme = if list_eq theme (codes "light") then light_colors else dark_colors

-- `CHARTS`
abbrev pub all_charts : {F : Type 0} → Floats F → List (Text × (Text → Text))
all_charts floats =
    (codes "pareto", λ theme. chart_pareto floats (theme_colors theme))
    ∷ (codes "matched-recall", λ theme. chart_matched floats (theme_colors theme))
    ∷ (codes "load-cpu", λ theme. chart_loadcpu floats (theme_colors theme))
    ∷ []

light_e-all_safe : (k : Engine) → all_safe (light_colors.e k) ≡ true
unfolding all_safe
light_e-all_safe rostam = refl
light_e-all_safe milvus = refl
light_e-all_safe pgvector = refl
light_e-all_safe weaviate = refl
light_e-all_safe qdrant = refl
light_e-all_safe redis = refl

dark_e-all_safe : (k : Engine) → all_safe (dark_colors.e k) ≡ true
unfolding all_safe
dark_e-all_safe rostam = refl
dark_e-all_safe milvus = refl
dark_e-all_safe pgvector = refl
dark_e-all_safe weaviate = refl
dark_e-all_safe qdrant = refl
dark_e-all_safe redis = refl

theme_colors-IsSafeColors : (theme : Text) → IsSafeColors (theme_colors theme)
unfolding theme_colors all_safe
theme_colors-IsSafeColors theme = chosen (list_eq theme (codes "light"))
  where
    chosen : (b : Bool) → IsSafeColors (if b then light_colors else dark_colors)
    chosen true = record {
      muted_safe = all_safe-IsSafe light_colors.muted refl;
      faint_safe = all_safe-IsSafe light_colors.faint refl;
      rule_safe = all_safe-IsSafe light_colors.rule refl;
      grid_safe = all_safe-IsSafe light_colors.grid refl;
      bg_safe = all_safe-IsSafe light_colors.bg refl;
      good_safe = all_safe-IsSafe light_colors.good refl;
      e_safe = λ k. all_safe-IsSafe (light_colors.e k) (light_e-all_safe k);
    }
    chosen false = record {
      muted_safe = all_safe-IsSafe dark_colors.muted refl;
      faint_safe = all_safe-IsSafe dark_colors.faint refl;
      rule_safe = all_safe-IsSafe dark_colors.rule refl;
      grid_safe = all_safe-IsSafe dark_colors.grid refl;
      bg_safe = all_safe-IsSafe dark_colors.bg refl;
      good_safe = all_safe-IsSafe dark_colors.good refl;
      e_safe = λ k. all_safe-IsSafe (dark_colors.e k) (dark_e-all_safe k);
    }

-- For floats that are written as Python documents: whatever a file holds after a run of the script that
-- is not refused, it held before the run, or it is a well-formed document.
pub main-IsXml :
    {F : Type 0} (floats : Floats F)
    → IsLawful floats
    → (is_dir : Text → Bool) (out : Text) (args : List Text) (files after : Files) (d f text : Text)
    → main is_dir out args (all_charts floats) files ≡ some after
    → after d f ≡ some text
    → (files d f ≡ some text) ⊎ IsXml text
main-IsXml floats law is_dir out args files after d f text ran held =
    main-origin IsXml is_dir out args (all_charts floats) files after d f text
      (
        λ theme.
            chart_pareto-IsXml floats law (theme_colors theme) (theme_colors-IsSafeColors theme),
        (
          λ theme.
              chart_matched-IsXml floats law (theme_colors theme) (theme_colors-IsSafeColors theme),
          (
            λ theme.
                chart_loadcpu-IsXml floats law (theme_colors theme)
                  (theme_colors-IsSafeColors theme),
            tt,
          ),
        ),
      )
      ran held
