-- ===== src/Charts/ScriptXml.antt =====
-- Every chart of the script is drawn, as a well-formed document.
use rostam_bench.Base.{
  ℕ, ◌≡◌, ◌≢◌, ◌≤◌, refl, Bool, true, not, ◌&&◌, Option, List, [], ◌∷◌, All, arith, length, ltb,
  leb, ◌==◌, list_eq,
}
use rostam_bench.Python.Errors.{Text}
use rostam_bench.Charts.Xml.{IsXml}
use rostam_bench.Charts.Svg.{Format, IsLawful}
use rostam_bench.Charts.Line.{Series, line_chart}
use rostam_bench.Charts.Bar.{bar_chart}
use rostam_bench.Charts.Inside.{Ends}
use rostam_bench.Charts.Parts.{
  both, unquoted, unquoted-IsUnquoted, all_safe, all_texts_safe, all_texts_safe-IsSafe, IsThemeName,
}
use rostam_bench.Charts.LineXml.{IsPlot, line_chart-IsXml}
use rostam_bench.Charts.BarXml.{bar_chart-IsXml}
use rostam_bench.Charts.Script.{
  is_in, pick, local_get, local_put, fast, family, rf2_all, rf2_master, wire_sweep_series,
  replication_series, sharding_series, script,
}

-- Every series has at least `n` values.
valued : ℕ → List Series → Bool
valued n [] = true
valued n (s ∷ series) = leb n (length s.1) && valued n series

valued-All :
    (n : ℕ) (series : List Series) → valued n series ≡ true → All (λ s. n ≤ length s.1) series
unfolding valued
valued-All n [] h = tt
valued-All n (s ∷ series) h =
    let (one, more) = both (leb n (length s.1)) (valued n series) h in
    (ground (arith, one), valued-All n series more)

-- A test that a chart can be drawn.
drawable : Text → List Series → ℕ → Bool
unfolding unquoted valued
drawable title series ymax =
    unquoted title
    && (ltb 0 ymax && (ltb 0 (length series) && (ltb (length series) 8 && valued 1 series)))

drawable-IsPlot :
    (theme title : Text) (series : List Series) (ymax : ℕ)
    → IsThemeName theme
    → drawable title series ymax ≡ true
    → IsPlot theme title series ymax
unfolding drawable
drawable-IsPlot theme title series ymax known h =
    let (title_ok, h₁) = both (unquoted title) _ h in
    let (scale_ok, h₂) = both (ltb 0 ymax) _ h₁ in
    let (some_ok, h₃) = both (ltb 0 (length series)) _ h₂ in
    let (few_ok, all_ok) = both (ltb (length series) 8) (valued 1 series) h₃ in
    record {
      known_theme = known;
      title_unquoted = unquoted-IsUnquoted title title_ok;
      positive = ground (arith, scale_ok);
      some_series = ground (arith, some_ok);
      few_series = ground (arith, few_ok);
      values = not_empty series (valued-All 1 series all_ok);
    }
  where
    not_empty : (l : List Series) → All (λ s. 1 ≤ length s.1) l → All (λ s. s.1 ≢ []) l
    not_empty [] all = tt
    not_empty ((name, []) ∷ l) (one, more) = absurd (omega (arith, one))
    not_empty ((name, v ∷ vals) ∷ l) (one, more) = (λ e. ground (arith, e), not_empty l more)

drawable_line : Text → List Text → List Series → ℕ → Bool
unfolding drawable all_texts_safe
drawable_line title xs series ymax =
    not (length xs == 1) && (all_texts_safe xs && drawable title series ymax)

drawable_bars : Text → List Text → List Series → ℕ → Bool
unfolding drawable valued
drawable_bars title groups series ymax =
    ltb 0 (length groups) && (valued (length groups) series && drawable title series ymax)

module _ (format : Format) (law : IsLawful format) (theme : Text) (known : IsThemeName theme) where
  line-IsXml :
      (title sub : Text) (xs : List Text) (series : List Series) (ymax : ℕ) (ticks : List ℕ)
      (xlabel : Text) (rule : Option (ℕ × Text))
      → drawable_line title xs series ymax ≡ true
      → Ends IsXml (line_chart format theme title sub xs series ymax ticks xlabel rule)
  unfolding drawable_line
  line-IsXml title sub xs series ymax ticks xlabel rule h =
      let (many, h₁) = both (not (length xs == 1)) _ h in
      let (labels, plot) = both (all_texts_safe xs) _ h₁ in
      line_chart-IsXml format law theme title sub xs series ymax ticks xlabel rule
        (drawable-IsPlot theme title series ymax known plot) (all_texts_safe-IsSafe xs labels)
        (λ e. ground (arith, e, many))

  bars-IsXml :
      (title sub : Text) (groups : List Text) (series : List Series) (ymax : ℕ) (ticks : List ℕ)
      (xlabel : Text) (note : Option Text)
      → drawable_bars title groups series ymax ≡ true
      → Ends IsXml (bar_chart format theme title sub groups series ymax ticks xlabel note)
  unfolding drawable_bars
  bars-IsXml title sub groups series ymax ticks xlabel note h =
      let (some_groups, h₁) = both (ltb 0 (length groups)) _ h in
      let (enough, plot) = both (valued (length groups) series) _ h₁ in
      bar_chart-IsXml format law theme title sub groups series ymax ticks xlabel note
        (drawable-IsPlot theme title series ymax known plot) (ground (arith, some_groups))
        (valued-All (length groups) series enough)

-- For formats that write numbers as Python documents and for both themes: every chart of the script is
-- drawn without an exception, and is a well-formed document.
pub script-IsXml :
    (format : Format)
    → IsLawful format
    → (theme : Text) → IsThemeName theme
    → All (λ page. Ends IsXml (page.1 theme)) (script format)
unfolding drawable_line drawable_bars drawable unquoted valued all_texts_safe all_safe pick is_in
    list_eq
script-IsXml format law theme known =
    let line = line-IsXml format law theme known in
    (
      line _ _ _ wire_sweep_series _ _ _ _ refl,
      (
        line _ _ _ (pick local_get fast) _ _ _ _ refl,
        (
          line _ _ _ (pick local_get family) _ _ _ _ refl,
          (
            line _ _ _ (pick local_put fast) _ _ _ _ refl,
            (
              line _ _ _ (pick local_put family) _ _ _ _ refl,
              (
                line _ _ _ replication_series _ _ _ _ refl,
                (
                  bars-IsXml format law theme known _ _ _ sharding_series _ _ _ _ refl,
                  (line _ _ _ rf2_all _ _ _ _ refl, (line _ _ _ rf2_master _ _ _ _ refl, tt)),
                ),
              ),
            ),
          ),
        ),
      ),
    )
