-- ===== src/Tests/SvgRuns.antt =====
-- The charts at concrete inputs, with numbers that are rounded half up.
use rostam_bench.Base.{
  ℕ, suc, ◌+◌, ◌*◌, ◌/◌, ◌%◌, ◌<◌, ◌≡◌, refl, ◌-◌, ◌^◌, ◌⊎◌, ◌||◌, min, max, leb, list_eq, inl, inr,
  Bool, true, Bool-cases, none, arith, some, List, [], ◌∷◌, ◌++◌, All, ◌==◌, if◌then◌else◌,
}
use rostam_bench.Base.Int.{ℤ, pos, negsuc}
use rostam_bench.Python.Errors.{Text}
use rostam_bench.Python.Decimal.{decimal}
use rostam_bench.Python.ReadDecimal.{decimal-All}
use rostam_bench.Python.Dumps.{codes}
use rostam_bench.Charts.Xml.{IsXml}
use rostam_bench.Charts.Svg.{Format, is_numeral, IsNumeral, IsLawful}
use rostam_bench.Charts.Line.{Series, line_chart}
use rostam_bench.Charts.Bar.{bar_chart}
use rostam_bench.Charts.Inside.{Ends}
use rostam_bench.Charts.LineXml.{IsPlot, line_chart-IsXml}
use rostam_bench.Charts.BarXml.{bar_chart-IsXml}
use rostam_bench.Charts.Script.{script}
use rostam_bench.Charts.ScriptXml.{script-IsXml}
use rostam_bench.Sift.Quantile.{item}
use rostam_bench.Charts.Svg.{dark_theme, theme_of}
use rostam_bench.Charts.Line.{color, slot_in}
use rostam_bench.Charts.Script.{is_in}
use rostam_bench.Charts.Colors.{color-injective}
use rostam_bench.Charts.Files.{Files, main, mirrors, emit_all, emit, write_all, write_text}
use rostam_bench.Charts.Vector.Shapes
use rostam_bench.Charts.Vector.Shapes.{Floats, IsFigure}
use rostam_bench.Charts.Vector.Pareto.{chart_pareto}
use rostam_bench.Charts.Vector.Script.{theme_colors, all_charts, main-IsXml}

-- Tenths, with the point.
abbrev tenths : ℕ → Text
tenths q = decimal (q / 10) ++ (b'.' ∷ decimal (q % 10))

abbrev rounded : ℤ → ℕ → Text
rounded (pos a) n = tenths ((20 * a + n) / (2 * n))
rounded (negsuc a) n = b'-' ∷ tenths ((20 * suc a + n) / (2 * n))

abbrev half_up : Format
half_up = record {
  fixed1 = rounded;
  general = λ v. if v % 10 == 0 then decimal (v / 10) else tenths v;
}

append-IsNumeral : (s t : Text) → IsNumeral s → IsNumeral t → IsNumeral (s ++ t)
append-IsNumeral [] t h k = k
append-IsNumeral (c ∷ s) t (one, more) k = (one, append-IsNumeral s t more k)

digit-numeral : (d : ℕ) → d < 10 → is_numeral (b'0' + d) ≡ true
digit-numeral d h = ground (arith, h)

decimal-IsNumeral : (n : ℕ) → IsNumeral (decimal n)
decimal-IsNumeral = decimal-All (λ c. is_numeral c ≡ true) digit-numeral

tenths-IsNumeral : (q : ℕ) → IsNumeral (tenths q)
tenths-IsNumeral q =
    append-IsNumeral (decimal (q / 10)) _ (decimal-IsNumeral (q / 10))
      (refl, decimal-IsNumeral (q % 10))

rounded-IsNumeral : (a : ℤ) (n : ℕ) → IsNumeral (rounded a n)
rounded-IsNumeral (pos a) n = tenths-IsNumeral ((20 * a + n) / (2 * n))
rounded-IsNumeral (negsuc a) n = (refl, tenths-IsNumeral ((20 * suc a + n) / (2 * n)))

half_up-IsLawful : IsLawful half_up
half_up-IsLawful = record {
  fixed1_numeral = rounded-IsNumeral;
  general_numeral = λ v. elim (Bool-cases (v % 10 == 0)) [
    | inl whole ↦ rw whole (decimal-IsNumeral (v / 10))
    | inr part ↦ rw part (tenths-IsNumeral v)
  ];
}

abbrev series : List Series
series = (codes "Rostam", 389 ∷ 1336 ∷ []) ∷ (codes "R&D <1>", 0 ∷ 1346 ∷ []) ∷ []

series-IsPlot : IsPlot (codes "light") (codes "GET") series 1700
series-IsPlot = record {
  known_theme = inl refl;
  title_unquoted = (refl, (refl, (refl, tt)));
  positive = omega arith;
  some_series = omega arith;
  few_series = omega arith;
  values = (λ e. ground (arith, e), (λ e. ground (arith, e), tt));
}

abbrev ticks : List ℕ
ticks = 0 ∷ 500 ∷ []

line_chart-IsXml_example : Ends IsXml (
    line_chart half_up
      (codes "light")
      (codes "GET")
      (codes "a < b")
      (codes "8" ∷ codes "64" ∷ [])
      series
      1700
      ticks
      (codes "conns")
      (some (1500, codes "NIC")))
line_chart-IsXml_example =
    line_chart-IsXml half_up half_up-IsLawful (codes "light") (codes "GET") (codes "a < b")
      (codes "8" ∷ codes "64" ∷ []) series 1700 ticks (codes "conns") (some (1500, codes "NIC"))
      series-IsPlot ((refl, tt), ((refl, (refl, tt)), tt)) (omega arith)

bar_chart-IsXml_example : Ends IsXml (
    bar_chart half_up
      (codes "light")
      (codes "GET")
      (codes "a < b")
      (codes "<8>" ∷ codes "64" ∷ [])
      series
      1700
      ticks
      (codes "shards")
      (some (codes "4->8")))
bar_chart-IsXml_example =
    bar_chart-IsXml half_up half_up-IsLawful (codes "light") (codes "GET") (codes "a < b")
      (codes "<8>" ∷ codes "64" ∷ []) series 1700 ticks (codes "shards") (some (codes "4->8"))
      series-IsPlot (omega arith) (omega arith)

script-IsXml_example : All (λ page. Ends IsXml (page.1 (codes "light"))) (script half_up)
script-IsXml_example = script-IsXml half_up half_up-IsLawful (codes "light") (inl refl)

color-injective_example : codes "Redis" ≡ codes "Redis"
unfolding theme_of color slot_in item is_in list_eq
color-injective_example =
    color-injective (codes "dark") dark_theme 1 4 (codes "Redis") (codes "Redis") (inr refl) refl
      refl refl refl

-- Numbers without fractions, which are cut off.
abbrev whole : Floats ℕ
whole = record {
  number = λ m d. m / 10 ^ d;
  add = λ x y. x + y;
  sub = λ x y. x - y;
  mul = λ x y. x * y;
  div = λ x y. x / y;
  min = min;
  max = max;
  leb = leb;
  log10 = λ x. x;
  sqrt = λ x. x;
  fixed1 = decimal;
  fixed2 = decimal;
  fixed0 = decimal;
  grouped = decimal;
}

digit_figure : (d : ℕ) → d < 10 → (is_numeral (b'0' + d) || (b'0' + d) == b',') ≡ true
digit_figure d h = ground (arith, h)

decimal-IsFigure : (n : ℕ) → IsFigure (decimal n)
decimal-IsFigure = decimal-All (λ c. (is_numeral c || c == b',') ≡ true) digit_figure

whole-IsLawful : Shapes.IsLawful whole
whole-IsLawful = record {
  fixed1_figure = decimal-IsFigure;
  fixed2_figure = decimal-IsFigure;
  fixed0_figure = decimal-IsFigure;
  grouped_figure = decimal-IsFigure;
}

abbrev empty_files : Files
empty_files d f = none

abbrev any_dir : Text → Bool
any_dir d = true

abbrev written : Files
written = emit_all (codes "charts" ∷ codes "docs" ∷ []) (all_charts whole) empty_files

main-IsXml_example :
    (empty_files (codes "docs") (codes "pareto-dark.svg")
      ≡ some (chart_pareto whole (theme_colors (codes "dark"))))
    ⊎ IsXml (chart_pareto whole (theme_colors (codes "dark")))
unfolding main mirrors emit_all emit write_all write_text list_eq
main-IsXml_example =
    main-IsXml whole whole-IsLawful any_dir (codes "charts") (codes "docs" ∷ []) empty_files written
      (codes "docs") (codes "pareto-dark.svg") (chart_pareto whole (theme_colors (codes "dark")))
      refl refl
