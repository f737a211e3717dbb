-- ===== src/Charts/BarXml.antt =====
-- What the reader of Charts.Xml makes of `bar_chart`, part by part.
use rostam_bench.Base.{
  ℕ, zero, suc, ◌+◌, ◌-◌, ◌*◌, ◌<◌, ◌≤◌, inl, inr, refl, Option, none, some, List, [], ◌∷◌, All,
  arith, length, ltb, Bool-cases,
}
use rostam_bench.Base.Int.{ℤ, pos}
use rostam_bench.Python.Errors.{Text}
use rostam_bench.Python.Decimal.{digits, decimal}
use rostam_bench.Python.Dumps.{codes}
use rostam_bench.Charts.Xml.{run, IsXml, value-IsSafe, content-IsSafe, content-esc}
use rostam_bench.Charts.Svg.{Format, IsLawful, Theme, ml, mt, pw, ph, joined, head, each}
use rostam_bench.Charts.Line.{Series, x_title}
use rostam_bench.Charts.Bar.{
  enumerate, unit, half_bar, bar_x, bar_width, bar, group_label, group, legend_entry, legend,
  note_line, bar_chart,
}
use rostam_bench.Charts.Inside.{
  svg, IsInside, IsInside-append, joined-IsInside, head-inside, document-IsXml, Ends, Ends-bind,
  each-Ends, All-every, height-Ends, decimal-IsSafe, fixed1-IsSafe, general-IsSafe, yaxis-IsInside,
}
use rostam_bench.Charts.Parts.{IsPalette, theme_of-Ends, color-Ends, item-Ends, All-each}
use rostam_bench.Charts.LineXml.{x_title-IsInside, IsPlot}

half_bar-Ends : (ng ns : ℕ) → 0 < ng → 0 < ns → Ends (λ b. Unit {0}) (half_bar ng ns)
unfolding half_bar
half_bar-Ends zero ns h k = absurd (omega arith)
half_bar-Ends (suc g) zero h k = absurd (omega arith)
half_bar-Ends (suc g) (suc s) h k = (_, refl, tt)

-- Every element of a list satisfies what it does, and its index is below the bound.
enumerate-All :
    {A : Type 0} (P : A → Type 0) (i n : ℕ) (xs : List A)
    → All P xs
    → i + length xs ≤ n
    → All (λ p. (p.0 < n) × P p.1) (enumerate i xs)
enumerate-All P i n [] h k = tt
enumerate-All P i n (x ∷ xs) (one, more) k =
    ((omega arith, one), enumerate-All P (i + 1) n xs more (omega arith))

module _ (format : Format) (law : IsLawful format) where
  bar-Ends :
      (t : Theme) (ng ns : ℕ) (half : ℤ) (ymax gi : ℕ) (p : ℕ × Series)
      → IsPalette t
      → 0 < ymax
      → p.0 < 7
      → gi < length p.1.1
      → Ends IsInside (bar format t ng ns half ymax gi p)
  unfolding bar run
  bar-Ends t ng ns half ymax gi (si, (name, vals)) palette positive few enough =
      Ends-bind _ _ (color-Ends t si name palette few) (λ c safe.
        Ends-bind _ _ (item-Ends (λ v. Unit {0}) gi vals enough (All-every _ (λ v. tt) vals))
          (λ v u. Ends-bind _ _ (height-Ends ymax v positive) (λ y w. (
            _,
            refl,
            value-IsSafe (codes "rect" ∷ svg) _ _
                (fixed1-IsSafe format law (bar_x ng ns half gi si) (unit ng ns))
                (value-IsSafe (codes "rect" ∷ svg) _ _ (fixed1-IsSafe format law y ymax) (
                  value-IsSafe (codes "rect" ∷ svg) _ _
                    (fixed1-IsSafe format law (bar_width ng ns half) (unit ng ns))
                    (value-IsSafe (codes "rect" ∷ svg) _ _
                      (fixed1-IsSafe format law (pos (v * ph)) ymax)
                      (value-IsSafe (codes "rect" ∷ svg) c _ safe (
                        value-IsSafe (codes "text" ∷ svg) _ _
                          (fixed1-IsSafe format law _ (unit ng ns))
                          (value-IsSafe (codes "text" ∷ svg) _ _ (fixed1-IsSafe format law _ ymax) (
                            content-IsSafe (codes "text" ∷ svg) _ _ (general-IsSafe format law v)
                              refl))))))),
          ))))

  group_label-IsInside : (ng ns : ℕ) (p : ℕ × Text) → IsInside (group_label format ng ns p)
  unfolding group_label run decimal digits
  group_label-IsInside ng ns (gi, g) =
      value-IsSafe (codes "text" ∷ svg) _ _ (fixed1-IsSafe format law _ (unit ng ns))
        (content-esc (codes "text" ∷ svg) g _ refl)

  group-Ends :
      (t : Theme) (ng ns : ℕ) (half : ℤ) (ymax : ℕ) (series : List Series) (p : ℕ × Text)
      → IsPalette t
      → 0 < ymax
      → length series < 8
      → All (λ s. p.0 < length s.1) series
      → Ends IsInside (group format t ng ns half ymax series p)
  unfolding group
  group-Ends t ng ns half ymax series (gi, g) palette positive few enough =
      Ends-bind _ _
        (each-Ends IsInside (bar format t ng ns half ymax gi) (enumerate 0 series) (
          All-each _ _ (enumerate 0 series)
            (λ p ok. bar-Ends t ng ns half ymax gi p palette positive ok.0 ok.1)
            (enumerate-All (λ s. gi < length s.1) 0 7 series enough (omega arith))))
        (λ bars all. (
          _,
          refl,
          IsInside-append (group_label format ng ns (gi, g)) (joined bars)
              (group_label-IsInside ng ns (gi, g)) (joined-IsInside bars all),
        ))

  legend_entry-Ends :
      (t : Theme) (p : ℕ × Series) → IsPalette t → p.0 < 7 → Ends IsInside (legend_entry format t p)
  unfolding legend_entry run
  legend_entry-Ends t (si, (name, vals)) palette few =
      Ends-bind _ _ (color-Ends t si name palette few) (λ c safe. (
        _,
        refl,
        value-IsSafe (codes "rect" ∷ svg) _ _ (decimal-IsSafe (ml + pw + 13)) (
            value-IsSafe (codes "rect" ∷ svg) _ _ (decimal-IsSafe (mt + 12 + si * 22 - 8)) (
              value-IsSafe (codes "rect" ∷ svg) c _ safe (
                value-IsSafe (codes "text" ∷ svg) _ _ (decimal-IsSafe (ml + pw + 13 + 16)) (
                  value-IsSafe (codes "text" ∷ svg) _ _ (decimal-IsSafe (mt + 12 + si * 22 + 1))
                    (content-esc (codes "text" ∷ svg) name _ refl))))),
      ))

  legend-Ends :
      (t : Theme) (series : List Series)
      → IsPalette t
      → length series < 8
      → Ends (All IsInside) (legend format t series)
  unfolding legend
  legend-Ends t series palette few = elim (Bool-cases (ltb 1 (length series))) [
    | inl several ↦ rw several (entries series few)
    | inr single ↦ rw single (entries [] (omega arith))
  ]
    where
      entries :
          (l : List Series)
          → length l < 8
          → Ends (All IsInside) (each (legend_entry format t) (enumerate 0 l))
      entries l h = each-Ends IsInside (legend_entry format t) (enumerate 0 l) (
          All-each _ _ (enumerate 0 l) (λ p ok. legend_entry-Ends t p palette ok.0)
            (enumerate-All (λ s. Unit {0}) 0 7 l (All-every _ (λ s. tt) l) (omega arith)))

  note_line-IsInside : (note : Option Text) → IsInside (note_line format note)
  unfolding note_line run decimal digits
  note_line-IsInside none = refl
  note_line-IsInside (some []) = refl
  note_line-IsInside (some (c ∷ note)) = content-esc (codes "text" ∷ svg) (c ∷ note) _ refl

  -- For a theme of the script, a title without `"`, a positive scale, at least one group, and one to
  -- seven series with a value for each group: `bar_chart` returns, and the reader of
  -- Charts.Xml accepts what it returns, whatever the other texts and the values are: one element, in
  -- which tags are closed in the order in which they were opened, attribute values are quoted, and
  -- `<`, `&` and `>` stand only for markup and the entities of `esc`. It does not check which
  -- characters XML allows, nor that an element has each attribute once.
  pub bar_chart-IsXml :
      (theme title sub : Text) (groups : List Text) (series : List Series) (ymax : ℕ)
      (ticks : List ℕ) (xlabel : Text) (note : Option Text)
      → IsPlot theme title series ymax
      → 0 < length groups
      → All (λ s. length groups ≤ length s.1) series
      → Ends IsXml (bar_chart format theme title sub groups series ymax ticks xlabel note)
  unfolding bar_chart
  bar_chart-IsXml theme title sub groups series ymax ticks xlabel note plot some_groups enough =
      let ng = length groups in
      let ns = length series in
      Ends-bind _ _ (theme_of-Ends theme plot.known_theme) (λ t palette.
        Ends-bind _ _ (yaxis-IsInside format law t ymax ticks palette.0 plot.positive)
          (λ axis axis_in.
            Ends-bind _ _ (half_bar-Ends ng ns some_groups plot.some_series) (λ half u.
              Ends-bind _ _
                (each-Ends IsInside (group format t ng ns half ymax series) (enumerate 0 groups) (
                  All-each _ _ (enumerate 0 groups)
                    (λ p ok.
                      group-Ends t ng ns half ymax series p palette plot.positive plot.few_series
                        (All-each _ _ series (λ s most. omega (arith, ok.0, most)) enough))
                    (enumerate-All (λ g. Unit {0}) 0 ng groups (All-every _ (λ g. tt) groups)
                      (omega arith))))
                (λ bars bars_in.
                  Ends-bind _ _ (legend-Ends t series palette plot.few_series)
                    (λ entries entries_in.
                      let parts : List Text =
                        axis
                        ∷ joined bars
                        ∷ x_title format xlabel 38
                        ∷ joined entries
                        ∷ note_line format note
                        ∷ [] in
                      let all : All IsInside parts = (
                        axis_in,
                        (
                          joined-IsInside bars bars_in,
                          (
                            x_title-IsInside format law xlabel 38 (decimal-IsSafe (mt + ph + 38)),
                            (joined-IsInside entries entries_in, (note_line-IsInside note, tt)),
                          ),
                        ),
                      ) in
                      (
                        _,
                        refl,
                        document-IsXml (head t title sub) parts
                            (head-inside t title sub palette.0 plot.title_unquoted) all,
                      ))))))
