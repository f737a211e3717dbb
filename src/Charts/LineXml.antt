-- ===== src/Charts/LineXml.antt =====
-- What the reader of Charts.Xml makes of `line_chart`, part by part.
use rostam_bench.Base.{
  ℕ, ◌+◌, ◌-◌, ◌*◌, ◌<◌, ◌≢◌, inl, inr, refl, Option, none, some, List, [], ◌∷◌, All, arith, map,
  length, length-map, zip, ltb, Bool-cases,
}
use rostam_bench.Base.Int.{ℤ, pos}
use rostam_bench.Base.Arith.{◌-ℤ◌, pos_part, neg_part}
use rostam_bench.Python.Errors.{Text}
use rostam_bench.Python.Decimal.{digits, decimal}
use rostam_bench.Python.Dumps.{codes}
use rostam_bench.Charts.Xml.{run, IsXml, IsSafe, value-IsSafe, content-IsSafe, content-esc}
use rostam_bench.Charts.Svg.{Format, IsLawful, Theme, ml, mt, pw, ph, joined, head, each}
use rostam_bench.Charts.Line.{
  spaced, Series, x_label, x_title, rule_line, point, polyline, marker, curve, leader, end_label,
  line_chart,
}
use rostam_bench.Charts.Inside.{
  svg, IsInside, IsInside-append, joined-IsInside, IsUnquoted, IsSafeTheme, head-inside,
  document-IsXml, Ends, Ends-bind, each-Ends, All-every, height-Ends, decimal-IsSafe, fixed1-IsSafe,
  yaxis-IsInside,
}
use rostam_bench.Charts.Parts.{
  IsSafe-append, spaced-IsSafe, IsThemeName, theme_of-Ends, colors-Ends, xpos-Ends, ends_of-Ends,
  label_heights-Ends, zip-All_left, zip-All_right, map-All, All-each,
}

-- A chart has axes and at least one series, and every series has a value.
pub record IsPlot (theme title : Text) (series : List Series) (ymax : ℕ) : Type 0 where
  pub known_theme : IsThemeName theme
  pub title_unquoted : IsUnquoted title
  pub positive : 0 < ymax
  pub some_series : 0 < length series
  pub few_series : length series < 8
  pub values : All (λ s. s.1 ≢ []) series

module _ (format : Format) (law : IsLawful format) where
  x_label-IsInside : (n x : ℕ) (lab : Text) → IsSafe lab → IsInside (x_label format n (x, lab))
  unfolding x_label run decimal digits
  x_label-IsInside n x lab h =
      value-IsSafe (codes "text" ∷ svg) _ _ (fixed1-IsSafe format law (pos x) (n - 1))
        (content-IsSafe (codes "text" ∷ svg) lab _ h refl)

  pub x_title-IsInside :
      (xlabel : Text) (below : ℕ)
      → IsSafe (decimal (mt + ph + below))
      → IsInside (x_title format xlabel below)
  unfolding x_title run
  x_title-IsInside xlabel below h =
      value-IsSafe (codes "text" ∷ svg) _ _ (fixed1-IsSafe format law (pos (2 * ml + pw)) 2) (
        value-IsSafe (codes "text" ∷ svg) (decimal (mt + ph + below)) _ h
          (content-esc (codes "text" ∷ svg) xlabel _ refl))

  rule_line-Ends :
      (t : Theme) (ymax : ℕ) (rule : Option (ℕ × Text))
      → IsSafeTheme t
      → 0 < ymax
      → Ends IsInside (rule_line format t ymax rule)
  unfolding rule_line run decimal digits
  rule_line-Ends t ymax none safe positive = ([], refl, refl)
  rule_line-Ends t ymax (some (val, txt)) (surface, ink, ink2, grid, rule, series) positive =
      Ends-bind _ _ (height-Ends ymax val positive) (λ y u. (
        _,
        refl,
        value-IsSafe (codes "line" ∷ svg) (format.fixed1 y ymax) _ (fixed1-IsSafe format law y ymax)
            (value-IsSafe (codes "line" ∷ svg) (format.fixed1 y ymax) _
              (fixed1-IsSafe format law y ymax)
              (value-IsSafe (codes "line" ∷ svg) t.rule _ rule (
                value-IsSafe (codes "text" ∷ svg) _ _ (fixed1-IsSafe format law _ ymax)
                  (content-esc (codes "text" ∷ svg) txt _ refl)))),
      ))

  point-Ends : (n ymax : ℕ) (p : ℕ × ℕ) → 0 < ymax → Ends IsSafe (point format n ymax p)
  unfolding point
  point-Ends n ymax (x, v) positive = Ends-bind _ _ (height-Ends ymax v positive) (λ y u. (
    _,
    refl,
    IsSafe-append (format.fixed1 (pos x) (n - 1)) _ (fixed1-IsSafe format law (pos x) (n - 1))
        (refl, IsSafe-append (format.fixed1 y ymax) [] (fixed1-IsSafe format law y ymax) tt),
  ))

  polyline-IsInside :
      (c : Text) (points : List Text)
      → IsSafe c
      → All IsSafe points
      → IsInside (polyline format c points)
  unfolding polyline run
  polyline-IsInside c points safe all =
      value-IsSafe (codes "polyline" ∷ svg) (spaced points) _ (spaced-IsSafe points all)
        (value-IsSafe (codes "polyline" ∷ svg) c _ safe refl)

  marker-Ends :
      (t : Theme) (c : Text) (n ymax : ℕ) (p : ℕ × ℕ)
      → IsSafeTheme t
      → IsSafe c
      → 0 < ymax
      → Ends IsInside (marker format t c n ymax p)
  unfolding marker run
  marker-Ends t c n ymax (x, v) (surface, ink, ink2, grid, rule, series) safe positive =
      Ends-bind _ _ (height-Ends ymax v positive) (λ y u. (
        _,
        refl,
        value-IsSafe (codes "circle" ∷ svg) _ _ (fixed1-IsSafe format law (pos x) (n - 1)) (
            value-IsSafe (codes "circle" ∷ svg) (format.fixed1 y ymax) _
              (fixed1-IsSafe format law y ymax)
              (value-IsSafe (codes "circle" ∷ svg) c _ safe
                (value-IsSafe (codes "circle" ∷ svg) t.surface _ surface refl))),
      ))

  curve-Ends :
      (t : Theme) (n ymax : ℕ) (xs : List ℕ) (s : Series × Text)
      → IsSafeTheme t
      → 0 < ymax
      → IsSafe s.1
      → Ends IsInside (curve format t n ymax xs s)
  unfolding curve
  curve-Ends t n ymax xs ((name, vals), c) safe positive color_safe =
      Ends-bind _ _
        (each-Ends IsSafe (point format n ymax) (zip xs vals)
          (All-every _ (λ p. point-Ends n ymax p positive) (zip xs vals)))
        (λ points all.
          Ends-bind _ _
            (each-Ends IsInside (marker format t c n ymax) (zip xs vals)
              (All-every _ (λ p. marker-Ends t c n ymax p safe color_safe positive) (zip xs vals)))
            (λ markers good. (
              _,
              refl,
              IsInside-append (polyline format c points) (joined markers)
                  (polyline-IsInside c points color_safe all) (joined-IsInside markers good),
            )))

  leader-IsInside :
      (ymax : ℕ) (c : Text) (ey ly : ℤ) → IsSafe c → IsInside (leader format ymax c ey ly)
  unfolding leader run
  leader-IsInside ymax c ey ly safe =
      let d = ly -ℤ ey in
      elim (Bool-cases (ltb (3 * ymax) (2 * (pos_part d + neg_part d)))) [
        | inl far ↦ rw far (
            value-IsSafe (codes "path" ∷ svg) _ _ (fixed1-IsSafe format law (pos (ml + pw + 3)) 1) (
              value-IsSafe (codes "path" ∷ svg) _ _ (fixed1-IsSafe format law ey ymax) (
                value-IsSafe (codes "path" ∷ svg) _ _
                  (fixed1-IsSafe format law (pos (ml + pw + 9)) 1)
                  (value-IsSafe (codes "path" ∷ svg) _ _ (fixed1-IsSafe format law ly ymax)
                    (value-IsSafe (codes "path" ∷ svg) c _ safe refl)))))
        | inr near ↦ rw near refl
      ]

  end_label-IsInside :
      (ymax : ℕ) (label : (Text × Text) × (ℤ × ℤ))
      → IsSafe label.0.1
      → IsInside (end_label format ymax label)
  unfolding end_label run decimal digits
  end_label-IsInside ymax ((name, c), (ey, ly)) safe =
      IsInside-append (leader format ymax c ey ly) _ (leader-IsInside ymax c ey ly safe) (
        value-IsSafe (codes "circle" ∷ svg) _ _ (fixed1-IsSafe format law ly ymax) (
          value-IsSafe (codes "circle" ∷ svg) c _ safe (
            value-IsSafe (codes "text" ∷ svg) _ _ (fixed1-IsSafe format law _ ymax)
              (content-esc (codes "text" ∷ svg) name _ refl))))

  x_labels-IsInside :
      (n : ℕ) (xp : List ℕ) (xs : List Text)
      → All IsSafe xs
      → IsInside (joined (map (x_label format n) (zip xp xs)))
  x_labels-IsInside n xp xs h = joined-IsInside _ (
      map-All IsInside (x_label format n) (zip xp xs) (
        All-each _ _ (zip xp xs) (λ p ok. x_label-IsInside n p.0 p.1 ok)
          (zip-All_right IsSafe xp xs h)))

  end_labels-IsInside :
      (ymax : ℕ) (names cs : List Text) (ends lab_y : List ℤ)
      → All IsSafe cs
      → IsInside (joined (map (end_label format ymax) (zip (zip names cs) (zip ends lab_y))))
  end_labels-IsInside ymax names cs ends lab_y h = joined-IsInside _ (
      map-All IsInside (end_label format ymax) (zip (zip names cs) (zip ends lab_y)) (
        All-each _ _ (zip (zip names cs) (zip ends lab_y)) (λ p ok. end_label-IsInside ymax p ok)
          (zip-All_left (λ nc. IsSafe nc.1) (zip names cs) (zip ends lab_y)
            (zip-All_right IsSafe names cs h))))

  curves-Ends :
      (t : Theme) (n ymax : ℕ) (xp : List ℕ) (series : List Series) (cs : List Text)
      → IsSafeTheme t
      → 0 < ymax
      → All IsSafe cs
      → Ends (All IsInside) (each (curve format t n ymax xp) (zip series cs))
  curves-Ends t n ymax xp series cs safe positive h =
      each-Ends IsInside (curve format t n ymax xp) (zip series cs) (
        All-each _ _ (zip series cs) (λ s ok. curve-Ends t n ymax xp s safe positive ok)
          (zip-All_right IsSafe series cs h))

  -- For a theme of the script, a title without `"`, labels of the axis that need no escape and are not
  -- exactly one, a positive scale, and one to seven series with a value each: `line_chart` returns, and
  -- the reader of Charts.Xml accepts what it returns, whatever the other texts and the values are: one
  -- element, in which tags are closed in the order in which they were opened, attribute values are
  -- quoted, and `<`, `&` and `>` stand only for markup and the entities of `esc`. It does not check
  -- which characters XML allows, nor that an element has each attribute once.
  pub line_chart-IsXml :
      (theme title sub : Text) (xs : List Text) (series : List Series) (ymax : ℕ) (ticks : List ℕ)
      (xlabel : Text) (rule : Option (ℕ × Text))
      → IsPlot theme title series ymax
      → All IsSafe xs
      → length xs ≢ 1
      → Ends IsXml (line_chart format theme title sub xs series ymax ticks xlabel rule)
  unfolding line_chart decimal digits
  line_chart-IsXml theme title sub xs series ymax ticks xlabel rule plot labels many =
      let names = map (λ (s : Series). s.0) series in
      Ends-bind _ _ (theme_of-Ends theme plot.known_theme) (λ t palette.
        Ends-bind _ _ (yaxis-IsInside format law t ymax ticks palette.0 plot.positive)
          (λ axis axis_in. Ends-bind _ _ (xpos-Ends (length xs) many) (λ xp u.
            Ends-bind _ _ (rule_line-Ends t ymax rule palette.0 plot.positive) (λ above above_in.
              Ends-bind _ _
                (colors-Ends t 0 names palette
                  (omega (arith, plot.few_series, length-map (λ (s : Series). s.0) series)))
                (λ cs safe.
                  Ends-bind _ _ (ends_of-Ends ymax series plot.positive plot.values) (λ ends same.
                    Ends-bind _ _
                      (label_heights-Ends ymax ends (omega (arith, same, plot.some_series)))
                      (λ lab_y v.
                        Ends-bind _ _
                          (curves-Ends t (length xs) ymax xp series cs palette.0 plot.positive safe)
                          (λ curves curves_in.
                            let parts : List Text =
                              axis
                              ∷ joined (map (x_label format (length xs)) (zip xp xs))
                              ∷ x_title format xlabel 40
                              ∷ above
                              ∷ joined curves
                              ∷ joined (
                                  map (end_label format ymax) (zip (zip names cs) (zip ends lab_y)))
                              ∷ [] in
                            let all : All IsInside parts = (
                              axis_in,
                              (
                                x_labels-IsInside (length xs) xp xs labels,
                                (
                                  x_title-IsInside xlabel 40 (decimal-IsSafe (mt + ph + 40)),
                                  (
                                    above_in,
                                    (
                                      joined-IsInside curves curves_in,
                                      (end_labels-IsInside ymax names cs ends lab_y safe, tt),
                                    ),
                                  ),
                                ),
                              ),
                            ) in
                            (
                              _,
                              refl,
                              document-IsXml (head t title sub) parts
                                  (head-inside t title sub palette.0 plot.title_unquoted) all,
                            )))))))))
