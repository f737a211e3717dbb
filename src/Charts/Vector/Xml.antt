-- ===== src/Charts/Vector/Xml.antt =====
-- The shapes are well-formed inside any element.
use rostam_bench.Base.{
  ℕ, ◌≡◌, refl, ap, ◌∙◌, Bool, true, false, ◌||◌, Option, none, some, List, [], ◌∷◌, ◌++◌, All,
  arith, map, ◌==◌, if◌then◌else◌,
}
use rostam_bench.Python.Errors.{Text}
use rostam_bench.Python.Decimal.{decimal}
use rostam_bench.Python.Dumps.{codes}
use rostam_bench.Charts.Xml.{
  prolog, content, after_value, Reader, at, run, IsXml, is_safe, IsSafe, value-IsSafe, content-esc,
  value-esc, run-append,
}
use rostam_bench.Charts.Svg.{joined, is_numeral}
use rostam_bench.Charts.Inside.{
  inside, IsInside, IsInside-append, joined-IsInside, IsUnquoted, decimal-IsSafe,
}
use rostam_bench.Charts.Inside
use rostam_bench.Charts.Parts.{all_safe, all_safe-IsSafe, all_texts_safe, all_texts_safe-IsSafe}
use rostam_bench.Charts.Vector.Data.{Engine, Colors}
use rostam_bench.Charts.Vector.Shapes.{
  Floats, IsFigure, IsLawful, Style, letter_spacing, svg_open, svg, text, line, rect, circle, int,
  turned,
}

-- A part that an element takes as it is.
abbrev pub IsWithin : List Text → Text → Type 0
IsWithin names s = run s (at content names) ≡ at content names

figure_safe : (c : ℕ) → (is_numeral c || c == b',') ≡ true → is_safe c ≡ true
figure_safe c h = ground (arith, h)

IsFigure-IsSafe : (s : Text) → IsFigure s → IsSafe s
IsFigure-IsSafe [] h = tt
IsFigure-IsSafe (c ∷ s) (one, more) = (figure_safe c one, IsFigure-IsSafe s more)

pub record IsSafeColors (t : Colors) : Type 0 where
  pub muted_safe : IsSafe t.muted
  pub faint_safe : IsSafe t.faint
  pub rule_safe : IsSafe t.rule
  pub grid_safe : IsSafe t.grid
  pub bg_safe : IsSafe t.bg
  pub good_safe : IsSafe t.good
  pub e_safe : (k : Engine) → IsSafe (t.e k)

-- What a style writes besides the colour.
abbrev pub style_texts : Style → List Text
style_texts s = s.size ∷ s.anchor ∷ s.weight ∷ (elim (s.spacing) [ none ↦ [] | some p ↦ p ∷ [] ])

spacing_keeps :
    (names : List Text) (o : Option Text)
    → All IsSafe (elim o [ none ↦ [] | some p ↦ p ∷ [] ])
    → run (letter_spacing o) (at after_value names) ≡ at after_value names
unfolding run
spacing_keeps names none h = refl
spacing_keeps names (some p) h = value-IsSafe names p _ h.0 refl

keeps :
    (t rest : Text) (r after : Reader)
    → run t r ≡ r
    → run rest r ≡ after
    → run (t ++ rest) r ≡ after
keeps t rest r after a b = run-append t rest r ∙ ap (run rest) a ∙ b

module _ {F : Type 0} (floats : Floats F) (law : IsLawful floats) where
  pub fixed1-IsSafe : (x : F) → IsSafe (floats.fixed1 x)
  fixed1-IsSafe x = IsFigure-IsSafe (floats.fixed1 x) (law.fixed1_figure x)

  pub text-IsWithin :
      (n : Text) (names : List Text) (x y : F) (s : Text) (style : Style)
      → IsSafe style.fill
      → All IsSafe (style_texts style)
      → IsWithin (n ∷ names) (text floats x y s style)
  unfolding text run
  text-IsWithin n names x y s style fill (size, (anchor, (weight, spacing))) =
      let here = codes "text" ∷ n ∷ names in
      value-IsSafe here (floats.fixed1 x) _ (fixed1-IsSafe x) (
        value-IsSafe here (floats.fixed1 y) _ (fixed1-IsSafe y) (
          value-IsSafe here style.fill _ fill (
            value-IsSafe here style.size _ size (
              value-IsSafe here style.anchor _ anchor (
                value-IsSafe here style.weight _ weight (
                  keeps (letter_spacing style.spacing) _ (at after_value here) _
                    (spacing_keeps here style.spacing spacing) (content-esc here s _ refl)))))))

  pub line-IsInside :
      (x1 y1 x2 y2 : F) (stroke : Text) → IsSafe stroke → IsInside (line floats x1 y1 x2 y2 stroke)
  unfolding line run
  line-IsInside x1 y1 x2 y2 stroke h =
      let here = codes "line" ∷ Inside.svg in
      value-IsSafe here (floats.fixed1 x1) _ (fixed1-IsSafe x1) (
        value-IsSafe here (floats.fixed1 y1) _ (fixed1-IsSafe y1) (
          value-IsSafe here (floats.fixed1 x2) _ (fixed1-IsSafe x2) (
            value-IsSafe here (floats.fixed1 y2) _ (fixed1-IsSafe y2)
              (value-IsSafe here stroke _ h refl))))

  pub rect-IsInside :
      (x y w h : F) (fill opacity rx : Text)
      → IsSafe fill
      → IsSafe opacity
      → IsSafe rx
      → IsInside (rect floats x y w h fill opacity rx)
  unfolding rect run
  rect-IsInside x y w h fill opacity rx a b c =
      let here = codes "rect" ∷ Inside.svg in
      value-IsSafe here (floats.fixed1 x) _ (fixed1-IsSafe x) (
        value-IsSafe here (floats.fixed1 y) _ (fixed1-IsSafe y) (
          value-IsSafe here _ _ (fixed1-IsSafe (floats.max w (int floats 0))) (
            value-IsSafe here _ _ (fixed1-IsSafe (floats.max h (int floats 0))) (
              value-IsSafe here fill _ a
                (value-IsSafe here opacity _ b (value-IsSafe here rx _ c refl))))))

  pub circle-IsInside :
      (cx cy r : F) (fill stroke sw opacity : Text)
      → IsSafe fill
      → IsSafe stroke
      → IsSafe sw
      → IsSafe opacity
      → IsInside (circle floats cx cy r fill stroke sw opacity)
  unfolding circle run
  circle-IsInside cx cy r fill stroke sw opacity a b c d =
      let here = codes "circle" ∷ Inside.svg in
      value-IsSafe here (floats.fixed1 cx) _ (fixed1-IsSafe cx) (
        value-IsSafe here (floats.fixed1 cy) _ (fixed1-IsSafe cy) (
          value-IsSafe here (floats.fixed1 r) _ (fixed1-IsSafe r) (
            value-IsSafe here fill _ a (
              value-IsSafe here opacity _ d
                (value-IsSafe here stroke _ b (value-IsSafe here sw _ c refl))))))

svg_open-inside :
    (width height : ℕ) (t : Colors) (title : Text)
    → IsSafeColors t
    → IsUnquoted title
    → run (svg_open width height t title) (at prolog []) ≡ inside
unfolding svg_open run
svg_open-inside width height t title safe h =
    let here = Inside.svg in
    value-IsSafe here (decimal width) _ (decimal-IsSafe width) (
      value-IsSafe here (decimal height) _ (decimal-IsSafe height) (
        value-IsSafe here (decimal width) _ (decimal-IsSafe width) (
          value-IsSafe here (decimal height) _ (decimal-IsSafe height) (
            value-esc here title _ h (
              content-esc (codes "title" ∷ here) title _ (
                value-IsSafe (codes "rect" ∷ here) (decimal width) _ (decimal-IsSafe width) (
                  value-IsSafe (codes "rect" ∷ here) (decimal height) _ (decimal-IsSafe height)
                    (value-IsSafe (codes "rect" ∷ here) t.bg _ safe.bg_safe refl))))))))

-- A document around a body that is well-formed inside it.
pub svg-IsXml :
    (width height : ℕ) (body : Text) (t : Colors) (title : Text)
    → IsSafeColors t
    → IsUnquoted title
    → IsInside body
    → IsXml (svg width height body t title)
unfolding svg run
svg-IsXml width height body t title safe h ok =
    run-append (svg_open width height t title) (body ++ codes "</svg>\n") (at prolog [])
    ∙ ap (run (body ++ codes "</svg>\n")) (svg_open-inside width height t title safe h)
    ∙ (run-append body (codes "</svg>\n") inside ∙ ap (run (codes "</svg>\n")) ok)

-- The parts of a chart, one for each element of a list.
pub each-IsInside :
    {A : Type 0} (f : A → Text) (xs : List A)
    → ((a : A) → IsInside (f a))
    → IsInside (joined (map f xs))
unfolding run
each-IsInside f [] h = refl
each-IsInside f (a ∷ xs) h = IsInside-append (f a) _ (h a) (each-IsInside f xs h)

pub safe : (s : Text) → all_safe s ≡ true → IsSafe s
safe = all_safe-IsSafe

pub if_IsSafe : (b : Bool) (s t : Text) → IsSafe s → IsSafe t → IsSafe (if b then s else t)
if_IsSafe true s t a c = a
if_IsSafe false s t a c = c

-- A text directly inside the document, in a style whose constants are safe.
pub text-IsInside :
    {F : Type 0} (floats : Floats F)
    → IsLawful floats
    → (x y : F) (s : Text) (style : Style) → IsSafe style.fill
    → all_texts_safe (style_texts style) ≡ true
    → IsInside (text floats x y s style)
text-IsInside floats law x y s style fill h =
    text-IsWithin floats law (codes "svg") [] x y s style fill
      (all_texts_safe-IsSafe (style_texts style) h)

pub turned-IsInside :
    {F : Type 0} (floats : Floats F)
    → IsLawful floats
    → (x : ℕ) (y : F) (s : Text) (style : Style) → IsSafe style.fill
    → all_texts_safe (style_texts style) ≡ true
    → IsInside (turned floats x y s style)
unfolding turned run
turned-IsInside floats law x y s style fill h =
    value-IsSafe group (decimal x) _ (decimal-IsSafe x) (
      value-IsSafe group (floats.fixed1 y) _ (fixed1-IsSafe floats law y) (
        keeps (text floats (int floats x) y s style) _ (at content group) _
          (text-IsWithin floats law (codes "g") Inside.svg (int floats x) y s style fill
            (all_texts_safe-IsSafe (style_texts style) h))
          refl))
  where
    group : List Text
    group = codes "g" ∷ Inside.svg
