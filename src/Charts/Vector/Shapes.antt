-- ===== src/Charts/Vector/Shapes.antt =====
-- The SVG helpers. Numbers are those of an interface: Python's floats with the operations of `math`.
use rostam_bench.Base.{ℕ, Bool, true, Option, none, some, [], ◌∷◌, ◌++◌, ◌≡◌, All, ◌||◌, ◌==◌}
use rostam_bench.Python.Errors.{Text}
use rostam_bench.Python.Decimal.{decimal}
use rostam_bench.Python.Dumps.{codes}
use rostam_bench.Charts.Escape.{esc}
use rostam_bench.Charts.Svg.{joined, is_numeral}
use rostam_bench.Charts.Vector.Data.{Colors}

-- `number m d` is the literal m / 10 ^ d. The texts are `f"{x:.1f}"`, `f"{x:.2f}"`, `f"{x:.0f}"` and
-- `f"{x:,.0f}"`. Every divisor of the script is a constant that is not zero.
pub record Floats (F : Type 0) : Type 0 where
  pub number : ℕ → ℕ → F
  pub add : F → F → F
  pub sub : F → F → F
  pub mul : F → F → F
  pub div : F → F → F
  pub min : F → F → F
  pub max : F → F → F
  pub leb : F → F → Bool
  pub log10 : F → F
  pub sqrt : F → F
  pub fixed1 : F → Text
  pub fixed2 : F → Text
  pub fixed0 : F → Text
  pub grouped : F → Text

-- A numeral, or a comma between groups of digits.
abbrev pub IsFigure : Text → Type 0
IsFigure = All (λ c. (is_numeral c || c == b',') ≡ true)

-- The documented forms of the formats, for finite floats.
pub record IsLawful {F : Type 0} (floats : Floats F) : Type 0 where
  pub fixed1_figure : (x : F) → IsFigure (floats.fixed1 x)
  pub fixed2_figure : (x : F) → IsFigure (floats.fixed2 x)
  pub fixed0_figure : (x : F) → IsFigure (floats.fixed0 x)
  pub grouped_figure : (x : F) → IsFigure (floats.grouped x)

-- `MONO`
abbrev pub mono : Text
mono = codes "ui-monospace, SFMono-Regular, Menlo, Consolas, monospace"

-- The keyword arguments of `text`; `size` and `spacing` are what is printed of them.
pub record Style : Type 0 where
  pub fill : Text
  pub size : Text
  pub anchor : Text
  pub weight : Text
  pub spacing : Option Text

abbrev pub plain : Text → Style
plain fill = record {
  fill = fill;
  size = codes "10.5";
  anchor = codes "start";
  weight = codes "normal";
  spacing = none;
}

abbrev pub letter_spacing : Option Text → Text
letter_spacing none = []
letter_spacing (some s) = codes " letter-spacing=\"" ++ (s ++ codes "\"")

-- What `svg` writes in front of the body.
unfoldable pub svg_open : ℕ → ℕ → Colors → Text → Text
svg_open width height t title = joined (
    codes "<svg xmlns=\"http://www.w3.org/2000/svg\" viewBox=\"0 0 "
    ∷ decimal width
    ∷ codes " "
    ∷ decimal height
    ∷ codes "\" width=\""
    ∷ decimal width
    ∷ codes "\" height=\""
    ∷ decimal height
    ∷ codes "\" role=\"img\" aria-label=\""
    ∷ esc title
    ∷ codes "\"><title>"
    ∷ esc title
    ∷ codes "</title><rect width=\""
    ∷ decimal width
    ∷ codes "\" height=\""
    ∷ decimal height
    ∷ codes "\" fill=\""
    ∷ t.bg
    ∷ codes "\"/>"
    ∷ [])

unfoldable pub svg : ℕ → ℕ → Text → Colors → Text → Text
unfolding svg_open
svg width height body t title = svg_open width height t title ++ (body ++ codes "</svg>\n")

module _ {F : Type 0} (floats : Floats F) where
  -- An integer as a float.
  abbrev pub int : ℕ → F
  int n = floats.number n 0

  unfoldable pub text : F → F → Text → Style → Text
  text x y s style = joined (
      codes "<text x=\""
      ∷ floats.fixed1 x
      ∷ codes "\" y=\""
      ∷ floats.fixed1 y
      ∷ codes "\" fill=\""
      ∷ style.fill
      ∷ codes "\" font-family=\""
      ∷ mono
      ∷ codes "\" font-size=\""
      ∷ style.size
      ∷ codes "\" text-anchor=\""
      ∷ style.anchor
      ∷ codes "\" font-weight=\""
      ∷ style.weight
      ∷ codes "\""
      ∷ letter_spacing style.spacing
      ∷ codes ">"
      ∷ esc s
      ∷ codes "</text>"
      ∷ [])

  -- `w` and `dash` have their defaults in every call.
  unfoldable pub line : F → F → F → F → Text → Text
  line x1 y1 x2 y2 stroke = joined (
      codes "<line x1=\""
      ∷ floats.fixed1 x1
      ∷ codes "\" y1=\""
      ∷ floats.fixed1 y1
      ∷ codes "\" x2=\""
      ∷ floats.fixed1 x2
      ∷ codes "\" y2=\""
      ∷ floats.fixed1 y2
      ∷ codes "\" stroke=\""
      ∷ stroke
      ∷ codes "\" stroke-width=\"1\"/>"
      ∷ [])

  -- `opacity` and `rx` are what is printed of them.
  unfoldable pub rect : F → F → F → F → Text → Text → Text → Text
  rect x y w h fill opacity rx = joined (
      codes "<rect x=\""
      ∷ floats.fixed1 x
      ∷ codes "\" y=\""
      ∷ floats.fixed1 y
      ∷ codes "\" width=\""
      ∷ floats.fixed1 (floats.max w (int 0))
      ∷ codes "\" height=\""
      ∷ floats.fixed1 (floats.max h (int 0))
      ∷ codes "\" fill=\""
      ∷ fill
      ∷ codes "\" opacity=\""
      ∷ opacity
      ∷ codes "\" rx=\""
      ∷ rx
      ∷ codes "\"/>"
      ∷ [])

  -- `sw` and `opacity` are what is printed of them.
  unfoldable pub circle : F → F → F → Text → Text → Text → Text → Text
  circle cx cy r fill stroke sw opacity = joined (
      codes "<circle cx=\""
      ∷ floats.fixed1 cx
      ∷ codes "\" cy=\""
      ∷ floats.fixed1 cy
      ∷ codes "\" r=\""
      ∷ floats.fixed1 r
      ∷ codes "\" fill=\""
      ∷ fill
      ∷ codes "\" opacity=\""
      ∷ opacity
      ∷ codes "\" stroke=\""
      ∷ stroke
      ∷ codes "\" stroke-width=\""
      ∷ sw
      ∷ codes "\"/>"
      ∷ [])

  -- `fmt`
  abbrev pub fmt : F → Text
  fmt = floats.grouped

  -- A text that is turned around the place where it stands.
  unfoldable pub turned : ℕ → F → Text → Style → Text
  unfolding text
  turned x y s style = joined (
      codes "<g transform=\"rotate(-90 "
      ∷ decimal x
      ∷ codes " "
      ∷ floats.fixed1 y
      ∷ codes ")\">"
      ∷ text (int x) y s style
      ∷ codes "</g>"
      ∷ [])
