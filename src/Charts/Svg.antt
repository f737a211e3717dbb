-- ===== src/Charts/Svg.antt =====
-- What the charts of netkv/charts/mkcharts.py share: the sizes, the two themes, `head` and `yaxis`.
-- Throughputs are naturals that count tenths, and a length is an integer over a natural, so positions
-- are exact; how the floats of the script round is not modelled.
use rostam_bench.Base.{
  ℕ, zero, suc, ◌+◌, ◌-◌, ◌*◌, ◌≡◌, ◌&&◌, ◌||◌, Bool, true, List, [], ◌∷◌, ◌++◌, All, leb, list_eq,
  ◌==◌, if◌then◌else◌,
}
use rostam_bench.Base.Int.{ℤ, pos}
use rostam_bench.Base.Arith.{sub_ℕ, ◌+ℤ◌}
use rostam_bench.Python.Errors.{Text}
use rostam_bench.Python.Decimal.{decimal}
use rostam_bench.Python.Dumps.{codes}
use rostam_bench.PyClient.Socket.{Outcome, done, raised, zero_division, key_error, ◌>>=◌}
use rostam_bench.Charts.Escape.{esc}

-- How Python prints a float: `fixed1 a n` is `f"{x:.1f}"` for x = a / n, and `general v` is `f"{x:g}"`
-- for x = v / 10.
pub record Format : Type 0 where
  pub fixed1 : ℤ → ℕ → Text
  pub general : ℕ → Text

-- A sign, digits, a point and an exponent.
abbrev pub is_numeral : ℕ → Bool
is_numeral c = (leb b'0' c && leb c b'9') || (c == b'.' || (c == b'-' || (c == b'+' || c == b'e')))

abbrev pub IsNumeral : Text → Type 0
IsNumeral = All (λ c. is_numeral c ≡ true)

-- The documented forms of the two formats, for finite floats.
pub record IsLawful (format : Format) : Type 0 where
  pub fixed1_numeral : (a : ℤ) (n : ℕ) → IsNumeral (format.fixed1 a n)
  pub general_numeral : (v : ℕ) → IsNumeral (format.general v)

-- `W`, `H`, `ML`, `MR`, `MT`, `MB`, `PW` and `PH`
abbrev pub page_w : ℕ
page_w = 760

abbrev pub page_h : ℕ
page_h = 400

abbrev pub ml : ℕ
ml = 66

abbrev pub mr : ℕ
mr = 132

abbrev pub mt : ℕ
mt = 52

abbrev pub mb : ℕ
mb = 66

abbrev pub pw : ℕ
pw = page_w - ml - mr

abbrev pub ph : ℕ
ph = page_h - mt - mb

pub record Theme : Type 0 where
  pub surface : Text
  pub ink : Text
  pub ink2 : Text
  pub grid : Text
  pub rule : Text
  pub series : List Text

abbrev pub light_theme : Theme
light_theme = record {
  surface = codes "#fcfcfb";
  ink = codes "#0b0b0b";
  ink2 = codes "#52514e";
  grid = codes "#e5e4e0";
  rule = codes "#8a8880";
  series =
      codes "#2a78d6"
      ∷ codes "#eb6834"
      ∷ codes "#1baf7a"
      ∷ codes "#eda100"
      ∷ codes "#e87ba4"
      ∷ codes "#008300"
      ∷ codes "#4a3aa7"
      ∷ [];
}

abbrev pub dark_theme : Theme
dark_theme = record {
  surface = codes "#1a1a19";
  ink = codes "#ffffff";
  ink2 = codes "#c3c2b7";
  grid = codes "#33322e";
  rule = codes "#7a786f";
  series =
      codes "#3987e5"
      ∷ codes "#d95926"
      ∷ codes "#199e70"
      ∷ codes "#c98500"
      ∷ codes "#d55181"
      ∷ codes "#008300"
      ∷ codes "#9085e9"
      ∷ [];
}

-- `THEMES[theme]`
unfoldable pub theme_of : Text → Outcome Theme
unfolding list_eq
theme_of name =
    if list_eq name (codes "light")
    then done light_theme
    else if list_eq name (codes "dark")
    then done dark_theme
    else raised key_error

-- `"".join(texts)`, also for the parts of an f-string.
abbrev pub joined : List Text → Text
joined [] = []
joined (t ∷ ts) = t ++ joined ts

abbrev font : Text
font = codes "px system-ui,-apple-system,Segoe UI,Roboto,sans-serif;fill:"

unfoldable pub head : Theme → Text → Text → Text
head t title sub = joined (
    codes "<svg xmlns=\"http://www.w3.org/2000/svg\" width=\""
    ∷ decimal page_w
    ∷ codes "\" height=\""
    ∷ decimal page_h
    ∷ codes "\" viewBox=\"0 0 "
    ∷ decimal page_w
    ∷ codes " "
    ∷ decimal page_h
    ∷ codes "\" role=\"img\" aria-label=\""
    ∷ esc title
    ∷ codes "\">\n<rect width=\""
    ∷ decimal page_w
    ∷ codes "\" height=\""
    ∷ decimal page_h
    ∷ codes "\" fill=\""
    ∷ t.surface
    ∷ codes "\"/>\n<style>\n .ttl{font:600 15"
    ∷ font
    ∷ t.ink
    ∷ codes "}\n .sub{font:400 12"
    ∷ font
    ∷ t.ink2
    ∷ codes "}\n .ax {font:400 11"
    ∷ font
    ∷ t.ink2
    ∷ codes "}\n .lb {font:600 11"
    ∷ font
    ∷ t.ink
    ∷ codes "}\n .an {font:400 10.5"
    ∷ font
    ∷ t.ink2
    ∷ codes "}\n</style>\n<text class=\"ttl\" x=\""
    ∷ decimal ml
    ∷ codes "\" y=\"26\">"
    ∷ esc title
    ∷ codes "</text>\n<text class=\"sub\" x=\""
    ∷ decimal ml
    ∷ codes "\" y=\"43\">"
    ∷ esc sub
    ∷ codes "</text>\n"
    ∷ [])

-- `MT + PH - (v / ymax) * PH`, over `ymax`.
unfoldable pub height : ℕ → ℕ → Outcome ℤ
height zero v = raised zero_division
height (suc n) v = done (sub_ℕ ((mt + ph) * suc n) (v * ph))

-- A list comprehension whose body may raise.
unfoldable pub each {ℓ κ} : {A : Type ℓ} {B : Type κ} → (A → Outcome B) → List A → Outcome (List B)
each f [] = done []
each f (a ∷ rest) = f a >>= λ b. each f rest >>= λ bs. done (b ∷ bs)

-- The unit is always the default.
unfoldable pub unit_label : Text
unit_label = joined (
    codes "<text class=\"ax\" x=\""
    ∷ decimal (ml - 9)
    ∷ codes "\" y=\""
    ∷ decimal (mt - 10)
    ∷ codes "\" text-anchor=\"end\">k ops/s</text>"
    ∷ [])

module _ (format : Format) where
  -- The line of a tick and its number, at the height `y` over `ymax`.
  unfoldable pub tick : Theme → ℕ → ℕ → ℤ → Text
  tick t ymax v y = joined (
      codes "<line x1=\""
      ∷ decimal ml
      ∷ codes "\" y1=\""
      ∷ format.fixed1 y ymax
      ∷ codes "\" x2=\""
      ∷ decimal (ml + pw)
      ∷ codes "\" y2=\""
      ∷ format.fixed1 y ymax
      ∷ codes "\" stroke=\""
      ∷ t.grid
      ∷ codes "\" stroke-width=\"1\"/>"
      ∷ codes "<text class=\"ax\" x=\""
      ∷ decimal (ml - 9)
      ∷ codes "\" y=\""
      ∷ format.fixed1 (y +ℤ pos (4 * ymax)) ymax
      ∷ codes "\" text-anchor=\"end\">"
      ∷ format.general v
      ∷ codes "</text>"
      ∷ [])

  unfoldable pub yaxis : Theme → ℕ → List ℕ → Outcome Text
  unfolding height each tick unit_label
  yaxis t ymax ticks = each (λ v. height ymax v >>= λ y. done (tick t ymax v y)) ticks >>= λ o.
      done (joined o ++ unit_label)
