-- ===== src/Charts/Inside.antt =====
-- The parts of a chart are well-formed inside its `svg` element.
use rostam_bench.Base.{
  ℕ, zero, suc, ◌+◌, ◌<◌, ◌≡◌, refl, ap, ◌∙◌, true, false, List, [], ◌∷◌, ◌++◌, All, arith, ◌==◌,
}
use rostam_bench.Base.Int.{ℤ}
use rostam_bench.Python.Errors.{Text}
use rostam_bench.Python.Decimal.{digits, decimal}
use rostam_bench.Python.ReadDecimal.{decimal-All}
use rostam_bench.Python.Dumps.{codes}
use rostam_bench.PyClient.Socket.{Outcome, done, ◌>>=◌}
use rostam_bench.Charts.Xml.{
  prolog, content, epilog, Reader, at, run, IsXml, is_safe, IsSafe, value-IsSafe, content-IsSafe,
  content-esc, value-esc, run-append,
}
use rostam_bench.Charts.Svg.{
  Format, is_numeral, IsNumeral, IsLawful, Theme, joined, head, unit_label, tick, yaxis, each,
  height,
}

abbrev pub inside : Reader
inside = at content (codes "svg" ∷ [])

abbrev pub IsInside : Text → Type 0
IsInside s = run s inside ≡ inside

pub IsInside-append : (s t : Text) → IsInside s → IsInside t → IsInside (s ++ t)
IsInside-append s t a b = run-append s t inside ∙ ap (run t) a ∙ b

pub joined-IsInside : (ts : List Text) → All IsInside ts → IsInside (joined ts)
unfolding run
joined-IsInside [] h = refl
joined-IsInside (t ∷ ts) (one, more) = IsInside-append t (joined ts) one (joined-IsInside ts more)

numeral_safe : (c : ℕ) → is_numeral c ≡ true → is_safe c ≡ true
numeral_safe c h = ground (arith, h)

pub IsNumeral-IsSafe : (s : Text) → IsNumeral s → IsSafe s
IsNumeral-IsSafe [] h = tt
IsNumeral-IsSafe (c ∷ s) (one, more) = (numeral_safe c one, IsNumeral-IsSafe s more)

digit_safe : (d : ℕ) → d < 10 → is_safe (b'0' + d) ≡ true
digit_safe d h = ground (arith, h)

pub decimal-IsSafe : (n : ℕ) → IsSafe (decimal n)
decimal-IsSafe = decimal-All (λ c. is_safe c ≡ true) digit_safe

-- No `"`, which `esc` keeps.
abbrev pub IsUnquoted : Text → Type 0
IsUnquoted = All (λ c. (c == b'"') ≡ false)

-- The colours are safe.
abbrev pub IsSafeTheme : Theme → Type 0
IsSafeTheme t =
    IsSafe t.surface
    × IsSafe t.ink
    × IsSafe t.ink2
    × IsSafe t.grid
    × IsSafe t.rule
    × All IsSafe t.series

abbrev pub svg : List Text
svg = codes "svg" ∷ []

pub head-inside :
    (t : Theme) (title sub : Text)
    → IsSafeTheme t
    → IsUnquoted title
    → run (head t title sub) (at prolog []) ≡ inside
unfolding head run decimal digits
head-inside t title sub (surface, ink, ink2, grid, rule, series) h = value-esc svg title _ h (
    value-IsSafe (codes "rect" ∷ svg) t.surface _ surface (
      content-IsSafe (codes "style" ∷ svg) t.ink _ ink (
        content-IsSafe (codes "style" ∷ svg) t.ink2 _ ink2 (
          content-IsSafe (codes "style" ∷ svg) t.ink2 _ ink2 (
            content-IsSafe (codes "style" ∷ svg) t.ink _ ink (
              content-IsSafe (codes "style" ∷ svg) t.ink2 _ ink2 (
                content-esc (codes "text" ∷ svg) title _
                  (content-esc (codes "text" ∷ svg) sub _ refl))))))))

closed-IsXml :
    (parts : List Text)
    → All IsInside parts
    → run (joined (parts ++ (codes "</svg>" ∷ []))) inside ≡ at epilog []
unfolding run
closed-IsXml [] h = refl
closed-IsXml (t ∷ ts) (one, more) =
    run-append t (joined (ts ++ (codes "</svg>" ∷ []))) inside
    ∙ ap (run (joined (ts ++ (codes "</svg>" ∷ [])))) one
    ∙ closed-IsXml ts more

-- A chart is its head, its parts and the end of the element.
pub document-IsXml :
    (first : Text) (parts : List Text)
    → run first (at prolog []) ≡ inside
    → All IsInside parts
    → IsXml (joined (first ∷ (parts ++ (codes "</svg>" ∷ []))))
document-IsXml first parts opens all =
    run-append first (joined (parts ++ (codes "</svg>" ∷ []))) (at prolog [])
    ∙ ap (run (joined (parts ++ (codes "</svg>" ∷ [])))) opens
    ∙ closed-IsXml parts all

-- A computation that ends, with a result that has the property.
abbrev pub Ends : {A : Type 0} → (A → Type 0) → Outcome A → Type 0
Ends {A} Q m = (a : A) × (m ≡ done a) × Q a

pub Ends-bind :
    {A B : Type 0} {P : A → Type 0} {Q : B → Type 0} (m : Outcome A) (f : A → Outcome B)
    → Ends P m
    → ((a : A) → P a → Ends Q (f a))
    → Ends Q (m >>= f)
Ends-bind {Q = Q} m f (a, made, good) k = rw made (k a good)

pub each-Ends :
    {A B : Type 0} (Q : B → Type 0) (f : A → Outcome B) (as' : List A)
    → All (λ a. Ends Q (f a)) as'
    → Ends (All Q) (each f as')
unfolding each
each-Ends Q f [] h = ([], refl, tt)
each-Ends Q f (a ∷ as') ((b, made, good), more) =
    let (bs, rest, all) = each-Ends Q f as' more in (b ∷ bs, rw (made, rest) refl, (good, all))

pub All-every : {A : Type 0} (Q : A → Type 0) → ((a : A) → Q a) → (as' : List A) → All Q as'
All-every Q h [] = tt
All-every Q h (a ∷ as') = (h a, All-every Q h as')

pub height-Ends : (ymax v : ℕ) → 0 < ymax → Ends (λ y. Unit {0}) (height ymax v)
unfolding height
height-Ends zero v h = absurd (omega arith)
height-Ends (suc n) v h = (_, refl, tt)

unit_label-IsInside : IsInside unit_label
unfolding unit_label run decimal digits
unit_label-IsInside = refl

module _ (format : Format) (law : IsLawful format) where
  pub fixed1-IsSafe : (a : ℤ) (n : ℕ) → IsSafe (format.fixed1 a n)
  fixed1-IsSafe a n = IsNumeral-IsSafe (format.fixed1 a n) (law.fixed1_numeral a n)

  pub general-IsSafe : (v : ℕ) → IsSafe (format.general v)
  general-IsSafe v = IsNumeral-IsSafe (format.general v) (law.general_numeral v)

  tick-IsInside :
      (t : Theme) (ymax v : ℕ) (y : ℤ) → IsSafeTheme t → IsInside (tick format t ymax v y)
  unfolding tick run decimal digits
  tick-IsInside t ymax v y (surface, ink, ink2, grid, rule, series) =
      value-IsSafe (codes "line" ∷ svg) (format.fixed1 y ymax) _ (fixed1-IsSafe y ymax) (
        value-IsSafe (codes "line" ∷ svg) (format.fixed1 y ymax) _ (fixed1-IsSafe y ymax) (
          value-IsSafe (codes "line" ∷ svg) t.grid _ grid (
            value-IsSafe (codes "text" ∷ svg) _ _ (fixed1-IsSafe _ ymax)
              (content-IsSafe (codes "text" ∷ svg) (format.general v) _ (general-IsSafe v) refl))))

  pub yaxis-IsInside :
      (t : Theme) (ymax : ℕ) (ticks : List ℕ)
      → IsSafeTheme t
      → 0 < ymax
      → Ends IsInside (yaxis format t ymax ticks)
  unfolding yaxis
  yaxis-IsInside t ymax ticks safe positive =
      Ends-bind _ _
        (each-Ends IsInside (λ v. height ymax v >>= λ y. done (tick format t ymax v y)) ticks
          (All-every _
            (λ v.
              Ends-bind _ _ (height-Ends ymax v positive)
                (λ y u. (_, refl, tick-IsInside t ymax v y safe)))
            ticks))
        (λ o all. (
          _,
          refl,
          IsInside-append (joined o) unit_label (joined-IsInside o all) unit_label-IsInside,
        ))
