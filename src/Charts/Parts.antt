-- ===== src/Charts/Parts.antt =====
-- The computations behind the parts of a chart end: colours, positions and labels.
use rostam_bench.Base.{
  ℕ, zero, suc, ◌+◌, ◌-◌, ◌*◌, ◌<◌, ◌≡◌, ◌≢◌, ◌⊎◌, inl, inr, refl, ap, Bool, true, false, not, ◌&&◌,
  List, [], ◌∷◌, ◌++◌, All, arith, map, length, zip, list_eq, ◌==◌, Bool-cases,
}
use rostam_bench.Base.Int.{ℤ, pos}
use rostam_bench.Python.Errors.{Text}
use rostam_bench.Python.Dumps.{codes}
use rostam_bench.Sift.Quantile.{item}
use rostam_bench.Charts.Spaced.{decollide-IsSpaced}
use rostam_bench.Charts.Xml.{is_safe, IsSafe}
use rostam_bench.Charts.Svg.{Theme, theme_of, light_theme, dark_theme, mt, ph, height, each}
use rostam_bench.Charts.Line.{
  slots, slot_in, color, colors, xpos, last, spaced, Series, ends_of, label_heights,
}
use rostam_bench.Charts.Inside.{IsUnquoted, IsSafeTheme, Ends, Ends-bind, height-Ends}

pub IsSafe-append : (s t : Text) → IsSafe s → IsSafe t → IsSafe (s ++ t)
IsSafe-append [] t h k = k
IsSafe-append (c ∷ s) t (one, more) k = (one, IsSafe-append s t more k)

pub spaced-IsSafe : (ts : List Text) → All IsSafe ts → IsSafe (spaced ts)
unfolding spaced
spaced-IsSafe [] h = tt
spaced-IsSafe (t ∷ []) h = h.0
spaced-IsSafe (t ∷ u ∷ ts) (one, more) = IsSafe-append t _ one (refl, spaced-IsSafe (u ∷ ts) more)

pub item-Ends :
    {A : Type 0} (P : A → Type 0) (i : ℕ) (xs : List A)
    → i < length xs
    → All P xs
    → Ends P (item i xs)
unfolding item
item-Ends P i [] h all = absurd (omega arith)
item-Ends P zero (x ∷ xs) h all = (x, refl, all.0)
item-Ends P (suc i) (x ∷ xs) h all = item-Ends P i xs (omega arith) all.1

slot_in-below :
    (l : List (Text × ℕ)) (name : Text) (i n : ℕ)
    → All (λ s. s.1 < n) l
    → i < n
    → slot_in l name i < n
unfolding slot_in
slot_in-below [] name i n h k = k
slot_in-below ((m, j) ∷ l) name i n (one, more) k = elim (Bool-cases (list_eq m name)) [
  | inl same ↦ rw same one
  | inr other ↦ rw other (slot_in-below l name i n more k)
]

-- A theme with safe colours, seven of them for series.
abbrev pub IsPalette : Theme → Type 0
IsPalette t = IsSafeTheme t × (length t.series ≡ 7)

-- The names that `THEMES` has.
abbrev pub IsThemeName : Text → Type 0
IsThemeName name = (name ≡ codes "light") ⊎ (name ≡ codes "dark")

pub both : (a b : Bool) → a && b ≡ true → (a ≡ true) × (b ≡ true)
both true true h = (refl, refl)
both true false h = absurd (ground (arith, h))
both false b h = absurd (ground (arith, h))

unfoldable pub all_safe : Text → Bool
all_safe [] = true
all_safe (c ∷ s) = is_safe c && all_safe s

pub all_safe-IsSafe : (s : Text) → all_safe s ≡ true → IsSafe s
unfolding all_safe
all_safe-IsSafe [] h = tt
all_safe-IsSafe (c ∷ s) h =
    let (one, more) = both (is_safe c) (all_safe s) h in (one, all_safe-IsSafe s more)

unfoldable pub unquoted : Text → Bool
unquoted [] = true
unquoted (c ∷ s) = not (c == b'"') && unquoted s

pub unquoted-IsUnquoted : (s : Text) → unquoted s ≡ true → IsUnquoted s
unfolding unquoted
unquoted-IsUnquoted [] h = tt
unquoted-IsUnquoted (c ∷ s) h =
    let (one, more) = both (not (c == b'"')) (unquoted s) h in
    (ground (arith, one), unquoted-IsUnquoted s more)

unfoldable pub all_texts_safe : List Text → Bool
all_texts_safe [] = true
all_texts_safe (t ∷ ts) = all_safe t && all_texts_safe ts

pub all_texts_safe-IsSafe : (ts : List Text) → all_texts_safe ts ≡ true → All IsSafe ts
unfolding all_texts_safe
all_texts_safe-IsSafe [] h = tt
all_texts_safe-IsSafe (t ∷ ts) h =
    let (one, more) = both (all_safe t) (all_texts_safe ts) h in
    (all_safe-IsSafe t one, all_texts_safe-IsSafe ts more)

theme-IsSafeTheme :
    (t : Theme)
    → all_texts_safe (t.surface ∷ t.ink ∷ t.ink2 ∷ t.grid ∷ t.rule ∷ t.series) ≡ true
    → IsSafeTheme t
theme-IsSafeTheme t h =
    let (surface, (ink, (ink2, (grid, (rule, series))))) =
      all_texts_safe-IsSafe (t.surface ∷ t.ink ∷ t.ink2 ∷ t.grid ∷ t.rule ∷ t.series) h in
    (surface, ink, ink2, grid, rule, series)

pub theme_of-Ends : (name : Text) → IsThemeName name → Ends IsPalette (theme_of name)
unfolding theme_of list_eq all_texts_safe all_safe
theme_of-Ends name (inl e) = rw e (light_theme, refl, (theme-IsSafeTheme light_theme refl, refl))
theme_of-Ends name (inr e) = rw e (dark_theme, refl, (theme-IsSafeTheme dark_theme refl, refl))

pub color-Ends :
    (t : Theme) (i : ℕ) (name : Text) → IsPalette t → i < 7 → Ends IsSafe (color t i name)
unfolding color
color-Ends t i name (safe, many) h =
    let few : slot_in slots name i < 7 = slot_in-below slots name i 7 (omega arith) h in
    let (surface, ink, ink2, grid, rule, series) = safe in
    item-Ends IsSafe (slot_in slots name i) t.series (omega (arith, few, many)) series

pub colors-Ends :
    (t : Theme) (i : ℕ) (names : List Text)
    → IsPalette t
    → i + length names < 8
    → Ends (All IsSafe) (colors t i names)
unfolding colors
colors-Ends t i [] p h = ([], refl, tt)
colors-Ends t i (name ∷ names) p h = Ends-bind _ _ (color-Ends t i name p (omega arith)) (λ c good.
    Ends-bind _ _ (colors-Ends t (i + 1) names p (omega arith)) (λ cs all. (_, refl, (good, all))))

pub xpos-Ends : (n : ℕ) → n ≢ 1 → Ends (λ xs. Unit {0}) (xpos n)
unfolding xpos
xpos-Ends n h = elim (Bool-cases (n == 1)) [
  | inl one ↦ absurd (h (ground (arith, one)))
  | inr more ↦ rw more (_, refl, tt)
]

last-Ends : (vals : List ℕ) → vals ≢ [] → Ends (λ v. Unit {0}) (last vals)
unfolding last
last-Ends [] h = absurd (h refl)
last-Ends (v ∷ []) h = (v, refl, tt)
last-Ends (v ∷ u ∷ vals) h = last-Ends (u ∷ vals) (λ e. ground (arith, e))

pub ends_of-Ends :
    (ymax : ℕ) (series : List Series)
    → 0 < ymax
    → All (λ s. s.1 ≢ []) series
    → Ends (λ ends. length ends ≡ length series) (ends_of ymax series)
unfolding ends_of each
ends_of-Ends ymax [] positive h = ([], refl, refl)
ends_of-Ends ymax ((name, vals) ∷ series) positive (some_vals, more) =
    Ends-bind _ _
      (Ends-bind (last vals) (height ymax) (last-Ends vals some_vals)
        (λ v u. height-Ends ymax v positive))
      (λ y u.
        Ends-bind _ _ (ends_of-Ends ymax series positive more) (λ ys same. (_, refl, ap suc same)))

pub label_heights-Ends :
    (ymax : ℕ) (ends : List ℤ) → 0 < length ends → Ends (λ ys. Unit {0}) (label_heights ymax ends)
unfolding label_heights
label_heights-Ends ymax [] h = absurd (omega arith)
label_heights-Ends ymax (y ∷ ends) h =
    let (out, made, more, keeps) =
      decollide-IsSpaced (pos (15 * ymax)) (pos ((mt - 6) * ymax)) (pos ((mt + ph + 6) * ymax)) y
        ends in
    (_, made, tt)

module _ {A B : Type 0} where
  pub zip-All_left :
      (P : A → Type 0) (xs : List A) (ys : List B) → All P xs → All (λ p. P p.0) (zip xs ys)
  zip-All_left P [] ys h = tt
  zip-All_left P (x ∷ xs) [] h = tt
  zip-All_left P (x ∷ xs) (y ∷ ys) (one, more) = (one, zip-All_left P xs ys more)

  pub zip-All_right :
      (P : B → Type 0) (xs : List A) (ys : List B) → All P ys → All (λ p. P p.1) (zip xs ys)
  zip-All_right P [] ys h = tt
  zip-All_right P (x ∷ xs) [] h = tt
  zip-All_right P (x ∷ xs) (y ∷ ys) (one, more) = (one, zip-All_right P xs ys more)

  pub map-All :
      (P : B → Type 0) (f : A → B) (xs : List A) → All (λ a. P (f a)) xs → All P (map f xs)
  map-All P f [] h = tt
  map-All P f (x ∷ xs) (one, more) = (one, map-All P f xs more)

pub All-each :
    {A : Type 0} (P Q : A → Type 0) (xs : List A) → ((a : A) → P a → Q a) → All P xs → All Q xs
All-each P Q [] f h = tt
All-each P Q (x ∷ xs) f (one, more) = (f x one, All-each P Q xs f more)
