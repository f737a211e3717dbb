-- ===== src/Charts/Colors.antt =====
-- The colours of the series in netkv/charts/mkcharts.py: a name of `SLOT` has its own colour in every
-- chart, at any place.
use rostam_bench.Base.{
  ℕ, ◌≡◌, refl, sym, ap, ◌∙◌, inl, inr, Bool, true, false, List, [], ◌∷◌, All, map, arith, list_eq,
  ◌==◌, if◌then◌else◌, Bool-cases,
}
use mathlib.Core.Path.{subst}
use rostam_bench.Python.Errors.{Text}
use rostam_bench.PyClient.Socket.{Outcome, done, done_injective}
use rostam_bench.Sift.Quantile.{item}
use rostam_bench.Charts.Svg.{Theme, theme_of, light_theme, dark_theme}
use rostam_bench.Charts.Line.{slots, slot_in, color}
use rostam_bench.Charts.Parts.{both, IsThemeName}
use rostam_bench.Charts.Script.{is_in}

-- The names that have a slot.
abbrev pub entities : List Text
entities = map (λ (s : Text × ℕ). s.0) slots

list_eq_sound : (xs ys : Text) → list_eq xs ys ≡ true → xs ≡ ys
unfolding list_eq
list_eq_sound [] [] h = refl
list_eq_sound [] (y ∷ ys) h = absurd (ground (arith, h))
list_eq_sound (x ∷ xs) [] h = absurd (ground (arith, h))
list_eq_sound (x ∷ xs) (y ∷ ys) h =
    let (one, more) = both (x == y) (list_eq xs ys) h in
    let head : x ≡ y = ground (arith, one) in
    ap (λ c. c ∷ xs) head ∙ ap (λ s. y ∷ s) (list_eq_sound xs ys more)

-- What holds for every name of a list holds for a text that is in it.
is_in-All :
    (P : Text → Type 0) (a : Text) (names : List Text) → All P names → is_in a names ≡ true → P a
unfolding is_in
is_in-All P a [] all h = absurd (ground (arith, h))
is_in-All P a (n ∷ names) (one, more) h = elim (Bool-cases (list_eq n a)) [
  | inl same ↦ subst P (list_eq_sound n a same) one
  | inr other ↦ is_in-All P a names more (rw other at h)
]

same_color : Outcome Text → Outcome Text → Bool
same_color (done c) (done d) = list_eq c d
same_color a b = false

-- The name whose slot has a colour.
name_of : List (Text × ℕ) → Theme → Outcome Text → Text
unfolding color same_color
name_of [] t c = []
name_of ((n, k) ∷ rest) t c =
    let other = name_of rest t c in if same_color (color t 0 n) c then n else other

name_of-color :
    (theme : Text) (t : Theme)
    → IsThemeName theme
    → theme_of theme ≡ done t
    → (i : ℕ) (a : Text) → is_in a entities ≡ true
    → name_of slots t (color t i a) ≡ a
unfolding theme_of name_of color same_color slot_in item list_eq
name_of-color theme t (inl e) h i a known =
    let light : light_theme ≡ t = done_injective (rw e at h) in
    is_in-All (λ n. name_of slots t (color t i n) ≡ n) a entities
      (subst (λ u. All (λ n. name_of slots u (color u i n) ≡ n) entities) light
        (refl, (refl, (refl, (refl, (refl, (refl, (refl, tt))))))))
      known
name_of-color theme t (inr e) h i a known =
    let dark : dark_theme ≡ t = done_injective (rw e at h) in
    is_in-All (λ n. name_of slots t (color t i n) ≡ n) a entities
      (subst (λ u. All (λ n. name_of slots u (color u i n) ≡ n) entities) dark
        (refl, (refl, (refl, (refl, (refl, (refl, (refl, tt))))))))
      known

-- For a theme of the script and two names that have slots, at any places in any two charts: they have
-- the same colour only if they are the same name.
pub color-injective :
    (theme : Text) (t : Theme) (i j : ℕ) (a b : Text)
    → IsThemeName theme
    → theme_of theme ≡ done t
    → is_in a entities ≡ true
    → is_in b entities ≡ true
    → color t i a ≡ color t j b
    → a ≡ b
color-injective theme t i j a b known h in_a in_b same =
    sym (name_of-color theme t known h i a in_a)
    ∙ ap (name_of slots t) same
    ∙ name_of-color theme t known h j b in_b
