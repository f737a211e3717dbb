-- ===== src/Charts/Escape.antt =====
-- `esc` of netkv/charts/mkcharts.py, which vectordbbench/charts/make_charts.py has again: what texts
-- become inside SVG.
use rostam_bench.Base.{
  ℕ, zero, suc, ◌≡◌, refl, ap, sym, ◌∙◌, inl, inr, ◌||◌, false, [], ◌∷◌, ◌++◌, append_assoc, arith,
  take, All, list_eq, ◌==◌, if◌then◌else◌, Bool-cases,
}
use rostam_bench.Python.Errors.{Text}
use rostam_bench.Python.Dumps.{codes}

-- `s.replace(c, by)` for a text `c` of one character.
unfoldable pub replace : ℕ → Text → Text → Text
replace c by [] = []
replace c by (d ∷ s) = (if d == c then by else d ∷ []) ++ replace c by s

unfoldable pub esc : Text → Text
unfolding replace
esc s = replace b'>' (codes "&gt;") (replace b'<' (codes "&lt;") (replace b'&' (codes "&amp;") s))

-- The text with the three entities replaced by the characters they stand for, from left to right and
-- each once; the first `skip` characters are behind an entity that was read.
unfoldable pub unescape : ℕ → Text → Text
unfolding list_eq
unescape skip [] = []
unescape (suc skip) (c ∷ s) = unescape skip s
unescape zero (c ∷ s) =
    let plain = unescape 0 s in
    let behind_short = unescape 3 s in
    let behind_amp = unescape 4 s in
    if c == b'&'
    then if list_eq (take 4 s) (codes "amp;")
      then b'&' ∷ behind_amp
      else if list_eq (take 3 s) (codes "lt;")
      then b'<' ∷ behind_short
      else if list_eq (take 3 s) (codes "gt;")
      then b'>' ∷ behind_short
      else c ∷ plain
    else c ∷ plain

-- What one character becomes.
unfoldable pub escaped : ℕ → Text
escaped c =
    if c == b'&'
    then codes "&amp;"
    else if c == b'<'
    then codes "&lt;"
    else if c == b'>'
    then codes "&gt;"
    else c ∷ []

replace-append : (c : ℕ) (by s t : Text) → replace c by (s ++ t) ≡ replace c by s ++ replace c by t
unfolding replace
replace-append c by [] t = refl
replace-append c by (d ∷ s) t =
    ap (λ r. (if d == c then by else d ∷ []) ++ r) (replace-append c by s t)
    ∙ sym (append_assoc (if d == c then by else d ∷ []) (replace c by s) (replace c by t))

-- What the two later replacements make of what the first makes of a character.
replaced :
    (c : ℕ)
    → replace b'>'
        (codes "&gt;")
        (replace b'<' (codes "&lt;") (if c == b'&' then codes "&amp;" else c ∷ []))
      ≡ escaped c
unfolding replace escaped
replaced c = elim (Bool-cases (c == b'&')) [
  | inl amp ↦ rw amp refl
  | inr no_amp ↦ elim (Bool-cases (c == b'<')) [
    | inl lt ↦ rw (no_amp, lt) refl
    | inr no_lt ↦ elim (Bool-cases (c == b'>')) [
      | inl gt ↦ rw (no_amp, no_lt, gt) refl
      | inr no_gt ↦ rw (no_amp, no_lt, no_gt) refl
    ]
  ]
]

pub esc-cons : (c : ℕ) (s : Text) → esc (c ∷ s) ≡ escaped c ++ esc s
unfolding esc
esc-cons c s =
    ap (replace b'>' (codes "&gt;")) (
      replace-append b'<' (codes "&lt;") (if c == b'&' then codes "&amp;" else c ∷ [])
        (replace b'&' (codes "&amp;") s))
    ∙ replace-append b'>' (codes "&gt;")
        (replace b'<' (codes "&lt;") (if c == b'&' then codes "&amp;" else c ∷ [])) _
    ∙ ap (λ r. r ++ esc s) (replaced c)

unescape-escaped : (c : ℕ) (t : Text) → unescape 0 (escaped c ++ t) ≡ c ∷ unescape 0 t
unfolding unescape escaped
unescape-escaped c t = elim (Bool-cases (c == b'&')) [
  | inl amp ↦ let e : b'&' ≡ c = ground (arith, amp) in rw amp (ap (λ d. d ∷ unescape 0 t) e)
  | inr no_amp ↦ elim (Bool-cases (c == b'<')) [
    | inl lt ↦
        let e : b'<' ≡ c = ground (arith, lt) in rw (no_amp, lt) (ap (λ d. d ∷ unescape 0 t) e)
    | inr no_lt ↦ elim (Bool-cases (c == b'>')) [
      | inl gt ↦
          let e : b'>' ≡ c = ground (arith, gt) in
          rw (no_amp, no_lt, gt) (ap (λ d. d ∷ unescape 0 t) e)
      | inr no_gt ↦ rw (no_amp, no_lt, no_gt) (rw no_amp refl)
    ]
  ]
]

-- No character of markup: neither `<` nor `>`.
abbrev pub IsPlain : Text → Type 0
IsPlain = All (λ c. (c == b'<' || c == b'>') ≡ false)

escaped-IsPlain : (c : ℕ) (t : Text) → IsPlain t → IsPlain (escaped c ++ t)
unfolding escaped
escaped-IsPlain c t h = elim (Bool-cases (c == b'&')) [
  | inl amp ↦ rw amp (refl, (refl, (refl, (refl, (refl, h)))))
  | inr no_amp ↦ elim (Bool-cases (c == b'<')) [
    | inl lt ↦ rw (no_amp, lt) (refl, (refl, (refl, (refl, h))))
    | inr no_lt ↦ elim (Bool-cases (c == b'>')) [
      | inl gt ↦ rw (no_amp, no_lt, gt) (refl, (refl, (refl, (refl, h))))
      | inr no_gt ↦ rw (no_amp, no_lt, no_gt) (ground (arith, no_lt, no_gt), h)
    ]
  ]
]

-- For every text: the result of `esc` has neither `<` nor `>` in it, and gives the text back when the
-- entities `&amp;`, `&lt;` and `&gt;` in it are replaced by the characters they stand for, from left to
-- right.
pub esc-unescape : (s : Text) → IsPlain (esc s) × (unescape 0 (esc s) ≡ s)
unfolding esc unescape
esc-unescape [] = (tt, refl)
esc-unescape (c ∷ s) =
    let (plain, back) = esc-unescape s in
    rw (esc-cons c s)
      (escaped-IsPlain c (esc s) plain, unescape-escaped c (esc s) ∙ ap (λ r. c ∷ r) back)
