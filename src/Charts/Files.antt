-- ===== src/Charts/Files.antt =====
-- Where the charts are written: `TARGETS` and `emit` of netkv/charts/mkcharts.py, and the last part of
-- vectordbbench/charts/make_charts.py, which has the same loops. A chart is a function from the theme
-- to the text.
use rostam_bench.Base.{
  ◌≡◌, ◌⊎◌, refl, ap, sym, ◌∙◌, inl, inr, Bool, true, false, ◌&&◌, ◌||◌, Option, none, some, List,
  [], ◌∷◌, ◌++◌, list_eq, if◌then◌else◌, Bool-cases, arith, All,
}
use mathlib.Core.Path.{subst}
use rostam_bench.Python.Errors.{Text}
use rostam_bench.Python.Dumps.{codes}

-- What the files hold, by directory and name.
abbrev pub Files : Type 0
Files = Text → Text → Option Text

unfoldable pub write_text : Text → Text → Text → Files → Files
write_text d f body files d' f' = if list_eq d d' && list_eq f f' then some body else files d' f'

-- `for d in TARGETS: (d / f).write_text(body)`
unfoldable pub write_all : List Text → Text → Text → Files → Files
write_all [] f body files = files
write_all (d ∷ targets) f body files = write_all targets f body (write_text d f body files)

-- `f"{stem}-{theme}.svg"`
abbrev pub file_name : Text → Text → Text
file_name stem theme = stem ++ (codes "-" ++ (theme ++ codes ".svg"))

abbrev pub light : Text
light = codes "light"

abbrev pub dark : Text
dark = codes "dark"

unfoldable pub emit : List Text → Text → (Text → Text) → Files → Files
emit targets stem fn files =
    write_all targets (file_name stem dark) (fn dark)
      (write_all targets (file_name stem light) (fn light) files)

-- The arguments behind the script's own directory; `none` is `SystemExit`.
unfoldable pub mirrors : (Text → Bool) → List Text → Option (List Text)
mirrors is_dir [] = some []
mirrors is_dir (d ∷ args) =
    let rest = mirrors is_dir args in
    if is_dir d then elim rest [ none ↦ none | some ds ↦ some (d ∷ ds) ] else none

-- `for name, fn in CHARTS.items()`
unfoldable pub emit_all : List Text → List (Text × (Text → Text)) → Files → Files
emit_all targets [] files = files
emit_all targets ((stem, fn) ∷ charts) files = emit_all targets charts (emit targets stem fn files)

unfoldable pub main :
    (Text → Bool) → Text → List Text → List (Text × (Text → Text)) → Files → Option Files
main is_dir out args charts files = elim (mirrors is_dir args) [
  | none ↦ none
  | some ds ↦ some (emit_all (out ∷ ds) charts files)
]

abbrev pub is_target : Text → List Text → Bool
is_target d [] = false
is_target d (t ∷ targets) = list_eq t d || is_target d targets

write_all-file :
    (targets : List Text) (f body : Text) (files : Files) (d' f' : Text)
    → write_all targets f body files d' f'
      ≡ (if is_target d' targets && list_eq f f' then some body else files d' f')
unfolding write_all write_text
write_all-file [] f body files d' f' = refl
write_all-file (d ∷ targets) f body files d' f' =
    write_all-file targets f body (write_text d f body files) d' f'
    ∙ merged (list_eq d d') (is_target d' targets) (list_eq f f')
  where
    merged :
        (here later same : Bool)
        → (if later && same then some body else (if here && same then some body else files d' f'))
          ≡ (if (here || later) && same then some body else files d' f')
    merged true true true = refl
    merged true true false = refl
    merged true false true = refl
    merged true false false = refl
    merged false true true = refl
    merged false true false = refl
    merged false false s = refl

-- For every directory and name: behind `emit`, the file with the name for a theme holds the chart in
-- that theme if the directory is one of the targets, and every other file holds what it held.
pub emit-file :
    (targets : List Text) (stem : Text) (fn : Text → Text) (files : Files) (d f : Text)
    → emit targets stem fn files d f ≡ (
        if is_target d targets && list_eq (file_name stem dark) f
        then some (fn dark)
        else if is_target d targets && list_eq (file_name stem light) f
        then some (fn light)
        else files d f)
unfolding emit
emit-file targets stem fn files d f =
    write_all-file targets (file_name stem dark) (fn dark)
      (write_all targets (file_name stem light) (fn light) files) d f
    ∙ ap (λ o. if is_target d targets && list_eq (file_name stem dark) f then some (fn dark) else o)
        (write_all-file targets (file_name stem light) (fn light) files d f)

emit-mirrored :
    (targets : List Text) (stem : Text) (fn : Text → Text) (files : Files) (d e f : Text)
    → is_target d targets ≡ true
    → is_target e targets ≡ true
    → files d f ≡ files e f
    → emit targets stem fn files d f ≡ emit targets stem fn files e f
emit-mirrored targets stem fn files d e f in_d in_e same =
    rw (emit-file targets stem fn files d f, emit-file targets stem fn files e f, in_d, in_e, same)
      refl

emit_all-mirrored :
    (targets : List Text) (charts : List (Text × (Text → Text))) (files : Files) (d e f : Text)
    → is_target d targets ≡ true
    → is_target e targets ≡ true
    → files d f ≡ files e f
    → emit_all targets charts files d f ≡ emit_all targets charts files e f
unfolding emit_all
emit_all-mirrored targets [] files d e f in_d in_e same = same
emit_all-mirrored targets ((stem, fn) ∷ charts) files d e f in_d in_e same =
    emit_all-mirrored targets charts (emit targets stem fn files) d e f in_d in_e
      (emit-mirrored targets stem fn files d e f in_d in_e same)

mirrors-cases :
    (is_dir : Text → Bool) (args : List Text)
    → (mirrors is_dir args ≡ none) ⊎ (mirrors is_dir args ≡ some args)
unfolding mirrors
mirrors-cases is_dir [] = inr refl
mirrors-cases is_dir (d ∷ args) = elim (Bool-cases (is_dir d)) [
  | inl there ↦ elim (mirrors-cases is_dir args) [
    | inl refused ↦ inl (rw (there, refused) refl)
    | inr all ↦ inr (rw (there, all) refl)
  ]
  | inr absent ↦ inl (rw absent refl)
]

-- A run that ends has emitted every chart to every target.
main-emit_all :
    (is_dir : Text → Bool) (out : Text) (args : List Text) (charts : List (Text × (Text → Text)))
    (files after : Files)
    → main is_dir out args charts files ≡ some after
    → emit_all (out ∷ args) charts files ≡ after
unfolding main
main-emit_all is_dir out args charts files after ran = elim (mirrors-cases is_dir args) [
  | inl refused ↦ absurd (ground (arith, rw (main, refused) at ran))
  | inr all ↦
      let ended : some (emit_all (out ∷ args) charts files) ≡ some after = rw (main, all) at ran in
      ap (λ o. elim o [ none ↦ files | some x ↦ x ]) ended
]

-- A run that is not refused, for any arguments and charts: a file that was the same in two of the
-- directories written to is the same in them afterwards.
pub main-mirrored :
    (is_dir : Text → Bool) (out : Text) (args : List Text) (charts : List (Text × (Text → Text)))
    (files after : Files) (d e f : Text)
    → main is_dir out args charts files ≡ some after
    → is_target d (out ∷ args) ≡ true
    → is_target e (out ∷ args) ≡ true
    → files d f ≡ files e f
    → after d f ≡ after e f
main-mirrored is_dir out args charts files after d e f ran in_d in_e same =
    let files_after = main-emit_all is_dir out args charts files after ran in
    ap (λ (x : Files). x d f) (sym files_after)
    ∙ emit_all-mirrored (out ∷ args) charts files d e f in_d in_e same
    ∙ ap (λ (x : Files). x e f) files_after

emit-origin :
    (P : Text → Type 0) (targets : List Text) (stem : Text) (fn : Text → Text) (files : Files)
    (d f text : Text)
    → ((theme : Text) → P (fn theme))
    → emit targets stem fn files d f ≡ some text
    → (files d f ≡ some text) ⊎ P text
emit-origin P targets stem fn files d f text good held =
    chosen (is_target d targets && list_eq (file_name stem dark) f)
      (is_target d targets && list_eq (file_name stem light) f)
      (sym (emit-file targets stem fn files d f) ∙ held)
  where
    drawn : (theme : Text) → some (fn theme) ≡ some text → P text
    drawn theme e = subst P (ap (λ o. elim o [ none ↦ fn theme | some x ↦ x ]) e) (good theme)

    chosen :
        (a b : Bool)
        → (if a then some (fn dark) else if b then some (fn light) else files d f) ≡ some text
        → (files d f ≡ some text) ⊎ P text
    chosen true b e = inr (drawn dark e)
    chosen false true e = inr (drawn light e)
    chosen false false e = inl e

emit_all-origin :
    (P : Text → Type 0) (targets : List Text) (charts : List (Text × (Text → Text))) (files : Files)
    (d f text : Text)
    → All (λ c. (theme : Text) → P (c.1 theme)) charts
    → emit_all targets charts files d f ≡ some text
    → (files d f ≡ some text) ⊎ P text
unfolding emit_all
emit_all-origin P targets [] files d f text all held = inl held
emit_all-origin P targets ((stem, fn) ∷ charts) files d f text (good, more) held =
    elim (emit_all-origin P targets charts (emit targets stem fn files) d f text more held) [
      | inl before ↦ emit-origin P targets stem fn files d f text good before
      | inr new ↦ inr new
    ]

-- What a file holds after a run, it held before, or it is one of the charts.
pub main-origin :
    (P : Text → Type 0) (is_dir : Text → Bool) (out : Text) (args : List Text)
    (charts : List (Text × (Text → Text))) (files after : Files) (d f text : Text)
    → All (λ c. (theme : Text) → P (c.1 theme)) charts
    → main is_dir out args charts files ≡ some after
    → after d f ≡ some text
    → (files d f ≡ some text) ⊎ P text
main-origin P is_dir out args charts files after d f text all ran held =
    emit_all-origin P (out ∷ args) charts files d f text all
      (ap (λ (x : Files). x d f) (main-emit_all is_dir out args charts files after ran) ∙ held)
