-- ===== src/Tests/PageRuns.antt =====
-- The texts and the files of the charts at concrete inputs.
use rostam_bench.Base.{
  ◌≡◌, refl, ◌&&◌, Bool, true, none, some, List, [], ◌∷◌, list_eq, if◌then◌else◌,
}
use rostam_bench.Python.Errors.{Text}
use rostam_bench.Python.Dumps.{codes}
use rostam_bench.Charts.Escape.{replace, esc, unescape, IsPlain, esc-unescape}
use rostam_bench.Charts.Files.{
  Files, light, dark, file_name, emit, emit_all, main, mirrors, is_target, emit-file, main-mirrored,
}

esc-unescape_example :
    IsPlain (esc (codes "4->8 & <b>"))
    × (unescape 0 (esc (codes "4->8 & <b>")) ≡ codes "4->8 & <b>")
esc-unescape_example = esc-unescape (codes "4->8 & <b>")

escapes : esc (codes "a<&b") ≡ codes "a&lt;&amp;b"
unfolding esc replace
escapes = refl

abbrev empty_files : Files
empty_files d f = none

-- A chart that is its theme.
abbrev chart : Text → Text
chart theme = theme

abbrev targets : List Text
targets = codes "charts" ∷ codes "docs" ∷ []

emit-file_example :
    emit targets (codes "wire") chart empty_files (codes "docs") (file_name (codes "wire") light)
    ≡ (if is_target (codes "docs") targets
          && list_eq (file_name (codes "wire") dark) (file_name (codes "wire") light)
        then some dark
        else if is_target (codes "docs") targets
            && list_eq (file_name (codes "wire") light) (file_name (codes "wire") light)
        then some light
        else none)
emit-file_example =
    emit-file targets (codes "wire") chart empty_files (codes "docs")
      (file_name (codes "wire") light)

abbrev any_dir : Text → Bool
any_dir d = true

main-mirrored_example :
    emit_all targets
      ((codes "wire", chart) ∷ [])
      empty_files
      (codes "charts")
      (codes "wire-dark.svg")
    ≡ emit_all targets
        ((codes "wire", chart) ∷ [])
        empty_files
        (codes "docs")
        (codes "wire-dark.svg")
unfolding main mirrors list_eq
main-mirrored_example =
    main-mirrored any_dir (codes "charts") (codes "docs" ∷ []) ((codes "wire", chart) ∷ [])
      empty_files (emit_all targets ((codes "wire", chart) ∷ []) empty_files) (codes "charts")
      (codes "docs") (codes "wire-dark.svg") refl refl refl refl
