-- ===== src/Charts/Xml.antt =====
-- What an XML reader accepts, as a machine that walks over the characters: elements that are closed in
-- the order in which they were opened, quoted attribute values, and no other entity than the three of
-- `esc`. XML has more entities, and a `>` in texts. The reader does not check which characters XML
-- allows, nor that the attributes of an element have different names.
use rostam_bench.Base.{
  ℕ, ◌≡◌, refl, append_assoc, Bool, true, false, not, ◌&&◌, ◌||◌, List, [], ◌∷◌, ◌++◌, arith, inl,
  inr, All, leb, list_eq, ◌==◌, if◌then◌else◌, Bool-cases,
}
use rostam_bench.Python.Errors.{Text}
use rostam_bench.Python.Dumps.{codes}
use rostam_bench.Charts.Escape.{replace, esc, escaped, esc-cons}

pub data Mode : Type 0 where
  prolog content opened tag_name between attr_name equals value after_value empty_tag : Mode
  close_name content_entity value_entity epilog broken : Mode

-- `stack` has the names of the open elements, the innermost first, and `name` what is read of a name.
pub record Reader : Type 0 where
  pub mode : Mode
  pub stack : List Text
  pub name : Text

abbrev is_letter : ℕ → Bool
is_letter c = (leb b'a' c && leb c b'z') || (leb b'A' c && leb c b'Z')

abbrev is_name : ℕ → Bool
is_name c = is_letter c || ((leb b'0' c && leb c b'9') || (c == b'-' || c == b':'))

abbrev is_blank : ℕ → Bool
is_blank c = c == b' ' || c == b'\n'

abbrev is_entity : Text → Bool
is_entity s = list_eq s (codes "amp") || (list_eq s (codes "lt") || list_eq s (codes "gt"))

abbrev pub at : Mode → List Text → Reader
at mode stack = record { mode = mode; stack = stack; name = [] }

abbrev reading : Mode → List Text → Text → Reader
reading mode stack name = record { mode = mode; stack = stack; name = name }

failed : List Text → Reader
failed = at broken

-- Behind the end of an element, with what is open around it.
closed : List Text → Reader
closed [] = at epilog []
closed (n ∷ stack) = at content (n ∷ stack)

close : Text → List Text → Reader
close name [] = at broken []
close name (n ∷ stack) = if list_eq n name then closed stack else at broken []

pop : List Text → Reader
pop [] = at broken []
pop (n ∷ stack) = closed stack

step_in : Mode → List Text → Text → ℕ → Reader
step_in prolog stack name c =
    if c == b'<' then at opened stack else if is_blank c then at prolog stack else failed stack
step_in content stack name c =
    if c == b'<'
    then at opened stack
    else if c == b'&'
    then at content_entity stack
    else if c == b'>'
    then failed stack
    else at content stack
step_in opened stack name c =
    if c == b'/'
    then at close_name stack
    else if is_letter c
    then reading tag_name stack (c ∷ [])
    else failed stack
step_in tag_name stack name c =
    if is_name c
    then reading tag_name stack (name ++ (c ∷ []))
    else if is_blank c
    then at between (name ∷ stack)
    else if c == b'>'
    then at content (name ∷ stack)
    else if c == b'/'
    then at empty_tag (name ∷ stack)
    else failed stack
step_in between stack name c =
    if is_blank c
    then at between stack
    else if is_letter c
    then at attr_name stack
    else if c == b'>'
    then at content stack
    else if c == b'/'
    then at empty_tag stack
    else failed stack
step_in attr_name stack name c =
    if is_name c then at attr_name stack else if c == b'=' then at equals stack else failed stack
step_in equals stack name c = if c == b'"' then at value stack else failed stack
step_in value stack name c =
    if c == b'"'
    then at after_value stack
    else if c == b'&'
    then at value_entity stack
    else if c == b'<' || c == b'>'
    then failed stack
    else at value stack
step_in after_value stack name c =
    if is_blank c
    then at between stack
    else if c == b'>'
    then at content stack
    else if c == b'/'
    then at empty_tag stack
    else failed stack
step_in empty_tag stack name c = if c == b'>' then pop stack else failed stack
step_in close_name stack name c =
    if is_name c
    then reading close_name stack (name ++ (c ∷ []))
    else if c == b'>'
    then close name stack
    else failed stack
step_in content_entity stack name c =
    if c == b';'
    then if is_entity name then at content stack else failed stack
    else reading content_entity stack (name ++ (c ∷ []))
step_in value_entity stack name c =
    if c == b';'
    then if is_entity name then at value stack else failed stack
    else reading value_entity stack (name ++ (c ∷ []))
step_in epilog stack name c = if is_blank c then at epilog stack else failed stack
step_in broken stack name c = failed stack

unfoldable pub run : Text → Reader → Reader
unfolding step_in failed closed close pop list_eq
run [] r = r
run (c ∷ s) r = run s (step_in r.mode r.stack r.name c)

-- One element and what it contains, with nothing but blanks around it.
abbrev pub IsXml : Text → Type 0
IsXml s = run s (at prolog []) ≡ at epilog []

-- No character that ends an attribute value or is markup.
abbrev pub is_safe : ℕ → Bool
is_safe c = not (c == b'"' || (c == b'&' || (c == b'<' || c == b'>')))

abbrev pub IsSafe : Text → Type 0
IsSafe = All (λ c. is_safe c ≡ true)

safe_value :
    (c : ℕ) (names : List Text) → is_safe c ≡ true → step_in value names [] c ≡ at value names
unfolding step_in failed
safe_value c names h = ground (arith, h)

safe_content :
    (c : ℕ) (names : List Text) → is_safe c ≡ true → step_in content names [] c ≡ at content names
unfolding step_in failed
safe_content c names h = ground (arith, h)

module _ (names : List Text) {after : Reader} where
  -- A safe text inside a value, and between tags.
  pub value-IsSafe :
      (t rest : Text)
      → IsSafe t
      → run rest (at value names) ≡ after
      → run (t ++ rest) (at value names) ≡ after
  unfolding run
  value-IsSafe [] rest h e = e
  value-IsSafe (c ∷ t) rest h e = rw (run, safe_value c names h.0) (value-IsSafe t rest h.1 e)

  pub content-IsSafe :
      (t rest : Text)
      → IsSafe t
      → run rest (at content names) ≡ after
      → run (t ++ rest) (at content names) ≡ after
  unfolding run
  content-IsSafe [] rest h e = e
  content-IsSafe (c ∷ t) rest h e = rw (run, safe_content c names h.0) (content-IsSafe t rest h.1 e)

  content-escaped :
      (c : ℕ) (rest : Text)
      → run rest (at content names) ≡ after
      → run (escaped c ++ rest) (at content names) ≡ after
  unfolding run escaped
  content-escaped c rest e = elim (Bool-cases (c == b'&')) [
    | inl amp ↦ rw amp e
    | inr no_amp ↦ elim (Bool-cases (c == b'<')) [
      | inl lt ↦ rw (no_amp, lt) e
      | inr no_lt ↦ elim (Bool-cases (c == b'>')) [
        | inl gt ↦ rw (no_amp, no_lt, gt) e
        | inr no_gt ↦ rw (no_amp, no_lt, no_gt) (rw (run, no_lt, no_amp, no_gt) e)
      ]
    ]
  ]

  value-escaped :
      (c : ℕ) (rest : Text)
      → (c == b'"') ≡ false
      → run rest (at value names) ≡ after
      → run (escaped c ++ rest) (at value names) ≡ after
  unfolding run escaped
  value-escaped c rest no_quote e = elim (Bool-cases (c == b'&')) [
    | inl amp ↦ rw amp e
    | inr no_amp ↦ elim (Bool-cases (c == b'<')) [
      | inl lt ↦ rw (no_amp, lt) e
      | inr no_lt ↦ elim (Bool-cases (c == b'>')) [
        | inl gt ↦ rw (no_amp, no_lt, gt) e
        | inr no_gt ↦ rw (no_amp, no_lt, no_gt) (rw (run, no_quote, no_amp, no_lt, no_gt) e)
      ]
    ]
  ]

  pub content-esc :
      (s rest : Text)
      → run rest (at content names) ≡ after
      → run (esc s ++ rest) (at content names) ≡ after
  unfolding run esc replace
  content-esc [] rest e = e
  content-esc (c ∷ s) rest e =
      rw (esc-cons c s, append_assoc (escaped c) (esc s) rest)
        (content-escaped c (esc s ++ rest) (content-esc s rest e))

  -- A text that is escaped inside a value may have no `"`.
  pub value-esc :
      (s rest : Text)
      → All (λ c. (c == b'"') ≡ false) s
      → run rest (at value names) ≡ after
      → run (esc s ++ rest) (at value names) ≡ after
  unfolding run esc replace
  value-esc [] rest h e = e
  value-esc (c ∷ s) rest h e =
      rw (esc-cons c s, append_assoc (escaped c) (esc s) rest)
        (value-escaped c (esc s ++ rest) h.0 (value-esc s rest h.1 e))

pub run-append : (s t : Text) (r : Reader) → run (s ++ t) r ≡ run t (run s r)
unfolding run
run-append [] t r = refl
run-append (c ∷ s) t r = run-append s t (step_in r.mode r.stack r.name c)
