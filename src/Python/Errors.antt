-- ===== src/Python/Errors.antt =====
-- The exceptions that vectordbbench/rostam/rostam.py raises or lets through.
use rostam_bench.Base.{ℕ, Option, none, some, List, [], ◌∷◌, ◌≡◌, refl, ◌⊎◌, inl, inr, map}

-- Texts and byte strings are lists of code points and of bytes.
abbrev pub Text : Type 0
Text = List ℕ

abbrev pub Bytes : Type 0
Bytes = List ℕ

-- The messages of the `RuntimeError`s of rostam.py, by what their f-strings hold.
pub data Failure : Type 0 where
  unknown_load_path : Text → Failure
  create_failed : ℕ → Text → Failure
  insert_failed : ℕ → ℕ → Text → Failure
  build_failed : ℕ → Text → Failure
  filter_needs_payload : Failure
  unsupported_filter : Failure

-- `transport` is any exception of `requests.post` or `.delete` itself; `http_error` is the one of
-- `raise_for_status`; `bad_json` that of `r.json()`.
pub data Exn : Type 0 where
  already_exists : Exn
  runtime_error : Failure → Exn
  struct_error overflow_error value_error type_error key_error attribute_error : Exn
  transport bad_json assertion_error zero_division index_error : Exn
  http_error : ℕ → Exn

pub data Result {ℓ} (A : Type ℓ) : Type ℓ where
  ok : A → Result A
  err : Exn → Result A

infixl 5 ◌>>=◌
abbrev pub ◌>>=◌ {ℓ κ} : {A : Type ℓ} {B : Type κ} → Result A → (A → Result B) → Result B
ok a >>= f = f a
err e >>= f = err e

abbrev pub or_raise {ℓ} : {A : Type ℓ} → Option A → Exn → Result A
or_raise none e = err e
or_raise (some a) e = ok a

-- `[f(x) for x in xs]`, where `f` may raise.
unfoldable pub map_result {ℓ κ} :
    {A : Type ℓ} {B : Type κ} → (A → Result B) → List A → Result (List B)
map_result f [] = ok []
map_result f (x ∷ xs) = do y ← f x; ys ← map_result f xs; ok (y ∷ ys)

pub map_result_ok {ℓ κ} :
    {A : Type ℓ} {B : Type κ} (f : A → B) (xs : List A)
    → map_result (λ x. ok (f x)) xs ≡ ok (map f xs)
unfolding map_result
map_result_ok f [] = refl
map_result_ok f (x ∷ xs) = cc (map_result_ok f xs)

pub Result-cases {ℓ} :
    {A : Type ℓ} (r : Result A) → ((a : A) × (r ≡ ok a)) ⊎ ((e : Exn) × (r ≡ err e))
Result-cases (ok a) = inl (a, refl)
Result-cases (err e) = inr (e, refl)
