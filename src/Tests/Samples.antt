-- ===== src/Tests/Samples.antt =====
-- A numpy that keeps the low 32 bits of a float, for the runs below.
use rostam_bench.Base.{
  ℕ, zero, suc, All, ◌%◌, ◌^◌, ◌≡◌, refl, ap, List, [], ◌∷◌, arith, map, length, zip, concat_map,
}
use rostam_bench.Base.Int.{pos, to_nat}
use rostam_bench.Python.Errors.{Result, ok, err, value_error}
use rostam_bench.Python.Bytes.{be32}
use rostam_bench.Numpy.{Numpy, Matrix, IsLawful, record_bytes}

abbrev low_matrix : List (List ℕ) → Result Matrix
low_matrix [] = err value_error
low_matrix (x ∷ xs) = ok (record { cols = length x; rows = map (map (λ b. b % 2 ^ 32)) (x ∷ xs) })

abbrev pub low_numpy : Numpy
low_numpy = record {
  narrow = λ x. x % 2 ^ 32;
  widen = λ b. b;
  matrix = low_matrix;
  f4_bytes = concat_map be32;
  records = λ ids m. ok (concat_map record_bytes (zip (map to_nat ids) m.rows));
}

to_nat-pos : (ids : List ℕ) → map to_nat (map pos ids) ≡ ids
to_nat-pos [] = refl
to_nat-pos (i ∷ ids) = ap (λ l. i ∷ l) (to_nat-pos ids)

pub low_numpy-IsLawful : IsLawful low_numpy
low_numpy-IsLawful = record {
  narrow_lt = λ x. omega arith;
  narrow-widen = λ b h k. omega arith;
  matrix_rows = λ d x xs h. rw h.0;
  f4_bytes_be = λ v h. refl;
  records_layout = λ ids m e h k f. rw (to_nat-pos ids);
}

-- The list of `n` times `a`.
abbrev pub copies {ℓ} : {A : Type ℓ} → ℕ → A → List A
copies zero a = []
copies (suc n) a = a ∷ copies n a

pub length-copies {ℓ} : {A : Type ℓ} (n : ℕ) (a : A) → length (copies n a) ≡ n
length-copies zero a = refl
length-copies (suc n) a = ap suc (length-copies n a)

pub copies-All {ℓ κ} : {A : Type ℓ} (P : A → Type κ) (n : ℕ) (a : A) → P a → All P (copies n a)
copies-All P zero a h = tt
copies-All P (suc n) a h = (h, copies-All P n a h)
