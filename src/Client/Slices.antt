-- ===== src/Client/Slices.antt =====
-- The slices that the rounds of the load take.
use rostam_bench.Base.{
  ℕ, zero, suc, ◌+◌, ◌-◌, ◌≤◌, ◌≡◌, refl, ap, sym, ◌∙◌, List, [], ◌∷◌, ◌++◌, arith, map, length,
  take, drop, zip, All, All-take, All-drop, length-take, length-drop,
}
use rostam_bench.Python.Bytes.{IsU32, IsU64}
use rostam_bench.Numpy.{Matrix, IsShaped, IsF32, IsNumber}
use rostam_bench.Wire.BulkRoundTrip.{IsChunk}
use rostam_bench.Client.Insert.{slice, slice_rows, insert_batch}

module _ {ℓ} {A : Type ℓ} where
  take_nil : (n : ℕ) → ◌≡◌ {A = List A} (take n []) []
  take_nil zero = refl
  take_nil (suc n) = refl

  pub drop-drop : (a b : ℕ) (xs : List A) → drop b (drop a xs) ≡ drop (a + b) xs
  drop-drop zero b xs = rw zero_add
    where
      zero_add : 0 + b ≡ b
      zero_add = omega arith
  drop-drop (suc a) b [] = drop_nil b ∙ sym (drop_nil (suc a + b))
    where
      drop_nil : (n : ℕ) → drop n (◌++◌ {A = A} [] []) ≡ []
      drop_nil zero = refl
      drop_nil (suc n) = refl
  drop-drop (suc a) b (x ∷ xs) = drop-drop a b xs ∙ ap (λ n. drop n (x ∷ xs)) shift
    where
      shift : suc (a + b) ≡ suc a + b
      shift = omega arith

module _ {ℓ κ} {A : Type ℓ} {B : Type κ} where
  pub map-take : (f : A → B) (n : ℕ) (xs : List A) → take n (map f xs) ≡ map f (take n xs)
  map-take f zero xs = refl
  map-take f (suc n) [] = refl
  map-take f (suc n) (x ∷ xs) = ap (λ l. f x ∷ l) (map-take f n xs)

  pub map-drop : (f : A → B) (n : ℕ) (xs : List A) → drop n (map f xs) ≡ map f (drop n xs)
  map-drop f zero xs = refl
  map-drop f (suc n) [] = refl
  map-drop f (suc n) (x ∷ xs) = map-drop f n xs

  zip_nil : (xs : List A) → zip {B = B} xs [] ≡ []
  zip_nil [] = refl
  zip_nil (x ∷ xs) = refl

  -- The first `a` pairs, and then `b` more.
  pub zip-take_add :
      (a b : ℕ) (xs : List A) (ys : List B)
      → zip (take a xs) (take a ys) ++ zip (take b (drop a xs)) (take b (drop a ys))
        ≡ zip (take (a + b) xs) (take (a + b) ys)
  zip-take_add zero b xs ys =
      let e : b ≡ 0 + b = omega arith in ap (λ n. zip (take n xs) (take n ys)) e
  zip-take_add (suc a) b [] ys = rw (take_nil b, take_nil (suc a + b))
  zip-take_add (suc a) b (x ∷ xs) [] =
      rw (take_nil {A = B} b, take_nil {A = B} (suc a + b), zip_nil (take b (drop a xs)))
        (sym (zip_nil (take (suc a + b) (x ∷ xs))))
  zip-take_add (suc a) b (x ∷ xs) (y ∷ ys) =
      let e : suc (a + b) ≡ suc a + b = omega arith in
      ap (λ l. (x, y) ∷ l) (zip-take_add a b xs ys)
      ∙ ap (λ n. zip (take n (x ∷ xs)) (take n (y ∷ ys))) e

-- What the load needs of its input: one id for each row, in the ranges of the wire, rows of one
-- length, and float32 values that are no NaN.
pub record IsLoad (ids : List ℕ) (m : Matrix) : Type 0 where
  pub same_length : length ids ≡ length m.rows
  pub ids_fit : All IsU64 ids
  pub shaped : IsShaped m
  pub floats_fit : All IsF32 m.rows
  pub numbers : All (All IsNumber) m.rows
  pub dim_fits : IsU32 m.cols

pub slice-IsChunk :
    (start stop : ℕ) (ids : List ℕ) (m : Matrix)
    → IsLoad ids m
    → stop - start ≤ insert_batch
    → IsChunk (slice start stop ids) (slice_rows start stop m)
slice-IsChunk start stop ids m h small = record {
  same_length = simp (length-take, length-drop, h.same_length);
  ids_fit = All-take IsU64 (stop - start) (drop start ids) (All-drop IsU64 start ids h.ids_fit);
  shaped =
      All-take (λ r. length r ≡ m.cols) (stop - start) (drop start m.rows)
        (All-drop (λ r. length r ≡ m.cols) start m.rows h.shaped);
  floats_fit =
      All-take IsF32 (stop - start) (drop start m.rows) (All-drop IsF32 start m.rows h.floats_fit);
  count_fits = rw length-take (omega arith);
  dim_fits = h.dim_fits;
}

pub slice-numbers :
    (start stop : ℕ) (ids : List ℕ) (m : Matrix)
    → IsLoad ids m
    → All (All IsNumber) (slice start stop m.rows)
slice-numbers start stop ids m h =
    All-take (All IsNumber) (stop - start) (drop start m.rows)
      (All-drop (All IsNumber) start m.rows h.numbers)
