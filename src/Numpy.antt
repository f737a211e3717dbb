-- ===== src/Numpy.antt =====
-- What the clients take from numpy, which is not part of the repository: the conversion of floats
-- to float32 and back, and the bytes of an array. Floats are their IEEE 754 bit patterns, so the
-- values of a float32 array are numbers below 2 ^ 32.
use rostam_bench.Base.{
  ℕ, ◌%◌, ◌^◌, ◌≤◌, ◌<◌, ◌≡◌, List, ◌∷◌, ◌++◌, map, length, All, zip, concat_map,
}
use rostam_bench.Base.Int.{ℤ, pos}
use rostam_bench.Python.Errors.{Bytes, Result, ok}
use rostam_bench.Python.Bytes.{IsU32, IsU64, be32, be64}

-- A contiguous two-dimensional float32 array; `.shape` is the number of rows and `cols`.
pub record Matrix : Type 0 where
  pub cols : ℕ
  pub rows : List (List ℕ)

pub record Numpy : Type 0 where
  -- float64 to float32, and `tolist` on a float32 value
  pub narrow : ℕ → ℕ
  pub widen : ℕ → ℕ
  -- `np.ascontiguousarray(x, dtype=np.float32)`
  pub matrix : List (List ℕ) → Result Matrix
  -- `tobytes` of a one-dimensional `>f4` array
  pub f4_bytes : List ℕ → Bytes
  -- `tobytes` of the records `[("id", ">u8"), ("vec", ">f4", (dim,))]`, filled column by column
  pub records : List ℤ → Matrix → Result Bytes

-- One row as the structured dtype lays it out.
abbrev pub record_bytes : ℕ × List ℕ → Bytes
record_bytes (i, v) = be64 i ++ concat_map be32 v

abbrev pub IsShaped : Matrix → Type 0
IsShaped m = All (λ r. length r ≡ m.cols) m.rows

abbrev pub IsF32 : List ℕ → Type 0
IsF32 = All IsU32

-- The pattern is not a NaN.
abbrev pub IsNumber : ℕ → Type 0
IsNumber b = b % 2 ^ 31 ≤ 0x7f80_0000

-- The documented behaviour that the clients rely on.
pub record IsLawful (np : Numpy) : Type 0 where
  pub narrow_lt : (x : ℕ) → np.narrow x < 2 ^ 32
  pub narrow-widen : (b : ℕ) → IsU32 b → IsNumber b → np.narrow (np.widen b) ≡ b
  pub matrix_rows :
      (d : ℕ) (x : List ℕ) (xs : List (List ℕ))
      → All (λ r. length r ≡ d) (x ∷ xs)
      → np.matrix (x ∷ xs) ≡ ok (record { cols = d; rows = map (map np.narrow) (x ∷ xs) })
  pub f4_bytes_be : (v : List ℕ) → IsF32 v → np.f4_bytes v ≡ concat_map be32 v
  pub records_layout :
      (ids : List ℕ) (m : Matrix)
      → length ids ≡ length m.rows
      → All IsU64 ids
      → IsShaped m
      → All IsF32 m.rows
      → np.records (map pos ids) m ≡ ok (concat_map record_bytes (zip ids m.rows))
