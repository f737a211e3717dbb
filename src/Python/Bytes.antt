-- ===== src/Python/Bytes.antt =====
-- `struct.pack` in big-endian order: `B`, `H`, `I` and `Q`, with the range check of each, and the
-- numbers that such bytes stand for.
use rostam_bench.Base.{
  ℕ, ◌+◌, ◌*◌, ◌/◌, ◌%◌, ◌^◌, ◌<◌, ◌≡◌, refl, Option, none, some, [], ◌∷◌, ◌++◌, arith,
  if◌then◌else◌, length,
}
use rostam_bench.Base.Int.{ℤ, pos, within, to_nat}
use rostam_bench.Python.Errors.{Bytes, Result, ok, err, struct_error}

abbrev pub IsByte : ℕ → Type 0
IsByte b = b < 256

abbrev pub IsU32 : ℕ → Type 0
IsU32 n = n < 2 ^ 32

abbrev pub IsU64 : ℕ → Type 0
IsU64 n = n < 2 ^ 64

unfoldable pub be32 : ℕ → Bytes
be32 n = (n / 2 ^ 24 % 256) ∷ (n / 2 ^ 16 % 256) ∷ (n / 2 ^ 8 % 256) ∷ (n % 256) ∷ []

unfoldable pub be64 : ℕ → Bytes
unfolding be32
be64 n = be32 (n / 2 ^ 32) ++ be32 (n % 2 ^ 32)

-- `struct.pack(">I", n)`, `struct.pack(">B", n)` and `struct.pack(">Q", n)` of a Python integer.
unfoldable pub pack_u32 : ℤ → Result Bytes
pack_u32 n = if within (2 ^ 32) n then ok (be32 (to_nat n)) else err struct_error

unfoldable pub pack_u8 : ℤ → Result Bytes
pack_u8 n = if within 256 n then ok (to_nat n ∷ []) else err struct_error

-- The number at the front, and the bytes behind it: `struct.unpack(">I", …)` on the first four.
unfoldable pub take32 : Bytes → Option (ℕ × Bytes)
take32 (a ∷ b ∷ c ∷ d ∷ rest) = some (((a * 256 + b) * 256 + c) * 256 + d, rest)
take32 _ = none

unfoldable pub take64 : Bytes → Option (ℕ × Bytes)
unfolding take32
take64 (a ∷ b ∷ c ∷ d ∷ e ∷ f ∷ g ∷ h ∷ rest) =
    some
      ((((a * 256 + b) * 256 + c) * 256 + d) * 2 ^ 32 + (((e * 256 + f) * 256 + g) * 256 + h), rest)
take64 _ = none

word32 :
    (n : ℕ)
    → IsU32 n
    → ((n / 2 ^ 24 % 256 * 256 + n / 2 ^ 16 % 256) * 256 + n / 2 ^ 8 % 256) * 256 + n % 256 ≡ n
word32 n h = omega arith

pub take32-be32 : (n : ℕ) (rest : Bytes) → IsU32 n → take32 (be32 n ++ rest) ≡ some (n, rest)
unfolding take32 be32
take32-be32 n rest h = cc (word32 n h)

word64 :
    (n : ℕ)
    → IsU64 n
    → (((n / 2 ^ 32 / 2 ^ 24 % 256 * 256 + n / 2 ^ 32 / 2 ^ 16 % 256) * 256
                + n / 2 ^ 32 / 2 ^ 8 % 256)
              * 256
            + n / 2 ^ 32 % 256)
          * 2 ^ 32
        + (((n % 2 ^ 32 / 2 ^ 24 % 256 * 256 + n % 2 ^ 32 / 2 ^ 16 % 256) * 256
                + n % 2 ^ 32 / 2 ^ 8 % 256)
              * 256
            + n % 2 ^ 32 % 256)
      ≡ n
word64 n h = rw (word32 (n / 2 ^ 32) (omega arith), word32 (n % 2 ^ 32) (omega arith)) (omega arith)

pub take64-be64 : (n : ℕ) (rest : Bytes) → IsU64 n → take64 (be64 n ++ rest) ≡ some (n, rest)
unfolding take64 be64
take64-be64 n rest h = cc (word64 n h)

pub pack_u32-ok : (n : ℕ) → IsU32 n → pack_u32 (pos n) ≡ ok (be32 n)
unfolding pack_u32
pack_u32-ok n h = ground arith

pub length-be32 : (n : ℕ) → length (be32 n) ≡ 4
unfolding be32
length-be32 n = refl

pub length-be64 : (n : ℕ) → length (be64 n) ≡ 8
unfolding be64
length-be64 n = refl
