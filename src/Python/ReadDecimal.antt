-- ===== src/Python/ReadDecimal.antt =====
-- `int(text)` undoes `str` on integers that are not negative.
use rostam_bench.Base.{
  ℕ, zero, suc, ◌+◌, ◌-◌, ◌*◌, ◌/◌, ◌%◌, ◌≤◌, ◌<◌, ◌≡◌, refl, ap, sym, ◌∙◌, inl, inr, true, false,
  some, [], ◌∷◌, arith, ltb, Bool-cases, All,
}
use rostam_bench.Base.Int.{pos}
use rostam_bench.Python.Errors.{Text, ok}
use rostam_bench.Python.Decimal.{digits, decimal}
use rostam_bench.Python.Json.{str, to_int, scan_digits, scan_sign, is_digit, is_space}

digit-is_digit : (d : ℕ) → d < 10 → is_digit (b'0' + d) ≡ true
unfolding is_digit
digit-is_digit d h = ground arith

scan-digit :
    (d m : ℕ) (out : Text) (last : rostam_bench.Base.Bool)
    → d < 10
    → scan_digits ((b'0' + d) ∷ out) last m ≡ scan_digits out true (m * 10 + d)
unfolding scan_digits
scan-digit d m out last h = rw (digit-is_digit d h) (ap (scan_digits out true) (omega arith))

scan-digits :
    (f n : ℕ) (out : Text) (last : rostam_bench.Base.Bool)
    → n < f
    → scan_digits (digits f n out) last 0 ≡ scan_digits out true n
unfolding digits
scan-digits zero n out last h = absurd (omega arith)
scan-digits (suc f) n out last h = elim (Bool-cases (ltb n 10)) [
  | inl small ↦
      rw small
        (scan-digit n 0 out last (ground (arith, small)) ∙ ap (scan_digits out true) (omega arith))
  | inr big ↦ rw big (
      scan-digits f (n / 10) ((b'0' + n % 10) ∷ out) last (ground (arith, big))
      ∙ scan-digit (n % 10) (n / 10) out true (omega arith)
      ∙ ap (scan_digits out true) (omega arith))
]

-- The first character is a digit.
digits-head :
    (f n : ℕ) (out : Text)
    → n < f
    → (d : ℕ) × (rest : Text) × (d < 10) × (digits f n out ≡ (b'0' + d) ∷ rest)
unfolding digits
digits-head zero n out h = absurd (omega arith)
digits-head (suc f) n out h = elim (Bool-cases (ltb n 10)) [
  | inl small ↦ (n, out, ground (arith, small), rw small refl)
  | inr big ↦
      let (d, rest, fits, e) =
        digits-head f (n / 10) ((b'0' + n % 10) ∷ out) (ground (arith, big)) in
      (d, rest, fits, rw big e)
]

signless :
    (d n : ℕ) (rest : Text)
    → d < 10
    → scan_digits ((b'0' + d) ∷ rest) false 0 ≡ some n
    → scan_sign ((b'0' + d) ∷ rest) ≡ some (pos n)
unfolding scan_sign is_space
signless d n rest h e = ground (arith, e)

to_int-sign : (s : Text) (n : ℕ) → scan_sign s ≡ some (pos n) → to_int (str s) ≡ ok (pos n)
unfolding to_int
to_int-sign s n e = ground (arith, e)

pub to_int-decimal : (n : ℕ) → to_int (str (decimal n)) ≡ ok (pos n)
unfolding decimal scan_digits
to_int-decimal n =
    let (d, rest, fits, e) = digits-head (suc n) n [] (omega arith) in
    let read : scan_digits ((b'0' + d) ∷ rest) false 0 ≡ some n =
      ap (λ s. scan_digits s false 0) (sym e) ∙ scan-digits (suc n) n [] false (omega arith) in
    ap (λ s. to_int (str s)) e ∙ to_int-sign ((b'0' + d) ∷ rest) n (signless d n rest fits read)

digits-All :
    (P : ℕ → Type 0)
    → ((d : ℕ) → d < 10 → P (b'0' + d))
    → (f n : ℕ) (out : Text) → n < f
    → All P out
    → All P (digits f n out)
unfolding digits
digits-All P every zero n out h all = absurd (omega arith)
digits-All P every (suc f) n out h all = elim (Bool-cases (ltb n 10)) [
  | inl small ↦ rw small (every n (ground (arith, small)), all)
  | inr big ↦ rw big (
      digits-All P every f (n / 10) ((b'0' + n % 10) ∷ out) (ground (arith, big))
        (every (n % 10) (omega arith), all))
]

-- A property of the ten digits holds along every number.
pub decimal-All : (P : ℕ → Type 0) → ((d : ℕ) → d < 10 → P (b'0' + d)) → (n : ℕ) → All P (decimal n)
unfolding decimal
decimal-All P every n = digits-All P every (suc n) n [] (omega arith) tt

-- The digits are below the colon.
pub decimal-below : (n : ℕ) → All (λ c. c < b':') (decimal n)
decimal-below n = decimal-All (λ c. c < b':') (λ d h. omega (arith, h)) n
