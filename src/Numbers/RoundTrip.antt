-- ===== src/Numbers/RoundTrip.antt =====
-- A number is read back from its text.
use native.Mathlib.Nat.{mod-eq_of_lt}
use hbackup.Prelude.{
  ℕ, zero, suc, ◌+◌, ◌-◌, ◌*◌, ◌/◌, ◌%◌, ◌≤◌, ◌<◌, ◌≡◌, ◌≢◌, refl, ap, ◌∙◌, [], ◌∷◌, true, false,
  Bytes, ltb, ◌==◌, arith, All, Bool-cases, inl, inr,
}
use hbackup.Numbers.{
  digits_loop, decimal, octal, is_digit, value_loop, skip_space, parse_signed, strtoull, strtol,
}

decimal_test : decimal 1070 ≡ b'1' ∷ b'0' ∷ b'7' ∷ b'0' ∷ []
unfolding decimal
decimal_test = refl

-- A text of digits.
abbrev pub Digits : ℕ → Bytes → Type 0
Digits base = All (λ c. is_digit base c ≡ true)

value_step :
    (base c n : ℕ) (s : Bytes)
    → is_digit base c ≡ true
    → value_loop base (c ∷ s) n ≡ value_loop base s (n * base + (c - b'0'))
unfolding value_loop
value_step base c n s h = rw h refl

digit_of : (base d : ℕ) → d < base → is_digit base (b'0' + d) ≡ true
digit_of base d h = ground arith

-- What a base is to do.
record IsBase (base : ℕ) : Type 0 where
  whole : (n : ℕ) → n / base * base + n % base ≡ n
  rest : (n : ℕ) → n % base < base
  shrinks : (n : ℕ) → base ≤ n → n / base < n

ten : IsBase 10
ten = record { whole = λ n. omega arith; rest = λ n. omega arith; shrinks = λ n h. omega arith }

eight : IsBase 8
eight = record { whole = λ n. omega arith; rest = λ n. omega arith; shrinks = λ n h. omega arith }

-- Reading the digits of `n` and then `s` is reading `s` behind the value `n`.
value-digits :
    (base fuel n : ℕ) (s : Bytes)
    → IsBase base
    → n < fuel
    → value_loop base (digits_loop base fuel n s) 0 ≡ value_loop base s n
unfolding digits_loop
value-digits base zero n s b h = absurd (omega arith)
value-digits base (suc fuel) n s b h = elim (Bool-cases (ltb n base)) [
  | inl e ↦
      let small : n < base = ground arith in
      let v : 0 * base + (b'0' + n - b'0') ≡ n = omega (arith, zero_times base) in
      rw e (value_step base (b'0' + n) 0 s (digit_of base n small) ∙ ap (value_loop base s) v)
  | inr e ↦
      let large : base ≤ n = ground arith in
      let v : n / base * base + (b'0' + n % base - b'0') ≡ n = omega (arith, b.whole n) in
      rw e (
        value-digits base fuel (n / base) ((b'0' + n % base) ∷ s) b
          (omega (arith, b.shrinks n large))
        ∙ (value_step base (b'0' + n % base) (n / base) s (digit_of base (n % base) (b.rest n))
            ∙ ap (value_loop base s) v))
]
  where
    zero_times : (m : ℕ) → 0 * m ≡ 0
    zero_times m = omega arith

digits_loop-Digits :
    (base fuel n : ℕ) (s : Bytes)
    → IsBase base
    → n < fuel
    → Digits base s
    → Digits base (digits_loop base fuel n s)
unfolding digits_loop
digits_loop-Digits base zero n s b h d = absurd (omega arith)
digits_loop-Digits base (suc fuel) n s b h d = elim (Bool-cases (ltb n base)) [
  | inl e ↦ let small : n < base = ground arith in rw e (digit_of base n small, d)
  | inr e ↦
      let large : base ≤ n = ground arith in
      rw e (
        digits_loop-Digits base fuel (n / base) ((b'0' + n % base) ∷ s) b
          (omega (arith, b.shrinks n large)) (digit_of base (n % base) (b.rest n), d))
]

pub decimal-Digits : (n : ℕ) → Digits 10 (decimal n)
unfolding decimal
decimal-Digits n = digits_loop-Digits 10 (n + 1) n [] ten (omega arith) tt

digits-ne-nil : (base fuel n c : ℕ) (s : Bytes) → digits_loop base fuel n (c ∷ s) ≢ []
unfolding digits_loop
digits-ne-nil base zero n c s = cc
digits-ne-nil base (suc fuel) n c s = elim (Bool-cases (ltb n base)) [
  | inl e ↦ rw e (cc)
  | inr e ↦ rw e (digits-ne-nil base fuel (n / base) (b'0' + n % base) (c ∷ s))
]

pub decimal-ne-nil : (n : ℕ) → decimal n ≢ []
unfolding decimal
decimal-ne-nil n = let e : n + 1 ≡ suc n = omega arith in rw e (go n)
  where
    go : (n : ℕ) → digits_loop 10 (suc n) n [] ≢ []
    go n =
        unfold digits_loop in
        elim (Bool-cases (ltb n 10)) [
          | inl e ↦ rw e (cc)
          | inr e ↦ rw e (digits-ne-nil 10 n (n / 10) (b'0' + n % 10) [])
        ]

value_nil : (base n : ℕ) → value_loop base [] n ≡ n
unfolding value_loop
value_nil base n = refl

pub value-decimal : (n : ℕ) → value_loop 10 (decimal n) 0 ≡ n
unfolding decimal
value-decimal n = value-digits 10 (n + 1) n [] ten (omega arith) ∙ value_nil 10 n

value-octal : (n : ℕ) → value_loop 8 (octal n) 0 ≡ n
unfolding octal
value-octal n = elim (Bool-cases (n == 0)) [
  | inl e ↦ rw e (unfold value_loop in ground arith)
  | inr e ↦ rw e (
      value_step 8 b'0' 0 (digits_loop 8 (n + 1) n []) refl
      ∙ (value-digits 8 (n + 1) n [] eight (omega arith) ∙ value_nil 8 n))
]

pub octal-Digits : (n : ℕ) → Digits 8 (octal n)
unfolding octal
octal-Digits n = elim (Bool-cases (n == 0)) [
  | inl e ↦ rw e (refl, tt)
  | inr e ↦ rw e (refl, digits_loop-Digits 8 (n + 1) n [] eight (omega arith) tt)
]

-- Digits are neither blanks nor signs.
Digits-signless :
    (base : ℕ) (s : Bytes)
    → base ≤ 10
    → Digits base s
    → parse_signed base (skip_space s) ≡ (false, value_loop base s 0)
unfolding parse_signed skip_space value_loop
Digits-signless base [] small d = refl
Digits-signless base (c ∷ s) small (d, more) = ground arith

-- strtoull() reads back what `%llu` wrote.
pub strtoull-decimal : (n : ℕ) → n < 18446744073709551616 → strtoull (decimal n) ≡ n
unfolding strtoull
strtoull-decimal n small =
    rw (Digits-signless 10 (decimal n) (omega arith) (decimal-Digits n), value-decimal n)
      (ground arith)

-- strtol() in base 8 reads back what `%0#o` wrote.
pub strtol-octal : (n end : ℕ) → n < end → n < 9223372036854775808 → strtol 8 end (octal n) ≡ n
unfolding strtol
strtol-octal n end small bound =
    rw (Digits-signless 8 (octal n) (omega arith) (octal-Digits n), value-octal n)
      (ground (arith, mod-eq_of_lt small))

-- strtol() in base 10 reads back what `%lu` wrote.
pub strtol-decimal : (n end : ℕ) → n < end → n < 9223372036854775808 → strtol 10 end (decimal n) ≡ n
unfolding strtol
strtol-decimal n end small bound =
    rw (Digits-signless 10 (decimal n) (omega arith) (decimal-Digits n), value-decimal n)
      (ground (arith, mod-eq_of_lt small))
