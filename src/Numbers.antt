-- ===== src/Numbers.antt =====
-- Numbers as text: what printf() writes for %llu, %lu and %o, and what strtoull(), strtol(), atol()
-- and isdigit() of the C library make of it.
pub mod RoundTrip
use hbackup.Prelude.{
  ℕ, zero, suc, ◌+◌, ◌-◌, ◌*◌, ◌/◌, ◌%◌, [], ◌∷◌, Bool, true, false, ◌&&◌, ◌||◌, Bytes, ltb, leb,
  ◌==◌, if◌then◌else◌,
}

-- The digits of `n` in front of `s`. A round divides by the base, so fuel beyond `n` is not used up.
unfoldable pub digits_loop : ℕ → ℕ → ℕ → Bytes → Bytes
digits_loop base zero n s = s
digits_loop base (suc fuel) n s =
    let more = digits_loop base fuel (n / base) ((b'0' + n % base) ∷ s) in
    if ltb n base then (b'0' + n) ∷ s else more

-- `%llu` and `%lu`.
unfoldable pub decimal : ℕ → Bytes
unfolding digits_loop
decimal n = digits_loop 10 (n + 1) n []

-- `%0#o`: zero is one digit, and any other number has a zero in front.
unfoldable pub octal : ℕ → Bytes
unfolding digits_loop
octal n = if n == 0 then b'0' ∷ [] else b'0' ∷ digits_loop 8 (n + 1) n []

abbrev pub is_digit : ℕ → ℕ → Bool
is_digit base c = leb b'0' c && ltb c (b'0' + base)

-- The value of the digits at the front of a text, behind the value `n`.
unfoldable pub value_loop : ℕ → Bytes → ℕ → ℕ
value_loop base [] n = n
value_loop base (c ∷ s) n =
    let more = value_loop base s (n * base + (c - b'0')) in if is_digit base c then more else n

-- isspace() in the C locale.
abbrev pub is_space : ℕ → Bool
is_space c = (leb 9 c && leb c 13) || c == b' '

unfoldable pub skip_space : Bytes → Bytes
skip_space [] = []
skip_space (c ∷ s) = if is_space c then skip_space s else c ∷ s

-- Whether there is a minus sign, and the size of the number.
unfoldable pub parse_signed : ℕ → Bytes → Bool × ℕ
unfolding value_loop
parse_signed base [] = (false, 0)
parse_signed base (c ∷ s) =
    if c == b'-'
    then (true, value_loop base s 0)
    else if c == b'+'
    then (false, value_loop base s 0)
    else (false, value_loop base (c ∷ s) 0)

-- strtoull(s, 0, 10)
unfoldable pub strtoull : Bytes → ℕ
unfolding parse_signed skip_space
strtoull s =
    let (minus, n) = parse_signed 10 (skip_space s) in
    if ltb 18446744073709551615 n
    then 18446744073709551615
    else if minus
    then (18446744073709551616 - n) % 18446744073709551616
    else n

-- strtol(s, 0, base) as it is assigned to an unsigned type of less than `end`, which divides 2^64.
unfoldable pub strtol : ℕ → ℕ → Bytes → ℕ
unfolding parse_signed skip_space
strtol base end s =
    let (minus, n) = parse_signed base (skip_space s) in
    if minus
    then (18446744073709551616 - (if ltb 9223372036854775808 n then 9223372036854775808 else n))
      % end
    else (if ltb 9223372036854775807 n then 9223372036854775807 else n) % end
