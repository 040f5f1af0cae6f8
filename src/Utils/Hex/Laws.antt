-- ===== src/Utils/Hex/Laws.antt =====
-- The hexadecimal codec: decoding undoes encoding, and encoding undoes decoding up to case.
use hbackup.Prelude.{
  ℕ, suc, ◌+◌, ◌*◌, ◌/◌, ◌%◌, ◌<◌, ◌≡◌, refl, sym, ap, ◌∙◌, ◌&&◌, [], ◌∷◌, ◌++◌, append_assoc,
  append-nil, length, take, arith, Bytes, AreBytes, codes, leb, if◌then◌else◌, take-length,
}
use hbackup.Outcome.{Result, ok, err, fatal, Log, >>=-eq-ok}
use hbackup.Utils.Hex.{
  hash_size, hex_char, hexdigit, hexencode_loop, hexencode, hexdecode_loop, hexdecode, hashdecode,
}

hexencode_test : hexencode (0x0a ∷ 0xf3 ∷ []) ≡ codes "0af3"
unfolding hexencode
hexencode_test = refl

-- Each of the sixteen digits is read back.
pub hexdigit-hex_char : (d : ℕ) → d < 16 → hexdigit (hex_char d) ≡ ok d
unfolding hexdigit hex_char
hexdigit-hex_char d h = ground arith

pub hexencode_loop-eq : (h s : Bytes) → hexencode_loop h s ≡ s ++ hexencode_loop h []
unfolding hexencode_loop
hexencode_loop-eq [] s = sym (append-nil s)
hexencode_loop-eq (b ∷ h) s =
    hexencode_loop-eq h (s ++ hex_char (b / 16) ∷ hex_char (b % 16) ∷ [])
    ∙ append_assoc s _ _
    ∙ ap (λ t. s ++ t) (sym (hexencode_loop-eq h (hex_char (b / 16) ∷ hex_char (b % 16) ∷ [])))

-- Two digits for each byte.
pub hexencode-cons :
    (b : ℕ) (h : Bytes) → hexencode (b ∷ h) ≡ hex_char (b / 16) ∷ hex_char (b % 16) ∷ hexencode h
unfolding hexencode
hexencode-cons b h = hexencode_loop-eq h (hex_char (b / 16) ∷ hex_char (b % 16) ∷ [])

pub hexencode-nil : hexencode [] ≡ []
unfolding hexencode
hexencode-nil = refl

pub length-hexencode : (h : Bytes) → length (hexencode h) ≡ 2 * length h
length-hexencode [] = rw hexencode-nil
length-hexencode (b ∷ h) = rw hexencode-cons (omega (arith, length-hexencode h))

hexdecode_loop_digits :
    (x y : ℕ) (rest bytes : Bytes)
    → x < 16
    → y < 16
    → hexdecode_loop (hex_char x ∷ hex_char y ∷ rest) bytes
      ≡ hexdecode_loop rest (bytes ++ (x * 16 + y) ∷ [])
unfolding hexdecode_loop
hexdecode_loop_digits x y rest bytes hx hy = rw (hexdigit-hex_char x hx, hexdigit-hex_char y hy)

hexdecode_loop-hexencode :
    (h bytes : Bytes) → AreBytes h → hexdecode_loop (hexencode h) bytes ≡ ok (bytes ++ h)
hexdecode_loop-hexencode [] bytes _ = rw (hexencode-nil, append-nil) (unfold hexdecode_loop in refl)
hexdecode_loop-hexencode (b ∷ h) bytes (hb, hh) =
    let whole : b / 16 * 16 + b % 16 ≡ b = omega arith in
    rw hexencode-cons (
      hexdecode_loop_digits (b / 16) (b % 16) (hexencode h) bytes (omega arith) (omega arith)
      ∙ rw whole (hexdecode_loop-hexencode h (bytes ++ b ∷ []) hh ∙ rw append_assoc))

-- hexdecode() undoes hexencode(), and reports nothing.
hexdecode-hexencode : (h : Bytes) (l : Log) → AreBytes h → hexdecode (hexencode h) l ≡ (ok h, l)
unfolding hexdecode
hexdecode-hexencode h l ok_h =
    let even : length (hexencode h) % 2 ≡ 0 = omega (arith, length-hexencode h) in
    ground (arith, hexdecode_loop-hexencode h [] ok_h)

-- A hash of HASH_SIZE bytes is read back from its name.
pub hashdecode-hexencode :
    (h : Bytes) (l : Log)
    → AreBytes h
    → length h ≡ hash_size
    → hashdecode (hexencode h) l ≡ (ok h, l)
unfolding hashdecode
hashdecode-hexencode h l ok_h size =
    let digits : length (hexencode h) ≡ 40 = omega (arith, length-hexencode h) in
    ground (arith, hexdecode_loop-hexencode h [] ok_h, take-length hash_size h size)

-- What hexdecode() makes of two digits, in either case.
pub lower : ℕ → ℕ
lower c = if leb b'A' c && leb c b'F' then c + 32 else c

pub lower_all : Bytes → Bytes
lower_all [] = []
lower_all (c ∷ s) = lower c ∷ lower_all s

hex_char-hexdigit : (c : ℕ) {d : ℕ} → hexdigit c ≡ ok d → (hex_char d ≡ lower c) × (d < 16)
unfolding hexdigit lower hex_char
hex_char-hexdigit c h = ground arith

hexdecode_loop_sound :
    (hex bytes r : Bytes)
    → length hex % 2 ≡ 0
    → hexdecode_loop hex bytes ≡ ok r
    → (t : Bytes) × (r ≡ bytes ++ t) × (hexencode t ≡ lower_all hex) × AreBytes t
unfolding hexdecode_loop lower_all
hexdecode_loop_sound [] bytes r even h = ([], rw append-nil (cc), hexencode-nil, tt)
hexdecode_loop_sound (c ∷ []) bytes r even h = absurd (omega arith)
hexdecode_loop_sound (c ∷ d ∷ hex) bytes r even h =
    let (a, ea, h1) = >>=-eq-ok (hexdigit c) _ h in
    let (b, eb, h2) = >>=-eq-ok (hexdigit d) _ h1 in
    let (t, er, et, bt) =
      hexdecode_loop_sound hex (bytes ++ (a * 16 + b) ∷ []) r (omega arith) h2 in
    let (ca, la) = hex_char-hexdigit c ea in
    let (cb, lb) = hex_char-hexdigit d eb in
    let high : (a * 16 + b) / 16 ≡ a = omega arith in
    let low : (a * 16 + b) % 16 ≡ b = omega arith in
    (
      (a * 16 + b) ∷ t,
      er ∙ rw append_assoc,
      rw (hexencode-cons, high, low, ca, cb, et),
      (omega arith, bt),
    )

length-lower_all : (s : Bytes) → length (lower_all s) ≡ length s
unfolding lower_all
length-lower_all [] = refl
length-lower_all (c ∷ s) = ap suc (length-lower_all s)

hashdecode-eq-ok :
    (hex h : Bytes) (l l' : Log)
    → hashdecode hex l ≡ (ok h, l')
    → (s : Bytes) × (length hex ≡ 40)
      × (hexdecode_loop hex [] ≡ ok s)
      × (h ≡ take hash_size s)
      × (l' ≡ l)
unfolding hashdecode
hashdecode-eq-ok hex h l l' e = go (hexdecode_loop hex []) refl
  where
    go :
        (r : Result Bytes)
        → hexdecode_loop hex [] ≡ r
        → (s : Bytes) × (length hex ≡ 40)
          × (hexdecode_loop hex [] ≡ ok s)
          × (h ≡ take hash_size s)
          × (l' ≡ l)
    go (ok s) q = (s, ground arith, q, ground arith, ground arith)
    go (err x) q = absurd (ground arith)
    go fatal q = absurd (ground arith)

-- What hashdecode() accepts is the name of the hash that it returns, in either case of the digits;
-- and an accepted name is reported by nothing.
pub hashdecode_sound :
    (hex h : Bytes) (l l' : Log)
    → hashdecode hex l ≡ (ok h, l')
    → (length h ≡ hash_size) × AreBytes h × (hexencode h ≡ lower_all hex) × (l' ≡ l)
hashdecode_sound hex h l l' e =
    let (s, n40, q, hs, el) = hashdecode-eq-ok hex h l l' e in
    let (t, est, et, bt) = hexdecode_loop_sound hex [] s (omega arith) q in
    let lens : length t ≡ hash_size =
      omega (arith, length-hexencode t, ap length et, length-lower_all hex) in
    let ht : h ≡ t = hs ∙ ap (take hash_size) est ∙ take-length hash_size t lens in
    (rw ht lens, rw ht bt, rw ht et, el)

-- Different hashes have different names.
pub hexencode_injective :
    (h k : Bytes) → AreBytes h → AreBytes k → hexencode h ≡ hexencode k → h ≡ k
hexencode_injective h k bh bk e = cc (
  hexdecode_loop-hexencode h [] bh,
  hexdecode_loop-hexencode k [] bk,
  ap (λ s. hexdecode_loop s []) e,
)
