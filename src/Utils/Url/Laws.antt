-- ===== src/Utils/Url/Laws.antt =====
-- The URL codec: decoding undoes encoding, and an encoded text holds no separator of an index line.
use hbackup.Prelude.{
  ℕ, ◌+◌, ◌-◌, ◌*◌, ◌/◌, ◌%◌, ◌<◌, ◌≡◌, ◌≢◌, refl, sym, ap, ◌∙◌, [], ◌∷◌, ◌++◌, append_assoc,
  append-nil, Bool, true, false, ◌⊎◌, inl, inr, none, some, length, drop-append, take-append,
  Bool-cases, ==_iff, ◌==◌, Bytes, AreBytes, All-append, Lacks, codes, arith,
}
use hbackup.Outcome.{ok, Log, no_log}
use hbackup.Utils.Hex.{hex_char}
use hbackup.Utils.Hex.Laws.{hexdigit-hex_char}
use hbackup.Utils.Url.{
  space, url_char, must_escape, urlencode_loop, urlencode, urldecode_loop, urldecode, other,
  url_case,
}

urlencode_test : urlencode (codes "a b&c") ≡ codes "a+b%26c"
unfolding urlencode
urlencode_test = refl

urldecode_test : urldecode (codes "a+b%26c") 0 none no_log ≡ (ok (codes "a b&c"), no_log)
unfolding urldecode
urldecode_test = refl

pub urlencode_loop-eq : (s r : Bytes) → urlencode_loop s r ≡ r ++ urlencode_loop s []
unfolding urlencode_loop
urlencode_loop-eq [] r = sym (append-nil r)
urlencode_loop-eq (c ∷ s) r =
    urlencode_loop-eq s (r ++ url_char c)
    ∙ append_assoc r _ _
    ∙ ap (λ t. r ++ t) (sym (urlencode_loop-eq s (url_char c)))

pub urlencode-nil : urlencode [] ≡ []
unfolding urlencode
urlencode-nil = refl

pub urlencode-cons : (c : ℕ) (s : Bytes) → urlencode (c ∷ s) ≡ url_char c ++ urlencode s
unfolding urlencode
urlencode-cons c s = urlencode_loop-eq s (url_char c)

urldecode_loop_other :
    (given : Bool) (c : ℕ) (s r : Bytes)
    → url_case c ≡ other
    → urldecode_loop given (c ∷ s) r ≡ urldecode_loop given s (r ++ c ∷ [])
unfolding urldecode_loop
urldecode_loop_other given c [] r h = rw (h, urldecode_loop)
urldecode_loop_other given c (d ∷ []) r h = rw (h, urldecode_loop)
urldecode_loop_other given c (d ∷ e ∷ s) r h = rw (h, urldecode_loop)

urldecode_loop_plus :
    (given : Bool) (s r : Bytes)
    → urldecode_loop given (b'+' ∷ s) r ≡ urldecode_loop given s (r ++ space ∷ [])
unfolding urldecode_loop url_case
urldecode_loop_plus given [] r = refl
urldecode_loop_plus given (d ∷ []) r = refl
urldecode_loop_plus given (d ∷ e ∷ s) r = refl

urldecode_loop_escape :
    (given : Bool) (x y : ℕ) (s r : Bytes)
    → x < 16
    → y < 16
    → urldecode_loop given (b'%' ∷ hex_char x ∷ hex_char y ∷ s) r
      ≡ urldecode_loop given s (r ++ (16 * x + y) ∷ [])
unfolding urldecode_loop url_case
urldecode_loop_escape given x y s r hx hy = rw (hexdigit-hex_char x hx, hexdigit-hex_char y hy)

-- The three shapes of an encoded character.
url_char-cases :
    (c : ℕ)
    → ((c ≡ space) × (url_char c ≡ b'+' ∷ []))
      ⊎ ((url_char c ≡ b'%' ∷ hex_char (c / 16) ∷ hex_char (c % 16) ∷ [])
          ⊎ ((url_case c ≡ other) × (must_escape c ≡ false) × (url_char c ≡ c ∷ [])))
unfolding url_char url_case must_escape
url_char-cases c = elim (Bool-cases (c == space)) [
  | inl e ↦ inl ((==_iff c space).0 e, rw e)
  | inr n ↦ elim (Bool-cases (must_escape c)) [
    | inl e ↦ inr (inl (rw (n, e)))
    | inr m ↦ inr (inr (ground arith, m, rw (n, m)))
  ]
]

-- One encoded character is decoded, whatever follows it.
urldecode_loop-url_char :
    (given : Bool) (c : ℕ) (s r : Bytes)
    → c < 256
    → urldecode_loop given (url_char c ++ s) r ≡ urldecode_loop given s (r ++ c ∷ [])
urldecode_loop-url_char given c s r h = elim (url_char-cases c) [
  | inl (e, q) ↦ rw (q, e) (urldecode_loop_plus given s r)
  | inr (inl q) ↦
      let whole : 16 * (c / 16) + c % 16 ≡ c = omega arith in
      rw q
        (urldecode_loop_escape given (c / 16) (c % 16) s r (omega arith) (omega arith) ∙ rw whole)
  | inr (inr (e, m, q)) ↦ rw q (urldecode_loop_other given c s r e)
]

urldecode_loop-urlencode :
    (given : Bool) (s r : Bytes) → AreBytes s → urldecode_loop given (urlencode s) r ≡ ok (r ++ s)
urldecode_loop-urlencode given [] r _ =
    rw (urlencode-nil, append-nil) (unfold urldecode_loop in refl)
urldecode_loop-urlencode given (c ∷ s) r (hc, hs) = rw urlencode-cons (
    urldecode_loop-url_char given c (urlencode s) r hc
    ∙ urldecode_loop-urlencode given s (r ++ c ∷ []) hs
    ∙ rw append_assoc)

-- urldecode() of a whole string undoes urlencode() for every byte string, and reports nothing.
pub urldecode-urlencode :
    (s : Bytes) (l : Log) → AreBytes s → urldecode (urlencode s) 0 none l ≡ (ok s, l)
unfolding urldecode
urldecode-urlencode s l h = rw (urldecode_loop-urlencode false s [] h)

-- The same for an encoded text inside a line, between `start` and `end`.
pub urldecode-urlencode_between :
    (before s after : Bytes) (l : Log)
    → AreBytes s
    → urldecode
        (before ++ (urlencode s ++ after))
        (length before)
        (some (length before + length (urlencode s)))
        l
      ≡ (ok s, l)
unfolding urldecode
urldecode-urlencode_between before s after l h =
    let n : length before + length (urlencode s) - length before ≡ length (urlencode s) =
      omega arith in
    rw (
      drop-append before (urlencode s ++ after),
      n,
      take-append (urlencode s) after,
      urldecode_loop-urlencode true s [] h,
    )

-- The same for the end of a line.
pub urldecode-urlencode_after :
    (before s : Bytes) (l : Log)
    → AreBytes s
    → urldecode (before ++ urlencode s) (length before) none l ≡ (ok s, l)
unfolding urldecode
urldecode-urlencode_after before s l h =
    rw (drop-append before (urlencode s), urldecode_loop-urlencode false s [] h)

-- Both with the positions given by equations.
pub urldecode_at :
    (line before s after : Bytes) (start end : ℕ) (l : Log)
    → line ≡ before ++ (urlencode s ++ after)
    → start ≡ length before
    → end ≡ length before + length (urlencode s)
    → AreBytes s
    → urldecode line start (some end) l ≡ (ok s, l)
urldecode_at line before s after start end l el es ee h =
    rw (el, es, ee) (urldecode-urlencode_between before s after l h)

pub urldecode_from :
    (line before s : Bytes) (start : ℕ) (l : Log)
    → line ≡ before ++ urlencode s
    → start ≡ length before
    → AreBytes s
    → urldecode line start none l ≡ (ok s, l)
urldecode_from line before s start l el es h = rw (el, es) (urldecode-urlencode_after before s l h)

-- The characters that separate the parts of an index line, and the end of the line.
abbrev pub IsSeparator : ℕ → Type 0
IsSeparator c = (c ≡ b'=') ⊎ ((c ≡ b'&') ⊎ (c ≡ b'\n'))

hex_char-lacks : (b d : ℕ) → IsSeparator b → d < 16 → hex_char d ≢ b
unfolding hex_char
hex_char-lacks b d sep h = ground arith

url_char-Lacks : (b c : ℕ) → IsSeparator b → c < 256 → Lacks b (url_char c)
unfolding must_escape
url_char-Lacks b c sep h = elim (url_char-cases c) [
  | inl (e, q) ↦ rw q (ground arith, tt)
  | inr (inl q) ↦ rw q (
    ground arith,
    (
      hex_char-lacks b (c / 16) sep (omega arith),
      (hex_char-lacks b (c % 16) sep (omega arith), tt),
    ),
  )
  | inr (inr (e, m, q)) ↦ rw q (ground arith, tt)
]

-- Encoded text holds no `=`, no `&` and no newline.
pub urlencode-Lacks : (b : ℕ) (s : Bytes) → IsSeparator b → AreBytes s → Lacks b (urlencode s)
urlencode-Lacks b [] sep _ = rw urlencode-nil tt
urlencode-Lacks b (c ∷ s) sep (hc, hs) = rw urlencode-cons (
    All-append _ (url_char c) (urlencode s) (url_char-Lacks b c sep hc)
      (urlencode-Lacks b s sep hs))
