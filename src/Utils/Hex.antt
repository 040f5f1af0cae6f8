-- ===== src/Utils/Hex.antt =====
-- utils.cc: hexdigits, hexdigit, hexencode, hexdecode, hashdecode, hashpath.
pub mod Laws
pub mod Path
use hbackup.Prelude.{
  ℕ, ◌+◌, ◌-◌, ◌*◌, ◌/◌, ◌%◌, [], ◌∷◌, ◌++◌, Bool, ◌&&◌, get_or, length, take, Bytes, codes, leb,
  ◌==◌, if◌then◌else◌,
}
use hbackup.Outcome.{
  Result, ok, err, fatal, bad_hex, bad_hex_digit, Log, reporting, and_then, ◌>>=◌,
}

-- HASH_SIZE and DEPTH of nhbackup.h.
abbrev pub hash_size : ℕ
hash_size = 20

abbrev pub depth : ℕ
depth = 2

abbrev pub slash : ℕ
slash = b'/'

-- `hexdigits[d]`
unfoldable pub hex_char : ℕ → ℕ
hex_char d = get_or (codes "0123456789abcdef") d 0

-- The table of hexdigit() has a digit's value at its code, in both cases, and -1 elsewhere.
unfoldable pub hexdigit : ℕ → Result ℕ
hexdigit c =
    if leb b'0' c && leb c b'9'
    then ok (c - b'0')
    else if leb b'A' c && leb c b'F'
    then ok (c - b'A' + 10)
    else if leb b'a' c && leb c b'f'
    then ok (c - b'a' + 10)
    else err bad_hex_digit

-- The loop of hexencode(); `s` is what it has appended.
unfoldable pub hexencode_loop : Bytes → Bytes → Bytes
hexencode_loop [] s = s
hexencode_loop (b ∷ h) s = hexencode_loop h (s ++ hex_char (b / 16) ∷ hex_char (b % 16) ∷ [])

unfoldable pub hexencode : Bytes → Bytes
unfolding hexencode_loop hex_char
hexencode h = hexencode_loop h []

-- The loop of hexdecode(): two digits a round. The caller has seen that the length is even.
unfoldable pub hexdecode_loop : Bytes → Bytes → Result Bytes
hexdecode_loop [] bytes = ok bytes
hexdecode_loop (c ∷ []) bytes = ok bytes
hexdecode_loop (c ∷ d ∷ hex) bytes = do
  a ← hexdigit c
  b ← hexdigit d
  hexdecode_loop hex (bytes ++ (a * 16 + b) ∷ [])

-- hexdecode() inside its `try`.
unfoldable pub hexdecode_body : Bytes → Result Bytes
unfolding hexdecode_loop hexdigit
hexdecode_body hex =
    let decoded = hexdecode_loop hex [] in
    if length hex % 2 == 0 then decoded else err (bad_hex hex)

-- A failure is reported by error() and thrown on.
unfoldable pub hexdecode : Bytes → Log → Result Bytes × Log
unfolding hexdecode_body reporting
hexdecode hex = reporting (hexdecode_body hex)

-- The length is tested first, and a wrong one is not reported.
unfoldable pub hashdecode : Bytes → Log → Result Bytes × Log
unfolding hexdecode
hashdecode hex l =
    if length hex == 40
    then and_then (hexdecode hex l) (λ s l'. (ok (take hash_size s), l'))
    else (err (bad_hex hex), l)

-- `snprintf(p, n, "%02x", b)` for an unsigned char.
unfoldable pub hex_byte : ℕ → Bytes
unfolding hex_char
hex_byte b = hex_char (b / 16) ∷ hex_char (b % 16) ∷ []

-- The first loop of hashpath(): DEPTH directories.
unfoldable pub hashpath_dirs : Bytes → Bytes
unfolding hex_byte
hashpath_dirs [] = []
hashpath_dirs (b ∷ h) = hex_byte b ++ (slash ∷ hashpath_dirs h)

-- The second: the name.
unfoldable pub hashpath_name : Bytes → Bytes
unfolding hex_byte
hashpath_name [] = []
hashpath_name (b ∷ h) = hex_byte b ++ hashpath_name h

unfoldable pub hashpath : Bytes → Bytes
unfolding hashpath_dirs hashpath_name
hashpath h = hashpath_dirs (take depth h) ++ hashpath_name (take hash_size h)
