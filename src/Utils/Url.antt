-- ===== src/Utils/Url.antt =====
-- utils.cc: urlencode and urldecode.
pub mod Laws
use hbackup.Prelude.{
  ℕ, ◌+◌, ◌-◌, ◌*◌, ◌/◌, ◌%◌, [], ◌∷◌, ◌++◌, Bool, true, false, ◌||◌, Option, none, some, length,
  take, drop, Bytes, ltb, ◌==◌, if◌then◌else◌,
}
use hbackup.Outcome.{Result, ok, err, bad_hex, bad_hex_digit, Log, reporting, ◌>>=◌}
use hbackup.Utils.Hex.{hex_char, hexdigit}

abbrev pub space : ℕ
space = b' '

-- The characters that urlencode() writes as an escape.
unfoldable pub must_escape : ℕ → Bool
must_escape c =
    ltb c 32 || ltb 126 c || c == b'+' || c == b'%' || c == b'&' || c == b'=' || c == b';'

-- What one round of urlencode() appends for the character `c`.
unfoldable pub url_char : ℕ → Bytes
url_char c =
    if c == space
    then b'+' ∷ []
    else if must_escape c
    then b'%' ∷ hex_char (c / 16) ∷ hex_char (c % 16) ∷ []
    else c ∷ []

-- The loop of urlencode(); `r` is what it has appended.
unfoldable pub urlencode_loop : Bytes → Bytes → Bytes
urlencode_loop [] r = r
urlencode_loop (c ∷ s) r = urlencode_loop s (r ++ url_char c)

unfoldable pub urlencode : Bytes → Bytes
unfolding urlencode_loop url_char must_escape hex_char
urlencode s = urlencode_loop s []

-- The three cases of the `switch` in urldecode().
pub data UrlCase : Type 0 where
  plus percent other : UrlCase

unfoldable pub url_case : ℕ → UrlCase
url_case c = if c == b'+' then plus else if c == b'%' then percent else other

-- `%` with fewer than two characters behind it. Where an `end` is given the test `n + 2 < end` sees
-- this. Where it is not, `end` is npos and the test passes: one of the digits read is the
-- terminating NUL of the string, which is no digit.
unfoldable pub short_escape : Bool → Bytes → Result Bytes
short_escape true s = err (bad_hex s)
short_escape false s = err bad_hex_digit

-- The loop of urldecode() over the characters from `n` up to `limit`; the flag says whether `end`
-- was given.
unfoldable pub urldecode_loop : Bool → Bytes → Bytes → Result Bytes
urldecode_loop given [] r = ok r
urldecode_loop given (c ∷ []) r = elim (url_case c) [
  | plus ↦ ok (r ++ space ∷ [])
  | percent ↦ short_escape given (c ∷ [])
  | other ↦ ok (r ++ c ∷ [])
]
urldecode_loop given (c ∷ d ∷ []) r = elim (url_case c) [
  | plus ↦ urldecode_loop given (d ∷ []) (r ++ space ∷ [])
  | percent ↦ short_escape given (c ∷ d ∷ [])
  | other ↦ urldecode_loop given (d ∷ []) (r ++ c ∷ [])
]
urldecode_loop given (c ∷ d ∷ e ∷ s) r = elim (url_case c) [
  | plus ↦ urldecode_loop given (d ∷ e ∷ s) (r ++ space ∷ [])
  | percent ↦ do a ← hexdigit d; b ← hexdigit e; urldecode_loop given s (r ++ (16 * a + b) ∷ [])
  | other ↦ urldecode_loop given (d ∷ e ∷ s) (r ++ c ∷ [])
]

-- urldecode(s, start, end), where `none` is npos. A failure is reported and thrown on.
unfoldable pub urldecode : Bytes → ℕ → Option ℕ → Log → Result Bytes × Log
unfolding urldecode_loop reporting short_escape url_case hexdigit
urldecode s start none l = reporting (urldecode_loop false (drop start s) []) l
urldecode s start (some end) l =
    reporting (urldecode_loop true (take (end - start) (drop start s)) []) l
