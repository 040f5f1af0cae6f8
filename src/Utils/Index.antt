-- ===== src/Utils/Index.antt =====
-- utils.cc: parseIndexLine, readIndexLine, getdetail.
pub mod Laws
pub mod Stream
use hbackup.Prelude.{
  ℕ, zero, suc, ◌+◌, [], ◌∷◌, List, Bool, true, false, Option, none, some, length, drop, Bytes,
  bytes_eq, same, codes, ltb, find, if◌then◌else◌,
}
use hbackup.Prelude.Dict
use hbackup.Prelude.Dict.{Dict}
use hbackup.Outcome.{Result, ok, err, fatal, bad_index_file, Log, and_then}
use hbackup.Utils.Url.{urldecode}
use hbackup.File.{Device, File, getline}

-- The fields of one line, `map<string,string>`.
abbrev pub Details : Type 0
Details = Dict Bytes Bytes

-- The positions of the next `=` and the next `&`, and whether they are those of a field. An `&`
-- before the `=`, or no `=`, is not.
pub data Cut : Type 0 where
  malformed : Cut
  last_field : ℕ → Cut
  field : ℕ → ℕ → Cut

unfoldable pub cut_of : Option ℕ → Option ℕ → Cut
cut_of none n = malformed
cut_of (some sep) none = last_field sep
cut_of (some sep) (some n) = if ltb n sep then malformed else field sep n

unfoldable pub cut : Bytes → Cut
unfolding cut_of
cut rest = cut_of (find b'=' rest) (find b'&' rest)

-- `l[urldecode(line, pos, sep)] = urldecode(line, sep + 1, n)`, with the positions counted from
-- `pos`, where `rest` begins.
unfoldable pub assign : Bytes → ℕ → Option ℕ → Details → Log → Result Details × Log
assign rest sep n l g = and_then (urldecode rest 0 (some sep) g) λ key g1.
    and_then (urldecode rest (sep + 1) n g1) λ value g2. (ok (Dict.insert key value l), g2)

-- The `do` loop of parseIndexLine(), a round for each field; `rest` is the line from `pos` on. Each
-- round drops a character at least, so fuel beyond the length of `rest` is never used up.
unfoldable pub parse_loop : ℕ → Bytes → Bytes → Details → Log → Result Details × Log
parse_loop zero line rest l g = (fatal, g)
parse_loop (suc fuel) line rest l g = elim (cut rest) [
  | malformed ↦ (err (bad_index_file line), g)
  | last_field sep ↦ assign rest sep none l g
  | field sep n ↦
      and_then (assign rest sep (some n) l g)
        (λ l1 g1. parse_loop fuel line (drop (n + 1) rest) l1 g1)
]

unfoldable pub parse_index_line : Bytes → Log → Result Details × Log
unfolding parse_loop assign cut urldecode bytes_eq Dict.insert find
parse_index_line line = parse_loop (length line + 1) line line []

-- What getline() gives to readIndexLine(): a line, or `none` at the end of the file. The result is
-- `none` at the end mark.
unfoldable pub read_index_line : Option Bytes → Log → Result (Option Details) × Log
unfolding parse_index_line
read_index_line none g = (err (bad_index_file (codes "unexpected end of file")), g)
read_index_line (some line) g =
    let parsed = parse_index_line line g in
    if same line (codes "[end]") then (ok none, g) else and_then parsed (λ l g1. (ok (some l), g1))

-- readIndexLine() on a file. The fuel is that of getline().
module _ (V : Device) where
  pub record Reader : Type 0 where
    pub file : File V
    pub log : Log

  unfoldable pub read_details : ℕ → Reader → Result (Option Details) × Reader
  read_details fuel r =
      let (line, f) = getline V fuel r.file in
      and_then (line, record r { file = f })
        λ o r1. let (details, g) = read_index_line o r1.log in (details, record r1 { log = g })

-- `none` is the null pointer.
unfoldable pub getdetail : Details → Bytes → Option Bytes
unfolding Dict.lookup
getdetail details key = Dict.lookup key details
