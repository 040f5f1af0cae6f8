-- ===== src/Tests/Codecs.antt =====
-- The theorems of the codecs, the index lines and the hash table at concrete data.
use hbackup.Prelude.{
  ℕ, ◌≡◌, ◌↔◌, refl, [], ◌∷◌, List, none, true, false, Bytes, AreBytes, codes, length, arith, same,
  bytes_eq, if◌then◌else◌,
}
use hbackup.Outcome.{ok, no_log}
use hbackup.Utils.Hex.{hash_size, hexencode, hashdecode}
use hbackup.Utils.Hex.Laws.{hashdecode_sound, lower_all}
use hbackup.Utils.Url.{urlencode, urldecode}
use hbackup.Utils.Url.Laws.{urldecode-urlencode}
use hbackup.Utils.Index.{parse_index_line}
use hbackup.Utils.Index.Laws.{render, assign_all, parse_index_line-render}
use hbackup.HashSet
use hbackup.HashSet.{Table, empty_table, stats}
use hbackup.HashSet.Laws.{
  insert_all, member, has-insert_all, IsTable, insert-IsTable, empty-IsTable,
}
use hbackup.Exclude.{Pcre, match_found, no_match, excluded, Misses, FirstMatches, excluded_iff}
use hbackup.Tests.Memory.{live_name, live_hash}

decoded : hashdecode live_name no_log ≡ (ok live_hash, no_log)
unfolding hashdecode
decoded = refl

hashdecode_sound_example :
    (length live_hash ≡ hash_size)
    × AreBytes live_hash
    × (hexencode live_hash ≡ lower_all live_name)
    × (no_log ≡ no_log)
hashdecode_sound_example = hashdecode_sound live_name live_hash no_log no_log decoded

urldecode-urlencode_example :
    urldecode (urlencode (codes "a b&%")) 0 none no_log ≡ (ok (codes "a b&%"), no_log)
urldecode-urlencode_example = urldecode-urlencode (codes "a b&%") no_log (omega arith)

parse_index_line-render_example :
    parse_index_line (render (codes "name", codes "a&b") ((codes "type", codes "dir") ∷ [])) no_log
    ≡ (ok (assign_all ((codes "name", codes "a&b") ∷ (codes "type", codes "dir") ∷ []) []), no_log)
parse_index_line-render_example =
    parse_index_line-render (codes "name", codes "a&b") ((codes "type", codes "dir") ∷ []) no_log
      (omega arith)

-- The first byte stands for the word of the machine.
abbrev first_byte : Bytes → ℕ
first_byte [] = 0
first_byte (b ∷ h) = b

abbrev pair : List Bytes
pair = (1 ∷ 2 ∷ []) ∷ (1 ∷ 3 ∷ []) ∷ []

has-insert_all_example :
    HashSet.has first_byte (1 ∷ 3 ∷ []) (insert_all first_byte pair empty_table)
    ≡ member first_byte (1 ∷ 3 ∷ []) pair
has-insert_all_example = has-insert_all first_byte pair (1 ∷ 3 ∷ [])

insert-IsTable_example : IsTable first_byte (HashSet.insert first_byte (1 ∷ 2 ∷ []) empty_table)
insert-IsTable_example =
    insert-IsTable first_byte (1 ∷ 2 ∷ []) empty_table (empty-IsTable first_byte)

-- A pattern is a name, and matches that name alone.
abbrev literal_pcre : Pcre
literal_pcre = record {
  Regex = Bytes;
  compile = λ s. ok s;
  exec = λ re s. if same re s then match_found else no_match;
}

abbrev patterns : List Bytes
patterns = codes "tmp" ∷ codes "core" ∷ []

excluded_iff_example :
    ((excluded literal_pcre patterns (codes "core") ≡ ok false)
      ↔ Misses literal_pcre (codes "core") patterns)
    × ((excluded literal_pcre patterns (codes "core") ≡ ok true)
        ↔ FirstMatches literal_pcre (codes "core") patterns)
excluded_iff_example = excluded_iff literal_pcre patterns (codes "core")
