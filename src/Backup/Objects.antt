-- ===== src/Backup/Objects.antt =====
-- backup.cc: backup_dir(), the loop over the files of a directory, which writes their lines.
use hbackup.Prelude.{
  ℕ, zero, suc, ◌+◌, ◌-◌, [], ◌∷◌, ◌++◌, List, false, ◌&&◌, Option, none, some, Bytes, codes,
  bytes_eq, if◌then◌else◌, ◌==◌, ltb, leb, length, take,
}
use hbackup.Prelude.Dict
use hbackup.Prelude.Dict.{Dict}
use hbackup.Outcome.{Result, ok, fatal, and_then}
use hbackup.Utils.Hex.{hexencode}
use hbackup.Utils.Url.{urlencode}
use hbackup.Numbers.{decimal}
use hbackup.Users.{Database, uid2string, gid2string}
use hbackup.File.{Device, File, new_file, getbytes, put_all}
use hbackup.HashSet
use hbackup.Clean.Command.{hash_name}
use hbackup.Names.{local_name, rel_name}
use hbackup.Host.{Host}
use hbackup.Verify.{stored_at}
use hbackup.Backup.Listing.{Kept, stat_of}
use hbackup.Restore.{Kind, regular, link, dir, socket, unknown}
use hbackup.Backup.{
  Stat, kind_of_mode, Hint, Tree, reader_of, World, Options, head_text, tail_text, data_text,
  hash_text, end_text, on_tree,
}

-- STORE_LIMIT and MINMAP
abbrev pub store_limit : ℕ
store_limit = 256

abbrev pub minmap : ℕ
minmap = 262144

-- `hints->find(fullname)`, if the file has not changed since.
unfoldable pub hint_for : Option (Dict Bytes Hint) → Bytes → Stat → Option Bytes
unfolding bytes_eq Dict.lookup
hint_for none fullname sb = none
hint_for (some hints) fullname sb = elim (Dict.lookup fullname hints) [
  | none ↦ none
  | some h ↦
      if h.size == sb.size && h.mtime == sb.mtime && h.ctime == sb.ctime then some h.hash else none
]

-- The line of a hint.
unfoldable pub hint_text : Bytes → Bytes → Stat → Bytes
unfolding urlencode hexencode decimal
hint_text fullname h sb =
    codes "name="
    ++ urlencode fullname
    ++ codes "&"
    ++ hash_name
    ++ codes "="
    ++ hexencode h
    ++ codes "&ctime="
    ++ decimal sb.ctime
    ++ codes "&mtime="
    ++ decimal sb.mtime
    ++ codes "&size="
    ++ decimal sb.size
    ++ codes "\n"

module _ (T : Tree) (R : Host) (V N : Device) (opts : Options) (passwd group : Database)
    (word : Bytes → ℕ) where
  abbrev pub Now : Type 0
  Now = World T.State R.State V.State N.State

  -- `index->putf()` and `newhints->putf()`
  unfoldable pub put_index : Bytes → Now → Result (Unit {0}) × Now
  unfolding put_all
  put_index s w = let (r, f) = put_all V s w.index in (r, record w { index = f })

  unfoldable pub put_hint : Bytes → Now → Result (Unit {0}) × Now
  unfolding put_all
  put_hint s w = let (r, f) = put_all N s w.newhints in (r, record w { newhints = f })

  -- `while(n < sb.st_size)`; `buffer` is what has been read. A round reads a byte or is the last.
  unfoldable pub read_small : ℕ → ℕ → Bytes → File (reader_of T) → Result Bytes × File (reader_of T)
  unfolding getbytes
  read_small zero size buffer f = (fatal, f)
  read_small (suc fuel) size buffer f =
      let more = and_then (getbytes (reader_of T) (size - length buffer) false f) λ bytes g.
        elim bytes [ [] ↦ (fatal, g) | c ∷ s ↦ read_small fuel size (buffer ++ c ∷ s) g ] in
      if ltb (length buffer) size then more else (ok buffer, f)

  -- A file that is stored by content.
  unfoldable pub put_small : Bytes → Stat → Now → Result (Unit {0}) × Now
  unfolding on_tree read_small put_index data_text
  put_small fullname sb w = and_then (on_tree (T.open_read fullname) w) λ h w1.
      let (r, f) = read_small (sb.size + 1) sb.size [] (new_file (h, w1.tree)) in
      and_then (r, record w1 { tree = f.device.1 })
        λ buffer w2. and_then (put_index (data_text (take sb.size buffer)) w2) λ _ w3. (
          ok tt,
          record w3 { counts = record w3.counts { small_files = w3.counts.small_files + 1 } },
        )

  -- The hash of a file, from its hint if there is one.
  unfoldable pub hash_of : Bytes → Stat → Now → Result Bytes × Now
  unfolding hint_for on_tree
  hash_of fullname sb w = elim (hint_for w.hints fullname sb) [
    | some h ↦
        (ok h, record w { counts = record w.counts { hints_used = w.counts.hints_used + 1 } })
    | none ↦ on_tree (T.hashfile fullname (leb minmap sb.size)) w
  ]

  unfoldable pub save_hint : Bytes → Bytes → Stat → Now → Result (Unit {0}) × Now
  unfolding put_hint hint_text
  save_hint fullname h sb w = elim w.hints [
    | none ↦ (ok tt, w)
    | some hints ↦ put_hint (hint_text fullname h sb) w
  ]

  -- A hash that is not known to be in the repository is noted for the end of the directory.
  unfoldable pub note_hash : Bytes → Bytes → Now → Now
  unfolding HashSet.has HashSet.insert stored_at
  note_hash fullname h w = if HashSet.has word h w.inrepo then w else record w {
    hashables =
        w.hashables ++ record { path = fullname; hp = stored_at opts.repo h; hash = h } ∷ [];
    inrepo = HashSet.insert word h w.inrepo;
  }

  -- A file that is stored by hash.
  unfoldable pub put_large : Bytes → Stat → Now → Result (Unit {0}) × Now
  unfolding hash_of save_hint note_hash put_index hash_text
  put_large fullname sb w = and_then (hash_of fullname sb w) λ h w1.
      and_then (save_hint fullname h sb w1)
        λ _ w2. put_index (hash_text h) (note_hash fullname h w2)

  -- The end of a regular file's line, and its access time.
  unfoldable pub end_regular : Bytes → Stat → Now → Result (Unit {0}) × Now
  unfolding put_index end_text on_tree
  end_regular fullname sb w = and_then (put_index (end_text sb) w) λ _ w1.
      and_then
        (if opts.preserve_atime
          then on_tree (T.utimes fullname sb.atime sb.mtime) w1
          else (ok tt, w1))
        λ _ w2. (
          ok tt,
          record w2 { counts = record w2.counts { regular_files = w2.counts.regular_files + 1 } },
        )

  unfoldable pub put_regular : Bytes → Stat → Now → Result (Unit {0}) × Now
  unfolding put_small put_large end_regular
  put_regular fullname sb w =
      and_then
        (if leb sb.size store_limit then put_small fullname sb w else put_large fullname sb w)
        (λ _ w1. end_regular fullname sb w1)

  -- A directory is visited later, if it is not a mount point or file systems are crossed.
  unfoldable pub put_dir : Bytes → Bytes → Stat → Now → Result (Unit {0}) × Now
  unfolding put_index tail_text on_tree
  put_dir localname fullname sb w = and_then (put_index (tail_text dir sb []) w) λ _ w1.
      and_then (if opts.crossfs then (ok false, w1) else on_tree (T.ismount fullname) w1)
        λ mounted w2.
          (ok tt, if mounted then w2 else record w2 { dirs = w2.dirs ++ localname ∷ [] })

  -- The type-specific details.
  unfoldable pub put_details : Kind → Bytes → Bytes → Stat → Now → Result (Unit {0}) × Now
  unfolding put_regular put_dir put_index tail_text on_tree
  put_details regular localname fullname sb w = put_regular fullname sb w
  put_details dir localname fullname sb w = put_dir localname fullname sb w
  put_details link localname fullname sb w = and_then (on_tree (T.readlink fullname) w) λ target w1.
      and_then (put_index (tail_text link sb target) w1)
        λ _ w2. (ok tt, record w2 { counts = record w2.counts { links = w2.counts.links + 1 } })
  put_details socket localname fullname sb w =
      and_then (put_index (tail_text socket sb []) w)
        λ _ w1. (ok tt, record w1 { counts = record w1.counts { socks = w1.counts.socks + 1 } })
  put_details unknown localname fullname sb w = (ok tt, w)
  put_details device localname fullname sb w =
      and_then (put_index (tail_text device sb []) w)
        λ _ w1. (ok tt, record w1 { counts = record w1.counts { devs = w1.counts.devs + 1 } })

  -- The body of the second loop.
  unfoldable pub put_file : Bytes → Bytes → Stat → Now → Result (Unit {0}) × Now
  unfolding local_name rel_name uid2string gid2string head_text put_index put_details
  put_file folder name sb w =
      let localname = local_name folder name in
      let (user, m) = uid2string passwd sb.uid w.users in
      let (grp, k) = gid2string group sb.gid m in
      and_then
        (put_index (head_text (rel_name w.first localname) sb user grp) (record w { users = k }))
        λ _ w1.
          put_details (kind_of_mode sb.mode) localname (opts.root ++ b'/' ∷ localname) sb
            (record w1 { first = false })

  -- The second loop.
  unfoldable pub put_files : Bytes → Kept → List Bytes → Now → Result (Unit {0}) × Now
  unfolding put_file stat_of
  put_files folder kept [] w = (ok tt, w)
  put_files folder kept (name ∷ ci) w =
      and_then (put_file folder name (stat_of kept name) w) (λ _ w1. put_files folder kept ci w1)
