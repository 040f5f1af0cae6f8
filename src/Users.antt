-- ===== src/Users.antt =====
-- utils.cc: uid2string(), gid2string(), string2uid() and string2gid(), and the four maps in which they
-- keep what they have looked up.
pub mod Caches
use hbackup.Prelude.{
  ℕ, ◌%◌, [], ◌∷◌, Bool, true, false, ◌&&◌, Option, none, some, Bytes, bytes_eq, nat_eq,
  if◌then◌else◌,
}
use hbackup.Prelude.Dict
use hbackup.Prelude.Dict.{Dict}
use hbackup.Outcome.{Result, ok, fatal, Log, warning}
use hbackup.Numbers.{decimal, is_digit, strtol}

-- getpwuid() and getpwnam(), or getgrgid() and getgrnam().
pub record Database : Type 0 where
  pub name_of : ℕ → Option Bytes
  pub id_of : Bytes → Option ℕ

-- The four maps, and the counters.
pub record Names : Type 0 where
  pub uid2names : Dict ℕ Bytes
  pub gid2names : Dict ℕ Bytes
  pub names2uid : Dict Bytes ℕ
  pub names2gid : Dict Bytes ℕ
  pub log : Log

-- alldigits()
unfoldable pub alldigits_loop : Bytes → Bool
alldigits_loop [] = true
alldigits_loop (c ∷ s) = is_digit 10 c && alldigits_loop s

unfoldable pub alldigits : Bytes → Bool
unfolding alldigits_loop
alldigits [] = false
alldigits (c ∷ s) = alldigits_loop (c ∷ s)

-- uid2string()
unfoldable pub uid2string : Database → ℕ → Names → Bytes × Names
unfolding decimal Dict.lookup Dict.insert
uid2string passwd uid m = elim (Dict.lookup uid m.uid2names) [
  | some name ↦ (name, m)
  | none ↦ elim (passwd.name_of uid) [
    | some name ↦ (name, record m { uid2names = Dict.insert uid name m.uid2names })
    | none ↦ (
      decimal uid,
      record m { uid2names = Dict.insert uid (decimal uid) m.uid2names; log = warning m.log },
    )
  ]
]

-- gid2string()
unfoldable pub gid2string : Database → ℕ → Names → Bytes × Names
unfolding decimal Dict.lookup Dict.insert
gid2string group gid m = elim (Dict.lookup gid m.gid2names) [
  | some name ↦ (name, m)
  | none ↦ elim (group.name_of gid) [
    | some name ↦ (name, record m { gid2names = Dict.insert gid name m.gid2names })
    | none ↦ (
      decimal gid,
      record m { gid2names = Dict.insert gid (decimal gid) m.gid2names; log = warning m.log },
    )
  ]
]

-- What string2uid() and string2gid() take for the ID before they keep it. uid_t and gid_t have 32
-- bits.
unfoldable pub look_up : Database → Bytes → Option ℕ
unfolding alldigits strtol
look_up db s = if alldigits s then some (strtol 10 4294967296 s) else db.id_of s

-- string2uid(), which ends the process if there is no such name.
unfoldable pub string2uid : Database → Bytes → Names → Result ℕ × Names
unfolding look_up Dict.lookup Dict.insert
string2uid passwd s m = elim (Dict.lookup s m.names2uid) [
  | some uid ↦ (ok uid, m)
  | none ↦ elim (look_up passwd s) [
    | some uid ↦ (ok uid, record m { names2uid = Dict.insert s uid m.names2uid })
    | none ↦ (fatal, m)
  ]
]

-- string2gid()
unfoldable pub string2gid : Database → Bytes → Names → Result ℕ × Names
unfolding look_up Dict.lookup Dict.insert
string2gid group s m = elim (Dict.lookup s m.names2gid) [
  | some gid ↦ (ok gid, m)
  | none ↦ elim (look_up group s) [
    | some gid ↦ (ok gid, record m { names2gid = Dict.insert s gid m.names2gid })
    | none ↦ (fatal, m)
  ]
]
