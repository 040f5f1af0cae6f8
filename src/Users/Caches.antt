-- ===== src/Users/Caches.antt =====
-- The maps of utils.cc never answer other than a new look-up would, and a name is read back as its ID.
use hbackup.Prelude.{
  Eq, subst, ℕ, ◌<◌, ◌≡◌, ◌≢◌, refl, sym, ap, ◌∙◌, [], ◌∷◌, true, false, Option, none, some,
  Option-cases, Bytes, bytes_eq, nat_eq, same, same→eq, arith, Bool-cases, inl, inr,
}
use hbackup.Prelude.Dict
use hbackup.Prelude.Dict.{Dict}
use hbackup.Outcome.{Result, ok, fatal}
use hbackup.Numbers.{decimal}
use hbackup.Numbers.RoundTrip.{Digits, decimal-Digits, decimal-ne-nil, strtol-decimal}
use hbackup.Users.{
  Database, Names, alldigits, alldigits_loop, uid2string, gid2string, look_up, string2uid,
  string2gid,
}

-- The name of an ID, with no map between.
unfoldable pub name : Database → ℕ → Bytes
name db id = elim (db.name_of id) [ some n ↦ n | none ↦ decimal id ]

-- What the maps hold is what the databases answer.
pub record IsCached (passwd group : Database) (m : Names) : Type 0 where
  pub uids : (k : ℕ) (n : Bytes) → Dict.lookup k m.uid2names ≡ some n → n ≡ name passwd k
  pub gids : (k : ℕ) (n : Bytes) → Dict.lookup k m.gid2names ≡ some n → n ≡ name group k
  pub uid_names :
      (s : Bytes) (k : ℕ) → Dict.lookup s m.names2uid ≡ some k → look_up passwd s ≡ some k
  pub gid_names :
      (s : Bytes) (k : ℕ) → Dict.lookup s m.names2gid ≡ some k → look_up group s ≡ some k

-- An entry of a map after an insertion is the new one or an old one.
module _ {ℓ κ} {K : Type ℓ} {V : Type κ} ⦃e : Eq K⦄ where
  insert_keeps :
      (P : K → V → Type 0) (j : K) (v : V) (d : Dict K V)
      → P j v
      → ((k : K) (w : V) → Dict.lookup k d ≡ some w → P k w)
      → (k : K) (w : V) → Dict.lookup k (Dict.insert j v d) ≡ some w
      → P k w
  insert_keeps P j v d p h k w q = elim (Bool-cases (same k j)) [
    | inl t ↦
        let found : v ≡ w = ground (arith, Dict.lookup-insert k j v d) in
        subst (P k) found (subst (λ x. P x v) (sym (same→eq k j t)) p)
    | inr t ↦ h k w (ground (arith, Dict.lookup-insert k j v d))
  ]

name_known : (db : Database) (id : ℕ) (n : Bytes) → db.name_of id ≡ some n → name db id ≡ n
unfolding name
name_known db id n q = rw (q, name) refl

name_unknown : (db : Database) (id : ℕ) → db.name_of id ≡ none → name db id ≡ decimal id
unfolding name
name_unknown db id q = rw (q, name) refl

-- The end of string2uid() and string2gid().
abbrev pub or_fatal : Option ℕ → Result ℕ
or_fatal (some k) = ok k
or_fatal none = fatal

module _ (passwd group : Database) where
  pub uid2string-IsCached :
      (id : ℕ) (m : Names)
      → IsCached passwd group m
      → ((uid2string passwd id m).0 ≡ name passwd id)
        × IsCached passwd group (uid2string passwd id m).1
  unfolding uid2string
  uid2string-IsCached id m v = elim (Option-cases (Dict.lookup id m.uid2names)) [
    | inr (n, e) ↦ rw (e, uid2string) (v.uids id n e, v)
    | inl e ↦ elim (Option-cases (passwd.name_of id)) [
      | inr (n, q) ↦
          rw (e, uid2string, q)
            (
              sym (name_known passwd id n q),
              record {
                uids =
                    insert_keeps (λ k w. w ≡ name passwd k) id n m.uid2names
                      (sym (name_known passwd id n q)) v.uids;
                gids = v.gids;
                uid_names = v.uid_names;
                gid_names = v.gid_names;
              },
            )
      | inl q ↦
          rw (e, uid2string, q)
            (
              sym (name_unknown passwd id q),
              record {
                uids =
                    insert_keeps (λ k w. w ≡ name passwd k) id (decimal id) m.uid2names
                      (sym (name_unknown passwd id q)) v.uids;
                gids = v.gids;
                uid_names = v.uid_names;
                gid_names = v.gid_names;
              },
            )
    ]
  ]

  pub gid2string-IsCached :
      (id : ℕ) (m : Names)
      → IsCached passwd group m
      → ((gid2string group id m).0 ≡ name group id)
        × IsCached passwd group (gid2string group id m).1
  unfolding gid2string
  gid2string-IsCached id m v = elim (Option-cases (Dict.lookup id m.gid2names)) [
    | inr (n, e) ↦ rw (e, gid2string) (v.gids id n e, v)
    | inl e ↦ elim (Option-cases (group.name_of id)) [
      | inr (n, q) ↦
          rw (e, gid2string, q)
            (
              sym (name_known group id n q),
              record {
                uids = v.uids;
                gids =
                    insert_keeps (λ k w. w ≡ name group k) id n m.gid2names
                      (sym (name_known group id n q)) v.gids;
                uid_names = v.uid_names;
                gid_names = v.gid_names;
              },
            )
      | inl q ↦
          rw (e, gid2string, q)
            (
              sym (name_unknown group id q),
              record {
                uids = v.uids;
                gids =
                    insert_keeps (λ k w. w ≡ name group k) id (decimal id) m.gid2names
                      (sym (name_unknown group id q)) v.gids;
                uid_names = v.uid_names;
                gid_names = v.gid_names;
              },
            )
    ]
  ]

  pub string2uid-IsCached :
      (s : Bytes) (m : Names)
      → IsCached passwd group m
      → ((string2uid passwd s m).0 ≡ or_fatal (look_up passwd s))
        × IsCached passwd group (string2uid passwd s m).1
  unfolding string2uid
  string2uid-IsCached s m v = elim (Option-cases (Dict.lookup s m.names2uid)) [
    | inr (k, e) ↦ rw (e, string2uid) (sym (ap or_fatal (v.uid_names s k e)), v)
    | inl e ↦ elim (Option-cases (look_up passwd s)) [
      | inr (k, q) ↦
          rw (e, string2uid, q)
            (
              refl,
              record {
                uids = v.uids;
                gids = v.gids;
                uid_names =
                    insert_keeps (λ t k. look_up passwd t ≡ some k) s k m.names2uid q v.uid_names;
                gid_names = v.gid_names;
              },
            )
      | inl q ↦ rw (e, string2uid, q) (refl, v)
    ]
  ]

  pub string2gid-IsCached :
      (s : Bytes) (m : Names)
      → IsCached passwd group m
      → ((string2gid group s m).0 ≡ or_fatal (look_up group s))
        × IsCached passwd group (string2gid group s m).1
  unfolding string2gid
  string2gid-IsCached s m v = elim (Option-cases (Dict.lookup s m.names2gid)) [
    | inr (k, e) ↦ rw (e, string2gid) (sym (ap or_fatal (v.gid_names s k e)), v)
    | inl e ↦ elim (Option-cases (look_up group s)) [
      | inr (k, q) ↦
          rw (e, string2gid, q)
            (
              refl,
              record {
                uids = v.uids;
                gids = v.gids;
                uid_names = v.uid_names;
                gid_names =
                    insert_keeps (λ t k. look_up group t ≡ some k) s k m.names2gid q v.gid_names;
              },
            )
      | inl q ↦ rw (e, string2gid, q) (refl, v)
    ]
  ]

-- No user's name is a number, and the database finds a user by the name that it gives.
pub record IsConsistent (db : Database) : Type 0 where
  pub found : (id : ℕ) (n : Bytes) → db.name_of id ≡ some n → db.id_of n ≡ some id
  pub named : (id : ℕ) (n : Bytes) → db.name_of id ≡ some n → alldigits n ≡ false

alldigits_of : (s : Bytes) → s ≢ [] → Digits 10 s → alldigits s ≡ true
unfolding alldigits
alldigits_of [] h d = absurd (h refl)
alldigits_of (c ∷ s) h d = go (c ∷ s) d
  where
    go : (s : Bytes) → Digits 10 s → alldigits_loop s ≡ true
    go [] d = refl
    go (c ∷ s) (d, ds) = rw d (go s ds)

look_up-name :
    (db : Database) (id : ℕ) → IsConsistent db → id < 4294967296 → look_up db (name db id) ≡ some id
unfolding look_up
look_up-name db id c small = elim (Option-cases (db.name_of id)) [
  | inr (n, q) ↦ rw (name_known db id n q, c.named id n q) (c.found id n q)
  | inl q ↦
      rw
        (
          name_unknown db id q,
          alldigits_of (decimal id) (decimal-ne-nil id) (decimal-Digits id),
          strtol-decimal id 4294967296 small (omega arith),
        )
        refl
]

-- Whatever has been looked up before, on the writing side and on the reading side, the text that is
-- written for a user is read back as that user, and so for a group; an ID that has no name is read
-- back from its digits. IDs have 32 bits, names are not numbers, and the databases find an ID by
-- the name that they give for it.
pub string2uid-uid2string :
    (passwd group : Database) (id : ℕ) (m k : Names)
    → IsConsistent passwd
    → IsConsistent group
    → id < 4294967296
    → IsCached passwd group m
    → IsCached passwd group k
    → ((string2uid passwd (uid2string passwd id m).0 k).0 ≡ ok id)
      × ((string2gid group (gid2string group id m).0 k).0 ≡ ok id)
string2uid-uid2string passwd group id m k cp cg small vm vk = (
  (string2uid-IsCached passwd group _ k vk).0
      ∙ ap (λ n. or_fatal (look_up passwd n)) (uid2string-IsCached passwd group id m vm).0
      ∙ ap or_fatal (look_up-name passwd id cp small),
  (string2gid-IsCached passwd group _ k vk).0
      ∙ ap (λ n. or_fatal (look_up group n)) (gid2string-IsCached passwd group id m vm).0
      ∙ ap or_fatal (look_up-name group id cg small),
)
