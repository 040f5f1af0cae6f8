-- ===== src/Backup/Atomic.antt =====
-- The file of a hash is stored as a whole or not at all.
use hbackup.Prelude.{
  ℕ, ◌≡◌, ◌≢◌, refl, sym, ap, subst, ◌∙◌, ◌++◌, Bool, true, false, Option, Bytes, codes, bytes_eq,
  if◌then◌else◌, length, length-append, arith,
}
use hbackup.Outcome.{Exception, Result, ok, err, fatal, and_then, and_then_keeps}
use hbackup.File.{Device}
use hbackup.Hashing.{Sha1}
use hbackup.Host.{Host, IsHost}
use hbackup.Backup.{Hashable, Tree, World, Options, on_tree}
use hbackup.Backup.Store.{
  parent_of, temporary_for, on_repository, open_temporary, fill_temporary, store_file,
}
use hbackup.Backup.Stored

pub temporary_for-ne : (hp : Bytes) → temporary_for hp ≢ hp
unfolding temporary_for
temporary_for-ne hp e = no (ap length e)
  where
    no : length (hp ++ codes ".tmp") ≡ length hp → ⊥
    no h = absurd (omega (arith, length-append hp (codes ".tmp")))

module _ (T : Tree) (R : Host) (L : IsHost R) (V N : Device) (S : Sha1) (opts : Options)
    (q hp : Bytes) (c : Option L.Content) (other : temporary_for hp ≢ q)
    (above : (p r : Bytes) → p ++ r ≡ parent_of hp → p ≢ q) where
  abbrev Now : Type 0
  Now = World T.State R.State V.State N.State

  abbrev Keeps : Now → Type 0
  Keeps w = ◌≡◌ {A = Option L.Content} (L.file w.repository q) c

  -- It ends with `q` as it was, unless `q` is the path of the hash, and all went well.
  abbrev Safe : Result (Unit {0}) × Now → Type 0
  Safe m = (hp ≡ q → m.0 ≢ ok tt) → Keeps m.1

  and_then-Safe :
      {A : Type 0} (m : Result A × Now) (f : A → Now → Result (Unit {0}) × Now)
      → Keeps m.1
      → ((a : A) (w : Now) → m.0 ≡ ok a → Keeps w → Safe (f a w))
      → Safe (and_then m f)
  and_then-Safe (ok a, w) f v k = k a w refl v
  and_then-Safe (err e, w) f v k = λ _. v
  and_then-Safe (fatal, w) f v k = λ _. v

  -- The last two steps, where `count` only counts.
  abbrev renamed : (Now → Now) → Now → Result (Unit {0}) × Now
  renamed count w =
      and_then (on_repository T R V N S opts (R.rename (temporary_for hp) hp) w)
        (λ _ w1. (ok tt, count w1))

  renamed_fails :
      (count : Now → Now) (w : Now) (r : Result (Unit {0}))
      → (R.rename (temporary_for hp) hp w.repository).0 ≡ r
      → (renamed count w).0 ≢ ok tt
      → L.file (renamed count w).1.repository hp ≡ L.file w.repository hp
  unfolding on_repository
  renamed_fails count w (ok u) f bad = absurd (bad (rw f refl))
  renamed_fails count w (err x) f bad = rw f (
      L.rename_fails (temporary_for hp) hp w.repository (temporary_for-ne hp)
        (λ e. not_err x (sym f ∙ e)))
    where
      not_err : (x : Exception) → ◌≡◌ {A = Result (Unit {0})} (err x) (ok tt) → ⊥
      not_err x e = cc
  renamed_fails count w fatal f bad = rw f (
      L.rename_fails (temporary_for hp) hp w.repository (temporary_for-ne hp)
        (λ e. not_fatal (sym f ∙ e)))
    where
      not_fatal : ◌≡◌ {A = Result (Unit {0})} fatal (ok tt) → ⊥
      not_fatal e = cc

  renamed-Safe :
      (count : Now → Now) (w : Now)
      → ((w1 : Now) → Keeps w1 → Keeps (count w1))
      → Keeps w
      → Safe (renamed count w)
  unfolding on_repository
  renamed-Safe count w counted v bad = elim (bytes_eq.dec hp q) [
    | no n ↦
        and_then_keeps Keeps (on_repository T R V N S opts (R.rename (temporary_for hp) hp) w) _
          (L.rename_keeps (temporary_for hp) hp q w.repository other n ∙ v) (λ _ w1 u. counted w1 u)
    | yes e ↦
        subst (λ p. L.file (renamed count w).1.repository p ≡ L.file w.repository p) e
          (renamed_fails count w (R.rename (temporary_for hp) hp w.repository).0 refl (bad e))
        ∙ v
  ]

  if-Safe : (b : Bool) (m n : Result (Unit {0}) × Now) → Safe m → Safe n → Safe (if b then m else n)
  if-Safe true m n u v = u
  if-Safe false m n u v = v

  pub store_file-Safe :
      (fuel : ℕ) (path hash : Bytes) (w : Now)
      → Keeps w
      → Safe (store_file T R V N S opts fuel (record { path = path; hp = hp; hash = hash }) w)
  unfolding store_file on_repository on_tree
  store_file-Safe fuel path hash w v =
      and_then-Safe (on_repository T R V N S opts (R.exists hp) w) _
        (L.exists_keeps hp q w.repository ∙ v)
        λ there w1 _ u.
          if-Safe there _ _ (λ _. u)
            (and_then-Safe (on_tree (T.open_read path) w1) _ u λ g w2 _ u2.
              and_then-Safe (S.reset, w2) _ u2
                λ ctx w3 _ u3.
                  and_then-Safe (open_temporary T R V N S opts (temporary_for hp) hp w3) _
                    (opens w3 u3).0
                    λ h w4 eh u4.
                      and_then-Safe (fill_temporary T R V N S opts fuel hash ctx g h w4) _
                        (Stored.fill_temporary-Keeps T R L V N S opts q (temporary_for hp) hp c
                          other above fuel hash ctx g h w4 ((opens w3 u3).1 h eh) u4)
                        (λ _ w5 _ u5. renamed-Safe _ w5 (λ w6 u6. u6) u5))
    where
      opens :
          (w3 : Now)
          → Keeps w3
          → Stored.Opens T R L V N S opts q
              (temporary_for hp)
              hp
              c
              other
              above
              (open_temporary T R V N S opts (temporary_for hp) hp w3)
      opens = Stored.open_temporary-Opens T R L V N S opts q (temporary_for hp) hp c other above

-- A content is written under a temporary name that gets the path of its hash last, so a file of that
-- path is always whole: unless it all goes well, what stands there is as it was, and so is, in any
-- case, every other file but the temporary one and the directories above.
pub store_file-atomic :
    (T : Tree) (R : Host) (L : IsHost R) (V N : Device) (S : Sha1) (opts : Options) (fuel : ℕ)
    (it : Hashable) (q : Bytes) (w : World T.State R.State V.State N.State)
    → temporary_for it.hp ≢ q
    → ((p r : Bytes) → p ++ r ≡ parent_of it.hp → p ≢ q)
    → (it.hp ≡ q → (store_file T R V N S opts fuel it w).0 ≢ ok tt)
    → L.file (store_file T R V N S opts fuel it w).1.repository q ≡ L.file w.repository q
store_file-atomic T R L V N S opts fuel it q w other above bad =
    store_file-Safe T R L V N S opts q it.hp (L.file w.repository q) other above fuel it.path
      it.hash w refl bad
