-- ===== src/Restore/Safety.antt =====
-- What a line of an index does to the file of its name, and to all others.
use hbackup.Prelude.{
  ℕ, ◌+◌, ◌≡◌, ◌≢◌, refl, ap, subst, ◌∙◌, List, [], ◌∷◌, ◌++◌, Option, none, some, Bytes, codes,
  length, length-append, if◌then◌else◌, arith, bytes_eq,
}
use hbackup.Outcome.{Result, ok, err, fatal, and_then}
use hbackup.Utils.Index.{Details, getdetail}
use hbackup.Numbers.{strtol}
use hbackup.Users.{Database}
use hbackup.Host.{Host, IsHost}
use hbackup.Restore.{
  World, Options, Dirstamp, Flow, goes_on, skips, Kind, kind_of, detail, on_host, clear_away,
  make_object,
}
use hbackup.Restore.Lines.{
  temporary, set_owner, set_mode, finish, linked_to, link_line, new_line, restore_at,
}
use hbackup.Restore.Objects
use hbackup.Restore.Attributes

pub temporary-ne : (fullname : Bytes) → temporary fullname ≢ fullname
unfolding temporary
temporary-ne fullname e = no (ap length e)
  where
    no : length (fullname ++ codes "~restore~") ≡ length fullname → ⊥
    no h = absurd (omega (arith, length-append fullname (codes "~restore~")))

module _ (H R : Host) (L : IsHost H) (opts : Options) (passwd group : Database) (q fullname : Bytes)
    (c : Option L.Content) (other : temporary fullname ≢ q) (Stamps : List Dirstamp → Type 0)
    (push : (ds : List Dirstamp) (a m : ℕ)
      → Stamps ds
      → Stamps (ds ++ record { dir = fullname; atime = a; mtime = m } ∷ [])) where
  abbrev Keeps : World H.State R.State → Type 0
  Keeps = Objects.Keeps H R L opts passwd group q (temporary fullname) c other Stamps

  -- It ends with `q` as it was, unless `q` is the file of the line, and all went well.
  abbrev Safe : Result (Unit {0}) × World H.State R.State → Type 0
  Safe m = (fullname ≡ q → m.0 ≢ ok tt) → Keeps m.1

  abbrev tmpname : Bytes
  tmpname = temporary fullname

  and_then-Safe :
      {A : Type 0} (m : Result A × World H.State R.State)
      (f : A → World H.State R.State → Result (Unit {0}) × World H.State R.State)
      → Keeps m.1
      → ((a : A) (w : World H.State R.State) → Keeps w → Safe (f a w))
      → Safe (and_then m f)
  and_then-Safe (ok a, w) f v k = k a w v
  and_then-Safe (err e, w) f v k = λ _. v
  and_then-Safe (fatal, w) f v k = λ _. v

  rename-Safe :
      (w : World H.State R.State)
      → Keeps w
      → Safe (on_host H R opts passwd group (H.rename tmpname fullname) w)
  unfolding on_host
  rename-Safe w v bad = elim (bytes_eq.dec fullname q) [
    | yes e ↦ (
      subst (λ p. L.file (H.rename tmpname fullname w.host).1 p ≡ L.file w.host p) e
            (L.rename_fails tmpname fullname w.host (temporary-ne fullname) (bad e))
          ∙ v.0,
      v.1,
    )
    | no n ↦ (L.rename_keeps tmpname fullname q w.host other n ∙ v.0, v.1)
  ]

  rename_last-Safe :
      {A : Type 0} (m : Result A × World H.State R.State)
      → Keeps m.1
      → Safe (and_then m (λ _ w. on_host H R opts passwd group (H.rename tmpname fullname) w))
  rename_last-Safe m v = and_then-Safe m _ v (λ _ w u. rename-Safe w u)

  finish-Safe :
      (kind : Kind) (details : Details) (mode : ℕ) (w : World H.State R.State)
      → Keeps w
      → Safe (finish H R opts passwd group kind details fullname tmpname mode w)
  unfolding finish
  finish-Safe kind details mode w v =
      and_then-Safe
        (if opts.permissions then set_owner H R opts passwd group details tmpname w else (ok tt, w))
        _
        (Objects.if-Keeps H R L opts passwd group q tmpname c other Stamps opts.permissions
          (set_owner H R opts passwd group details tmpname w) (ok tt, w)
          (Attributes.set_owner-Keeps H R L opts passwd group q fullname c other Stamps push details
            w v)
          v)
        λ _ w1 u.
          rename_last-Safe (set_mode H R opts passwd group kind details fullname tmpname mode w1) (
            Attributes.set_mode-Keeps H R L opts passwd group q fullname c other Stamps push kind
              details mode w1 u)

  link_line-Safe :
      (path : Bytes) (w : World H.State R.State)
      → Keeps w
      → Safe (link_line H R opts passwd group path fullname tmpname w)
  unfolding link_line
  link_line-Safe path w v = rename_last-Safe _ (
      Attributes.host-Keeps H R L opts passwd group q fullname c other Stamps push
        (H.link path tmpname) (λ s. L.link_keeps path tmpname q s other)
        (record w { totals = record w.totals { hardlinks = w.totals.hardlinks + 1 } }) v)

  module _ (recode : Bytes → Result Bytes) (fuel : ℕ) where
    new_line-Safe :
        (details : Details) (w : World H.State R.State)
        → Keeps w
        → Safe (new_line H R opts passwd group recode fuel details fullname tmpname w)
    unfolding new_line
    new_line-Safe details w v =
        and_then-Safe
          (make_object H R opts passwd group recode fuel
            (kind_of (getdetail details (codes "type"))) details fullname tmpname
            (strtol 8 4294967296 (detail details (codes "perms"))) w)
          _
          (Objects.make_object-Keeps H R L opts passwd group q tmpname c other Stamps recode fuel
            (kind_of (getdetail details (codes "type"))) details fullname
            (strtol 8 4294967296 (detail details (codes "perms"))) w v)
          by_flow
      where
        by_flow :
            (flow : Flow) (w1 : World H.State R.State)
            → Keeps w1
            → Safe (elim flow [
              | goes_on ↦
                  finish H R opts passwd group
                    (kind_of (getdetail details (codes "type")))
                    details
                    fullname
                    tmpname
                    (strtol 8 4294967296 (detail details (codes "perms")))
                    w1
              | skips ↦ (ok tt, w1)
            ])
        by_flow goes_on w1 u = finish-Safe _ details _ w1 u
        by_flow skips w1 u = λ _. u

    clear_away-Keeps :
        (w : World H.State R.State) → Keeps w → Keeps (clear_away H R opts passwd group tmpname w).1
    unfolding clear_away on_host
    clear_away-Keeps w v = by_result (H.remove tmpname w.host).0 refl
      where
        removed : L.file (H.remove tmpname w.host).1 q ≡ c
        removed = L.remove_keeps tmpname q w.host other ∙ v.0

        by_result :
            (r : Result (Unit {0}))
            → (H.remove tmpname w.host).0 ≡ r
            → Keeps (clear_away H R opts passwd group tmpname w).1
        by_result fatal e = rw (e, clear_away) (removed, v.1)
        by_result (ok u) e = rw (e, clear_away) (removed, v.1)
        by_result (err x) e = rw (e, clear_away) (removed, v.1)

    pub restore_at-Safe :
        (details : Details) (w : World H.State R.State)
        → Keeps w
        → Safe (restore_at H R opts passwd group recode fuel details fullname w)
    unfolding restore_at
    restore_at-Safe details w v =
        and_then-Safe (clear_away H R opts passwd group tmpname w) _ (clear_away-Keeps w v)
          (λ _ w1 u.
            by_link w1 u (linked_to H R opts passwd group (getdetail details (codes "inode")) w1))
      where
        by_link :
            (w1 : World H.State R.State)
            → Keeps w1
            → (o : Option Bytes)
            → Safe (elim o [
              | some path ↦ link_line H R opts passwd group path fullname (temporary fullname) w1
              | none ↦
                  new_line H R opts passwd group recode fuel details fullname
                    (temporary fullname)
                    w1
            ])
        by_link w1 u none = new_line-Safe details w1 u
        by_link w1 u (some path) = link_line-Safe path w1 u

-- A line is restored under a temporary name, and gets its own name last: whatever goes wrong before
-- that, the file of that name is as it was, and so is every other file but the temporary one, in any
-- case.
pub restore_at-atomic :
    (H R : Host) (L : IsHost H) (opts : Options) (passwd group : Database)
    (recode : Bytes → Result Bytes) (fuel : ℕ) (details : Details) (fullname q : Bytes)
    (w : World H.State R.State)
    → temporary fullname ≢ q
    → (fullname ≡ q → (restore_at H R opts passwd group recode fuel details fullname w).0 ≢ ok tt)
    → L.file (restore_at H R opts passwd group recode fuel details fullname w).1.host q
      ≡ L.file w.host q
restore_at-atomic H R L opts passwd group recode fuel details fullname q w other bad =
    (restore_at-Safe H R L opts passwd group q fullname (L.file w.host q) other (λ _. Unit {0})
      (λ ds a m u. u) recode fuel details w (refl, tt) bad).0
