-- ===== src/Backup/ReadBack.antt =====
-- What do_restore() finds in a line that backup_dir() wrote.
use hbackup.Prelude.{
  ℕ, ◌/◌, ◌%◌, ◌<◌, ◌≡◌, refl, ◌∙◌, [], ◌∷◌, ◌++◌, append_assoc, All, All-append, AreBytes, some,
  Bytes, codes, bytes_eq, ltb, length, Bool-cases, inl, inr, arith,
}
use hbackup.Outcome.{ok}
use hbackup.File.{Device}
use hbackup.File.Read.{IsReader, IsReadable, stream}
use hbackup.Utils.Index.{Details, Reader, read_details}
use hbackup.Utils.Index.Laws.{render, render_field, FieldIsBytes}
use hbackup.Utils.Index.Stream.{Left, read_details-render}
use hbackup.Utils.Hex.{hexencode, hex_char}
use hbackup.Utils.Hex.Laws.{hexencode-cons, hexencode-nil}
use hbackup.Numbers.{decimal, octal}
use hbackup.Numbers.RoundTrip.{decimal-Digits, octal-Digits}
use hbackup.Backup.{Stat, head_text}
use hbackup.Backup.RoundTrip.{
  Body, of_dir, of_chr, of_blk, of_socket, of_link, of_data, of_hash, body_text, generic_fields,
  inode_fields, body_fields, BodyIsBytes, Digits-AreBytes, more_fields, render-more_fields,
  more_fields-append, head_text-fields, body_text-fields,
}
use hbackup.Backup.Details.{fields, details_of, IsPrintable, IsReadBack, details_of-IsReadBack}

decimal-AreBytes : (n : ℕ) → AreBytes (decimal n)
decimal-AreBytes n = Digits-AreBytes 10 (decimal n) (omega arith) (decimal-Digits n)

generic-AreBytes :
    (user group : Bytes) (sb : Stat)
    → AreBytes user
    → AreBytes group
    → All FieldIsBytes (generic_fields sb user group)
generic-AreBytes user group sb u g = (
  (
    omega arith,
    Digits-AreBytes 8 (octal (sb.mode % 4096)) (omega arith) (octal-Digits (sb.mode % 4096)),
  ),
  (
    (omega arith, u),
    (
      (omega arith, g),
      (
        (omega arith, decimal-AreBytes sb.atime),
        ((omega arith, decimal-AreBytes sb.ctime), ((omega arith, decimal-AreBytes sb.mtime), tt)),
      ),
    ),
  ),
)

inode-AreBytes : (sb : Stat) → All FieldIsBytes (inode_fields sb)
inode-AreBytes sb = elim (Bool-cases (ltb 1 sb.nlink)) [
  | inl e ↦ rw e ((omega arith, decimal-AreBytes sb.ino), tt)
  | inr e ↦ rw e tt
]

hexencode-AreBytes : (h : Bytes) → AreBytes h → AreBytes (hexencode h)
unfolding hex_char
hexencode-AreBytes [] v = rw hexencode-nil tt
hexencode-AreBytes (c ∷ h) (b, v) =
    rw hexencode-cons
      (digit (c / 16) (omega arith), (digit (c % 16) (omega arith), hexencode-AreBytes h v))
  where
    digit : (d : ℕ) → d < 16 → hex_char d < 256
    digit d e = ground arith

body-AreBytes : (b : Body) (sb : Stat) → BodyIsBytes b → All FieldIsBytes (body_fields b sb)
body-AreBytes of_dir sb v = omega arith
body-AreBytes of_chr sb v = ((omega arith, decimal-AreBytes sb.rdev), (omega arith, tt))
body-AreBytes of_blk sb v = ((omega arith, decimal-AreBytes sb.rdev), (omega arith, tt))
body-AreBytes of_socket sb v = omega arith
body-AreBytes (of_link target) sb v = ((omega arith, v), (omega arith, tt))
body-AreBytes (of_data buffer) sb v = ((omega arith, v), inode-AreBytes sb)
body-AreBytes (of_hash h) sb v = ((omega arith, hexencode-AreBytes h v), inode-AreBytes sb)

-- The five parts of a line, as they are put and as the fields give them.
regroup : (a g b n s : Bytes) → (a ++ g) ++ ((b ++ n) ++ s) ≡ (a ++ (g ++ b)) ++ (n ++ s)
regroup a g b n s = simp append_assoc refl

-- The whole line.
line_text :
    (relname user group : Bytes) (sb : Stat) (b : Body) (s : Bytes)
    → BodyIsBytes b
    → sb.rdev < 2147483648
    → head_text relname sb user group ++ (body_text b sb ++ s)
      ≡ render (codes "name", relname) (fields b sb user group) ++ b'\n' ∷ s
line_text relname user group sb b s v small =
    rw
      (
        head_text-fields relname user group sb,
        body_text-fields b sb v small,
        render-more_fields (codes "name", relname) (fields b sb user group),
        more_fields-append (generic_fields sb user group) (body_fields b sb),
      )
      (regroup (render_field (codes "name", relname)) (more_fields (generic_fields sb user group))
        (more_fields (body_fields b sb)) (codes "\n") s)

module _ (V : Device) (R : IsReader V) where
  -- The line that a backup writes for a file, of whichever kind, is read back by a restore: the name,
  -- the permissions, the owner's and the group's names, the times, the kind, and what is kept with
  -- that kind, which is the content or its hash, the inode if there are several links, the target of
  -- a link, or the number of a device. Times have 64 bits, device numbers 31, and names and contents
  -- are bytes; the index is readable, and the fuel more than the bytes left in it.
  pub read_details-line :
      (fuel : ℕ) (r : Reader V) (relname user group : Bytes) (sb : Stat) (b : Body) (s : Bytes)
      → IsReadable V R r.file
      → length (stream V R r.file) < fuel
      → stream V R r.file ≡ head_text relname sb user group ++ (body_text b sb ++ s)
      → AreBytes relname
      → AreBytes user
      → AreBytes group
      → BodyIsBytes b
      → IsPrintable sb
      → (d : Details) × (r' : Reader V) × (read_details V fuel r ≡ (ok (some d), r'))
        × Left V R s r.log r'
        × IsReadBack d relname user group sb b
  read_details-line fuel r relname user group sb b s v n split br bu bg bb p =
      let (r', q, left) =
        read_details-render V R fuel r (codes "name", relname) (fields b sb user group) s v n
          (split ∙ line_text relname user group sb b s bb p.rdev_fits)
          (
            (omega arith, br),
            All-append FieldIsBytes (generic_fields sb user group) (body_fields b sb)
                (generic-AreBytes user group sb bu bg) (body-AreBytes b sb bb),
          ) in
      (
        details_of relname b sb user group,
        r',
        q,
        left,
        details_of-IsReadBack relname user group sb b p,
      )
