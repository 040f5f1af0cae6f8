-- ===== src/Backup/RoundTrip.antt =====
-- The line of a file in the index, as backup_dir() writes it and as do_restore() reads it.
use hbackup.Prelude.{
  ℕ, ◌/◌, ◌%◌, ◌<◌, ◌≡◌, refl, sym, ap, ◌∙◌, [], ◌∷◌, ◌++◌, List, append_assoc, append-nil,
  AreBytes, true, Bytes, codes, bytes_eq, if◌then◌else◌, ltb, Bool-cases, inl, inr, arith,
}
use hbackup.Utils.Url.{urlencode, url_char, must_escape}
use hbackup.Utils.Url.Laws.{urlencode-cons, urlencode-nil}
use hbackup.Utils.Index.Laws.{render, render_field}
use hbackup.Numbers.{decimal, octal, is_digit}
use hbackup.Numbers.RoundTrip.{Digits, decimal-Digits, octal-Digits}
use hbackup.Clean.Command.{hash_name}
use hbackup.Utils.Hex.{hexencode, hex_char}
use hbackup.Utils.Hex.Laws.{hexencode-cons, hexencode-nil}
use native.Mathlib.Nat.{mod-eq_of_lt}
use hbackup.Restore.{link, dir, chr, blk, socket}
use hbackup.Backup.{Stat, decimal_int, head_text, tail_text, data_text, hash_text, end_text}

-- Digits are written as they are.
urlencode-Digits : (base : ℕ) (s : Bytes) → base < 11 → Digits base s → urlencode s ≡ s
unfolding url_char must_escape
urlencode-Digits base [] h d = urlencode-nil
urlencode-Digits base (c ∷ s) h (dc, ds) =
    rw (urlencode-cons, plain c dc, urlencode-Digits base s h ds) refl
  where
    plain : (c : ℕ) → is_digit base c ≡ true → url_char c ≡ c ∷ []
    plain c e = ground arith

pub Digits-AreBytes : (base : ℕ) (s : Bytes) → base < 11 → Digits base s → AreBytes s
Digits-AreBytes base [] h d = tt
Digits-AreBytes base (c ∷ s) h (dc, ds) = (ground arith, Digits-AreBytes base s h ds)

-- Fields behind the first.
unfoldable pub more_fields : List (Bytes × Bytes) → Bytes
unfolding render_field
more_fields [] = []
more_fields (f ∷ fs) = b'&' ∷ (render_field f ++ more_fields fs)

pub render-more_fields :
    (f : Bytes × Bytes) (fs : List (Bytes × Bytes)) → render f fs ≡ render_field f ++ more_fields fs
unfolding render more_fields
render-more_fields f [] = sym (append-nil (render_field f))
render-more_fields f (g ∷ fs) = ap (λ t. render_field f ++ b'&' ∷ t) (render-more_fields g fs)

pub more_fields-append :
    (fs gs : List (Bytes × Bytes)) → more_fields (fs ++ gs) ≡ more_fields fs ++ more_fields gs
unfolding more_fields
more_fields-append [] gs = refl
more_fields-append (f ∷ fs) gs =
    ap (λ t. b'&' ∷ t)
      (ap (λ t. render_field f ++ t) (more_fields-append fs gs)
        ∙ sym (append_assoc (render_field f) (more_fields fs) (more_fields gs)))

abbrev pub generic_fields : Stat → Bytes → Bytes → List (Bytes × Bytes)
generic_fields sb user group =
    (codes "perms", octal (sb.mode % 4096))
    ∷ (codes "uid", user)
    ∷ (codes "gid", group)
    ∷ (codes "atime", decimal sb.atime)
    ∷ (codes "ctime", decimal sb.ctime)
    ∷ (codes "mtime", decimal sb.mtime)
    ∷ []

urlencode-decimal : (n : ℕ) → urlencode (decimal n) ≡ decimal n
urlencode-decimal n = urlencode-Digits 10 (decimal n) (omega arith) (decimal-Digits n)

urlencode-octal : (n : ℕ) → urlencode (octal n) ≡ octal n
urlencode-octal n = urlencode-Digits 8 (octal n) (omega arith) (octal-Digits n)

pub head_text-fields :
    (relname user group : Bytes) (sb : Stat)
    → head_text relname sb user group
      ≡ render_field (codes "name", relname) ++ more_fields (generic_fields sb user group)
unfolding head_text more_fields render_field
head_text-fields relname user group sb =
    rw
      (
        urlencode-octal (sb.mode % 4096),
        urlencode-decimal sb.atime,
        urlencode-decimal sb.ctime,
        urlencode-decimal sb.mtime,
        append-nil (decimal sb.mtime),
      )
      refl

-- What a line says of its file behind the generic details.
pub data Body : Type 0 where
  of_dir of_chr of_blk of_socket : Body
  of_link : (target : Bytes) → Body
  of_data : (buffer : Bytes) → Body
  of_hash : (h : Bytes) → Body

unfoldable pub body_text : Body → Stat → Bytes
unfolding tail_text data_text hash_text end_text
body_text of_dir sb = tail_text dir sb []
body_text of_chr sb = tail_text chr sb []
body_text of_blk sb = tail_text blk sb []
body_text of_socket sb = tail_text socket sb []
body_text (of_link target) sb = tail_text link sb target
body_text (of_data buffer) sb = data_text buffer ++ end_text sb
body_text (of_hash h) sb = hash_text h ++ end_text sb

-- Its fields.
abbrev pub inode_fields : Stat → List (Bytes × Bytes)
inode_fields sb = if ltb 1 sb.nlink then (codes "inode", decimal sb.ino) ∷ [] else []

abbrev pub body_fields : Body → Stat → List (Bytes × Bytes)
body_fields of_dir sb = (codes "type", codes "dir") ∷ []
body_fields of_chr sb = (codes "rdev", decimal sb.rdev) ∷ (codes "type", codes "chr") ∷ []
body_fields of_blk sb = (codes "rdev", decimal sb.rdev) ∷ (codes "type", codes "blk") ∷ []
body_fields of_socket sb = (codes "type", codes "socket") ∷ []
body_fields (of_link target) sb = (codes "target", target) ∷ (codes "type", codes "link") ∷ []
body_fields (of_data buffer) sb = (codes "data", buffer) ∷ inode_fields sb
body_fields (of_hash h) sb = (hash_name, hexencode h) ∷ inode_fields sb

decimal_int-small : (n : ℕ) → n < 2147483648 → decimal_int n ≡ decimal n
unfolding decimal_int
decimal_int-small n h =
    let e : n % 4294967296 ≡ n = mod-eq_of_lt (omega arith) in rw e (ground arith)

url_char-hex_char : (d : ℕ) → d < 16 → url_char (hex_char d) ≡ hex_char d ∷ []
unfolding url_char must_escape hex_char
url_char-hex_char d h = ground arith

urlencode-hexencode : (h : Bytes) → AreBytes h → urlencode (hexencode h) ≡ hexencode h
urlencode-hexencode [] b = rw hexencode-nil urlencode-nil
urlencode-hexencode (c ∷ h) (bc, b) =
    rw
      (
        hexencode-cons c h,
        urlencode-cons,
        urlencode-cons,
        url_char-hex_char (c / 16) (omega arith),
        url_char-hex_char (c % 16) (omega arith),
        urlencode-hexencode h b,
      )
      refl

end_text-fields : (sb : Stat) → end_text sb ≡ more_fields (inode_fields sb) ++ codes "\n"
unfolding end_text more_fields render_field urlencode
end_text-fields sb = elim (Bool-cases (ltb 1 sb.nlink)) [
  | inl e ↦ rw (e, urlencode-decimal sb.ino, append-nil (decimal sb.ino)) refl
  | inr e ↦ rw e refl
]

-- The bytes of a body.
abbrev pub BodyIsBytes : Body → Type 0
BodyIsBytes (of_link target) = AreBytes target
BodyIsBytes (of_data buffer) = AreBytes buffer
BodyIsBytes (of_hash h) = AreBytes h
BodyIsBytes _ = Unit {0}

pub body_text-fields :
    (b : Body) (sb : Stat)
    → BodyIsBytes b
    → sb.rdev < 2147483648
    → body_text b sb ≡ more_fields (body_fields b sb) ++ codes "\n"
unfolding body_text tail_text data_text hash_text more_fields render_field
body_text-fields of_dir sb v small = refl
body_text-fields of_chr sb v small =
    rw (decimal_int-small sb.rdev small, urlencode-decimal sb.rdev)
      (ap (λ t. codes "&rdev=" ++ t)
        (sym (append_assoc (decimal sb.rdev) (codes "&type=chr") (codes "\n"))))
body_text-fields of_blk sb v small =
    rw (decimal_int-small sb.rdev small, urlencode-decimal sb.rdev)
      (ap (λ t. codes "&rdev=" ++ t)
        (sym (append_assoc (decimal sb.rdev) (codes "&type=blk") (codes "\n"))))
body_text-fields of_socket sb v small = refl
body_text-fields (of_link target) sb v small =
    ap (λ t. codes "&target=" ++ t)
      (sym (append_assoc (urlencode target) (codes "&type=link") (codes "\n")))
body_text-fields (of_data buffer) sb v small = rw (end_text-fields sb) (
    ap (λ t. codes "&data=" ++ t)
      (sym (append_assoc (urlencode buffer) (more_fields (inode_fields sb)) (codes "\n"))))
body_text-fields (of_hash h) sb v small =
    rw (urlencode-hexencode h v, end_text-fields sb)
      (ap (λ t. codes "&sha1=" ++ t)
        (sym (append_assoc (hexencode h) (more_fields (inode_fields sb)) (codes "\n"))))
