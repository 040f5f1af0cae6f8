-- ===== src/Utils/Hex/Path.antt =====
-- hashpath(): where the file of a hash stands in the repository.
use hbackup.Prelude.{
  ℕ, ◌*◌, ◌≡◌, ◌≢◌, ◌<◌, ◌/◌, ◌%◌, append_assoc, Lacks, refl, sym, ap, ◌∙◌, [], ◌∷◌, ◌++◌, length,
  take, drop, take-length, arith, Bytes, AreBytes, drop-append, length-take, subst,
}
use hbackup.Utils.Hex.{
  depth, hex_char, hash_size, hexencode, hashpath, hashpath_dirs, hashpath_name, slash,
}
use hbackup.Utils.Hex.Laws.{hexencode-cons, hexencode-nil, hexencode_injective}

hashpath_name-hexencode : (h : Bytes) → hashpath_name h ≡ hexencode h
unfolding hashpath_name
hashpath_name-hexencode [] = sym hexencode-nil
hashpath_name-hexencode (b ∷ h) = rw (hexencode-cons b h, hashpath_name-hexencode h)

hashpath-hexencode :
    (h : Bytes) → length h ≡ hash_size → hashpath h ≡ hashpath_dirs (take depth h) ++ hexencode h
unfolding hashpath
hashpath-hexencode h n =
    ap (λ t. hashpath_dirs (take depth h) ++ t)
      (hashpath_name-hexencode (take hash_size h) ∙ ap hexencode (take-length hash_size h n))

-- The path of a hash: its first two bytes in hexadecimal are directories, and the whole is the name.
pub hashpath_lem :
    (a b : ℕ) (h : Bytes)
    → length h ≡ 18
    → hashpath (a ∷ b ∷ h)
      ≡ hexencode (a ∷ []) ++ slash ∷ (hexencode (b ∷ []) ++ slash ∷ hexencode (a ∷ b ∷ h))
hashpath_lem a b h n = hashpath-hexencode (a ∷ b ∷ h) (omega arith) ∙ dirs
  where
    dirs :
        hashpath_dirs (a ∷ b ∷ []) ++ hexencode (a ∷ b ∷ h)
        ≡ hexencode (a ∷ []) ++ slash ∷ (hexencode (b ∷ []) ++ slash ∷ hexencode (a ∷ b ∷ h))
    dirs = simp (hexencode-cons, hexencode-nil) (unfold hashpath_dirs in refl)

length-hashpath_dirs : (h : Bytes) → length (hashpath_dirs h) ≡ 3 * length h
unfolding hashpath_dirs
length-hashpath_dirs [] = refl
length-hashpath_dirs (b ∷ h) = omega (arith, length-hashpath_dirs h)

drop-hashpath : (h : Bytes) → length h ≡ hash_size → drop 6 (hashpath h) ≡ hexencode h
drop-hashpath h n =
    let six : length (hashpath_dirs (take depth h)) ≡ 6 =
      omega (arith, length-hashpath_dirs (take depth h), length-take depth h (omega arith)) in
    ap (drop 6) (hashpath-hexencode h n)
    ∙ subst (λ i. drop i (hashpath_dirs (take depth h) ++ hexencode h) ≡ hexencode h) six
        (drop-append (hashpath_dirs (take depth h)) (hexencode h))

-- Two hashes are never kept in one file.
pub hashpath_injective :
    (h k : Bytes)
    → AreBytes h
    → AreBytes k
    → length h ≡ hash_size
    → length k ≡ hash_size
    → hashpath h ≡ hashpath k
    → h ≡ k
hashpath_injective h k bh bk nh nk e =
    hexencode_injective h k bh bk (sym (drop-hashpath h nh) ∙ ap (drop 6) e ∙ drop-hashpath k nk)

hex_char-ne-slash : (d : ℕ) → d < 16 → hex_char d ≢ slash
unfolding hex_char
hex_char-ne-slash d h = ground arith

-- The name of a hash holds no slash.
pub hexencode-Lacks-slash : (h : Bytes) → AreBytes h → Lacks slash (hexencode h)
hexencode-Lacks-slash [] _ = rw hexencode-nil tt
hexencode-Lacks-slash (b ∷ h) (hb, hh) = rw hexencode-cons (
  hex_char-ne-slash (b / 16) (omega arith),
  (hex_char-ne-slash (b % 16) (omega arith), hexencode-Lacks-slash h hh),
)

-- The path of a hash ends in its name.
pub hashpath-eq-append :
    (h : Bytes) → length h ≡ hash_size → (p : Bytes) × (hashpath h ≡ p ++ slash ∷ hexencode h)
hashpath-eq-append [] n = absurd (omega arith)
hashpath-eq-append (a ∷ []) n = absurd (omega arith)
hashpath-eq-append (a ∷ b ∷ h) n = (
  hexencode (a ∷ []) ++ slash ∷ hexencode (b ∷ []),
  hashpath_lem a b h (omega arith) ∙ simp append_assoc,
)
