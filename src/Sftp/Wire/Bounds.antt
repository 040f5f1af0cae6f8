-- ===== src/Sftp/Wire/Bounds.antt =====
-- The unpacking functions of sftp.cc on a packet that ends too early.
use Prim.Native.Nat.{◌<◌, ◌≤◌}
use hbackup.Prelude.{
  ℕ, zero, suc, ◌+◌, ◌≡◌, inl, inr, refl, [], ◌∷◌, length, length-drop, take, drop, Bytes, ltb,
  arith, if◌then◌else◌, ap, Bool-cases,
}
use hbackup.Outcome.{Result, ok, err, out_of_range, ◌>>=◌}
use hbackup.Sftp.Wire.{
  first_of, unpack_uint8, unpack_uint32, unpack_string, extended_loop, unpack_extended, Attributes,
}

-- A reader from `i` on either runs over the end, or moves over `n` bytes at least that are there.
data Advances {ℓ} {A : Type ℓ} (s : Bytes) (n i : ℕ) (m : Result (A × ℕ)) : Type ℓ where
  over : m ≡ err out_of_range → Advances s n i m
  moved : (x : A) (j : ℕ) → m ≡ ok (x, j) → i + n ≤ j → i + n ≤ length s → Advances s n i m

unpack_uint8-Advances : (s : Bytes) (i : ℕ) → Advances s 1 i (unpack_uint8 s i)
unfolding unpack_uint8 first_of
unpack_uint8-Advances s i = go (drop i s) refl
  where
    go : (t : Bytes) → drop i s ≡ t → Advances s 1 i (unpack_uint8 s i)
    go [] h = over (rw h refl)
    go (c ∷ t) h =
        moved c (i + 1) (rw h refl) (omega arith) (omega (arith, ap length h, length-drop i s))

-- A step and then another.
then_Advances {ℓ κ} :
    {A : Type ℓ} {B : Type κ} (s : Bytes) (n k i : ℕ) (m : Result (A × ℕ))
    (f : A × ℕ → Result (B × ℕ))
    → Advances s n i m
    → ((x : A) (j : ℕ) → i + n ≤ j → Advances s k j (f (x, j)))
    → Advances s (n + k) i (m >>= f)
then_Advances s n k i m f (over e) g = over (rw e refl)
then_Advances s n k i m f (moved x j e le len) g = go (g x j le)
  where
    go : Advances s k j (f (x, j)) → Advances s (n + k) i (m >>= f)
    go (over q) = over (rw e q)
    go (moved y l q le2 len2) = moved y l (rw e q) (omega arith) (omega arith)

-- The last step computes from what was read.
ends_Advances {ℓ κ} :
    {A : Type ℓ} {B : Type κ} (s : Bytes) (n i : ℕ) (m : Result (A × ℕ))
    (f : A × ℕ → Result (B × ℕ)) (g : A → B)
    → ((x : A) (j : ℕ) → f (x, j) ≡ ok (g x, j))
    → Advances s n i m
    → Advances s n i (m >>= f)
ends_Advances s n i m f g h (over e) = over (rw e refl)
ends_Advances s n i m f g h (moved x j e le len) = moved (g x) j (rw e (h x j)) le len

unpack_uint32-Advances : (s : Bytes) (i : ℕ) → Advances s 4 i (unpack_uint32 s i)
unfolding unpack_uint32
unpack_uint32-Advances s i = then_Advances s 1 3 i _ _ (unpack_uint8-Advances s i) λ a i1 _.
    then_Advances s 1 2 i1 _ _ (unpack_uint8-Advances s i1) λ b i2 _.
      then_Advances s 1 1 i2 _ _ (unpack_uint8-Advances s i2)
        λ c i3 _. ends_Advances s 1 i3 _ _ _ (λ x j. refl) (unpack_uint8-Advances s i3)

substring-Advances :
    (s : Bytes) (len j : ℕ)
    → Advances s 0 j
        (if ltb (length s) j then err out_of_range else ok (take len (drop j s), j + len))
substring-Advances s len j = elim (Bool-cases (ltb (length s) j)) [
  | inl e ↦ over (rw e refl)
  | inr e ↦ moved (take len (drop j s)) (j + len) (rw e refl) (omega arith) (ground arith)
]

unpack_string-Advances : (s : Bytes) (i : ℕ) → Advances s 4 i (unpack_string s i)
unfolding unpack_string
unpack_string-Advances s i =
    then_Advances s 4 0 i _ _ (unpack_uint32-Advances s i) (λ len j _. substring-Advances s len j)

-- What fails wherever the reader gets to.
fails_after {ℓ κ} :
    {A : Type ℓ} {B : Type κ} (s : Bytes) (n i : ℕ) (m : Result (A × ℕ))
    (f : A × ℕ → Result (B × ℕ))
    → Advances s n i m
    → ((x : A) (j : ℕ) → i + n ≤ j → i + n ≤ length s → f (x, j) ≡ err out_of_range)
    → (m >>= f) ≡ err out_of_range
fails_after s n i m f (over e) h = rw e refl
fails_after s n i m f (moved x j e le len) h = rw e (h x j le len)

-- `count` is never zero again once it is not.
extended_loop_over :
    (fuel n : ℕ) (s : Bytes) (a : Attributes) (i : ℕ)
    → length s < fuel + i
    → 0 < fuel
    → extended_loop fuel (suc n) s a i ≡ err out_of_range
unfolding extended_loop
extended_loop_over zero n s a i h pos = absurd (omega arith)
extended_loop_over (suc fuel) n s a i h pos =
    fails_after s 4 i _ _ (unpack_string-Advances s i) λ k i1 le len.
      fails_after s 4 i1 _ _ (unpack_string-Advances s i1)
        λ v i2 le2 len2. extended_loop_over fuel n s _ i2 (omega arith) (omega arith)

-- Extended attributes are never read: whatever follows a count that is not zero, and that is read
-- from the packet, the reading runs over the end of the packet.
pub unpack_extended-over :
    (s : Bytes) (a : Attributes) (i j n : ℕ)
    → unpack_uint32 s i ≡ ok (suc n, j)
    → unpack_extended s a i ≡ err out_of_range
unfolding unpack_extended
unpack_extended-over s a i j n h =
    rw h (extended_loop_over (length s + 1) n s a j (omega arith) (omega arith))
