-- ===== src/Sftp/Wire/Laws.antt =====
-- The unpacking functions of sftp.cc against the packing ones.
use Prim.Native.Nat.{◌<◌}
use hbackup.Prelude.{
  ℕ, zero, suc, ◌+◌, ◌*◌, ◌/◌, ◌%◌, ◌≡◌, refl, sym, ap, ◌∙◌, [], ◌∷◌, ◌++◌, append_assoc, false,
  length, length-append, length-drop, drop, drop-append, take-append, Bytes, ltb, arith,
}
use hbackup.Outcome.{Result, ok}
use hbackup.Sftp.Wire.{
  word_size, pack_uint8, pack_uint32, pack_uint64, pack_string, first_of, unpack_uint8,
  unpack_uint32, unpack_uint64, unpack_string, Status, unpack_status,
}

-- A reader of `x` up to `i` in `s`, with `t` left behind it.
pub record Reads {ℓ} {A : Type ℓ} (m : Result (A × ℕ)) (s : Bytes) (x : A) (i : ℕ) (t : Bytes)
    : Type ℓ where
  pub result : m ≡ ok (x, i)
  pub left : drop i s ≡ t

drop-suc : (i : ℕ) (s : Bytes) {c : ℕ} {t : Bytes} → drop i s ≡ c ∷ t → drop (i + 1) s ≡ t
drop-suc zero [] h = cc
drop-suc zero (x ∷ s) h = cc
drop-suc (suc i) [] h = cc
drop-suc (suc i) (x ∷ s) h = let e : suc i + 1 ≡ suc (i + 1) = omega arith in rw e (drop-suc i s h)

pub unpack_uint8_lem :
    (s : Bytes) (i c : ℕ) (t : Bytes) → drop i s ≡ c ∷ t → Reads (unpack_uint8 s i) s c (i + 1) t
unfolding unpack_uint8 first_of
unpack_uint8_lem s i c t h = record { result = rw h refl; left = drop-suc i s h }

pub pack_uint32-eq : (s : Bytes) (u : ℕ) → pack_uint32 s u ≡ s ++ pack_uint32 [] u
unfolding pack_uint32 pack_uint8
pack_uint32-eq s u = simp append_assoc

pub length-pack_uint32 : (u : ℕ) → length (pack_uint32 [] u) ≡ 4
unfolding pack_uint32 pack_uint8
length-pack_uint32 u = refl

pub unpack_uint32_lem :
    (s : Bytes) (i u : ℕ) (t : Bytes)
    → u < word_size
    → drop i s ≡ pack_uint32 [] u ++ t
    → Reads (unpack_uint32 s i) s u (i + 4) t
unfolding unpack_uint32 pack_uint32 pack_uint8
unpack_uint32_lem s i u t small h =
    let r1 = unpack_uint8_lem s i _ _ h in
    let r2 = unpack_uint8_lem s (i + 1) _ _ r1.left in
    let r3 = unpack_uint8_lem s (i + 1 + 1) _ _ r2.left in
    let r4 = unpack_uint8_lem s (i + 1 + 1 + 1) _ _ r3.left in
    let whole : (u / 16777216 % 256 * 16777216
            + u / 65536 % 256 * 65536
            + u / 256 % 256 * 256
            + u % 256)
          % word_size
        ≡ u =
      omega arith in
    let e : i + 1 + 1 + 1 + 1 ≡ i + 4 = omega arith in
    record {
      result = rw (r1.result, r2.result, r3.result, r4.result, whole, e) refl;
      left = rw (sym e) r4.left;
    }

pub unpack_uint64_lem :
    (s : Bytes) (i u : ℕ) (t : Bytes)
    → u < 18446744073709551616
    → drop i s ≡ pack_uint64 [] u ++ t
    → Reads (unpack_uint64 s i) s u (i + 8) t
unfolding unpack_uint64 pack_uint64 pack_uint32 pack_uint8
unpack_uint64_lem s i u t small h =
    let r1 = unpack_uint8_lem s i _ _ h in
    let r2 = unpack_uint8_lem s (i + 1) _ _ r1.left in
    let r3 = unpack_uint8_lem s (i + 1 + 1) _ _ r2.left in
    let r4 = unpack_uint8_lem s (i + 1 + 1 + 1) _ _ r3.left in
    let r5 = unpack_uint8_lem s (i + 1 + 1 + 1 + 1) _ _ r4.left in
    let r6 = unpack_uint8_lem s (i + 1 + 1 + 1 + 1 + 1) _ _ r5.left in
    let r7 = unpack_uint8_lem s (i + 1 + 1 + 1 + 1 + 1 + 1) _ _ r6.left in
    let r8 = unpack_uint8_lem s (i + 1 + 1 + 1 + 1 + 1 + 1 + 1) _ _ r7.left in
    let whole : (u / 72057594037927936 % 256 * 72057594037927936
            + u / 281474976710656 % 256 * 281474976710656
            + u / 1099511627776 % 256 * 1099511627776
            + u / 4294967296 % 256 * 4294967296
            + u / 16777216 % 256 * 16777216
            + u / 65536 % 256 * 65536
            + u / 256 % 256 * 256
            + u % 256)
          % 18446744073709551616
        ≡ u =
      omega arith in
    let e : i + 1 + 1 + 1 + 1 + 1 + 1 + 1 + 1 ≡ i + 8 = omega arith in
    record {
      result =
          rw
            (
              r1.result, r2.result, r3.result, r4.result, r5.result, r6.result, r7.result,
              r8.result, whole, e,
            )
            refl;
      left = rw (sym e) r8.left;
    }

pub pack_string-eq : (s x : Bytes) → pack_string s x ≡ s ++ pack_string [] x
unfolding pack_string
pack_string-eq s x = ap (λ y. y ++ x) (pack_uint32-eq s (length x % word_size)) ∙ append_assoc s _ x

drop-longer : (x : Bytes) (i : ℕ) (s t : Bytes) → drop i s ≡ x ++ t → drop (i + length x) s ≡ t
drop-longer [] i s t h = let e : i + 0 ≡ i = omega arith in rw e h
drop-longer (c ∷ x) i s t h =
    let e : i + length (c ∷ x) ≡ i + 1 + length x = omega arith in
    rw e (drop-longer x (i + 1) s t (drop-suc i s h))

pub unpack_string_lem :
    (s : Bytes) (i : ℕ) (x t : Bytes)
    → length x < word_size
    → drop i s ≡ pack_string [] x ++ t
    → Reads (unpack_string s i) s x (i + 4 + length x) t
unfolding unpack_string pack_string
unpack_string_lem s i x t small h =
    let fits : length x % word_size ≡ length x = omega arith in
    let split : drop i s ≡ pack_uint32 [] (length x) ++ (x ++ t) =
      h
      ∙ ap (λ n. (pack_uint32 [] n ++ x) ++ t) fits
      ∙ append_assoc (pack_uint32 [] (length x)) x t in
    let r = unpack_uint32_lem s i (length x) (x ++ t) small split in
    let inside : ltb (length s) (i + 4) ≡ false = ground (
      arith,
      ap length split,
      length-drop i s,
      length-append (pack_uint32 [] (length x)) (x ++ t),
      length-pack_uint32 (length x),
    ) in
    record {
      result = rw (r.result, inside, r.left, take-append x t) refl;
      left = drop-longer x (i + 4) s t r.left;
    }

pub pack_uint64-eq : (s : Bytes) (u : ℕ) → pack_uint64 s u ≡ s ++ pack_uint64 [] u
unfolding pack_uint64 pack_uint32 pack_uint8
pack_uint64-eq s u = simp append_assoc

behind : (before x after : Bytes) → drop (length before) ((before ++ x) ++ after) ≡ x ++ after
behind before x after =
    ap (λ s. drop (length before) s) (append_assoc before x after) ∙ drop-append before (x ++ after)

-- A number below 2^64 that was packed behind a packet, with anything behind it, is read back, and
-- the index moves over its eight bytes.
pub unpack_uint64-pack_uint64 :
    (before after : Bytes) (u : ℕ)
    → u < 18446744073709551616
    → unpack_uint64 (pack_uint64 before u ++ after) (length before) ≡ ok (u, length before + 8)
unpack_uint64-pack_uint64 before after u small =
    rw (pack_uint64-eq before u)
      (unpack_uint64_lem _ (length before) u after small
        (behind before (pack_uint64 [] u) after)).result

-- A string shorter than 2^32 that was packed behind a packet, with anything behind it, is read
-- back, and the index moves over its length word and its bytes.
pub unpack_string-pack_string :
    (before after x : Bytes)
    → length x < word_size
    → unpack_string (pack_string before x ++ after) (length before)
      ≡ ok (x, length before + 4 + length x)
unpack_string-pack_string before after x small =
    rw (pack_string-eq before x)
      (unpack_string_lem _ (length before) x after small
        (behind before (pack_string [] x) after)).result

-- What a server packs for a status.
unfoldable pub pack_status : Bytes → Status → Bytes
pack_status s st = pack_string (pack_string (pack_uint32 s st.status) st.message) st.lang

pub pack_status-eq :
    (s : Bytes) (st : Status)
    → pack_status s st
      ≡ s ++ (pack_uint32 [] st.status ++ (pack_string [] st.message ++ pack_string [] st.lang))
unfolding pack_status
pack_status-eq s st =
    pack_string-eq (pack_string (pack_uint32 s st.status) st.message) st.lang
    ∙ ap (λ y. y ++ pack_string [] st.lang)
        (pack_string-eq (pack_uint32 s st.status) st.message
          ∙ ap (λ y. y ++ pack_string [] st.message) (pack_uint32-eq s st.status))
    ∙ simp append_assoc

-- The fields fit their words.
pub record IsStatus (st : Status) : Type 0 where
  pub status : st.status < word_size
  pub message : length st.message < word_size
  pub lang : length st.lang < word_size

-- A status number and two strings, packed in this order behind a packet, are read back as the
-- status, if the number and the lengths are below 2^32.
pub unpack_status-pack_status :
    (before after : Bytes) (st : Status)
    → IsStatus st
    → unpack_status (pack_status before st ++ after) (length before)
      ≡ ok (st, length before + 4 + 4 + length st.message + 4 + length st.lang)
unfolding unpack_status
unpack_status-pack_status before after st v =
    let s = pack_status before st ++ after in
    let at : drop (length before) s
        ≡ pack_uint32 [] st.status
          ++ (pack_string [] st.message ++ (pack_string [] st.lang ++ after)) =
      ap (λ y. drop (length before) (y ++ after)) (pack_status-eq before st)
      ∙ behind before _ after
      ∙ simp append_assoc in
    let r1 = unpack_uint32_lem s (length before) st.status _ v.status at in
    let r2 = unpack_string_lem s _ st.message _ v.message r1.left in
    let r3 = unpack_string_lem s _ st.lang after v.lang r2.left in
    rw (r1.result, r2.result, r3.result) refl
