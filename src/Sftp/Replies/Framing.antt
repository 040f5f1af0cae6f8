-- ===== src/Sftp/Replies/Framing.antt =====
-- recv() of sftp.cc on a stream of packets, each behind its length.
use Prim.Native.Nat.{◌<◌}
use hbackup.Prelude.{
  ℕ, ◌%◌, ◌≡◌, inl, inr, refl, sym, ap, ◌∙◌, List, [], ◌++◌, append_assoc, append-nil, Bool, true,
  false, length, length-append, take, drop, take-append, drop-append, get_or, Bytes, arith, leb,
}
use hbackup.Outcome.{ok}
use hbackup.File.{Device, File, getbytes}
use hbackup.File.Read.{IsReader, stream, IsReadable}
use hbackup.File.Blocks.{getbytes-Block}
use hbackup.Sftp.Wire.{word_size, pack_uint32, pack_string}
use hbackup.Sftp.Wire.Laws.{length-pack_uint32, unpack_uint32_lem}
use hbackup.Sftp.Replies.{Session, recv_body, recv}

pub append_cancel {ℓ} :
    {A : Type ℓ} {xs ys zs ts : List A}
    → length xs ≡ length zs
    → xs ++ ys ≡ zs ++ ts
    → (xs ≡ zs) × (ys ≡ ts)
append_cancel {xs} {ys} {zs} {ts} n e = (
  sym (take-append xs ys)
      ∙ ap (take (length xs)) e
      ∙ ap (λ m. take m (zs ++ ts)) n
      ∙ take-append zs ts,
  sym (drop-append xs ys)
      ∙ ap (drop (length xs)) e
      ∙ ap (λ m. drop m (zs ++ ts)) n
      ∙ drop-append zs ts,
)

leb-false : (a b : ℕ) → b < a → leb a b ≡ false
leb-false a b h = ground arith

pub pack_string_split :
    (p t : Bytes)
    → length p < 2147483648
    → pack_string [] p ++ t ≡ pack_uint32 [] (length p) ++ (p ++ t)
unfolding pack_string
pack_string_split p t small =
    let fits : length p % word_size ≡ length p = omega arith in
    ap (λ n. (pack_uint32 [] n ++ p) ++ t) fits ∙ append_assoc (pack_uint32 [] (length p)) p t

module _ (V : Device) (R : IsReader V) where
  -- A read of a known prefix.
  getbytes_prefix :
      (max : ℕ) (x t : Bytes) (f : File V)
      → length x ≡ max
      → 0 < max
      → IsReadable V R f
      → stream V R f ≡ x ++ t
      → (g : File V) × (getbytes V max true f ≡ (ok x, g)) × (stream V R g ≡ t) × IsReadable V R g
  getbytes_prefix max x t f size pos v e =
      let (chunk, g, q, b) = getbytes-Block V R max true f pos v in
      let n : length chunk ≡ length x = elim (b.full refl) [
        | inl h ↦ h ∙ sym size
        | inr h ↦ omega (
          arith,
          b.small,
          ap length h,
          ap length e,
          ap length b.split,
          length-append chunk (stream V R g),
          length-append x t,
        )
      ] in
      let (same_bytes, same_rest) = append_cancel {xs = chunk} n (sym b.split ∙ e) in
      (g, rw q (ap (λ c. (ok c, g)) same_bytes), same_rest, b.readable)

  getbytes_word :
      (p t : Bytes) (f : File V)
      → length p < 2147483648
      → IsReadable V R f
      → stream V R f ≡ pack_string [] p ++ t
      → (g : File V) × (getbytes V 4 true f ≡ (ok (pack_uint32 [] (length p)), g))
        × (stream V R g ≡ p ++ t)
        × IsReadable V R g
  getbytes_word p t f small v e =
      getbytes_prefix 4 (pack_uint32 [] (length p)) (p ++ t) f (length-pack_uint32 (length p))
        (omega arith) v (e ∙ pack_string_split p t small)

  module _ (select : V.State → Bool × V.State) where
    -- What a session is once it has read up to `t`.
    pub record Received (s : Session V select) (t : Bytes) (s' : Session V select) : Type 0 where
      pub left : stream V R s'.input ≡ t
      pub readable : IsReadable V R s'.input
      pub same_output : s'.output ≡ s.output
      pub same_mailbox : s'.mailbox ≡ s.mailbox

    recv_body_lem :
        (p t : Bytes) (s : Session V select)
        → 0 < length p
        → IsReadable V R s.input
        → stream V R s.input ≡ p ++ t
        → (s' : Session V select) × (recv_body V select (length p) s ≡ (ok (get_or p 0 0, p), s'))
          × Received s t s'
    unfolding recv_body
    recv_body_lem p t s pos v e =
        let (f, q, left, w) = getbytes_prefix (length p) p t s.input refl pos v e in
        (
          record s { input = f },
          rw q (ground arith),
          record { left = left; readable = w; same_output = refl; same_mailbox = refl },
        )

    -- A packet behind its length is received whole, with its first byte as its type, and nothing
    -- behind it is taken. It has a byte at least, and its length is an `int`.
    pub recv-pack_string :
        (p t : Bytes) (s : Session V select)
        → 0 < length p
        → length p < 2147483648
        → IsReadable V R s.input
        → stream V R s.input ≡ pack_string [] p ++ t
        → (s' : Session V select) × (recv V select s ≡ (ok (get_or p 0 0, p), s')) × Received s t s'
    unfolding recv
    recv-pack_string p t s pos small v e =
        let word = pack_uint32 [] (length p) in
        let (f, q, left, w) = getbytes_word p t s.input small v e in
        let n = unpack_uint32_lem word 0 (length p) [] (omega arith) (sym (append-nil word)) in
        let fits : leb 2147483648 (length p) ≡ false = leb-false 2147483648 (length p) small in
        let (s', body, got) = recv_body_lem p t (record s { input = f }) pos w left in
        (
          s',
          rw (q, length-pack_uint32, n.result, fits) body,
          record {
            left = got.left;
            readable = got.readable;
            same_output = got.same_output;
            same_mailbox = got.same_mailbox;
          },
        )
