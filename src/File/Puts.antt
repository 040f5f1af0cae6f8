-- ===== src/File/Puts.antt =====
-- file.cc: File::put() on a device that takes so many bytes more.
use hbackup.Prelude.{
  ℕ, suc, ◌+◌, ◌<◌, ◌≡◌, refl, sym, ap, subst, ◌∙◌, [], ◌∷◌, ◌++◌, append_assoc, append-nil, false,
  length, length-append, Bytes, arith, Bool-cases, inl, inr,
}
use hbackup.Outcome.{ok, and_then}
use hbackup.File.{
  Device, Mode, idle, reading, writing, File, buffer_size, flush, is_full, store_byte, put, put_all,
}
use hbackup.File.Taker.{IsTaker, IsWritable, text, flush_able}

module _ (V : Device) (W : IsTaker V) where
  open W use {Able, written}

  abbrev content : File V → Bytes
  content = text V W

  store_byte_lem :
      (c : ℕ) (f : File V)
      → f.mode ≡ writing
      → length f.buffered < buffer_size
      → (content (store_byte V c f) ≡ content f ++ c ∷ [])
        × IsWritable V (store_byte V c f)
        × ((store_byte V c f).device ≡ f.device)
        × (length (store_byte V c f).buffered ≡ length f.buffered + 1)
  store_byte_lem c f m n =
      let stored : store_byte V c f ≡ record f { buffered = f.buffered ++ c ∷ [] } =
        unfold store_byte in ground arith in
      rw stored (
        sym (append_assoc (written f.device) f.buffered (c ∷ [])),
        record {
          not_reading = λ e. cc (m, e);
          idle_empty = λ e. cc (m, e);
          fits = omega (arith, length-append f.buffered (c ∷ []));
        },
        refl,
        length-append f.buffered (c ∷ []),
      )

  room :
      (f : File V)
      → IsWritable V f
      → is_full V f ≡ false
      → (f.mode ≡ writing) × (length f.buffered < buffer_size)
  unfolding is_full
  room f v e = go f.mode refl
    where
      go : (m : Mode) → f.mode ≡ m → (f.mode ≡ writing) × (length f.buffered < buffer_size)
      go idle q = absurd (ground (arith, ap length (v.idle_empty q)))
      go reading q = absurd (v.not_reading q)
      go writing q = (q, ground arith)

  -- put() adds the byte, flushing a full buffer first.
  put_able :
      (c : ℕ) (f : File V) (n : ℕ)
      → IsWritable V f
      → Able f.device (length f.buffered + suc n)
      → (g : File V) × (put V c f ≡ (ok tt, g))
        × (content g ≡ content f ++ c ∷ [])
        × IsWritable V g
        × Able g.device (length g.buffered + n)
  unfolding put
  put_able c f n v a = elim (Bool-cases (is_full V f)) [
    | inl e ↦
        let (g, q, all, w, b) = flush_able V W f (suc n) v a in
        let (t, u, same_device, longer) =
          store_byte_lem c g w.is_writing (rw w.empty (omega arith)) in
        let flushed : content g ≡ content f =
          ap (λ s. written g.device ++ s) w.empty ∙ append-nil _ ∙ all in
        let one : suc n ≡ length (store_byte V c g).buffered + n =
          omega (arith, longer, ap length w.empty) in
        (
          store_byte V c g,
          rw (e, q),
          t ∙ ap (λ s. s ++ c ∷ []) flushed,
          u,
          subst (λ d. Able d (length (store_byte V c g).buffered + n)) (sym same_device)
              (subst (λ k. Able g.device k) one b),
        )
    | inr e ↦
        let (m, k) = room f v e in
        let (t, u, same_device, longer) = store_byte_lem c f m k in
        let one : length f.buffered + suc n ≡ length (store_byte V c f).buffered + n =
          omega (arith, longer) in
        (
          store_byte V c f,
          rw e,
          t,
          u,
          subst (λ d. Able d (length (store_byte V c f).buffered + n)) (sym same_device)
              (subst (λ k. Able f.device k) one a),
        )
  ]

  -- A string is put byte by byte, through as many flushes as it takes.
  pub put_all-able :
      (s : Bytes) (f : File V) (n : ℕ)
      → IsWritable V f
      → Able f.device (length f.buffered + (length s + n))
      → (g : File V) × (put_all V s f ≡ (ok tt, g))
        × (content g ≡ content f ++ s)
        × IsWritable V g
        × Able g.device (length g.buffered + n)
  unfolding put_all
  put_all-able [] f n v a =
      let e : 0 + n ≡ n = omega arith in
      (f, refl, sym (append-nil _), v, subst (λ k. Able f.device (length f.buffered + k)) e a)
  put_all-able (c ∷ s) f n v a =
      let e : length (c ∷ s) + n ≡ suc (length s + n) = omega arith in
      let (g, q, t, u, b) =
        put_able c f (length s + n) v (subst (λ k. Able f.device (length f.buffered + k)) e a) in
      let (h, p, t2, u2, b2) = put_all-able s g n u b in
      (h, rw q p, t2 ∙ ap (λ x. x ++ s) t ∙ append_assoc (content f) (c ∷ []) s, u2, b2)

  -- A string is put, and the file is flushed.
  pub flush-put_all_able :
      (s : Bytes) (f : File V) (n : ℕ)
      → IsWritable V f
      → Able f.device (length f.buffered + (length s + n))
      → (g : File V) × (and_then (put_all V s f) (λ _ h. flush V h) ≡ (ok tt, g))
        × (written g.device ≡ content f ++ s)
        × (g.buffered ≡ [])
        × Able g.device n
  flush-put_all_able s f n v a =
      let (g, q, t, u, b) = put_all-able s f n v a in
      let (h, p, all, w, b2) = flush_able V W g n u b in (h, rw q p, all ∙ t, w.empty, b2)
