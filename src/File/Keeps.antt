-- ===== src/File/Keeps.antt =====
-- What writing through the buffer leaves as it is, whatever the methods of the device answer.
use hbackup.Prelude.{ℕ, ◌≡◌, refl, [], ◌∷◌, Bytes, Bool-cases, inl, inr}
use hbackup.Outcome.{ok, and_then_keeps}
use hbackup.File.{
  Device, Mode, idle, reading, writing, File, write_out, reset_buffer, flush, is_full, store_byte,
  put, put_all,
}

-- `P` holds of the states of the device that writing leaves if it held before.
module _ (V : Device) (P : V.State → Type 0) where
  pub record IsKept : Type 0 where
    pub write : (d : V.State) (s : Bytes) → P d → P (V.writebytes d s).1
    pub sync : (d : V.State) → P d → P (V.synchronize d).1

  module _ (k : IsKept) where
    store_byte_keeps : (c : ℕ) (f : File V) → P f.device → P (store_byte V c f).device
    unfolding store_byte
    store_byte_keeps c f p = go f.mode refl
      where
        go : (m : Mode) → f.mode ≡ m → P (store_byte V c f).device
        go idle e = rw (e, store_byte) p
        go reading e = rw (e, store_byte) p
        go writing e = rw (e, store_byte) p

    write_out_keeps : (f : File V) → P f.device → P (write_out V f).1.device
    unfolding write_out
    write_out_keeps f p = go f.buffered refl
      where
        go : (b : Bytes) → f.buffered ≡ b → P (write_out V f).1.device
        go [] e = rw (e, write_out) p
        go (c ∷ b) e = rw (e, write_out) (k.write f.device (c ∷ b) p)

    pub flush_keeps : (f : File V) → P f.device → P (flush V f).1.device
    unfolding flush reset_buffer
    flush_keeps f p = go f.mode refl
      where
        go : (m : Mode) → f.mode ≡ m → P (flush V f).1.device
        go idle e = rw (e, flush) (k.sync f.device p)
        go reading e = rw (e, flush) p
        go writing e =
            rw (e, flush)
              (and_then_keeps (λ g. P g.device) (write_out V f) (λ _ g. reset_buffer V g)
                (write_out_keeps f p) (λ _ g h. k.sync g.device h))

    put_keeps : (c : ℕ) (f : File V) → P f.device → P (put V c f).1.device
    unfolding put
    put_keeps c f p = elim (Bool-cases (is_full V f)) [
      | inl e ↦ rw e (
          and_then_keeps (λ g. P g.device) (flush V f) (λ _ g. (ok tt, store_byte V c g))
            (flush_keeps f p) (λ _ g h. store_byte_keeps c g h))
      | inr e ↦ rw e (store_byte_keeps c f p)
    ]

    pub put_all_keeps : (s : Bytes) (f : File V) → P f.device → P (put_all V s f).1.device
    unfolding put_all
    put_all_keeps [] f p = p
    put_all_keeps (c ∷ s) f p =
        and_then_keeps (λ g. P g.device) (put V c f) (λ _ g. put_all V s g) (put_keeps c f p)
          (λ _ g h. put_all_keeps s g h)
