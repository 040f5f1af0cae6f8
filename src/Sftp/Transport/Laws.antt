-- ===== src/Sftp/Transport/Laws.antt =====
-- What follows from the laws of a connection of sftp.cc for operations one after another.
use hbackup.Prelude.{
  ℕ, ◌≡◌, ◌⊎◌, inl, inr, refl, ap, ◌∙◌, sym, [], ◌++◌, append_assoc, append-nil, Bytes,
}
use hbackup.Sftp.Transport.{Transport, Server, Continues}

module _ (T : Transport) (S : Server T) where
  open S use {Up, Answers, output}

  -- One operation after another.
  pub Continues-trans :
      {s s1 s2 : T.State} {a b : Bytes} {G H : ℕ → Type 0}
      → Continues T S s a G s1
      → Continues T S s1 b H s2
      → Continues T S s (a ++ b) (λ j. G j ⊎ H j) s2
  Continues-trans {s} {s1} {s2} {a} {b} c d = record {
    up = d.up;
    is_connected = d.is_connected ∙ c.is_connected;
    output_grows = d.output_grows ∙ ap (λ o. o ++ b) c.output_grows ∙ append_assoc (output s) a b;
    answers =
        λ j r other h. d.answers j r (λ g. other (inr g)) (c.answers j r (λ g. other (inl g)) h);
  }

  -- More replies may be gone.
  pub Continues-weaken :
      {s s1 : T.State} {a b : Bytes} {G H : ℕ → Type 0}
      → a ≡ b
      → ((j : ℕ) → G j → H j)
      → Continues T S s a G s1
      → Continues T S s b H s1
  Continues-weaken {s} e f c = record {
    up = c.up;
    is_connected = c.is_connected;
    output_grows = c.output_grows ∙ ap (λ o. output s ++ o) e;
    answers = λ j r other h. c.answers j r (λ g. other (f j g)) h;
  }

  pub Continues-refl : {s : T.State} → Up s → Continues T S s [] (λ _. ⊥) s
  Continues-refl u = record {
    up = u;
    is_connected = refl;
    output_grows = sym (append-nil _);
    answers = λ j r other h. h;
  }
