-- ===== src/Recode/Whole.antt =====
-- Recode::convert() ends, and converts the whole text.
use hbackup.Prelude.{
  ℕ, zero, suc, ◌+◌, ◌<◌, ◌≡◌, refl, sym, ap, ◌∙◌, [], ◌∷◌, ◌++◌, append_assoc, append-nil, some,
  length, length-drop, drop-drop, drop, Bytes, arith,
}
use hbackup.Outcome.{ok}
use hbackup.Recode.{
  Ending, complete, invalid, full, undocumented, Answer, Iconv, convert_loop, convert,
}

-- What the rest of a text is to become, behind what a call has taken and written.
abbrev pub Continues :
    (I : Iconv)
    → (I.Descriptor → Bytes → Bytes)
    → I.Descriptor
    → Bytes
    → Answer I.Descriptor
    → Ending
    → Type 0
Continues I meaning cd s a complete = (drop a.taken s ≡ []) × (meaning cd s ≡ a.written)
Continues I meaning cd s a invalid =
    (a.taken < length s)
    × (meaning cd s ≡ a.written ++ b'?' ∷ meaning a.state (drop (a.taken + 1) s))
Continues I meaning cd s a full =
    (0 < a.taken) × (meaning cd s ≡ a.written ++ meaning a.state (drop a.taken s))
Continues I meaning cd s a undocumented = ⊥

-- What iconv() is taken to do: there is a meaning of every text in every state, and each call writes
-- the meaning of what it takes. It takes all of its input, or stops before a byte that begins
-- nothing, or has taken something before the buffer is full.
pub record IsIconv (I : Iconv) : Type 0 where
  pub meaning : I.Descriptor → Bytes → Bytes
  pub nothing : (cd : I.Descriptor) → meaning cd [] ≡ []
  pub continues :
      (cd : I.Descriptor) (c : ℕ) (s : Bytes)
      → Continues I meaning cd (c ∷ s) (I.run cd (c ∷ s)) (I.run cd (c ∷ s)).ending

module _ (I : Iconv) (L : IsIconv I) where
  Converts : ℕ → Type 0
  Converts fuel =
      (cd : I.Descriptor) (s r : Bytes)
      → length s < fuel
      → convert_loop I fuel cd s r ≡ ok (r ++ L.meaning cd s)

  convert_round :
      (fuel : ℕ) (cd : I.Descriptor) (c : ℕ) (s r : Bytes) (e : Ending)
      → Converts fuel
      → length (c ∷ s) < suc fuel
      → (I.run cd (c ∷ s)).ending ≡ e
      → Continues I L.meaning cd (c ∷ s) (I.run cd (c ∷ s)) e
      → convert_loop I (suc fuel) cd (c ∷ s) r ≡ ok (r ++ L.meaning cd (c ∷ s))
  unfolding Converts convert_loop
  convert_round fuel cd c s r complete again h e (left, m) =
      let a = I.run cd (c ∷ s) in
      rw (e, convert_loop)
        (again a.state (drop a.taken (c ∷ s)) (r ++ a.written) (omega (arith, ap length left))
          ∙ ap (λ t. ok t)
              (ap (λ t. (r ++ a.written) ++ L.meaning a.state t) left
                ∙ ap (λ t. (r ++ a.written) ++ t) (L.nothing a.state)
                ∙ append-nil (r ++ a.written)
                ∙ ap (λ t. r ++ t) (sym m)))
  convert_round fuel cd c s r invalid again h e (less, m) =
      let a = I.run cd (c ∷ s) in
      rw (e, convert_loop)
        (again a.state (drop 1 (drop a.taken (c ∷ s))) ((r ++ a.written) ++ b'?' ∷ []) (
            omega
              (arith, ap length (drop-drop a.taken 1 (c ∷ s)), length-drop (a.taken + 1) (c ∷ s)))
          ∙ ap (λ t. ok t)
              (ap (λ t. ((r ++ a.written) ++ b'?' ∷ []) ++ L.meaning a.state t)
                  (drop-drop a.taken 1 (c ∷ s))
                ∙ append_assoc (r ++ a.written) (b'?' ∷ []) _
                ∙ append_assoc r a.written _
                ∙ ap (λ t. r ++ t) (sym m)))
  convert_round fuel cd c s r full again h e (some_taken, m) =
      let a = I.run cd (c ∷ s) in
      rw (e, convert_loop)
        (again a.state (drop a.taken (c ∷ s)) (r ++ a.written)
            (omega (arith, length-drop a.taken (c ∷ s)))
          ∙ ap (λ t. ok t) (append_assoc r a.written _ ∙ ap (λ t. r ++ t) (sym m)))
  convert_round fuel cd c s r undocumented again h e l = absurd l

  convert_loop-Converts : (fuel : ℕ) → Converts fuel
  unfolding Converts convert_loop
  convert_loop-Converts zero cd s r h = absurd (omega arith)
  convert_loop-Converts (suc fuel) cd [] r h =
      ap (λ t. ok t) (sym (append-nil r) ∙ ap (λ t. r ++ t) (sym (L.nothing cd)))
  convert_loop-Converts (suc fuel) cd (c ∷ s) r h =
      convert_round fuel cd c s r (I.run cd (c ∷ s)).ending (convert_loop-Converts fuel) h refl
        (L.continues cd c s)

  -- With more fuel than there are bytes in the name, a conversion comes to an end, and its result is
  -- the meaning of the whole name from the first state, whichever pieces iconv() chooses to convert.
  pub convert-meaning :
      (fuel : ℕ) (cd : I.Descriptor) (s : Bytes)
      → length s < fuel
      → convert I fuel (some cd) s ≡ ok (L.meaning (I.reset cd) s)
  unfolding convert Converts
  convert-meaning fuel cd s h = convert_loop-Converts fuel (I.reset cd) s [] h
