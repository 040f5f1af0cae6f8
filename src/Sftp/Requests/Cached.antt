-- ===== src/Sftp/Requests/Cached.antt =====
-- sftp.cc: what is known of the existence of paths, and what has been asked for.
use hbackup.Prelude.{
  ℕ, ◌≡◌, ◌⊎◌, inl, inr, refl, sym, ap, subst, ◌∙◌, [], ◌∷◌, ◌++◌, List, Bool, true, none, some,
  Bytes, bytes_eq, same, same_self, same→eq, Bool-cases,
}
use hbackup.Prelude.Dict
use hbackup.Prelude.Dict.{Dict}

-- The request is in flight, and a request for the path is.
abbrev pub InFlight : ℕ → List (ℕ × Bytes) → Type 0
InFlight j [] = ⊥
InFlight j ((id, path) ∷ rest) = (j ≡ id) ⊎ InFlight j rest

abbrev pub AskedFor : Bytes → List (ℕ × Bytes) → Type 0
AskedFor p [] = ⊥
AskedFor p ((id, path) ∷ rest) = (p ≡ path) ⊎ AskedFor p rest

pub InFlight-append :
    (j id : ℕ) (path : Bytes) (es : List (ℕ × Bytes))
    → InFlight j (es ++ (id, path) ∷ [])
    → InFlight j es ⊎ (j ≡ id)
InFlight-append j id path [] (inl e) = inr e
InFlight-append j id path [] (inr h) = absurd h
InFlight-append j id path (e ∷ es) (inl h) = inl (inl h)
InFlight-append j id path (e ∷ es) (inr h) = elim (InFlight-append j id path es h) [
  | inl k ↦ inl (inr k)
  | inr k ↦ inr k
]

-- What is known of the existence of paths is true.
abbrev pub IsTrue : (Bytes → Bool) → Dict Bytes Bool → Type 0
IsTrue present d = (p : Bytes) (b : Bool) → Dict.lookup p d ≡ some b → b ≡ present p

-- It is known, or a request for it is in flight.
abbrev pub Covered : Bytes → List (ℕ × Bytes) → Dict Bytes Bool → Type 0
Covered p es d = ((b : Bool) × (Dict.lookup p d ≡ some b)) ⊎ AskedFor p es

pub IsTrue-insert :
    (present : Bytes → Bool) (path : Bytes) (d : Dict Bytes Bool)
    → IsTrue present d
    → IsTrue present (Dict.insert path (present path) d)
IsTrue-insert present path d h p b e = elim (Bool-cases (same p path)) [
  | inl s ↦
      let k : Dict.lookup p (Dict.insert path (present path) d) ≡ some (present path) =
        rw (Dict.lookup-insert, s) refl in
      cc (e, k, ap present (same→eq p path s))
  | inr s ↦
      let k : Dict.lookup p (Dict.insert path (present path) d) ≡ Dict.lookup p d =
        rw (Dict.lookup-insert, s) refl in
      h p b (sym k ∙ e)
]

pub IsTrue-erase :
    (present : Bytes → Bool) (path : Bytes) (d : Dict Bytes Bool)
    → IsTrue present d
    → IsTrue present (Dict.erase path d)
IsTrue-erase present path d h p b e = elim (Bool-cases (same p path)) [
  | inl s ↦
      let k : Dict.lookup p (Dict.erase path d) ≡ none = rw (Dict.lookup-erase, s) refl in cc (e, k)
  | inr s ↦
      let k : Dict.lookup p (Dict.erase path d) ≡ Dict.lookup p d =
        rw (Dict.lookup-erase, s) refl in
      h p b (sym k ∙ e)
]

pub Covered-insert :
    (p : Bytes) (id : ℕ) (path : Bytes) (b : Bool) (rest : List (ℕ × Bytes)) (d : Dict Bytes Bool)
    → Covered p ((id, path) ∷ rest) d
    → Covered p rest (Dict.insert path b d)
Covered-insert p id path b rest d (inl (v, e)) = inl (elim (Bool-cases (same p path)) [
  | inl s ↦ (b, rw (Dict.lookup-insert, s) refl)
  | inr s ↦ (v, rw (Dict.lookup-insert, s) e)
])
Covered-insert p id path b rest d (inr (inl e)) =
    let s : same p path ≡ true = subst (λ q. same p q ≡ true) e (same_self p) in
    inl (b, rw (Dict.lookup-insert, s) refl)
Covered-insert p id path b rest d (inr (inr h)) = inr h
