-- ===== src/HashSet/Laws.antt =====
-- The table is a set: it has what was inserted, each once.
use hbackup.Prelude.{
  ℕ, ◌≡◌, refl, [], ◌∷◌, ◌++◌, List, Bool, false, ◌||◌, Bytes, bytes_eq, same, ◌==◌, arith,
  Bool-cases, ==_iff, sym, subst, inl, inr,
}
use hbackup.HashSet.{Table, empty_table, chain_has, hash, insert, has}

module _ (word : Bytes → ℕ) where
  -- After an insertion the table has the new hash and what it had, and nothing else.
  has-insert : (h k : Bytes) (t : Table) → has word k (insert word h t) ≡ (same k h || has word k t)
  unfolding has insert
  has-insert h k t = ground arith

  -- Insertion of a list, as a loop over it makes it.
  unfoldable pub insert_all : List Bytes → Table → Table
  insert_all [] t = t
  insert_all (h ∷ hs) t = insert_all hs (insert word h t)

  pub insert_all-append :
      (hs ks : List Bytes) (t : Table) → insert_all (hs ++ ks) t ≡ insert_all ks (insert_all hs t)
  unfolding insert_all
  insert_all-append [] ks t = refl
  insert_all-append (h ∷ hs) ks t = insert_all-append hs ks (insert word h t)

  unfoldable pub member : Bytes → List Bytes → Bool
  member k [] = false
  member k (h ∷ hs) = same k h || member k hs

  has-insert_all_onto :
      (hs : List Bytes) (k : Bytes) (t : Table)
      → has word k (insert_all hs t) ≡ (member k hs || has word k t)
  unfolding insert_all member
  has-insert_all_onto [] k t = refl
  has-insert_all_onto (h ∷ hs) k t =
      ground (arith, has-insert_all_onto hs k (insert word h t), has-insert h k t)

  -- A table filled from a list has exactly the hashes of the list.
  pub has-insert_all :
      (hs : List Bytes) (k : Bytes) → has word k (insert_all hs empty_table) ≡ member k hs
  has-insert_all hs k = ground (arith, has-insert_all_onto hs k empty_table, has_empty k)
    where
      has_empty : (k : Bytes) → has word k empty_table ≡ false
      has_empty k = unfold has empty_table in refl

  -- Each node stands in the bucket of its hash, and no chain has two nodes of one hash.
  abbrev pub IsChain : ℕ → List Bytes → Type 0
  IsChain n [] = Unit
  IsChain n (k ∷ chain) = (hash word k ≡ n) × (chain_has k chain ≡ false) × IsChain n chain

  abbrev pub IsTable : Table → Type 0
  IsTable t = (n : ℕ) → IsChain n (t n)

  -- Insertion keeps every node in the bucket of its hash, and every chain free of duplicates.
  pub insert-IsTable : (h : Bytes) (t : Table) → IsTable t → IsTable (insert word h t)
  unfolding insert
  insert-IsTable h t v n = elim (Bool-cases (chain_has h (t (hash word h)))) [
    | inl e ↦ rw e (v n)
    | inr e ↦ elim (Bool-cases (n == hash word h)) [
      | inl q ↦
          let here : n ≡ hash word h = (==_iff n (hash word h)).0 q in
          rw (e, q)
            (subst (λ m. IsChain m (h ∷ t (hash word h))) (sym here) (refl, e, v (hash word h)))
      | inr q ↦ rw (e, q) (v n)
    ]
  ]

  pub empty-IsTable : IsTable empty_table
  unfolding empty_table
  empty-IsTable n = tt
