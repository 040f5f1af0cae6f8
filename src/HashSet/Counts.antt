-- ===== src/HashSet/Counts.antt =====
-- What stats() counts: a new hash adds a node, and a known one nothing.
use hbackup.Prelude.{
  ℕ, zero, suc, ◌+◌, ◌<◌, ◌≤◌, ◌≡◌, refl, ap, [], ◌∷◌, List, length, Bytes, bytes_eq, ◌==◌, ltb,
  if◌then◌else◌, arith, Bool-cases, ==_iff, inl, inr,
}
use hbackup.HashSet.{
  Table, chain_has, set_chain, hash, insert, has, hashtable_size, Stats, count_bucket, stats_below,
  stats,
}

nnodes_count_bucket :
    (chain : List Bytes) (s : Stats) → (count_bucket chain s).nnodes ≡ s.nnodes + length chain
unfolding count_bucket
nnodes_count_bucket [] s = omega arith
nnodes_count_bucket (k ∷ chain) s = refl

nnodes_step :
    (n : ℕ) (t : Table) → (stats_below (suc n) t).nnodes ≡ (stats_below n t).nnodes + length (t n)
unfolding stats_below
nnodes_step n t = nnodes_count_bucket (t n) (stats_below n t)

length-set_chain :
    (n b : ℕ) (h : Bytes) (t : Table)
    → length (set_chain t b (h ∷ t b) n) ≡ length (t n) + (if n == b then 1 else 0)
unfolding set_chain
length-set_chain n b h t = elim (Bool-cases (n == b)) [
  | inl e ↦ let here : n ≡ b = (==_iff n b).0 e in rw e (omega (arith, ap (λ m. length (t m)) here))
  | inr e ↦ rw e (omega arith)
]

-- A longer chain in one bucket adds one node if the bucket is among those counted.
nnodes-set_chain :
    (n b : ℕ) (h : Bytes) (t : Table)
    → (stats_below n (set_chain t b (h ∷ t b))).nnodes
      ≡ (stats_below n t).nnodes + (if ltb b n then 1 else 0)
nnodes-set_chain zero b h t = unfold stats_below in ground arith
nnodes-set_chain (suc n) b h t = ground (
  arith,
  nnodes_step n t,
  nnodes_step n (set_chain t b (h ∷ t b)),
  length-set_chain n b h t,
  nnodes-set_chain n b h t,
)

hash-lt : (word : Bytes → ℕ) (h : Bytes) → hash word h < hashtable_size
unfolding hash
hash-lt word h = omega arith

-- An insertion adds one node if the hash is new, and none if it is known.
pub nnodes-insert :
    (word : Bytes → ℕ) (h : Bytes) (t : Table)
    → (stats (insert word h t)).nnodes ≡ (stats t).nnodes + (if has word h t then 0 else 1)
unfolding insert has stats
nnodes-insert word h t = elim (Bool-cases (chain_has h (t (hash word h)))) [
  | inl e ↦ rw e (omega arith)
  | inr e ↦ rw e (ground (arith, nnodes-set_chain hashtable_size (hash word h) h t, hash-lt word h))
]

count_bucket_bounds :
    (chain : List Bytes) (s : Stats)
    → (s.maxchain ≤ s.nnodes) × (s.nonemptybuckets ≤ s.nnodes)
    → ((count_bucket chain s).maxchain ≤ (count_bucket chain s).nnodes)
      × ((count_bucket chain s).nonemptybuckets ≤ (count_bucket chain s).nnodes)
unfolding count_bucket
count_bucket_bounds [] s h = h
count_bucket_bounds (k ∷ chain) s h = ground arith

stats_below_bounds :
    (n : ℕ) (t : Table)
    → ((stats_below n t).maxchain ≤ (stats_below n t).nnodes)
      × ((stats_below n t).nonemptybuckets ≤ (stats_below n t).nnodes)
unfolding stats_below
stats_below_bounds zero t = (omega arith, omega arith)
stats_below_bounds (suc n) t = count_bucket_bounds (t n) (stats_below n t) (stats_below_bounds n t)

-- No chain is longer than the number of nodes, and no more buckets are filled than there are nodes.
pub stats_bounds :
    (t : Table)
    → ((stats t).maxchain ≤ (stats t).nnodes) × ((stats t).nonemptybuckets ≤ (stats t).nnodes)
unfolding stats
stats_bounds t = stats_below_bounds hashtable_size t
