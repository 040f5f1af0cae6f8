-- ===== src/HashSet.antt =====
-- hash.cc and class HashSet of nhbackup.h: a set of hashes as a table of chains.
pub mod Laws
pub mod Counts
use hbackup.Prelude.{
  ℕ, zero, suc, ◌+◌, ◌%◌, [], ◌∷◌, List, Bool, true, false, length, Bytes, bytes_eq, same, ltb,
  ◌==◌, if◌then◌else◌,
}

-- HASHTABLE_SIZE
abbrev pub hashtable_size : ℕ
hashtable_size = 4194304

-- `nodes`: the chain of each bucket, the newest node first.
abbrev pub Table : Type 0
Table = ℕ → List Bytes

-- The constructor: every chain is empty.
unfoldable pub empty_table : Table
empty_table n = []

-- The walk of insert() and has() along a chain: whether it stops at a node of `h`.
unfoldable pub chain_has : Bytes → List Bytes → Bool
unfolding bytes_eq
chain_has h [] = false
chain_has h (k ∷ chain) = if same h k then true else chain_has h chain

-- `nodes[n] = np`
unfoldable pub set_chain : Table → ℕ → List Bytes → Table
set_chain t n chain m = if m == n then chain else t m

-- `word h` is `*(const size_t *)h`, the first bytes of a hash as a number of the machine.
module _ (word : Bytes → ℕ) where
  -- HashSet::hash()
  unfoldable pub hash : Bytes → ℕ
  hash h = word h % hashtable_size

  -- HashSet::insert()
  unfoldable pub insert : Bytes → Table → Table
  unfolding chain_has set_chain hash
  insert h t = if chain_has h (t (hash h)) then t else set_chain t (hash h) (h ∷ t (hash h))

  -- HashSet::has()
  unfoldable pub has : Bytes → Table → Bool
  unfolding chain_has hash
  has h t = chain_has h (t (hash h))

-- What stats() counts.
pub record Stats : Type 0 where
  pub nnodes : ℕ
  pub maxchain : ℕ
  pub nonemptybuckets : ℕ

-- A round of its loop, at one bucket.
unfoldable pub count_bucket : List Bytes → Stats → Stats
count_bucket [] s = s
count_bucket (k ∷ chain) s =
    let thischain = length (k ∷ chain) in
    record {
      nnodes = s.nnodes + thischain;
      maxchain = if ltb s.maxchain thischain then thischain else s.maxchain;
      nonemptybuckets = s.nonemptybuckets + 1;
    }

-- The loop over the first buckets.
unfoldable pub stats_below : ℕ → Table → Stats
unfolding count_bucket
stats_below zero t = record { nnodes = 0; maxchain = 0; nonemptybuckets = 0 }
stats_below (suc n) t = count_bucket (t n) (stats_below n t)

-- HashSet::stats(), without the printing.
unfoldable pub stats : Table → Stats
stats t = stats_below hashtable_size t
