-- ===== src/Sftp/Replies/Ids.antt =====
-- newid() of sftp.cc: the IDs of successive requests.
use Prim.Native.Nat.{◌<◌}
use hbackup.Prelude.{ℕ, zero, suc, ◌+◌, ◌≡◌, ◌≢◌, refl, arith}
use hbackup.Sftp.Wire.{word_size}
use hbackup.Sftp.Replies.{newid}

-- The member `id` after some calls of newid(), and the ID that the next call returns.
unfoldable pub after_calls : ℕ → ℕ → ℕ
after_calls zero n = n
after_calls (suc k) n = after_calls k (newid n).1

unfoldable pub nth_id : ℕ → ℕ
nth_id k = (newid (after_calls k 0)).0

newid_bounds : (n : ℕ) → n < word_size → (newid n).1 < word_size
unfolding newid
newid_bounds n h = ground arith

newid_next : (n : ℕ) → 0 < n → n + 1 < word_size → (newid n).1 ≡ n + 1
unfolding newid
newid_next n pos h = ground arith

newid_own : (n : ℕ) → 0 < n → (newid n).0 ≡ n
unfolding newid
newid_own n pos = ground arith

after_calls_lem : (k n : ℕ) → 0 < n → n + k < word_size → after_calls k n ≡ n + k
unfolding after_calls
after_calls_lem zero n pos h = omega arith
after_calls_lem (suc k) n pos h =
    let e : (newid n).1 ≡ n + 1 = newid_next n pos (omega arith) in
    rw e (omega (arith, after_calls_lem k (n + 1) (omega arith) (omega arith)))

nth_id_lem : (k : ℕ) → k + 1 < word_size → nth_id k ≡ k + 1
unfolding nth_id after_calls newid
nth_id_lem zero h = refl
nth_id_lem (suc k) h =
    let e : after_calls k 2 ≡ 2 + k = after_calls_lem k 2 (omega arith) (omega arith) in
    let two : 2 + k ≡ suc k + 1 = omega arith in rw (e, two) (newid_own (suc k + 1) (omega arith))

-- Of the first 2^32 - 1 requests, two different ones have different IDs, and none has the ID 0.
pub nth_id_injective :
    (j k : ℕ)
    → j + 1 < word_size
    → k + 1 < word_size
    → j ≢ k
    → (nth_id j ≢ nth_id k) × (nth_id j ≢ 0)
nth_id_injective j k hj hk ne =
    (omega (arith, nth_id_lem j hj, nth_id_lem k hk), omega (arith, nth_id_lem j hj))
