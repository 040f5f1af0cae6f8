-- ===== src/Sftp/Link/Answered.antt =====
-- The replies of sftp.cc that are still to be taken: by the requests they belong to, whether they
-- have come or are still to come.
use hbackup.Prelude.{
  ℕ, ◌≡◌, ◌≢◌, ◌⊎◌, inl, inr, refl, ap, ◌∙◌, [], ◌∷◌, ◌++◌, List, All, some, Bytes, arith, nat_eq,
}
use hbackup.Prelude.Dict
use hbackup.Sftp.Replies.{Mailbox, is_ignored, deliver, ignore}
use hbackup.Sftp.Replies.Awaiting.{
  Packet, deliver_all, claimed, IsOpen, deliver-IsOpen, deliver-own,
}

abbrev pub Others : ℕ → List Packet → Type 0
Others j qs = All (λ q. q.id ≢ j) qs

-- Of the packets, one is the reply to the request.
abbrev pub Once : ℕ → Bytes → List Packet → Type 0
Once j r [] = ⊥
Once j r (q ∷ qs) = ((q.id ≡ j) × (q.bytes ≡ r) × Others j qs) ⊎ ((q.id ≢ j) × Once j r qs)

-- The reply has come, or is one of those still to come and will not be ignored. It is the only one.
abbrev pub Answered : ℕ → Bytes → Mailbox → List Packet → Type 0
Answered j r m qs = ((Dict.lookup j m.replies ≡ some r) × Others j qs) ⊎ (IsOpen j m × Once j r qs)

pub deliver_keeps :
    (j k : ℕ) (reply : Bytes) (m : Mailbox)
    → k ≢ j
    → Dict.lookup j (deliver k reply m).replies ≡ Dict.lookup j m.replies
unfolding deliver
deliver_keeps j k reply m other = ground (arith, Dict.lookup-insert j k reply m.replies)

Answered-deliver :
    (j : ℕ) (r : Bytes) (q : Packet) (qs : List Packet) (m : Mailbox)
    → Answered j r m (q ∷ qs)
    → Answered j r (deliver q.id q.bytes m) qs
Answered-deliver j r q qs m (inl (h, (ne, rest))) =
    inl (deliver_keeps j q.id q.bytes m ne ∙ h, rest)
Answered-deliver j r q qs m (inr (v, inl (e, b, rest))) =
    inl (rw (e, b) (deliver-own j r m v), rest)
Answered-deliver j r q qs m (inr (v, inr (ne, once))) =
    inr (deliver-IsOpen j q.id q.bytes m ne v, once)

-- Receiving replies keeps the others.
pub Answered-deliver_all :
    (j : ℕ) (r : Bytes) (before qs : List Packet) (m : Mailbox)
    → Answered j r m (before ++ qs)
    → Answered j r (deliver_all before m) qs
unfolding deliver_all
Answered-deliver_all j r [] qs m a = a
Answered-deliver_all j r (q ∷ before) qs m a =
    Answered-deliver_all j r before qs (deliver q.id q.bytes m)
      (Answered-deliver j r q (before ++ qs) m a)

-- Taking one reply keeps the others.
pub Answered-claimed :
    (j id : ℕ) (r : Bytes) (qs : List Packet) (m : Mailbox)
    → j ≢ id
    → Answered j r m qs
    → Answered j r (claimed id m) qs
unfolding is_ignored
Answered-claimed j id r qs m ne (inl (h, rest)) =
    inl (ground (arith, h, Dict.lookup-erase j id m.replies), rest)
Answered-claimed j id r qs m ne (inr (v, once)) = inr (
  record {
    no_reply = ground (arith, v.no_reply, Dict.lookup-erase j id m.replies);
    wanted = v.wanted;
  },
  once,
)

-- Ignoring one reply keeps the others.
pub Answered-ignore :
    (j id : ℕ) (r : Bytes) (qs : List Packet) (m : Mailbox)
    → j ≢ id
    → Answered j r m qs
    → Answered j r (ignore id m) qs
unfolding is_ignored ignore
Answered-ignore j id r qs m ne (inl (h, rest)) =
    inl (ground (arith, h, Dict.lookup-erase j id m.replies), rest)
Answered-ignore j id r qs m ne (inr (v, once)) = inr (
  record {
    no_reply = ground (arith, v.no_reply, Dict.lookup-erase j id m.replies);
    wanted = ground (arith, v.wanted, Dict.lookup-insert j id tt m.ignored);
  },
  once,
)

-- A reply that is to come, with the packets before and behind it.
pub record Split (j : ℕ) (r : Bytes) (qs : List Packet) : Type 0 where
  pub before : List Packet
  pub own : Packet
  pub after : List Packet
  pub whole : qs ≡ before ++ own ∷ after
  pub has_id : own.id ≡ j
  pub has_bytes : own.bytes ≡ r
  pub others : Others j before

pub split : (j : ℕ) (r : Bytes) (qs : List Packet) → Once j r qs → Split j r qs
split j r [] x = absurd x
split j r (q ∷ qs) (inl (e, b, rest)) = record {
  before = [];
  own = q;
  after = qs;
  whole = refl;
  has_id = e;
  has_bytes = b;
  others = tt;
}
split j r (q ∷ qs) (inr (ne, once)) =
    let s = split j r qs once in
    record {
      before = q ∷ s.before;
      own = s.own;
      after = s.after;
      whole = ap (λ t. q ∷ t) s.whole;
      has_id = s.has_id;
      has_bytes = s.has_bytes;
      others = (ne, s.others);
    }
