-- ===== src/Tests/Oracle.antt =====
-- The reading of a remote file, at a server that answers by the ID alone.
use hbackup.Prelude.{
  ℕ, zero, suc, ◌+◌, ◌-◌, ◌*◌, ◌≡◌, refl, sym, ap, append-nil, [], ◌∷◌, ◌++◌, ◌==◌, if◌then◌else◌,
  Bool, true, false, take, drop, get_or, Bytes, codes, arith,
}
use hbackup.Outcome.{ok, fatal}
use hbackup.Sftp.Wire.{pack_string}
use hbackup.Sftp.Transport.{Transport, Server, IsTransport}
use hbackup.Sftp.Requests.{Client}
use hbackup.Filesystem.{directory}
use hbackup.Sftp.Replies.{newid}
use hbackup.Sftp.Requests.Types.{type}
use hbackup.Sftp.Requests.Probed.{IsProbed, type-finding}
use hbackup.Sftp.Requests.Probes.{Probe, refused, opened, bytes_of, Fits, found, finding}
use hbackup.Sftp.Transfers.{Transfer, new_transfer}
use hbackup.Sftp.Transfers.Ahead.{data_reply, offset_of, Promised}
use hbackup.Sftp.Transfers.Whole.{read_pieces, IsServedFile, read_pieces-content}

-- A file of three bytes, read two at a time from the ID 1 on.
unfoldable reply_to : ℕ → Bytes
reply_to id = data_reply id (take 2 (drop (offset_of 2 0 (id - 1)) (codes "abc")))

-- No reply has come before it is awaited.
abbrev never : ℕ → Bool
never id = false

-- A server by its reply to each request, and by what replies have come before they are awaited. The
-- state is what was sent.
abbrev pub oracle_of : (ℕ → Bool) → (ℕ → Bytes) → Transport
oracle_of come reply = record {
  State = Bytes;
  connected = λ s. true;
  connect = λ s. (ok tt, s);
  send = λ cmd s. (ok tt, s ++ pack_string [] cmd);
  flush = λ s. (ok tt, s);
  recv = λ s. (fatal, s);
  await = λ id s. (ok (get_or (reply id) 0 0, reply id), s);
  ignore = λ id s. s;
  ready = λ id s. come id;
}

abbrev pub told_by : (come : ℕ → Bool) (reply : ℕ → Bytes) → Server (oracle_of come reply)
told_by come reply = record {
  Up = λ s. Unit;
  Answers = λ s id r. reply id ≡ r;
  output = λ s. s;
  received = λ s. s;
}

pub oracle_of-IsTransport :
    (come : ℕ → Bool) (reply : ℕ → Bytes) → IsTransport (oracle_of come reply) (told_by come reply)
oracle_of-IsTransport come reply = record {
  sends = λ cmd s u. (
    s ++ pack_string [] cmd,
    refl,
    record { up = tt; is_connected = refl; output_grows = refl; answers = λ j r o h. h },
  );
  flushes = λ s u. (
    s,
    refl,
    record {
      up = tt;
      is_connected = refl;
      output_grows = sym (append-nil s);
      answers = λ j r o h. h;
    },
  );
  delivers = λ s u. refl;
  awaits = λ id r s u a. (
    s,
    ap (λ b. (ok (get_or b 0 0, b), s)) a,
    record {
      up = tt;
      is_connected = refl;
      output_grows = sym (append-nil s);
      answers = λ j r o h. h;
    },
  );
  ignores = λ id s u. record {
    up = tt;
    is_connected = refl;
    output_grows = sym (append-nil s);
    answers = λ j r o h. h;
  };
}

abbrev oracle : Transport
oracle = oracle_of never reply_to

abbrev told : Server oracle
told = told_by never reply_to

abbrev reader : Client oracle
reader = record { link = []; id = 1; existence_inflight = []; existence = []; posix_rename = true }

offset_of-two : (o i : ℕ) → offset_of 2 o i ≡ o + 2 * i
unfolding offset_of
offset_of-two o zero = omega arith
offset_of-two o (suc i) = omega (arith, offset_of-two (o + 2) i)

reader-IsServedFile :
    IsServedFile oracle told
      (oracle_of-IsTransport never reply_to)
      2
      (codes "abc")
      (codes "h")
      reader
      12
unfolding reply_to Promised
reader-IsServedFile = record {
  up = tt;
  positive = omega arith;
  enough = omega arith;
  small_ids = omega arith;
  small_offsets = λ i h. omega (arith, h, offset_of-two 0 i);
  promise = λ i m few room l Gone fresh go.
      let e : 1 + i - 1 ≡ i = omega arith in
      ap (λ n. data_reply (1 + i) (take 2 (drop (offset_of 2 0 n) (codes "abc")))) e;
}

read_pieces-content_example :
    (t : Transfer oracle) × (read_pieces oracle 4 2 (new_transfer oracle (codes "h") reader)
      ≡ (ok (codes "abc"), t))
read_pieces-content_example =
    read_pieces-content oracle told (oracle_of-IsTransport never reply_to) 2 (codes "abc") 4
      (codes "h") reader 12 (omega arith) (omega arith) (omega arith) reader-IsServedFile

-- A directory: the opening as a file fails with the status 4.
abbrev not_a_file : Probe
not_a_file = refused (record { status = 4; message = []; lang = [] })

unfoldable probe_reply : ℕ → Bytes
probe_reply id =
    if id == 1
    then bytes_of 1 not_a_file
    else if id == 2
    then bytes_of 2 (opened (codes "h"))
    else 101 ∷ []

abbrev prober : Client (oracle_of never probe_reply)
prober = record { link = []; id = 0; existence_inflight = []; existence = []; posix_rename = true }

prober-IsProbed :
    IsProbed
      (oracle_of never probe_reply)
      (told_by never probe_reply)
      (oracle_of-IsTransport never probe_reply)
      (codes "d")
      prober
      not_a_file
      (opened (codes "h"))
      false
unfolding probe_reply newid Fits
prober-IsProbed = record {
  is_connected = refl;
  up = tt;
  small = omega arith;
  readlink = 101 ∷ [];
  answered = λ l go. (refl, refl, refl);
  is_link = refl;
  openfile_fits = record { status = omega arith; message = omega arith; lang = omega arith };
  opendir_fits = omega arith;
}

type-finding_example :
    (c : Client (oracle_of never probe_reply)) × (type
        (oracle_of never probe_reply)
        (codes "d")
        prober
      ≡ (ok directory, c))
unfolding finding found
type-finding_example =
    type-finding (oracle_of never probe_reply) (told_by never probe_reply)
      (oracle_of-IsTransport never probe_reply) (codes "d") prober not_a_file (opened (codes "h"))
      false prober-IsProbed
