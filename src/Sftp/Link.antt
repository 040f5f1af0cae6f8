-- ===== src/Sftp/Link.antt =====
-- sftp.cc: SftpFilesystem's connection as the transport that its requests use: connect(), send(),
-- recv(), await(), ignore() and ready() on its two files.
pub mod Packets
pub mod Answered
pub mod Polling
pub mod Serving
pub mod Ordering
use hbackup.Prelude.{ℕ, [], Bool, true, Bytes}
use hbackup.Outcome.{Result, ok, and_then}
use hbackup.File.{Device, new_file, flush}
use hbackup.Sftp.Replies.{Mailbox, Session, recv, await, ignore, ready, send}
use hbackup.Sftp.Transport.{Transport}

-- `server` is what the calls of pipe(), fork() and exec() in connect() come to: the descriptors to
-- read from and to write to. The fuel bounds the packets that one operation reads.
module _ (V : Device) (select : V.State → Bool × V.State) (server : Result (V.State × V.State))
    (fuel : ℕ) where
  -- `in` and `out` are there once `connected`.
  pub record Link : Type 0 where
    pub connected : Bool
    pub session : Session V select

  -- An operation on the session.
  unfoldable pub on_session :
      {A : Type 0} → (Session V select → Result A × Session V select) → Link → Result A × Link
  on_session f l = let (r, s) = f l.session in (r, record l { session = s })

  -- SftpFilesystem::connect()
  unfoldable pub connect : Link → Result (Unit {0}) × Link
  connect l =
      and_then (server, l)
        λ d l1. (
          ok tt,
          record {
            connected = true;
            session = record {
              input = new_file d.0;
              output = new_file d.1;
              mailbox = l1.session.mailbox;
            };
          },
        )

  -- `out->flush()`
  unfoldable pub flush_output : Session V select → Result (Unit {0}) × Session V select
  unfolding flush
  flush_output s = let (r, f) = flush V s.output in (r, record s { output = f })

  unfoldable pub link_transport : Transport
  unfolding on_session connect flush_output recv await send ignore ready
  link_transport = record {
    State = Link;
    connected = λ l. l.connected;
    connect = connect;
    send = λ cmd. on_session (send V select fuel cmd);
    flush = on_session flush_output;
    recv = on_session (recv V select);
    await = λ id. on_session (await V select fuel id);
    ignore =
        λ id l. record l { session = record l.session { mailbox = ignore id l.session.mailbox } };
    ready = λ id l. ready id l.session.mailbox;
  }
