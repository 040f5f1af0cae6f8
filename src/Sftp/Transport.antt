-- ===== src/Sftp/Transport.antt =====
-- sftp.cc: what the requests of SftpFilesystem and SftpFile use of the connection to the server, and
-- what they rely on.
pub mod Laws
use hbackup.Prelude.{ℕ, ◌≡◌, [], ◌++◌, Bool, get_or, Bytes}
use hbackup.Outcome.{Result, ok}
use hbackup.Sftp.Wire.{pack_string}

-- `in != 0`, connect(), send(), `out->flush()`, recv(), await(), ignore() and ready().
pub record Transport : Type 1 where
  pub State : Type 0
  pub connected : State → Bool
  pub connect : State → Result (Unit {0}) × State
  pub send : Bytes → State → Result (Unit {0}) × State
  pub flush : State → Result (Unit {0}) × State
  pub recv : State → Result (ℕ × Bytes) × State
  pub await : ℕ → State → Result (ℕ × Bytes) × State
  pub ignore : ℕ → State → State
  pub ready : ℕ → State → Bool

module _ (T : Transport) where
  -- `Answers s id r`: the server's reply to the request `id` is `r`, come or still to come.
  -- `output s` is all that was sent, and `received s` what has left for the server.
  pub record Server : Type 1 where
    pub Up : T.State → Type 0
    pub Answers : T.State → ℕ → Bytes → Type 0
    pub output : T.State → Bytes
    pub received : T.State → Bytes

  module _ (S : Server) where
    open S use {Up, Answers, output, received}

    -- The connection goes on, with what was sent added, and the same answers but to the IDs that
    -- are `Gone`.
    pub record Continues (s : T.State) (sent : Bytes) (Gone : ℕ → Type 0) (s' : T.State)
        : Type 0 where
      pub up : Up s'
      pub is_connected : T.connected s' ≡ T.connected s
      pub output_grows : output s' ≡ output s ++ sent
      pub answers : (j : ℕ) (r : Bytes) → (¬ Gone j) → Answers s j r → Answers s' j r

    -- The connection is up: what is sent is put out, behind its length, all of it has left for the
    -- server after a flush, and an answer is received whole, once.
    pub record IsTransport : Type 0 where
      pub sends :
          (cmd : Bytes) (s : T.State)
          → Up s
          → (s' : T.State) × (T.send cmd s ≡ (ok tt, s'))
            × Continues s (pack_string [] cmd) (λ _. ⊥) s'
      pub flushes :
          (s : T.State)
          → Up s
          → (s' : T.State) × (T.flush s ≡ (ok tt, s')) × Continues s [] (λ _. ⊥) s'
      pub delivers : (s : T.State) → Up s → received (T.flush s).1 ≡ output s
      pub awaits :
          (id : ℕ) (r : Bytes) (s : T.State)
          → Up s
          → Answers s id r
          → (s' : T.State) × (T.await id s ≡ (ok (get_or r 0 0, r), s'))
            × Continues s [] (λ j. j ≡ id) s'
      pub ignores : (id : ℕ) (s : T.State) → Up s → Continues s [] (λ j. j ≡ id) (T.ignore id s)
