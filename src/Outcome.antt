-- ===== src/Outcome.antt =====
-- exceptions.cc, and `fatal`, `warning` and `error` of utils.cc: how an operation ends, and the two
-- counters of globals.cc that main() turns into the exit status.
pub mod Texts
use hbackup.Prelude.{ℕ, ◌+◌, ◌≡◌, refl, Bytes}

-- The exception classes. A FileError carries its errno, an SftpFileError that and the status word.
pub data Exception : Type 0 where
  file_error : ℕ → Exception
  sftp_file_error : ℕ → ℕ → Exception
  read_only_file write_only_file bad_hex_digit : Exception
  bad_hex : Bytes → Exception
  hash_error : ℕ → Exception
  bad_index_file : Bytes → Exception
  -- std::out_of_range, which string::at throws
  out_of_range : Exception
  -- std::length_error, which string::resize throws
  length_error : Exception

-- A value, an exception on its way up, or the end of the process by `fatal`, which no handler sees.
pub data Result {ℓ} (A : Type ℓ) : Type ℓ where
  fatal : Result A
  err : Exception → Result A
  ok : (value : A) → Result A

-- The counters `errors` and `warnings`.
pub record Log : Type 0 where
  pub errors : ℕ
  pub warnings : ℕ

abbrev pub no_log : Log
no_log = record { errors = 0; warnings = 0 }

-- An exception passes by the rest of the block, and so does the end of the process.
infixl 5 ◌>>=◌
abbrev pub ◌>>=◌ {ℓ κ} : {A : Type ℓ} {B : Type κ} (m : Result A) → (A → Result B) → Result B
fatal >>= next = fatal
err e >>= next = err e
ok value >>= next = next value

-- `m` returned a value that `next` took to `b`.
abbrev pub Passed {ℓ κ} : {A : Type ℓ} {B : Type κ} → Result A → (A → Result B) → B → Type (ℓ ⊔ κ)
Passed {A = A} m next b = (value : A) × (m ≡ ok value) × (next value ≡ ok b)

-- A block that returns a value has passed through its first step.
pub >>=-eq-ok {ℓ κ} :
    {A : Type ℓ} {B : Type κ} (m : Result A) (next : A → Result B) {b : B}
    → (m >>= next) ≡ ok b
    → Passed m next b
>>=-eq-ok fatal next h = cc
>>=-eq-ok (err e) next h = cc
>>=-eq-ok (ok value) next h = (value, refl, h)

-- error(): prints, and counts.
unfoldable pub error : Log → Log
error l = record l { errors = l.errors + 1 }

-- warning(): prints, and counts.
unfoldable pub warning : Log → Log
warning l = record l { warnings = l.warnings + 1 }

-- `catch(...) { error(...); throw; }`: an exception is counted and passed on.
unfoldable pub reporting {ℓ} : {A : Type ℓ} → Result A → Log → Result A × Log
reporting (ok a) l = (ok a, l)
reporting (err e) l = (err e, error l)
reporting fatal l = (fatal, l)

-- The next step of a computation that passes a state on, by an exception too.
abbrev pub and_then {ℓ κ μ} :
    {A : Type ℓ} {B : Type κ} {S : Type μ} → Result A × S → (A → S → Result B × S) → Result B × S
and_then (ok a, s) f = f a s
and_then (err e, s) f = (err e, s)
and_then (fatal, s) f = (fatal, s)

-- What holds of the state that the first step leaves, and that the second preserves, holds of the
-- state that both leave, however they end.
pub and_then_keeps {ℓ κ μ ν} :
    {A : Type ℓ} {B : Type κ} {S : Type μ} (P : S → Type ν) (m : Result A × S)
    (f : A → S → Result B × S)
    → P m.1
    → ((a : A) (s : S) → P s → P (f a s).1)
    → P (and_then m f).1
and_then_keeps P (ok a, s) f p k = k a s p
and_then_keeps P (err e, s) f p k = p
and_then_keeps P (fatal, s) f p k = p
