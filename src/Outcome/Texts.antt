-- ===== src/Outcome/Texts.antt =====
-- exceptions.cc, and the constructor of SftpFileError in sftp.cc: what the exceptions keep of what
-- they are constructed from, and the texts of what(). `strerror` is the C library's.
use Prim.Native.Nat.{◌<◌}
use hbackup.Prelude.{
  ℕ, [], ◌∷◌, ◌++◌, Option, none, some, length, length-take_le, take, Bytes, codes, arith, ◌==◌,
  if◌then◌else◌,
}
use hbackup.Outcome.{
  Exception, read_only_file, write_only_file, bad_hex_digit, bad_hex, hash_error, bad_index_file,
}
use hbackup.Sftp.Check.{errno_of}

-- A string as `%s` prints it, up to the first NUL.
unfoldable pub printed : Bytes → Bytes
printed [] = []
printed (c ∷ s) = if c == 0 then [] else c ∷ printed s

-- What snprintf() stores, less the NUL, for `sizeof w`.
unfoldable pub stored_text : Bytes → Bytes
stored_text s = take 1023 s

-- The members of FileError.
pub record FileError : Type 0 where
  pub w : Bytes
  pub e : ℕ

-- "%s %s: %s"
unfoldable pub doing_text : Bytes → Bytes → Bytes → Bytes
unfolding printed stored_text
doing_text doing path message =
    stored_text (printed doing ++ (codes " " ++ (printed path ++ (codes ": " ++ printed message))))

-- FileError::FileError()
unfoldable pub new_file_error : (ℕ → Bytes) → Bytes → Bytes → ℕ → FileError
unfolding doing_text
new_file_error strerror doing path errno_value = record {
  w = doing_text doing path (strerror errno_value);
  e = errno_value;
}

-- The members of SftpFileError.
pub record SftpFileError : Type 0 where
  pub base : FileError
  pub status : ℕ

-- SftpFileError::SftpFileError(), which writes another text over that of its base class, and another
-- error number.
unfoldable pub new_sftp_file_error : (ℕ → Bytes) → Bytes → Bytes → Bytes → ℕ → SftpFileError
unfolding new_file_error doing_text errno_of
new_sftp_file_error strerror doing path message status =
    let base = new_file_error strerror doing path 0 in
    record {
      base = record base { w = doing_text doing path message; e = errno_of status };
      status = status;
    }

-- The texts of HashError, by the codes of sha1.h. The rest end in abort().
unfoldable pub hash_error_text : ℕ → Option Bytes
hash_error_text e =
    if e == 0
    then some (codes "OK")
    else if e == 1
    then some (codes "Null pointer parameter to SHA1 routine")
    else if e == 2
    then some (codes "SHA1 input data too long")
    else if e == 3
    then some (codes "called SHA1Input after SHA1Result")
    else none

-- what() of the other classes of exceptions.cc. A FileError gives its member `w`, and the rest is
-- the C++ library's.
unfoldable pub what : Exception → Option Bytes
unfolding hash_error_text printed stored_text
what read_only_file = some (codes "write to read-only file")
what write_only_file = some (codes "read from write-only file")
what bad_hex_digit = some (codes "invalid hex digit")
what (bad_hex s) = some (stored_text (codes "invalid hex value: " ++ printed s))
what (bad_index_file s) = some (stored_text (codes "bad index file: " ++ printed s))
what (hash_error e) = hash_error_text e
what _ = none

-- The text fits with its NUL into the 1024 bytes of `w`.
doing_text-fits : (doing path message : Bytes) → length (doing_text doing path message) < 1024
unfolding doing_text stored_text
doing_text-fits doing path message = omega (
  arith,
  length-take_le 1023
      (printed doing ++ (codes " " ++ (printed path ++ (codes ": " ++ printed message)))),
)
