-- ===== src/Sftp/Transfers/Buffered.antt =====
-- sftp.cc and file.cc: SftpFile under the buffer of its base class File, from its opening to a flush.
use hbackup.File.{File}
use hbackup.Sftp.Transport.{Transport}
