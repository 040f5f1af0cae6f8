-- ===== src/Lib.antt =====
-- hbackup: backups of Unix file trees into a repository of files named by their hash.
--
-- The program keeps the content of every regular file under REPO/sha1/aa/bb/aabb..., where aabb...
-- is its SHA-1 in hexadecimal, and writes one index per backup, a text file with a line per file
-- system object and the line `[end]` behind the last. Cleaning reads the indexes that are still
-- live and removes the repository's files that none of them names; verification compares the files
-- that an index names with their hashes. A repository may stand behind an SFTP server.
--
-- How the modules correspond to the code:
--   Outcome       exceptions.cc, globals.cc and fatal(), warning(), error() of utils.cc: how an
--                 operation ends (a value, an exception, or the end of the process) and the two
--                 counters. A function that reports takes the counters and returns them.
--                 Outcome/Texts has the constructors of FileError and SftpFileError and what()
--   Utils/Hex     hexencode(), hexdecode(), hashdecode(), hashpath() of utils.cc
--   Utils/Url     urlencode(), urldecode() of utils.cc
--   Utils/Index   parseIndexLine(), readIndexLine(), getdetail() of utils.cc
--   File          class File of nhbackup.h and file.cc. The virtual methods of a derived class are
--                 a Device, an argument of every operation; the buffer is the list of the bytes
--                 between `next` and `top`, or the bytes put so far while writing.
--   HashSet       class HashSet of nhbackup.h and hash.cc, as a table of chains
--   Exclude       exclude.cc, over an abstract PCRE
--   Filesystem    the calls of class Filesystem of nhbackup.h that cleaning and
--                 verification make
--   Clean         clean_recurse() of cleanup.cc; Clean/Command has do_clean()
--   Hashing       hashfile() of hash.cc, by blocks and by mapped chunks, over an abstract SHA-1
--   Verify        do_verify() of verify.cc
--   Sftp/Wire     the packing and unpacking functions of sftp.cc
--   Sftp/Replies  newid(), send(), recv(), poll(), await(), ignore() and ready() of SftpFilesystem
--                 in sftp.cc
--   Sftp/Check    check() of SftpFilesystem and the errno of SftpFileError in sftp.cc
--   Sftp/Transport
--                 what the requests use of the connection, and what they rely on; Sftp/Link fills it
--                 with connect(), send(), recv(), await() and the rest of sftp.cc on two files; Sftp/Link/Ordering is about
--                 a server that answers its requests in their order
--   Sftp/Requests the operations of SftpFilesystem in sftp.cc: init(), unlink(), rmdir(), remove(),
--                 mkdir(), rename(), closehandle(); below it exists() and prefigure_exists(), type()
--                 and contents()
--   Sftp/Transfers
--                 class SftpFile of sftp.cc, and open() of SftpFilesystem; Sftp/Transfers/Received is
--                 a server that reads WRITE requests and carries them out
--   Local         LocalFilesystem of local.cc, over the system calls; Local/Files has LocalFile,
--                 Local/Directories contents()
--   Main          main() of nhbackup.cc and the option variables of globals.cc, over the commands
--   Names         the names in an index: backup_dir() of backup.cc and do_restore() of restore.cc
--   Users         uid2string(), gid2string(), string2uid(), string2gid(), alldigits() of utils.cc and
--                 their four maps
--   Recode        recode.cc, over an abstract iconv()
--   Host          the calls of class Filesystem of nhbackup.h by which files are made, and
--                 makedirs() of file.cc
--   Backup        backup.cc: what it works on and the lines it writes; Backup/Listing has the files of a
--                 directory that are considered, Backup/Objects the loop that writes their lines,
--                 Backup/Store the loop that stores contents, Backup/Command backup_dir() as a whole,
--                 load_hints() and do_backup()
--   Restore       do_restore() of restore.cc: what a line makes, under a temporary name; Restore/Lines
--                 has its attributes and names, the loop over the lines, and the whole
--   Numbers       the numerals of the C library: strtoull(), strtol(), and those of printf()
--   Prelude       names of the libraries, lists and association lists over the native numbers
--   Tests         concrete runs, and the theorems applied to them
--
-- Bytes are numbers, and AreBytes says that they are below 256. Where the code would keep a
-- string and an offset into it, the model keeps the rest of the string. Maps are association
-- lists.
--
-- Fuel. These give more than enough to themselves: parseIndexLine(), the length of its line;
-- getbytes(), the bytes asked for; unpack_attrs(), the bytes of the packet; hashfile() on a
-- mapped file, its size. These take it as an argument: getline() and hashfile() on an open file,
-- more than the bytes that are left to read; the loops over the lines of an index, more than its
-- entries; await(), more than the replies before its own; clean_recurse() and backup_dir(), more
-- than the depth of the directories; the copying loops of a backup and a restore, more than the
-- bytes of a file; Recode::convert(), more than the bytes of its text. rename() and exists() over
-- SFTP, 2, as each calls itself once at most; contents(), more than the entries or the replies;
-- LocalFile::writebytes(), more than its calls of write(), for which 2 is enough where each takes
-- what it is given. writebytes() and synchronize() of SftpFile give themselves the writes in
-- flight. Without enough, the model
-- ends like fatal(). The reading of a small file by a backup gives itself its size.
--
-- Taken as parameters: the file systems, with the little that cleaning and verification rely on;
-- the methods of an open file; SHA-1, which cleaning and verification meet in `hashfile`; PCRE;
-- select() and the other system calls; getopt_long(); what pipe(), fork() and exec() come to in
-- SftpFilesystem::connect(); iconv(); the databases of users and groups; the number that the
-- first word of a hash is on the machine; and, for main(), the five commands. The file system
-- that is saved or restored and that of the repository are two, and the index, the hints and the
-- files that other commands read have states of their own; a file that a restore or a backup
-- copies acts on the file system that it is in. An interface takes two different paths for two
-- different files, so no symbolic link stands on the way of a path. In `l[urldecode(..)] =
-- urldecode(..)` the name is decoded before the value, and lchown() looks the user up before the
-- group.
--
-- Not modelled: the texts of messages but those of what(), and all output but the names that
-- cleaning prints; the counters hash_mmap and hash_read, which are only printed; a
-- failure of that output; the destructors but those of SftpFile and LocalFile; fill(), getch()
-- and getbytes() on a file that is being written, and put() on one that is being read, which are
-- assertion failures of the code. Of a backup the call of prefigure_exists() is left out, which
-- only announces a question. Of sftp.cc the wait for the subprocess is left out, and of
-- nhbackup.cc the texts that it prints and the choice of the file system of the repository.
-- sha1.c is a copy of the code of RFC 3174.
pub mod Prelude
pub mod Outcome
pub mod Utils
pub mod File
pub mod HashSet
pub mod Exclude
pub mod Filesystem
pub mod Clean
pub mod Verify
pub mod Names
pub mod Numbers
pub mod Users
pub mod Recode
pub mod Host
pub mod Local
pub mod Main
pub mod Restore
pub mod Backup
pub mod Hashing
pub mod Sftp
mod Tests
