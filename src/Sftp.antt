-- ===== src/Sftp.antt =====
-- sftp.cc: the client side of the SFTP protocol.
pub mod Wire
pub mod Replies
pub mod Check
pub mod Transport
pub mod Link
pub mod Requests
pub mod Transfers
