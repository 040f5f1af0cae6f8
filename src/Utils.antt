-- ===== src/Utils.antt =====
-- utils.cc: the codecs, the index lines, and the names of users and groups.
pub mod Hex
pub mod Url
pub mod Index
