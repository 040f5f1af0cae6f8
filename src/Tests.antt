-- ===== src/Tests.antt =====
-- Instances of the interfaces, tests, and the theorems at concrete data.
mod Memory
mod Codecs
mod Files
mod Repositories
mod Packets
mod Server
mod Systems
mod Oracle
mod Uploads
mod Prefetched
mod Paths
mod Digests
mod Hosts
mod Restored
mod Accounts
mod Lines
mod Stored
mod Copied
