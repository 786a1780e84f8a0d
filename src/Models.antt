-- ===== src/Models.antt =====
-- src/models: the data that the tracker and the client exchange and keep.
pub mod Endpoint
pub mod User
pub mod FileInfo
pub mod File
pub mod Group
pub mod Transaction
