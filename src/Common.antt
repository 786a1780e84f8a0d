-- ===== src/Common.antt =====
-- src/common: what the client and the tracker share.
pub mod Ending
pub mod TrackerInfo
