-- ===== src/Exchange.antt =====
-- The client and the tracker together: src/client/process_input.cpp with src/tracker/tracker.cpp.
pub mod Entries
pub mod Requests
pub mod Uploads
pub mod Downloads
