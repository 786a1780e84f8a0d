-- ===== src/Tracker.antt =====
-- src/tracker: the tracker's databases, its requests, its record of transactions, and the exchange with
-- the other trackers.
pub mod UserDb
pub mod GroupDb
pub mod State
pub mod ParseRequest
pub mod UserRequests
pub mod GroupRequests
pub mod FileRequests
pub mod ProcessRequest
pub mod Server
pub mod Program
pub mod Service
