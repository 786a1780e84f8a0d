-- ===== src/Common/Ending.antt =====
-- How a process ends: main of src/client/client.cpp and of src/tracker/tracker.cpp.
use p2p_file_share.Base.{ℕ, Exception}

-- What becomes of the process: an exit status, the end by an exception that nothing catches, a read
-- outside of the buffer, or no end within the given rounds.
pub data Ending : Type 0 where
  exit : ℕ → Ending
  aborts : Exception → Ending
  undefined : Ending
  unfinished : Ending
