-- ===== src/Client/Program/Main.antt =====
-- The whole client, from its arguments to its exit status.
use p2p_file_share.Base.{◌<◌, ◌≡◌, true, some, List, ◌∷◌, Text, length, drop, ok}
use p2p_file_share.Models.Endpoint
use p2p_file_share.Models.Endpoint.{Endpoint}
use p2p_file_share.Common.TrackerInfo.{buffer_length}
use p2p_file_share.Common.TrackerInfo.Lines.{AreInfo, print_info}
use p2p_file_share.Client.Program.{World}
use p2p_file_share.Client.Program.Endings.{IsReachable}

-- A well-formed start: the file with the trackers is read whole, some tracker accepts, and the server starts.
pub record IsReady (world : World) (path : Text) (trackers : List Endpoint) : Type 0 where
  pub behind : Text
  pub info : AreInfo trackers
  pub small : length (print_info trackers) < buffer_length
  pub ends : drop (length (print_info trackers)) world.buffer ≡ 0 ∷ behind
  pub file : world.files path ≡ some (some (print_info trackers))
  pub reachable : IsReachable world.connect trackers
  pub starts : world.started ≡ ok true
