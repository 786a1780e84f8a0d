-- ===== src/Exchange/Downloads.antt =====
-- A download, from the line of the user over the tracker's answer to the client's databases.
use p2p_file_share.Base.{
  ℕ, ◌==◌, some, [], ◌∷◌, ◌⊕◌, Text, lit, Checked, ok, throws, out_of_range, ◌>>=◌,
}
use p2p_file_share.Stream.{Stream}
use p2p_file_share.Stream.Words.{IsWord}
use p2p_file_share.Models.Endpoint.{Endpoint}
use p2p_file_share.Models.File
use p2p_file_share.Models.File.{File}
use p2p_file_share.Models.User.{User}
use p2p_file_share.Models.Group.{Group}
use p2p_file_share.Client.ProcessInput.{Client}
use p2p_file_share.Tracker.State.{State}
use p2p_file_share.Tracker.ParseRequest.{parse_request}
use p2p_file_share.Tracker.ProcessRequest.{reliable, process_request}

-- What a tracker in a state sends back to a request over a connection that delivers.
unfoldable pub answer : ℕ → State → Text → Checked Text
answer unset st [] = throws out_of_range
answer unset st (flag ∷ text) = parse_request unset text >>= λ t.
    (process_request unset [] (some reliable) (flag == b'1') t st).1 >>= λ t'. ok t'.outcome.message

-- The text that the tracker sends for a file.
abbrev file_text : File → Text
file_text f = 32 ∷ (File.to_string f ⊕ lit "\n")

-- What the user types.
abbrev pub download_line : Text → Text → Text → Text
download_line group_id file_name path =
    lit "download_file" ⊕ (32 ∷ (group_id ⊕ (32 ∷ (file_name ⊕ (32 ∷ path)))))

module _ (group_id file_name : Text) (group_word : IsWord group_id)
    (name_word : IsWord file_name) where
  abbrev name_text : Text
  name_text = 32 ∷ file_name

  abbrev names_text : Text
  names_text = 32 ∷ (group_id ⊕ name_text)
