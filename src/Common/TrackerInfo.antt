-- ===== src/Common/TrackerInfo.antt =====
-- src/common/load_tracker_info.cpp: the list of trackers. The buffer is on the stack and is not
-- initialised; a C string in it ends at the first byte that is 0.
pub mod Lines
pub mod Reading
use p2p_file_share.Base.{
  ℕ, zero, suc, ◌+◌, ◌%◌, ◌^◌, ◌==◌, Bool, true, false, ◌&&◌, ◌||◌, Option, none, some, List, [],
  ◌∷◌, ◌++◌, if◌then◌else◌, Text, is_empty, length, take, drop,
}
use p2p_file_share.Stream.{of_text, get_word, get_size, to_string as number_to_string}
use p2p_file_share.Models.Endpoint.{Endpoint}

-- What becomes of the function: it returns, it calls exit(1), or it reads through a pointer past the
-- buffer or to no memory.
pub data Loaded : Type 0 where
  loaded : List Endpoint → Loaded
  exits : Loaded
  overruns : Loaded

abbrev pub buffer_length : ℕ
buffer_length = 1024

-- The text up to the first 0, if there is one.
unfoldable pub c_string : Text → Option Text
c_string [] = none
c_string (c ∷ memory) =
    let rest = c_string memory in
    if c == 0 then some [] else elim rest [ none ↦ none | some s ↦ some (c ∷ s) ]

-- sscanf(line, "%s %hu", ip, &port) == 2, with what it writes. The conversion of %hu is that of `>>`
-- but for a number that is too large, which is cut like any other.
unfoldable pub scan_line : Text → Option Endpoint
unfolding get_word get_size
scan_line line =
    let (ip, s) = get_word [] (of_text line) in
    let (n, s') = get_size 0 s in
    if is_empty ip || (s'.fail && (n == 0))
    then none
    else some (record { ip = ip; port = n % 2 ^ 16 })

-- strchr(line, '\n') + 1, where there is a newline in front of the first 0.
unfoldable pub next_line : Text → Option Text
next_line [] = none
next_line (c ∷ memory) =
    let rest = next_line memory in if c == 0 then none else if c == 10 then some memory else rest

abbrev add_tracker : Endpoint → Option Loaded → Option Loaded
add_tracker t none = none
add_tracker t (some (loaded ts)) = some (loaded (t ∷ ts))
add_tracker t (some exits) = some exits
add_tracker t (some overruns) = some overruns

-- The loop, from the memory at `line` on. A pointer that is one behind a null pointer is read by the next
-- round. `none` is where the fuel is used up.
unfoldable pub read_trackers : ℕ → Text → Option Loaded
unfolding c_string scan_line next_line
read_trackers zero memory = none
read_trackers (suc fuel) memory = elim (c_string memory) [
  | none ↦ some overruns
  | some line ↦ elim (scan_line line) [
    | none ↦ some (loaded [])
    | some t ↦ elim (next_line memory) [
      | none ↦ some overruns
      | some rest ↦ add_tracker t (read_trackers fuel rest)
    ]
  ]
]

-- What read leaves in the buffer that held `unset`.
abbrev pub filled : Text → Text → Text
filled file unset = take buffer_length file ++ drop (length file) unset

-- `opened` is the file, if open finds it, with its content if read gives it.
unfoldable pub load_tracker_info : Option (Option Text) → Text → Option Loaded
unfolding read_trackers
load_tracker_info none unset = some exits
load_tracker_info (some none) unset = some exits
load_tracker_info (some (some file)) unset = read_trackers (suc buffer_length) (filled file unset)
