-- ===== src/Common/TrackerInfo/Reading.antt =====
-- Reading a whole tracker file.
use p2p_file_share.Base.{
  ℕ, zero, suc, ◌<◌, ◌≤◌, ◌≡◌, refl, sym, ap, ◌∙◌, Option, none, some, List, [], ◌∷◌, ◌++◌,
  append_assoc, append-nil, arith, Text, length, length-append, length-drop, length-take_le, take,
  drop, take-all, ◌≢◌,
}
use p2p_file_share.Stream.{get_word, sentry, skip_space}
use p2p_file_share.Models.Endpoint.{Endpoint}
use p2p_file_share.Common.TrackerInfo.{
  loaded, overruns, buffer_length, c_string, scan_line, add_tracker, read_trackers, filled,
  load_tracker_info,
}
use p2p_file_share.Common.TrackerInfo.Lines.{
  NoNul, IsInfo, AreInfo, entry, print_info, entry-NoNul, entry-NoBreak, print_info-NoNul,
  c_string-append, next_line-append, next_line-last, read_trackers_ends, scan_line-entry,
}

c_string-behind :
    (s m line : Text) → NoNul s → c_string m ≡ some line → c_string (s ++ m) ≡ some (s ++ line)
unfolding c_string
c_string-behind [] m line h e = e
c_string-behind (c ∷ s) m line h e = rw (h.0, c_string-behind s m line h.1 e)

c_string-print_info :
    (ts : List Endpoint) (m line : Text)
    → AreInfo ts
    → c_string m ≡ some line
    → c_string (print_info ts ++ m) ≡ some (print_info ts ++ line)
c_string-print_info ts m line h e = c_string-behind (print_info ts) m line (print_info-NoNul ts h) e

read_trackers-entry :
    (fuel : ℕ) (t : Endpoint) (m line : Text)
    → IsInfo t
    → c_string m ≡ some line
    → read_trackers (suc fuel) (entry t ++ 10 ∷ m) ≡ add_tracker t (read_trackers fuel m)
unfolding read_trackers
read_trackers-entry fuel t m line h e =
    let text : c_string (entry t ++ 10 ∷ m) ≡ some (entry t ++ 10 ∷ line) =
      c_string-behind (entry t) (10 ∷ m) (10 ∷ line) (entry-NoNul t h)
        (c_string-behind (10 ∷ []) m line (refl, tt) e) in
    rw
      (
        read_trackers,
        text,
        scan_line-entry t (10 ∷ line) h refl,
        next_line-append (entry t) m (entry-NoBreak t h) (entry-NoNul t h),
      )
      refl

scan_line-nil : scan_line [] ≡ none
unfolding scan_line get_word sentry skip_space
scan_line-nil = refl

read_trackers-end : (fuel : ℕ) (r : Text) → read_trackers (suc fuel) (0 ∷ r) ≡ some (loaded [])
unfolding read_trackers c_string
read_trackers-end fuel r = rw (read_trackers, scan_line-nil) refl

read_trackers-print_info :
    (fuel : ℕ) (ts : List Endpoint) (r : Text)
    → AreInfo ts
    → length ts < fuel
    → read_trackers fuel (print_info ts ++ 0 ∷ r) ≡ some (loaded ts)
unfolding print_info
read_trackers-print_info zero ts r h k = absurd (omega (arith, k))
read_trackers-print_info (suc fuel) [] r h k = read_trackers-end fuel r
read_trackers-print_info (suc fuel) (t ∷ ts) r h k =
    rw
      (
        append_assoc (entry t) (10 ∷ print_info ts) (0 ∷ r),
        read_trackers-entry fuel t (print_info ts ++ 0 ∷ r) (print_info ts) h.0
            (c_string-append (print_info ts) r (print_info-NoNul ts h.1)),
        read_trackers-print_info fuel ts r h.1 (omega (arith, k)),
      )
      refl

read_trackers-last :
    (fuel : ℕ) (t : Endpoint) (r : Text)
    → IsInfo t
    → read_trackers (suc fuel) (entry t ++ 0 ∷ r) ≡ some overruns
unfolding read_trackers
read_trackers-last fuel t r h =
    let scanned : scan_line (entry t) ≡ some t =
      ap scan_line (sym (append-nil (entry t))) ∙ scan_line-entry t [] h tt in
    rw
      (
        read_trackers,
        c_string-append (entry t) r (entry-NoNul t h),
        scanned,
        next_line-last (entry t) r (entry-NoBreak t h) (entry-NoNul t h),
      )
      refl

read_trackers-unfinished :
    (fuel : ℕ) (ts : List Endpoint) (t : Endpoint) (r : Text)
    → AreInfo ts
    → IsInfo t
    → length ts < fuel
    → read_trackers fuel (print_info ts ++ (entry t ++ 0 ∷ r)) ≡ some overruns
unfolding print_info
read_trackers-unfinished zero ts t r h i k = absurd (omega (arith, k))
read_trackers-unfinished (suc fuel) [] t r h i k = read_trackers-last fuel t r i
read_trackers-unfinished (suc fuel) (u ∷ ts) t r h i k =
    rw
      (
        append_assoc (entry u) (10 ∷ print_info ts) (entry t ++ 0 ∷ r),
        read_trackers-entry fuel u (print_info ts ++ (entry t ++ 0 ∷ r)) (print_info ts ++ entry t)
            h.0
            (c_string-behind (print_info ts) (entry t ++ 0 ∷ r) (entry t) (print_info-NoNul ts h.1)
              (c_string-append (entry t) r (entry-NoNul t i))),
        read_trackers-unfinished fuel ts t r h.1 i (omega (arith, k)),
      )
      refl

length-print_info : (ts : List Endpoint) → length ts ≤ length (print_info ts)
unfolding print_info
length-print_info [] = omega arith
length-print_info (t ∷ ts) =
    omega (arith, length-append (entry t) (10 ∷ print_info ts), length-print_info ts)

filled-short :
    (file unset r : Text)
    → length file < buffer_length
    → drop (length file) unset ≡ 0 ∷ r
    → filled file unset ≡ file ++ 0 ∷ r
filled-short file unset r h e = rw (take-all buffer_length file (omega (arith, h)), e) refl

-- For trackers with an IP that is one word without a byte 0 and a port below 2 ^ 16, printed one to a
-- line in a file of less than 1024 bytes: where the buffer happens to hold a 0 right behind the file,
-- load_tracker_info gives the trackers back.
pub load_tracker_info-print_info :
    (ts : List Endpoint) (unset r : Text)
    → AreInfo ts
    → length (print_info ts) < buffer_length
    → drop (length (print_info ts)) unset ≡ 0 ∷ r
    → load_tracker_info (some (some (print_info ts))) unset ≡ some (loaded ts)
unfolding load_tracker_info
load_tracker_info-print_info ts unset r h k e =
    rw (filled-short (print_info ts) unset r k e)
      (read_trackers-print_info (suc buffer_length) ts r h (omega (arith, k, length-print_info ts)))

-- For such trackers, when the last entry has no newline behind it: where the buffer happens to hold a
-- 0 right behind the file, load_tracker_info reads on from one byte behind a null pointer.
pub load_tracker_info-entry :
    (ts : List Endpoint) (t : Endpoint) (unset r : Text)
    → AreInfo ts
    → IsInfo t
    → length (print_info ts ++ entry t) < buffer_length
    → drop (length (print_info ts ++ entry t)) unset ≡ 0 ∷ r
    → load_tracker_info (some (some (print_info ts ++ entry t))) unset ≡ some overruns
unfolding load_tracker_info
load_tracker_info-entry ts t unset r h i k e =
    rw
      (
        filled-short (print_info ts ++ entry t) unset r k e,
        append_assoc (print_info ts) (entry t) (0 ∷ r),
      )
      (read_trackers-unfinished (suc buffer_length) ts t r h i
        (omega (arith, k, length-append (print_info ts) (entry t), length-print_info ts)))

length-take_size : (n : ℕ) (t : Text) → length (take n t) ≤ n
unfolding take
length-take_size zero t = omega arith
length-take_size (suc n) [] = omega arith
length-take_size (suc n) (c ∷ t) = omega (arith, length-take_size n t)

-- Whatever the file holds and whatever the buffer held, load_tracker_info comes to an end: the fuel it
-- is given is enough.
pub load_tracker_info_ends :
    (opened : Option (Option Text)) (unset : Text)
    → length unset ≤ buffer_length
    → load_tracker_info opened unset ≢ none
unfolding load_tracker_info
load_tracker_info_ends none unset h = λ k. cc k
load_tracker_info_ends (some none) unset h = λ k. cc k
load_tracker_info_ends (some (some file)) unset h =
    read_trackers_ends (suc buffer_length) (filled file unset) (
      omega (
        arith,
        h,
        length-append (take buffer_length file) (drop (length file) unset),
        length-take_size buffer_length file,
        length-take_le buffer_length file,
        length-drop (length file) unset,
      ))
