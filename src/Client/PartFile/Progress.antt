-- ===== src/Client/PartFile/Progress.antt =====
-- The two sets of a PartFile while pieces arrive.
use p2p_file_share.Base.{
  ◌≡◌, refl, ap, Bool, true, false, not, ◌&&◌, ◌||◌, List, [], ◌∷◌, ◌++◌, if◌then◌else◌, arith,
  Text, text_eq, text_eq_iff, is_empty, any, inl, inr, Bool-cases,
}
use p2p_file_share.Models.FileInfo.{FileInfo}
use p2p_file_share.Client.PartFile.{
  PartFile, has, put, without, put_all, new_partfile, is_complete, has_piece, mark_downloaded,
}

has-append : (set : List Text) (x y : Text) → has (set ++ x ∷ []) y ≡ (has set y || text_eq x y)
unfolding has any
has-append [] x y = ground arith
has-append (z ∷ set) x y = ground (arith, has-append set x y)

pub has-put : (set : List Text) (x y : Text) → has (put set x) y ≡ (has set y || text_eq x y)
unfolding put
has-put set x y = elim (Bool-cases (has set x)) [
  | inl h ↦ elim (Bool-cases (text_eq x y)) [
    | inl e ↦ rw (h, e, ← (text_eq_iff x y).0 e, h)
    | inr e ↦ rw (h, e) (ground arith)
  ]
  | inr h ↦ rw h (has-append set x y)
]

pub has-without :
    (set : List Text) (x y : Text)
    → has (without set x) y ≡ (if text_eq x y then false else has set y)
unfolding has any without
has-without [] x y = ground arith
has-without (z ∷ set) x y =
    ground (arith, has-without set x y, text_eq_iff z x, text_eq_iff z y, text_eq_iff x y)

has-put_all :
    (set pieces : List Text) (y : Text) → has (put_all set pieces) y ≡ (has set y || has pieces y)
unfolding put_all has any
has-put_all set [] y = ground arith
has-put_all set (x ∷ pieces) y = ground (arith, has-put_all (put set x) pieces y, has-put set x y)

has-equal : (set : List Text) (x y : Text) → text_eq x y ≡ true → has set x ≡ has set y
has-equal set x y e = ap (has set) ((text_eq_iff x y).0 e)

-- No piece is both downloaded and missing, and the two sets together hold the file's pieces.
pub record IsPart (p : PartFile) : Type 0 where
  pub disjoint : (x : Text) → (has p.downloaded_pieces x && has p.remaining_pieces x) ≡ false
  pub covers :
      (x : Text)
      → has p.file_info.pieces x ≡ true
      → (has p.downloaded_pieces x || has p.remaining_pieces x) ≡ true

pub new_partfile-IsPart :
    (group_id : Text) (f : FileInfo) (path : Text) (all_downloaded : Bool)
    → IsPart (new_partfile group_id f path all_downloaded)
unfolding new_partfile has any
new_partfile-IsPart group_id f path true = record {
  disjoint = λ x. ground arith;
  covers = λ x h. ground (arith, has-put_all [] f.pieces x);
}
new_partfile-IsPart group_id f path false = record {
  disjoint = λ x. ground arith;
  covers = λ x h. ground (arith, has-put_all [] f.pieces x);
}

-- Marking a piece keeps the two sets a division of the file's pieces. After it the piece is
-- downloaded and not missing, no other piece has moved, and the result tells whether it was new.
pub mark_downloaded_lem :
    (piece : Text) (p : PartFile)
    → IsPart p
    → IsPart (mark_downloaded piece p).0
      × ((x : Text) → has_piece (mark_downloaded piece p).0 x ≡ (has_piece p x || text_eq piece x))
      × ((x : Text)
          → has (mark_downloaded piece p).0.remaining_pieces x
            ≡ (if text_eq piece x then false else has p.remaining_pieces x))
      × ((mark_downloaded piece p).1 ≡ not (has_piece p piece))
unfolding mark_downloaded has_piece
mark_downloaded_lem piece p v = elim (Bool-cases (has p.downloaded_pieces piece)) [
  | inl h ↦ rw h (
    v,
    (λ x. ground (arith, has-equal p.downloaded_pieces piece x)),
    (λ x. ground (arith, has-equal p.downloaded_pieces piece x, v.disjoint x)),
    refl,
  )
  | inr h ↦ rw h (
    record {
      disjoint = λ x. ground (
        arith,
        v.disjoint x,
        has-put p.downloaded_pieces piece x,
        has-without p.remaining_pieces piece x,
      );
      covers = λ x m. ground (
        arith,
        v.covers x m,
        has-put p.downloaded_pieces piece x,
        has-without p.remaining_pieces piece x,
      );
    },
    (λ x. has-put p.downloaded_pieces piece x),
    (λ x. has-without p.remaining_pieces piece x),
    refl,
  )
]

-- A file in which no piece is missing has every one of its pieces.
pub complete_has_all :
    (p : PartFile) (x : Text)
    → IsPart p
    → is_complete p ≡ true
    → has p.file_info.pieces x ≡ true
    → has_piece p x ≡ true
complete_has_all p x v c h = all_in p.remaining_pieces refl
  where
    all_in : (missing : List Text) → p.remaining_pieces ≡ missing → has_piece p x ≡ true
    all_in [] e =
        unfold has_piece has any in
        (ground (arith, v.covers x h, ap (λ (s : List Text). has s x) e))
    all_in (y ∷ missing) e = unfold is_complete in (cc (ap (λ (s : List Text). is_empty s) e))
