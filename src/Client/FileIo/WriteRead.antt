-- ===== src/Client/FileIo/WriteRead.antt =====
-- A block that is written is read back, and the other blocks stay.
use p2p_file_share.Base.{
  ℕ, zero, suc, ◌+◌, ◌≤◌, ◌<◌, ◌≡◌, ◌⊎◌, refl, sym, ap, ◌∙◌, some, [], ◌∷◌, if◌then◌else◌, arith,
  Text, text_eq, text_eq_refl, text-IsEqTest, lookup-insert, length, ok, inl, inr, Bool-cases, take,
  drop, take-all, length-drop, drop-nil,
}
use p2p_file_share.Client.FileIo.{
  Disk, read_file, overlay, write_at, write_bytes, seek, content_or_empty, read_piece_from_file,
  write_piece_to_file,
}

take-overlay :
    (size : ℕ) (new old : Text)
    → length new ≤ size
    → (length new ≡ size) ⊎ (length old ≤ length new)
    → take size (overlay new old) ≡ new
unfolding take overlay
take-overlay zero [] old h k = refl
take-overlay zero (d ∷ new) old h k = absurd (omega arith)
take-overlay (suc n) [] [] h k = refl
take-overlay (suc n) [] (x ∷ old) h (inl e) = absurd (omega arith)
take-overlay (suc n) [] (x ∷ old) h (inr e) = absurd (omega arith)
take-overlay (suc n) (d ∷ new) [] h k = ap (λ t. d ∷ t) (take-all n new (omega arith))
take-overlay (suc n) (d ∷ new) (x ∷ old) h k =
    ap (λ t. d ∷ t) (take-overlay n new old (omega arith) (omega arith))

-- From the offset on, a write is a write at the head of what stood there.
drop-write_at :
    (off : ℕ) (new old : Text) → drop off (write_at off new old) ≡ overlay new (drop off old)
unfolding drop write_at
drop-write_at zero new old = refl
drop-write_at (suc n) new [] = drop-write_at n new [] ∙ ap (overlay new) (drop-nil n)
drop-write_at (suc n) new (x ∷ old) = drop-write_at n new old

-- Behind the bytes written nothing changes.
drop-overlay : (n : ℕ) (new old : Text) → length new ≤ n → drop n (overlay new old) ≡ drop n old
unfolding drop overlay
drop-overlay n [] old h = refl
drop-overlay zero (d ∷ new) old h = absurd (omega arith)
drop-overlay (suc n) (d ∷ new) [] h = drop-overlay-nil n new (omega arith)
  where
    drop-overlay-nil : (m : ℕ) (t : Text) → length t ≤ m → drop m t ≡ []
    drop-overlay-nil zero [] k = refl
    drop-overlay-nil zero (c ∷ t) k = absurd (omega arith)
    drop-overlay-nil (suc m) [] k = refl
    drop-overlay-nil (suc m) (c ∷ t) k = drop-overlay-nil m t (omega arith)
drop-overlay (suc n) (d ∷ new) (x ∷ old) h = drop-overlay n new old (omega arith)

drop-write_at-after :
    (off n : ℕ) (new old : Text) → off + length new ≤ n → drop n (write_at off new old) ≡ drop n old
unfolding drop write_at
drop-write_at-after zero n new old h = drop-overlay n new old (omega arith)
drop-write_at-after (suc m) zero new old h = absurd (omega arith)
drop-write_at-after (suc m) (suc n) new [] h =
    drop-write_at-after m n new [] (omega arith) ∙ drop-nil n
drop-write_at-after (suc m) (suc n) new (x ∷ old) h = drop-write_at-after m n new old (omega arith)

-- Nor before them, where the file reached so far.
take-drop-write_at-before :
    (off n size : ℕ) (new old : Text)
    → n + size ≤ off
    → n + size ≤ length old
    → take size (drop n (write_at off new old)) ≡ take size (drop n old)
unfolding drop take write_at
take-drop-write_at-before zero zero zero new old h k = refl
take-drop-write_at-before zero zero (suc s) new old h k = absurd (omega arith)
take-drop-write_at-before zero (suc n) size new old h k = absurd (omega arith)
take-drop-write_at-before (suc m) zero zero new old h k = refl
take-drop-write_at-before (suc m) zero (suc s) new [] h k = absurd (omega arith)
take-drop-write_at-before (suc m) zero (suc s) new (x ∷ old) h k =
    ap (λ t. x ∷ t) (take-drop-write_at-before m zero s new old (omega arith) (omega arith))
take-drop-write_at-before (suc m) (suc n) size new [] h k = absurd (omega arith)
take-drop-write_at-before (suc m) (suc n) size new (x ∷ old) h k =
    take-drop-write_at-before m n size new old (omega arith) (omega arith)

abbrev old_content : Text → Disk → Text
old_content path disk = content_or_empty (read_file path disk)

written :
    (path new : Text) (i size : ℕ) (disk disk' : Disk)
    → 0 < length new
    → write_piece_to_file path i size new disk ≡ ok disk'
    → read_file path disk' ≡ some (write_at (seek i size) new (old_content path disk))
unfolding write_piece_to_file write_bytes
written path [] i size disk disk' n h = absurd (omega arith)
written path (c ∷ new) i size disk disk' n h = elim (Bool-cases (disk.can_write path)) [
  | inl w ↦
      let text = write_at (seek i size) (c ∷ new) (old_content path disk) in
      let e = ok-eq (rw (w, write_piece_to_file) at h) in
      ap (λ (d : Disk). read_file path d) (sym e)
      ∙ lookup-insert text_eq text-IsEqTest path path text disk.files
      ∙ ap (λ b. if b then some text else read_file path disk) (text_eq_refl path)
  | inr w ↦ cc (rw (w, write_piece_to_file) at h)
]
  where
    ok-eq : {a b : Disk} → ok a ≡ ok b → a ≡ b
    ok-eq e = cc

module _ (path new : Text) (i size : ℕ) (disk disk' : Disk) (some_bytes : 0 < length new)
    (one_block : length new ≤ size)
    (done : write_piece_to_file path i size new disk ≡ ok disk') where
  -- A block that was written is what the next read of it gives, if it fills its place or reaches the
  -- end of the file.
  pub read-write_same :
      (length new ≡ size) ⊎ (length (old_content path disk) ≤ seek i size + length new)
      → read_piece_from_file path i size disk' ≡ ok new
  unfolding read_piece_from_file
  read-write_same last =
      let old = old_content path disk in
      let off = seek i size in
      rw
        (
          written path new i size disk disk' some_bytes done,
          read_piece_from_file,
          drop-write_at off new old,
        )
        (ap (λ t. ok t)
          (take-overlay size new (drop off old) one_block (omega (arith, length-drop off old))))

  -- A block behind it, or one before it that the file holds in full, reads as before.
  pub read-write_other :
      (j : ℕ) (content : Text)
      → read_file path disk ≡ some content
      → (seek i size + size ≤ seek j size)
        ⊎ ((seek j size + size ≤ seek i size) × (seek j size + size ≤ length content))
      → read_piece_from_file path j size disk' ≡ read_piece_from_file path j size disk
  unfolding read_piece_from_file
  read-write_other j content e (inl behind) =
      rw (written path new i size disk disk' some_bytes done, e, read_piece_from_file)
        (ap (λ t. ok (take size t))
          (drop-write_at-after (seek i size) (seek j size) new content (omega arith)))
  read-write_other j content e (inr before) =
      rw (written path new i size disk disk' some_bytes done, e, read_piece_from_file)
        (ap (λ t. ok t)
          (take-drop-write_at-before (seek i size) (seek j size) size new content (omega arith)
            (omega arith)))
