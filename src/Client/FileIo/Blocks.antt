-- ===== src/Client/FileIo/Blocks.antt =====
-- The piece index and the seek meet: where the block with a given digest is found.
use p2p_file_share.Base.{
  ℕ, zero, suc, ◌+◌, ◌*◌, ◌^◌, ◌<◌, ◌≡◌, ap, sym, ◌∙◌, true, false, inl, inr, Bool-cases, some,
  some-eq, List, [], ◌∷◌, arith, Text, text_eq, text_eq_iff, is_empty, length, any, take, drop,
  length-drop, drop-drop,
}
use p2p_file_share.Models.FileInfo.{FileInfo, block_size}
use p2p_file_share.Client.Hash.{get_sha1}
use p2p_file_share.Client.PartFile.{has}
use p2p_file_share.Client.FileIo.{
  read_blocks, hash_blocks, index_from, seek, Disk, read_file, get_file_info,
}

pub seek-small : (i size : ℕ) → i * size < 2 ^ 63 → seek i size ≡ i * size
unfolding seek
seek-small i size h = ground arith

nonempty-length : (size : ℕ) (s : Text) → is_empty (take size s) ≡ false → 0 < length s
unfolding take
nonempty-length zero s h = cc
nonempty-length (suc n) [] h = cc
nonempty-length (suc n) (c ∷ s) h = omega arith

-- The index `r` of a list that is counted from `i` is that of a block of the content with the digest.
abbrev pub IsBlock : (Text → List ℕ) → ℕ → Text → Text → ℕ → ℕ → Type 0
IsBlock sha1 size content piece i r =
    (j : ℕ) × (r ≡ i + j)
    × (j * size < length content)
    × (get_sha1 sha1 (take size (drop (j * size) content)) ≡ piece)

drop-no_blocks : (size : ℕ) (s : Text) → drop (0 * size) s ≡ s
unfolding drop
drop-no_blocks size s = ap (λ k. drop k s) none_before
  where
    none_before : 0 * size ≡ 0
    none_before = omega arith

next-IsBlock :
    (sha1 : Text → List ℕ) (size : ℕ) (content piece : Text) (i r : ℕ)
    → IsBlock sha1 size (drop size content) piece (i + 1) r
    → IsBlock sha1 size content piece i r
next-IsBlock sha1 size content piece i r (j, e, bound, digest) =
    let same : size + j * size ≡ suc j * size = omega arith in
    (
      suc j,
      omega arith,
      omega (arith, length-drop size content),
      ap (λ t. get_sha1 sha1 (take size t))
            (sym (drop-drop (j * size) size content ∙ ap (λ k. drop k content) same))
          ∙ digest,
    )

pub index-IsBlock :
    (sha1 : Text → List ℕ) (size fuel : ℕ) (content piece : Text) (i : ℕ)
    → has (hash_blocks sha1 (read_blocks size fuel content)) piece ≡ true
    → IsBlock sha1 size content piece i
        (index_from i (hash_blocks sha1 (read_blocks size fuel content)) piece)
unfolding has any hash_blocks read_blocks index_from
index-IsBlock sha1 size zero content piece i h = cc
index-IsBlock sha1 size (suc fuel) content piece i h =
    elim (Bool-cases (is_empty (take size content))) [
      | inl e ↦ cc (rw e at h)
      | inr e ↦ elim (Bool-cases (text_eq (get_sha1 sha1 (take size content)) piece)) [
        | inl same ↦
            rw (e, same)
              (
                0,
                omega arith,
                omega (arith, nonempty-length size content e),
                ap (λ t. get_sha1 sha1 (take size t)) (drop-no_blocks size content)
                    ∙ (text_eq_iff (get_sha1 sha1 (take size content)) piece).0 same,
              )
        | inr other ↦
            rw (e, other)
              (next-IsBlock sha1 size content piece i _ (
                index-IsBlock sha1 size fuel (drop size content) piece (i + 1)
                  (rw (e, other) at h)))
      ]
    ]

pub pieces-get_file_info :
    (sha1 : Text → List ℕ) (path content : Text) (disk : Disk) (info : FileInfo)
    → read_file path disk ≡ some content
    → get_file_info sha1 path disk ≡ some info
    → info.pieces ≡ hash_blocks sha1 (read_blocks block_size (suc (length content)) content)
unfolding get_file_info
pieces-get_file_info sha1 path content disk info r made =
    sym (ap (λ (i : FileInfo). i.pieces) (some-eq (rw (get_file_info, r) at made)))
