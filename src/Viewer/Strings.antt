-- ===== src/Viewer/Strings.antt =====
-- The methods of String that the scripts use.
use p2p_file_share.Base.{
  ℕ, suc, ◌-◌, ◌==◌, Bool, true, false, ◌&&◌, Option, none, some, [], ◌∷◌, if◌then◌else◌, Text,
  take, drop,
}

-- startsWith, and the test `t.substr(0, s.length) == s`
unfoldable pub starts_with : Text → Text → Bool
starts_with [] t = true
starts_with (a ∷ s) [] = false
starts_with (a ∷ s) (b ∷ t) = (a == b) && starts_with s t

-- indexOf, where -1 is `none`
unfoldable pub index_of : Text → Text → Option ℕ
unfolding starts_with
index_of s [] = if starts_with s [] then some 0 else none
index_of s (c ∷ t) =
    let later = index_of s t in
    if starts_with s (c ∷ t) then some 0 else elim later [ none ↦ none | some i ↦ some (suc i) ]

-- substring(from, to), for from ≤ to
unfoldable pub substring : ℕ → ℕ → Text → Text
substring from to s = take (to - from) (drop from s)

unfoldable pub after_last_from : ℕ → Text → Text → Text
after_last_from c since [] = since
after_last_from c since (a ∷ s) = after_last_from c (if a == c then s else since) s

-- What follows the last unit `c`, or everything: substring(lastIndexOf(c) + 1)
unfoldable pub after_last : ℕ → Text → Text
unfolding after_last_from
after_last c s = after_last_from c s s

-- What stands before the first unit `c`, and what follows it: the first parts of a split.
unfoldable pub before : ℕ → Text → Text
before c [] = []
before c (a ∷ s) = let rest = before c s in if a == c then [] else a ∷ rest

unfoldable pub after : ℕ → Text → Text
after c [] = []
after c (a ∷ s) = let rest = after c s in if a == c then s else rest
