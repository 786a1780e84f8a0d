-- ===== src/Viewer/Search/Box/Timers.antt =====
-- The timers of the search box: what waits for them, and what a key does to them.
use p2p_file_share.Base.{
  ℕ, ◌+◌, ◌≤◌, ◌<◌, ◌≡◌, refl, ap, ◌∙◌, sym, Bool, true, false, ◌==◌, ◌&&◌, ◌||◌, not, List, [],
  ◌∷◌, arith, text_eq, is_empty, inl, inr, Bool-cases, if◌then◌else◌, leb,
}
use p2p_file_share.Viewer.Search.{Panel, Task, search, close_selection}
use p2p_file_share.Viewer.Search.Box.{without_timer, kill_key_timer, value_changed, remove_spaces}

abbrev is_search : Task → Bool
is_search search = true
is_search close_selection = false

-- The searches that wait, those of another timer than `key`, and the timers whose id was not given.
abbrev pub waiting : List (ℕ × Task) → ℕ
waiting [] = 0
waiting ((i, t) ∷ ts) = if is_search t then waiting ts + 1 else waiting ts

abbrev foreign : ℕ → List (ℕ × Task) → ℕ
foreign key [] = 0
foreign key ((i, t) ∷ ts) =
    if is_search t && not (i == key) then foreign key ts + 1 else foreign key ts

abbrev unknown : ℕ → List (ℕ × Task) → ℕ
unknown next [] = 0
unknown next ((i, t) ∷ ts) = if (i == 0) || leb next i then unknown next ts + 1 else unknown next ts

-- At most one search waits, its timer is the one that the field remembers, and every timer's id was
-- given by setTimeout.
pub record IsDebounced (p : Panel) : Type 0 where
  pub once : waiting p.timers ≤ 1
  pub keyed : foreign p.key_timeout p.timers ≡ 0
  pub given : unknown p.next_timer p.timers ≡ 0
  pub positive : 0 < p.next_timer

pub waiting-without_timer :
    (id : ℕ) (ts : List (ℕ × Task)) → waiting (without_timer id ts) ≤ waiting ts
unfolding without_timer
waiting-without_timer id [] = omega arith
waiting-without_timer id ((i, t) ∷ ts) = ground (arith, waiting-without_timer id ts)

pub foreign-without_timer :
    (id key : ℕ) (ts : List (ℕ × Task)) → foreign key ts ≡ 0 → foreign key (without_timer id ts) ≡ 0
unfolding without_timer
foreign-without_timer id key [] h = refl
foreign-without_timer id key ((i, t) ∷ ts) h = ground (arith, h, foreign-without_timer id key ts)

pub unknown-without_timer :
    (id next : ℕ) (ts : List (ℕ × Task))
    → unknown next ts ≡ 0
    → unknown next (without_timer id ts) ≡ 0
unfolding without_timer
unknown-without_timer id next [] h = refl
unknown-without_timer id next ((i, t) ∷ ts) h = ground (arith, h, unknown-without_timer id next ts)

pub unknown-later :
    (next : ℕ) (ts : List (ℕ × Task)) → unknown next ts ≡ 0 → unknown (next + 1) ts ≡ 0
unknown-later next [] h = refl
unknown-later next ((i, t) ∷ ts) h = ground (arith, h, unknown-later next ts)

-- Without the remembered timer no search waits.
pub waiting-without_key :
    (key : ℕ) (ts : List (ℕ × Task)) → foreign key ts ≡ 0 → waiting (without_timer key ts) ≡ 0
unfolding without_timer
waiting-without_key key [] h = refl
waiting-without_key key ((i, t) ∷ ts) h = ground (arith, h, waiting-without_key key ts)

waiting-no_key :
    (next : ℕ) (ts : List (ℕ × Task)) → foreign 0 ts ≡ 0 → unknown next ts ≡ 0 → waiting ts ≡ 0
waiting-no_key next [] h k = refl
waiting-no_key next ((i, t) ∷ ts) h k = ground (arith, h, k, waiting-no_key next ts)

foreign-none : (key : ℕ) (ts : List (ℕ × Task)) → waiting ts ≡ 0 → foreign key ts ≡ 0
foreign-none key [] h = refl
foreign-none key ((i, t) ∷ ts) h = ground (arith, h, foreign-none key ts)

-- Between the timer that is killed and the one that is set no search waits.
pub record IsQuiet (p : Panel) : Type 0 where
  pub silent : waiting p.timers ≡ 0
  pub given : unknown p.next_timer p.timers ≡ 0
  pub positive : 0 < p.next_timer

pub IsQuiet-IsDebounced : (p : Panel) → IsQuiet p → IsDebounced p
IsQuiet-IsDebounced p q = record {
  once = omega (arith, q.silent);
  keyed = foreign-none p.key_timeout p.timers q.silent;
  given = q.given;
  positive = q.positive;
}

pub kill_key_timer-IsQuiet : (p : Panel) → IsDebounced p → IsQuiet (kill_key_timer p)
unfolding kill_key_timer
kill_key_timer-IsQuiet p d = elim (Bool-cases (p.key_timeout == 0)) [
  | inl e ↦
      let zero_key : p.key_timeout ≡ 0 = ground (arith, e) in
      rw e (record {
        silent =
            waiting-no_key p.next_timer p.timers
              (ap (λ k. foreign k p.timers) (sym zero_key) ∙ d.keyed) d.given;
        given = d.given;
        positive = d.positive;
      })
  | inr e ↦ rw e (record {
    silent = waiting-without_key p.key_timeout p.timers d.keyed;
    given = unknown-without_timer p.key_timeout p.next_timer p.timers d.given;
    positive = d.positive;
  })
]

pub value_changed-IsDebounced : (p : Panel) → IsQuiet p → IsDebounced (value_changed p)
unfolding value_changed
value_changed-IsDebounced p q =
    elim (Bool-cases (text_eq (remove_spaces p.field_value) p.last_search_value)) [
      | inl e ↦ rw e (IsQuiet-IsDebounced p q)
      | inr e ↦ elim (Bool-cases (is_empty (remove_spaces p.field_value))) [
        | inl f ↦
            rw (e, f)
              (record {
                once = omega (arith, q.silent);
                keyed = foreign-none p.key_timeout p.timers q.silent;
                given = q.given;
                positive = q.positive;
              })
        | inr f ↦
            rw (e, f)
              (record {
                once = omega (arith, q.silent);
                keyed = ground (arith, foreign-none p.next_timer p.timers q.silent);
                given = ground (arith, q.positive, unknown-later p.next_timer p.timers q.given);
                positive = omega arith;
              })
      ]
    ]
