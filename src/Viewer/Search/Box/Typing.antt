-- ===== src/Viewer/Search/Box/Typing.antt =====
-- The events while a user types, and the searches that wait.
use p2p_file_share.Base.{
  ℕ, ◌≡◌, ap, ◌∙◌, true, false, ◌==◌, ◌||◌, Option, none, some, [], arith, Text, is_empty, inl, inr,
  Bool-cases,
}
use mathlib.Core.Path.{subst}
use p2p_file_share.Viewer.Search.{nothing, Panel, search}
use p2p_file_share.Viewer.Search.Rows.{nav_next}
use p2p_file_share.Viewer.Search.Box.{
  Site, Key, without_timer, kill_key_timer, leave_field, activate, on_search_select_show,
  on_search_select_hide, on_search_field_change, focus_item, focus_first_filter,
}
use p2p_file_share.Viewer.Search.Box.Select.{fire, on_select_item, on_search_select_key}
use p2p_file_share.Viewer.Search.Box.Timers.{
  waiting, IsDebounced, waiting-without_timer, foreign-without_timer, unknown-without_timer,
  unknown-later, waiting-without_key, IsQuiet, IsQuiet-IsDebounced, kill_key_timer-IsQuiet,
  value_changed-IsDebounced,
}
use p2p_file_share.Viewer.Search.Box.Searches.{
  activate-SameTimers, SameTimers-IsQuiet, AfterSearch, run_search-AfterSearch,
}
use p2p_file_share.Viewer.Search.Box.Choices.{
  IsDebounced-IsQuiet, leaves-IsDebounced, on_select_item-LeavesQuiet,
  on_search_select_key-LeavesQuiet,
}

-- The events of a page on which a user types in the field, moves the pointer over the menu of filters, and
-- chooses one with the pointer or the keys while no search waits.
pub data Step (site : Site) : Panel → Panel → Type 0 where
  key : (e : Key) (p : Panel) → Step site p (on_search_field_change e p)
  show : (p : Panel) → Step site p (on_search_select_show p)
  hide : (p : Panel) → Step site p (on_search_select_hide p)
  type : (text : Text) (p : Panel) → Step site p (record p { field_value = text })
  choose :
      (id : ℕ) (p q : Panel)
      → waiting p.timers ≡ 0
      → on_select_item site id p ≡ some q
      → Step site p q
  select :
      (key_code : ℕ) (p q : Panel)
      → waiting p.timers ≡ 0
      → on_search_select_key site key_code p ≡ some q
      → Step site p q
  run : (id : ℕ) (p q : Panel) → id ≡ p.key_timeout → fire site id search p ≡ some q → Step site p q

pub data Reaches (site : Site) (p : Panel) : Panel → Type 0 where
  here : Reaches site p p
  next : {q r : Panel} → Reaches site p q → Step site q r → Reaches site p r

show-IsDebounced : (p : Panel) → IsDebounced p → IsDebounced (on_search_select_show p)
unfolding on_search_select_show
show-IsDebounced p d = elim (Bool-cases (p.hide_timeout == 0)) [
  | inl e ↦ rw e d'
  | inr e ↦ rw e (record {
    once = omega (arith, d.once, waiting-without_timer p.hide_timeout p.timers);
    keyed = foreign-without_timer p.hide_timeout p.key_timeout p.timers d.keyed;
    given = unknown-without_timer p.hide_timeout p.next_timer p.timers d.given;
    positive = d.positive;
  })
]
  where
    d' : IsDebounced (record p { select_shown = true })
    d' = record { once = d.once; keyed = d.keyed; given = d.given; positive = d.positive }

show-IsQuiet : (p : Panel) → IsQuiet p → IsQuiet (on_search_select_show p)
unfolding on_search_select_show
show-IsQuiet p q = elim (Bool-cases (p.hide_timeout == 0)) [
  | inl e ↦ rw e (record { silent = q.silent; given = q.given; positive = q.positive })
  | inr e ↦ rw e (record {
    silent = omega (arith, q.silent, waiting-without_timer p.hide_timeout p.timers);
    given = unknown-without_timer p.hide_timeout p.next_timer p.timers q.given;
    positive = q.positive;
  })
]

hide-IsDebounced : (p : Panel) → IsDebounced p → IsDebounced (on_search_select_hide p)
unfolding on_search_select_hide
hide-IsDebounced p d = record {
  once = d.once;
  keyed = d.keyed;
  given = ground (arith, d.positive, unknown-later p.next_timer p.timers d.given);
  positive = omega arith;
}

run-IsDebounced :
    (site : Site) (id : ℕ) (p q : Panel)
    → IsDebounced p
    → id ≡ p.key_timeout
    → fire site id search p ≡ some q
    → IsDebounced q
unfolding fire AfterSearch
run-IsDebounced site id p q d e f =
    let rest = record p { timers = without_timer id p.timers } in
    let left : (q.timers ≡ without_timer id p.timers)
        × (q.next_timer ≡ p.next_timer)
        × (q.key_timeout ≡ 0) =
      subst (AfterSearch rest) f (run_search-AfterSearch site rest) in
    let silent : waiting (without_timer id p.timers) ≡ 0 =
      ap (λ k. waiting (without_timer k p.timers)) e
      ∙ waiting-without_key p.key_timeout p.timers d.keyed in
    IsQuiet-IsDebounced q (record {
      silent = ap waiting left.0 ∙ silent;
      given = rw (left.0, left.1) (unknown-without_timer id p.next_timer p.timers d.given);
      positive = rw (left.1) (d.positive);
    })

leave_field-IsQuiet : (p : Panel) → IsQuiet p → IsQuiet (leave_field p)
unfolding leave_field
leave_field-IsQuiet p q =
    let left : Panel = record p {
      focus = nothing;
      results_shown = false;
      close_shown = false;
      last_search_value = [];
    } in
    SameTimers-IsQuiet p (activate false left) (activate-SameTimers false left) q

focus_item-IsQuiet : (o : Option ℕ) (p : Panel) → IsQuiet p → IsQuiet (focus_item o p)
focus_item-IsQuiet none p q = q
focus_item-IsQuiet (some i) p q = record {
  silent = q.silent;
  given = q.given;
  positive = q.positive;
}

focus_first_filter-IsQuiet : (p : Panel) → IsQuiet p → IsQuiet (focus_first_filter p)
focus_first_filter-IsQuiet p q = elim (Bool-cases (is_empty p.select_items)) [
  | inl e ↦ rw e q
  | inr e ↦ rw e (record { silent = q.silent; given = q.given; positive = q.positive })
]

key-IsDebounced : (e : Key) (p : Panel) → IsDebounced p → IsDebounced (on_search_field_change e p)
unfolding on_search_field_change
key-IsDebounced e p d =
    let quiet = kill_key_timer-IsQuiet p d in
    elim (Bool-cases ((e.key_code == 40) || (e.key_code == 13))) [
      | inl a ↦ elim (Bool-cases e.shift) [
        | inl s ↦
            let shown = on_search_select_show (kill_key_timer p) in
            rw (a, s)
              (IsQuiet-IsDebounced (focus_first_filter shown)
                (focus_first_filter-IsQuiet shown (show-IsQuiet (kill_key_timer p) quiet)))
        | inr s ↦
            let found = nav_next 0 (kill_key_timer p).rows in
            rw (a, s)
              (value_changed-IsDebounced (focus_item found (kill_key_timer p))
                (focus_item-IsQuiet found (kill_key_timer p) quiet))
      ]
      | inr a ↦ elim (Bool-cases (e.key_code == 27)) [
        | inl b ↦
            rw (a, b)
              (IsQuiet-IsDebounced (leave_field (kill_key_timer p))
                (leave_field-IsQuiet (kill_key_timer p) quiet))
        | inr b ↦ rw (a, b) (value_changed-IsDebounced (kill_key_timer p) quiet)
      ]
    ]

Step-IsDebounced : (site : Site) {p q : Panel} → Step site p q → IsDebounced p → IsDebounced q
Step-IsDebounced site (key e p) d = key-IsDebounced e p d
Step-IsDebounced site (show p) d = show-IsDebounced p d
Step-IsDebounced site (hide p) d = hide-IsDebounced p d
Step-IsDebounced site (choose id p q w e) d =
    leaves-IsDebounced q (on_select_item site id p)
      (on_select_item-LeavesQuiet site id p (IsDebounced-IsQuiet p w d)) e
Step-IsDebounced site (select code p q w e) d =
    leaves-IsDebounced q (on_search_select_key site code p)
      (on_search_select_key-LeavesQuiet site code p (IsDebounced-IsQuiet p w d)) e
Step-IsDebounced site (type text p) d = record {
  once = d.once;
  keyed = d.keyed;
  given = d.given;
  positive = d.positive;
}
Step-IsDebounced site (run id p q e f) d = run-IsDebounced site id p q d e f

-- Over the keys of the search field, moves of the pointer over the menu of filters, changes of the text,
-- searches that run out of their timer, and the choice of a filter while no search waits: at most one
-- search waits, its timer is the one that the field remembers, and the ids of all timers were given by
-- setTimeout.
pub Reaches-IsDebounced :
    (site : Site) {p q : Panel} → Reaches site p q → IsDebounced p → IsDebounced q
Reaches-IsDebounced site here d = d
Reaches-IsDebounced site (next r s) d = Step-IsDebounced site s (Reaches-IsDebounced site r d)
