-- ===== src/Viewer/Search/Box/Searches.antt =====
-- What a search does with the timers.
use p2p_file_share.Base.{
  ℕ, ◌≡◌, refl, ap, ◌∙◌, Bool, true, false, ◌||◌, Option, none, some, List, Text, get_elem?, inl,
  inr, Bool-cases,
}
use p2p_file_share.Viewer.Strings.{index_of}
use p2p_file_share.Viewer.Search.{Panel, Datum}
use p2p_file_share.Viewer.Search.Ids.{strip_leading}
use p2p_file_share.Viewer.Search.Rows.{Browser, results_search}
use p2p_file_share.Viewer.Search.Box.{Site, Section, activate}
use p2p_file_share.Viewer.Search.Box.Run.{
  handle_results, load_results, js_file, index_char, run_search,
}
use p2p_file_share.Viewer.Search.Box.Timers.{waiting, IsQuiet}

-- What leaves the timers alone.
abbrev SameTimers : Panel → Panel → Type 0
SameTimers p q =
    (q.timers ≡ p.timers) × (q.next_timer ≡ p.next_timer) × (q.key_timeout ≡ p.key_timeout)

pub activate-SameTimers : (b : Bool) (p : Panel) → SameTimers p (activate b p)
unfolding activate
activate-SameTimers b p = elim (Bool-cases (b || p.results_shown)) [
  | inl e ↦ rw e (refl, refl, refl)
  | inr e ↦ rw e (refl, refl, refl)
]

pub SameTimers-IsQuiet : (p q : Panel) → SameTimers p q → IsQuiet p → IsQuiet q
SameTimers-IsQuiet p q s h = record {
  silent = ap waiting (s.0) ∙ h.silent;
  given = rw (s.0, s.1) (h.given);
  positive = rw (s.1) (h.positive);
}

results_search-SameTimers :
    (browser : Browser) (text : Text) (p : Panel) → SameTimers p (results_search browser text p)
unfolding results_search
results_search-SameTimers browser text p = (refl, refl, refl)

handle_results-SameTimers :
    (site : Site) (value : Text) (idx : Option ℕ) (p : Panel)
    → SameTimers p (handle_results site value idx p)
unfolding handle_results results_search
handle_results-SameTimers site value idx p = by_window p.results_shown p.search_data
  where
    by_window :
        (b : Bool) (o : Option (List Datum))
        → SameTimers p
            (handle_results site value idx (record p { results_shown = b; search_data = o }))
    by_window true none = (refl, refl, refl)
    by_window true (some ds) = (refl, refl, refl)
    by_window false none = (refl, refl, refl)
    by_window false (some ds) = (refl, refl, refl)

-- A search that runs leaves the timers and forgets its own.
unfoldable pub AfterSearch : Panel → Option Panel → Type 0
AfterSearch p none = Unit
AfterSearch p (some q) = (q.timers ≡ p.timers) × (q.next_timer ≡ p.next_timer) × (q.key_timeout ≡ 0)

pub run_search-AfterSearch : (site : Site) (p : Panel) → AfterSearch p (run_search site p)
unfolding AfterSearch run_search load_results
run_search-AfterSearch site p = by_section (get_elem? site.sections p.search_index)
  where
    quiet : Panel
    quiet = record p { key_timeout = 0 }

    value : Text
    value = strip_leading p.field_value

    loaded :
        (section : Section) (idx : ℕ) (o : Option (List Datum))
        → AfterSearch p (
            some
              (record (elim o as (λ _. Panel) [
                | none ↦ quiet
                | some data_of ↦
                    handle_results site value
                      (some idx)
                      (record quiet { search_data = some data_of })
              ]) { last_search_value = value }))
    loaded section idx none = (refl, refl, refl)
    loaded section idx (some ds) =
        handle_results-SameTimers site value (some idx) (record quiet { search_data = some ds })

    by_index :
        (section : Section) (o : Option ℕ)
        → AfterSearch p (elim o as (λ _. Option Panel) [
          | none ↦
              some (record (handle_results site value none quiet) { last_search_value = value })
          | some idx ↦
              some
                (record (load_results site value section idx quiet) { last_search_value = value })
        ])
    by_index section none = handle_results-SameTimers site value none quiet
    by_index section (some idx) = loaded section idx (site.load (js_file site section idx))

    by_section :
        (o : Option Section)
        → AfterSearch p (elim o as (λ _. Option Panel) [
          | none ↦ none
          | some section ↦ elim (index_of (index_char site value) section.content) [
            | none ↦
                some (record (handle_results site value none quiet) { last_search_value = value })
            | some idx ↦
                some
                  (record (load_results site value section idx quiet) { last_search_value = value })
          ]
        ])
    by_section none = tt
    by_section (some section) = by_index section (index_of (index_char site value) section.content)
