-- ===== src/Viewer/Theme/DarkMode/Preference.antt =====
-- What a user sees and what is kept for each preference of the browser.
use p2p_file_share.Base.{
  lit, ◌&&◌, ◌||◌, ◌≡◌, refl, ap, sym, ◌∙◌, Bool, true, false, not, Bool-cases, inl, inr, List,
  if◌then◌else◌, Text, text_eq, insert, erase, lookup-insert, lookup-erase, text-IsEqTest,
}
use p2p_file_share.Viewer.Theme.DarkMode.{
  Tab, has_item, user_preference, enable_dark_mode, on_system_preference_changed,
  on_user_preference_changed, set_user_preference, store_preference, toggle_dark_mode, update_icon,
  load, system_change, become_visible, prefers_light_mode_in_dark_mode_key,
  prefers_dark_mode_in_light_mode_key,
}

has_item-insert :
    (k j : Text) (items : List (Text × Text))
    → has_item j (insert text_eq k (lit "true") items)
      ≡ (if text_eq k j then true else has_item j items)
unfolding has_item
has_item-insert k j items = elim (Bool-cases (text_eq k j)) [
  | inl e ↦ rw (lookup-insert text_eq text-IsEqTest k j (lit "true") items, e) refl
  | inr e ↦ rw (lookup-insert text_eq text-IsEqTest k j (lit "true") items, e) refl
]

has_item-erase :
    (k j : Text) (items : List (Text × Text))
    → has_item j (erase text_eq k items) ≡ (if text_eq k j then false else has_item j items)
unfolding has_item
has_item-erase k j items = elim (Bool-cases (text_eq k j)) [
  | inl e ↦ rw (lookup-erase text_eq text-IsEqTest k j items, e) refl
  | inr e ↦ rw (lookup-erase text_eq text-IsEqTest k j items, e) refl
]

-- The preference of a user for one of the browser's preferences, by what is stored.
abbrev pub preference_in : Bool → List (Text × Text) → Bool
preference_in system items =
    if system
    then not (has_item prefers_light_mode_in_dark_mode_key items)
    else has_item prefers_dark_mode_in_light_mode_key items

user_preference-in :
    (t : Tab) → user_preference t ≡ preference_in t.system_preference t.local_storage
unfolding user_preference
user_preference-in t =
    by_system t.system_preference (has_item prefers_dark_mode_in_light_mode_key t.local_storage)
      (has_item prefers_light_mode_in_dark_mode_key t.local_storage)
  where
    by_system : (s d l : Bool) → ((not s && d) || (s && not l)) ≡ (if s then not l else d)
    by_system true d l = refl
    by_system false true l = refl
    by_system false false l = refl

abbrev pub same : Bool → Bool → Bool
same true b = b
same false b = not b

store_preference-in :
    (system p other : Bool) (items : List (Text × Text))
    → preference_in other (store_preference system p items)
      ≡ (if same system other then p else preference_in other items)
unfolding store_preference text_eq
store_preference-in true true true items =
    rw
      (has_item-erase prefers_light_mode_in_dark_mode_key prefers_light_mode_in_dark_mode_key items)
      refl
store_preference-in true true false items =
    rw
      (has_item-erase prefers_light_mode_in_dark_mode_key prefers_dark_mode_in_light_mode_key items)
      refl
store_preference-in true false true items =
    rw
      (has_item-insert prefers_light_mode_in_dark_mode_key prefers_light_mode_in_dark_mode_key
        items)
      refl
store_preference-in true false false items =
    rw
      (has_item-insert prefers_light_mode_in_dark_mode_key prefers_dark_mode_in_light_mode_key
        items)
      refl
store_preference-in false true true items =
    rw
      (has_item-insert prefers_dark_mode_in_light_mode_key prefers_light_mode_in_dark_mode_key
        items)
      refl
store_preference-in false true false items =
    rw
      (has_item-insert prefers_dark_mode_in_light_mode_key prefers_dark_mode_in_light_mode_key
        items)
      refl
store_preference-in false false true items =
    rw
      (has_item-erase prefers_dark_mode_in_light_mode_key prefers_light_mode_in_dark_mode_key items)
      refl
store_preference-in false false false items =
    rw
      (has_item-erase prefers_dark_mode_in_light_mode_key prefers_dark_mode_in_light_mode_key items)
      refl

paint-in :
    (b : Bool) (t : Tab) → user_preference (update_icon (enable_dark_mode b t)) ≡ user_preference t
unfolding user_preference enable_dark_mode update_icon
paint-in true t = refl
paint-in false t = refl

-- What the page shows is what the user prefers.
pub record IsConsistent (t : Tab) : Type 0 where
  pub enabled : t.dark_mode_enabled ≡ user_preference t
  pub dark : t.dark_class ≡ t.dark_mode_enabled
  pub light : t.light_class ≡ not t.dark_mode_enabled
  pub icon : t.dark_icon ≡ t.dark_mode_enabled

paint-IsConsistent :
    (b : Bool) (t : Tab) → user_preference t ≡ b → IsConsistent (update_icon (enable_dark_mode b t))
unfolding enable_dark_mode update_icon
paint-IsConsistent true t h = record {
  enabled = sym (paint-in true t ∙ h);
  dark = refl;
  light = refl;
  icon = refl;
}
paint-IsConsistent false t h = record {
  enabled = sym (paint-in false t ∙ h);
  dark = refl;
  light = refl;
  icon = refl;
}

-- The tab whose preference has just been stored.
abbrev stored : Bool → Tab → Tab
stored p t = record t {
  dark_mode_enabled = p;
  local_storage = store_preference t.system_preference p t.local_storage;
}

same_refl : (b : Bool) → same b b ≡ true
same_refl true = refl
same_refl false = refl

stored-in : (p : Bool) (t : Tab) → user_preference (stored p t) ≡ p
stored-in p t =
    user_preference-in (stored p t)
    ∙ store_preference-in t.system_preference p t.system_preference t.local_storage
    ∙ rw (same_refl t.system_preference) refl

toggle-IsConsistent : (t : Tab) → IsConsistent (toggle_dark_mode t)
unfolding toggle_dark_mode set_user_preference on_user_preference_changed
toggle-IsConsistent t =
    paint-IsConsistent (not (user_preference t)) (stored (not (user_preference t)) t)
      (stored-in (not (user_preference t)) t)

-- What happens to a tab: its page loads, its button is clicked, the browser's preference changes, and the
-- page is shown again, after other tabs may have changed the storage. A change while it is shown is no step.
pub data Follows (first : Tab) : Tab → Type 0 where
  loaded : Follows first (load first)
  toggled : {t : Tab} → Follows first t → Follows first (toggle_dark_mode t)
  system_changed : {t : Tab} (dark : Bool) → Follows first t → Follows first (system_change dark t)
  returned :
      {t : Tab} (items : List (Text × Text))
      → Follows first t
      → Follows first (become_visible items t)

-- Over the loading of the page, clicks on the button, changes of the browser's preference, and returns to
-- the page after other tabs changed the storage, where no other page changes it while this one is shown:
-- the page has the classes and the icon of its mode, and its mode is the one that is stored for the
-- preference of the browser.
pub Follows-IsConsistent : (first : Tab) {t : Tab} → Follows first t → IsConsistent t
unfolding load system_change become_visible on_system_preference_changed
Follows-IsConsistent first loaded = paint-IsConsistent (user_preference first) first refl
Follows-IsConsistent first (toggled {t} f) = toggle-IsConsistent t
Follows-IsConsistent first (system_changed {t} dark f) =
    let u = record t { system_preference = dark } in paint-IsConsistent (user_preference u) u refl
Follows-IsConsistent first (returned {t} items f) =
    let u = record t { local_storage = items } in paint-IsConsistent (user_preference u) u refl

toggle-storage :
    (t : Tab)
    → (toggle_dark_mode t).local_storage
      ≡ store_preference t.system_preference (not (user_preference t)) t.local_storage
unfolding toggle_dark_mode set_user_preference on_user_preference_changed enable_dark_mode
    update_icon
toggle-storage t = elim (Bool-cases (user_preference t)) [
  | inl e ↦ rw (toggle_dark_mode, e) refl
  | inr e ↦ rw (toggle_dark_mode, e) refl
]

-- A click on the button turns the preference for dark pages around for the present preference of the
-- browser, and keeps the one for the other.
pub toggle_dark_mode_lem :
    (t : Tab) (system : Bool)
    → preference_in system (toggle_dark_mode t).local_storage ≡ (
        if same t.system_preference system
        then not (user_preference t)
        else preference_in system t.local_storage)
toggle_dark_mode_lem t system =
    ap (preference_in system) (toggle-storage t)
    ∙ store_preference-in t.system_preference (not (user_preference t)) system t.local_storage
