-- ===== src/Viewer/Theme/DarkMode.antt =====
-- docs/doxygen-awesome-darkmode-toggle.js: whether a page is dark, and the button that changes it.
pub mod Preference
use p2p_file_share.Base.{
  Bool, true, false, not, ◌&&◌, ◌||◌, List, Option, none, if◌then◌else◌, Text, lit, text_eq, lookup,
  insert, erase,
}
use p2p_file_share.Viewer.Cookie.{truthy}

abbrev pub prefers_light_mode_in_dark_mode_key : Text
prefers_light_mode_in_dark_mode_key = lit "prefers-light-mode-in-dark-mode"

abbrev pub prefers_dark_mode_in_light_mode_key : Text
prefers_dark_mode_in_light_mode_key = lit "prefers-dark-mode-in-light-mode"

-- `system_preference` is whether the browser prefers dark pages. The classes are those of the document,
-- and `dark_icon` tells the icon of the button.
pub record Tab : Type 0 where
  pub system_preference : Bool
  pub local_storage : List (Text × Text)
  pub dark_mode_enabled : Bool
  pub dark_class : Bool
  pub light_class : Bool
  pub dark_icon : Bool

-- localStorage.getItem as a condition
unfoldable pub has_item : Text → List (Text × Text) → Bool
has_item key items = truthy (lookup text_eq key items)

unfoldable pub user_preference : Tab → Bool
unfolding has_item
user_preference t =
    (not t.system_preference && has_item prefers_dark_mode_in_light_mode_key t.local_storage)
    || (t.system_preference && not (has_item prefers_light_mode_in_dark_mode_key t.local_storage))

unfoldable pub enable_dark_mode : Bool → Tab → Tab
enable_dark_mode enable t =
    if enable
    then record t { dark_mode_enabled = true; dark_class = true; light_class = false }
    else record t { dark_mode_enabled = false; dark_class = false; light_class = true }

unfoldable pub on_system_preference_changed : Tab → Tab
unfolding user_preference enable_dark_mode
on_system_preference_changed t = enable_dark_mode (user_preference t) t

unfoldable pub on_user_preference_changed : Tab → Tab
unfolding enable_dark_mode
on_user_preference_changed t = enable_dark_mode t.dark_mode_enabled t

abbrev set_item : Text → List (Text × Text) → List (Text × Text)
set_item key items = insert text_eq key (lit "true") items

abbrev remove_item : Text → List (Text × Text) → List (Text × Text)
remove_item key items = erase text_eq key items

-- What the setter of userPreference stores.
unfoldable pub store_preference : Bool → Bool → List (Text × Text) → List (Text × Text)
store_preference system preference items =
    if not preference
    then if system
      then set_item prefers_light_mode_in_dark_mode_key items
      else remove_item prefers_dark_mode_in_light_mode_key items
    else if not system
    then set_item prefers_dark_mode_in_light_mode_key items
    else remove_item prefers_light_mode_in_dark_mode_key items

unfoldable pub set_user_preference : Bool → Tab → Tab
unfolding store_preference on_user_preference_changed
set_user_preference preference t = on_user_preference_changed (record t {
  dark_mode_enabled = preference;
  local_storage = store_preference t.system_preference preference t.local_storage;
})

unfoldable pub update_icon : Tab → Tab
update_icon t = record t { dark_icon = t.dark_mode_enabled }

unfoldable pub toggle_dark_mode : Tab → Tab
unfolding user_preference set_user_preference update_icon
toggle_dark_mode t = update_icon (set_user_preference (not (user_preference t)) t)

-- The static constructor and init, on a page that loads.
unfoldable pub load : Tab → Tab
unfolding user_preference enable_dark_mode update_icon
load t = update_icon (enable_dark_mode (user_preference t) t)

-- The listeners of the two events, in their order: of the browser's preference, and of a tab that is
-- shown again, where other tabs may have changed the storage.
unfoldable pub system_change : Bool → Tab → Tab
unfolding on_system_preference_changed update_icon
system_change dark t =
    update_icon (on_system_preference_changed (record t { system_preference = dark }))

unfoldable pub become_visible : List (Text × Text) → Tab → Tab
unfolding on_system_preference_changed update_icon
become_visible items t =
    update_icon (on_system_preference_changed (record t { local_storage = items }))
