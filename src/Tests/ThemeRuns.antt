-- ===== src/Tests/ThemeRuns.antt =====
-- Runs of the theme of the documentation.
use p2p_file_share.Base.{ℕ, ◌≡◌, refl, [], ◌∷◌, Option, true, false, not, ◌&&◌, ◌==◌}
use p2p_file_share.Viewer.Resize.{px, below}
use p2p_file_share.Viewer.Theme.DarkMode.{Tab, load, toggle_dark_mode, system_change}
use p2p_file_share.Viewer.Theme.DarkMode.Preference
use p2p_file_share.Viewer.Theme.DarkMode.Preference.{IsConsistent, Follows-IsConsistent}
use p2p_file_share.Viewer.Theme.Toc.{Header, last_past, mark_lines, activate, update}
use p2p_file_share.Viewer.Theme.Toc.Active.{IsLast, from, past_at, update_lem}

abbrev tab : Tab
tab = record {
  system_preference = false;
  local_storage = [];
  dark_mode_enabled = false;
  dark_class = false;
  light_class = false;
  dark_icon = false;
}

Follows-IsConsistent_example : IsConsistent (system_change true (toggle_dark_mode (load tab)))
Follows-IsConsistent_example =
    Follows-IsConsistent tab (Preference.system_changed true (Preference.toggled Preference.loaded))

abbrev top_line : Header
top_line = record { position = below 200; is_active = true; is_above = false }

abbrev second_line : Header
second_line = record { position = px 20; is_active = false; is_above = false }

abbrev third_line : Header
third_line = record { position = px 500; is_active = false; is_above = true }

update_lem_example :
    (o : Option ℕ) × IsLast (top_line ∷ second_line ∷ third_line ∷ []) o
    × (true ≡ (1 == from 0 0 o))
    × (false ≡ (past_at 1 (top_line ∷ second_line ∷ third_line ∷ []) && not (1 == from 0 0 o)))
unfolding last_past mark_lines activate update
update_lem_example =
    update_lem (top_line ∷ second_line ∷ third_line ∷ []) 1
      (record { position = px 20; is_active = true; is_above = false }) refl
