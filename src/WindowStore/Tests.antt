-- ===== src/WindowStore/Tests.antt =====
-- Stores to run the window store on, and the theorems at them.
use unified_icc.Base.{true, false, ◌≡◌, refl, some, [], ◌∷◌, contains, add, union}
use unified_icc.Base.Dict.{get, put}
use unified_icc.Base.Text.{lower}
use unified_icc.WindowStore.{
  WindowState, WindowStateStore, new_state, new_store, mark_window_created, is_created_window,
  get_created_windows,
}
use unified_icc.WindowStore.Created.{IsTidy, new_store-IsTidy, mark-IsTidy}
use unified_icc.WindowStore.Modes.{next_notification_mode, set_window_approval_mode}

-- A window of a claude session, muted.
abbrev claude_window : WindowState
claude_window = record new_state {
  session_id = "s1";
  cwd = "/tmp";
  transcript_path = "/t/s1.jsonl";
  notification_mode = "muted";
  provider_name = "claude";
}

abbrev one_window : WindowStateStore
one_window = record new_store { window_states = ("icc:@1", claude_window) ∷ [] }

abbrev marked : WindowStateStore
marked = mark_window_created "icc:@1" "cclark" new_store

marked-IsTidy : IsTidy marked.created_windows
marked-IsTidy = mark-IsTidy "icc:@1" "cclark" new_store new_store-IsTidy

marks :
    (is_created_window "icc:@1" "cclark" marked ≡ true)
    × (is_created_window "icc:@1" "" marked ≡ false)
    × (get_created_windows "" marked ≡ "icc:@1" ∷ [])
unfolding mark_window_created is_created_window get_created_windows get put contains add union
marks = (refl, refl, refl)

cycles : next_notification_mode "muted" ≡ "all"
unfolding next_notification_mode
cycles = refl

yolo : WindowStateStore
yolo = record one_window {
  window_states = ("icc:@1", record claude_window { approval_mode = "yolo" }) ∷ [];
  saves = 1;
}

sets_yolo : set_window_approval_mode "icc:@1" "Yolo" one_window ≡ some yolo
unfolding set_window_approval_mode lower get put yolo
sets_yolo = refl

abbrev with_marker : WindowStateStore
with_marker = record one_window { created_windows = ("", "icc:@1" ∷ []) ∷ [] }
