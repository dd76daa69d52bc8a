-- ===== src/Router.antt =====
-- core/channel_router.py: the bindings of channels to windows. A `Routing` is the router with what
-- its methods reach: the window store, whose markers they remove, and `kills`, the windows that
-- `_kill_window` was called with, newest first. `saves` counts the calls of `_schedule_save`.
pub mod Index
pub mod Eviction
pub mod Binding
pub mod Unbinding
pub mod Serial
mod Tests
use unified_icc.Base.{
  ℕ, ◌+◌, String, Bool, true, false, not, ◌&&◌, ◌||◌, Option, none, some, List, [], ◌∷◌, ◌++◌,
  if◌then◌else◌, ◌==◌, ◌>>=◌, truthy, or_default, is_some, points_to, discard, is_empty,
}
use unified_icc.Base.Dict.{Dict, get, put, pop, keys, has, delete, pop_all}
use unified_icc.WindowStore.{WindowStateStore, remove_created_window}

pub record ChannelRouter : Type 0 where
  pub bindings : Dict String
  pub reverse : Dict (List String)
  pub display_names : Dict String
  pub channel_meta : Dict (Dict String)
  pub saves : ℕ

pub record Routing : Type 0 where
  pub router : ChannelRouter
  pub open router use *
  pub store : WindowStateStore
  pub kills : List String

-- `self._reverse.get(window_id, [])`
abbrev pub channels_of : String → Dict (List String) → List String
channels_of window_id reverse = or_default (get window_id reverse) []

abbrev remove_from :
    String → String → Option (List String) → Dict (List String) → Dict (List String)
remove_from channel_id window_id none reverse = reverse
remove_from channel_id window_id (some channels) reverse =
    let left = discard channel_id channels in
    if is_empty left then pop window_id reverse else put window_id left reverse

unfoldable pub remove_from_reverse : String → String → Dict (List String) → Dict (List String)
remove_from_reverse channel_id window_id reverse =
    remove_from channel_id window_id (get window_id reverse) reverse

-- `setdefault(window_id, []).append(channel_id)`
unfoldable pub append_channel : String → String → Dict (List String) → Dict (List String)
append_channel channel_id window_id reverse =
    put window_id (channels_of window_id reverse ++ channel_id ∷ []) reverse

-- `_rebuild_reverse_index`, from the index built so far
unfoldable pub rebuild : Dict String → Dict (List String) → Dict (List String)
rebuild [] reverse = reverse
rebuild ((channel_id, window_id) ∷ d) reverse =
    rebuild d (append_channel channel_id window_id reverse)

unfoldable pub schedule_save : Routing → Routing
schedule_save s = record s { router = record s.router { saves = s.router.saves + 1 } }

unfoldable pub kill_window : String → Routing → Routing
kill_window window_id s = record s { kills = window_id ∷ s.kills }

-- The display name and the marker of a window go.
unfoldable pub forget_window : String → Routing → Routing
forget_window window_id s = record s {
  router = record s.router { display_names = pop window_id s.display_names };
  store = remove_created_window window_id s.store;
}

-- `not self._reverse.get(window_id)`
abbrev pub is_orphan : String → Routing → Bool
is_orphan window_id s = is_empty (channels_of window_id s.reverse)

-- What `bind` does to a window that has lost a channel: with no channel left it is killed.
unfoldable pub retire : String → Routing → Routing
unfolding forget_window kill_window
retire window_id s =
    if is_orphan window_id s then kill_window window_id (forget_window window_id s) else s

-- The old binding of the channel leaves the reverse index.
unfoldable pub leave : String → Option String → Routing → Routing
leave channel_id none s = s
leave channel_id (some old_window) s = retire old_window (record s {
  router = record s.router { reverse = remove_from_reverse channel_id old_window s.reverse };
})

-- One round of the loop over the stale channels. `none` is the KeyError of the `del`.
unfoldable pub evict : String → String → Routing → Option Routing
evict window_id stale_ch s =
    let stale_wid = or_default (get stale_ch s.bindings) window_id in
    delete stale_ch s.bindings >>= λ left. some (
      retire stale_wid (record s {
        router = record s.router {
          bindings = left;
          channel_meta = pop stale_ch s.channel_meta;
          reverse = remove_from_reverse stale_ch stale_wid s.reverse;
        };
      }))

unfoldable pub evict_stale : String → String → List String → Routing → Option Routing
evict_stale channel_id window_id [] s = some s
evict_stale channel_id window_id (stale_ch ∷ rest) s =
    (if stale_ch == channel_id then some s else evict window_id stale_ch s)
    >>= evict_stale channel_id window_id rest

-- The metadata and the display name that `bind` is given.
unfoldable pub describe : String → String → String → String → ChannelRouter → ChannelRouter
describe channel_id window_id user_id display_name r = record r {
  channel_meta =
      if truthy user_id
      then put channel_id (put "user_id" user_id (or_default (get channel_id r.channel_meta) []))
          r.channel_meta
      else r.channel_meta;
  display_names =
      if truthy display_name then put window_id display_name r.display_names else r.display_names;
}

unfoldable pub apply_binding : String → String → String → String → Routing → Routing
unfolding describe schedule_save
apply_binding channel_id window_id user_id display_name s = schedule_save (record s {
  router = describe channel_id window_id user_id display_name (record s.router {
    bindings = put channel_id window_id s.bindings;
    reverse = append_channel channel_id window_id (pop window_id s.reverse);
  });
})

unfoldable pub bind : String → String → String → String → Routing → Option Routing
bind channel_id window_id user_id display_name s =
    let old_window = get channel_id s.bindings in
    let left = leave channel_id old_window s in
    if points_to old_window window_id
    then some s
    else (evict_stale channel_id window_id (channels_of window_id left.reverse) left >>= λ free.
        some (apply_binding channel_id window_id user_id display_name free))

unbind_from : String → Option String → Routing → Routing
unfolding forget_window kill_window schedule_save
unbind_from channel_id none s = s
unbind_from channel_id (some window_id) s =
    let freed = record s {
      router = record s.router {
        bindings = pop channel_id s.bindings;
        reverse = remove_from_reverse channel_id window_id s.reverse;
        channel_meta = pop channel_id s.channel_meta;
      };
    } in
    let cleaned = if is_orphan window_id freed then forget_window window_id freed else freed in
    kill_window window_id (schedule_save cleaned)

unfoldable pub unbind : String → Routing → Routing
unfolding unbind_from
unbind channel_id s = unbind_from channel_id (get channel_id s.bindings) s

unfoldable pub unbind_window : String → Bool → Routing → List String × Routing
unfolding forget_window kill_window schedule_save
unbind_window window_id kill s =
    let channels = channels_of window_id s.reverse in
    let cleaned = forget_window window_id (record s {
      router = record s.router {
        bindings = pop_all channels s.bindings;
        reverse = pop window_id s.reverse;
        channel_meta = pop_all channels s.channel_meta;
      };
    }) in
    let saved = if is_empty channels then cleaned else schedule_save cleaned in
    (channels, if kill then kill_window window_id saved else saved)

-- Queries

unfoldable pub resolve_window : String → Routing → Option String
resolve_window channel_id s = get channel_id s.bindings

unfoldable pub resolve_channels : String → Routing → List String
resolve_channels window_id s = channels_of window_id s.reverse

first : List String → Option String
first [] = none
first (c ∷ cs) = some c

unfoldable pub resolve_channel_for_window : String → Routing → Option String
unfolding first
resolve_channel_for_window window_id s = first (channels_of window_id s.reverse)

unfoldable pub is_bound : String → Routing → Bool
is_bound channel_id s = has channel_id s.bindings

unfoldable pub is_window_bound : String → Routing → Bool
is_window_bound window_id s = not (is_orphan window_id s)

unfoldable pub bound_window_ids : Routing → List String
bound_window_ids s = keys s.reverse

unfoldable pub bound_channel_ids : Routing → List String
bound_channel_ids s = keys s.bindings

-- Display names

unfoldable pub get_display_name : String → Routing → String
get_display_name window_id s = or_default (get window_id s.display_names) window_id

unfoldable pub set_display_name : String → String → Routing → Routing
unfolding schedule_save
set_display_name window_id name s =
    if points_to (get window_id s.display_names) name
    then s
    else schedule_save (record s {
      router = record s.router { display_names = put window_id name s.display_names };
    })

-- The name that was popped, and the router without it.
unfoldable pub pop_display_name : String → Routing → String × Routing
unfolding get_display_name
pop_display_name window_id s = (
  get_display_name window_id s,
  record s { router = record s.router { display_names = pop window_id s.display_names } },
)

-- What the loop is given of a live window: an object with attributes, a dict, or a tuple.
pub data Window : Type 0 where
  attributes : String → String → Window
  mapping : Dict String → Window
  pair : String → String → Window

-- Its id and its name; a tuple has no method `get`, and `none` stands for the AttributeError.
abbrev pub id_and_name : Window → Option (String × String)
id_and_name (attributes wid name) = some (wid, name)
id_and_name (mapping d) =
    some (or_default (get "window_id" d) "", or_default (get "window_name" d) "")
id_and_name (pair wid name) = none

-- No save is scheduled. Where there is no flag, the loop has raised.
unfoldable pub sync_display_names : List Window → Routing → Option Bool × Routing
sync_display_names [] s = (some false, s)
sync_display_names (w ∷ ws) s = elim (id_and_name w) [
  | none ↦ (none, s)
  | some (wid, name) ↦
      let wanted = truthy wid && (truthy name && not (points_to (get wid s.display_names) name)) in
      let named = record s {
        router = record s.router { display_names = put wid name s.display_names };
      } in
      let (changed, s') = sync_display_names ws (if wanted then named else s) in
      (elim changed [ none ↦ none | some c ↦ some (wanted || c) ], s')
]
