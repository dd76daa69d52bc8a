-- ===== src/Router/Tests.antt =====
-- Routings to run the router on, and the theorems at them.
use unified_icc.Base.{
  String, false, ◌≡◌, refl, ◌≢◌, Option, none, some, [], ◌∷◌, arith, if◌then◌else◌, eq_iff,
  points_to, contains,
}
use mathlib.Core.Path.{subst}
use mathlib.Core.Option.{some-injective}
use unified_icc.Base.Dict.{Dict, get, put, HasUniqueKeys}
use unified_icc.Base.Json.{read_object, Json, str, object, entries, of_entries}
use unified_icc.Base.Text.{is_digit}
use unified_icc.WindowStore.{new_store}
use unified_icc.Router.{ChannelRouter, Routing, rebuild, bind, unbind, unbind_window, leave}
use unified_icc.Router.Index.{Agrees, IsConsistent, rebuild-Agrees}
use unified_icc.Router.Binding.{Bound, bind-Bound, bind_kills_taken}
use unified_icc.Router.Unbinding.{unbind-IsConsistent, unbind_kills_shared, unbind_window_lem}
use unified_icc.Router.Serial.{from_dict, with_bindings}
use unified_icc.Router.Serial.Loading.{from_dict-Agrees, HasUniqueChannels}

abbrev router_of : Dict String → ChannelRouter
router_of bindings = record {
  bindings = bindings;
  reverse = rebuild bindings [];
  display_names = ("icc:@1", "project") ∷ [];
  channel_meta = [];
  saves = 0;
}

abbrev routing_of : Dict String → Routing
routing_of bindings = record { router = router_of bindings; store = new_store; kills = [] }

-- Two channels with a window each.
abbrev two_windows : Dict String
two_windows = ("feishu:a", "icc:@1") ∷ ("feishu:b", "icc:@2") ∷ []

-- Two channels that a state file gives the same window.
abbrev shared_window : Dict String
shared_window = ("feishu:a", "icc:@1") ∷ ("feishu:b", "icc:@1") ∷ []

two_windows-IsConsistent : IsConsistent (routing_of two_windows)
unfolding get
two_windows-IsConsistent = rebuild-Agrees two_windows (refl, (refl, tt))

new_binding : get "feishu:a" two_windows ≢ some "icc:@2"
unfolding get
new_binding h = ground (arith, eq_iff "icc:@1" "icc:@2")

bind-Bound_example :
    (s' : Routing) × (bind "feishu:a" "icc:@2" "" "" (routing_of two_windows) ≡ some s')
    × Bound "feishu:a" "icc:@2" (routing_of two_windows) s'
bind-Bound_example =
    bind-Bound "feishu:a" "icc:@2" "" "" (routing_of two_windows) two_windows-IsConsistent
      new_binding

bind_kills_taken_example :
    (s' : Routing) × (bind "feishu:a" "icc:@2" "" "" (routing_of two_windows) ≡ some s')
    × (get "feishu:a" s'.bindings ≡ some "icc:@2")
    × (get "feishu:b" s'.bindings ≡ none)
    × (s'.kills
        ≡ "icc:@2" ∷ (leave "feishu:a" (get "feishu:a" two_windows) (routing_of two_windows)).kills)
unfolding get
bind_kills_taken_example =
    bind_kills_taken "feishu:a" "feishu:b" "icc:@2" "" "" (routing_of two_windows)
      two_windows-IsConsistent new_binding refl

unbind-IsConsistent_example : IsConsistent (unbind "feishu:a" (routing_of two_windows))
unbind-IsConsistent_example =
    unbind-IsConsistent "feishu:a" (routing_of two_windows) two_windows-IsConsistent

unbind_kills_shared_example :
    ((unbind "feishu:a" (routing_of shared_window)).kills ≡ "icc:@1" ∷ [])
    × (get "feishu:b" (unbind "feishu:a" (routing_of shared_window)).bindings ≡ some "icc:@1")
unfolding get
unbind_kills_shared_example =
    unbind_kills_shared "feishu:a" "feishu:b" "icc:@1" (routing_of shared_window)
      (λ h. ground (arith, eq_iff "feishu:a" "feishu:b")) refl refl

unbind_window_lem_example :
    ((c : String)
      → contains c (unbind_window "icc:@1" false (routing_of two_windows)).0
        ≡ points_to (get c two_windows) "icc:@1")
    × ((c : String)
        → get c (unbind_window "icc:@1" false (routing_of two_windows)).1.bindings
          ≡ (if points_to (get c two_windows) "icc:@1" then none else get c two_windows))
    × ((unbind_window "icc:@1" false (routing_of two_windows)).1.kills ≡ [])
unbind_window_lem_example =
    unbind_window_lem "icc:@1" false (routing_of two_windows) two_windows-IsConsistent

-- `int` on texts of digits.
abbrev int_of_digits : String → Option String
int_of_digits s = if is_digit s then some s else none

-- A file in the older format: one user with a thread that is bound, and one with an id that is
-- no number.
abbrev older_file : Dict Json
older_file =
    (
      "thread_bindings",
      object (("7", object (("12", str "@3") ∷ [])) ∷ ("x", object (("13", str "@4") ∷ [])) ∷ []),
    )
    ∷ []

abbrev migrated : ChannelRouter
migrated =
    with_bindings (("telegram:7:12", "@3") ∷ []) (("telegram:7:12", ("user_id", "7") ∷ []) ∷ []) []
      (router_of [])

older_file_loads : from_dict int_of_digits older_file (router_of []) ≡ some migrated
unfolding from_dict get put is_digit entries of_entries
older_file_loads = refl

older_file-HasUniqueChannels : HasUniqueChannels older_file
unfolding get read_object
older_file-HasUniqueChannels fs h = subst HasUniqueKeys (some-injective _ _ h) tt

from_dict-Agrees_example : Agrees migrated.bindings migrated.reverse
from_dict-Agrees_example =
    from_dict-Agrees int_of_digits older_file (router_of []) migrated older_file-HasUniqueChannels
      older_file_loads
