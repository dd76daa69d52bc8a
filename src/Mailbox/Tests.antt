-- ===== src/Mailbox/Tests.antt =====
-- A mailbox, and the theorems at it.
use Prim.Native.String.{len}
use unified_icc.Base.{
  ℕ, ◌<>◌, String, Bool, true, false, ◌≡◌, refl, some, [], ◌∷◌, if◌then◌else◌, ◌==◌, ltb,
}
use unified_icc.Base.Dict.{get}
use unified_icc.Mailbox.Names.{
  sanitize_dir_name, has_traversal, before_char, after_char, has_char, has_dots, starts_with_dot,
  colon, equals,
}
use unified_icc.Mailbox.Names.Laws.{sanitize_dir_name_injective}
use unified_icc.Mailbox.Messages.{Message, to_dict, from_dict}
use unified_icc.Mailbox.Messages.RoundTrip.{message_round_trip, read_back}
use unified_icc.Mailbox.{Mailbox, Inbox, holds, corrupt, raised, message_at, file_name}
use unified_icc.Mailbox.Sending.{
  Stamp, Options, default_options, message_of, is_refused, send, reply, body_size_limit,
}
use unified_icc.Mailbox.Sending.Laws.{found_of, message_at-send, long_reply_marks}
use unified_icc.Mailbox.Sweeping.{sweep_dir}
use unified_icc.Mailbox.Sweeping.Laws.{listed_at, sweep_keeps_listed}

abbrev stamp : Stamp
stamp = record { id = "17-ab"; now = "2026-01-01T00:00:00+00:00" }

abbrev question : Message
question = message_of stamp "icc:@1" "icc:@2" "ready?" default_options

abbrev answered : Message
answered = record question { status = "replied" }

abbrev asked : Inbox
asked = record {
  files =
      ("17-ab.json", holds question)
      ∷ ("16-aa.json", holds answered)
      ∷ ("15-aa.json", corrupt)
      ∷ [];
  tmp = some [];
}

abbrev box : Mailbox
box = ("icc=@2", asked) ∷ ("other=@3", asked) ∷ []

abbrev no_file : String → Bool
no_file path = false

abbrev just_now : String → ℕ
just_now time = 0

directory : sanitize_dir_name "icc:@2" ≡ some "icc=@2"
unfolding sanitize_dir_name before_char after_char has_char has_traversal has_dots starts_with_dot
directory = refl

plain : has_char equals (before_char colon "icc:@2") ≡ false
unfolding has_char before_char
plain = refl

sanitize_dir_name_injective_example : ◌≡◌ {A = String} "icc:@2" "icc:@2"
sanitize_dir_name_injective_example =
    sanitize_dir_name_injective "icc:@2" "icc:@2" "icc=@2" plain plain directory directory

-- A message with empty texts.
abbrev bare : Message
bare = record question { reply_to = some ""; file_path = some "" }

message_round_trip_example : from_dict (to_dict bare) ≡ some (read_back bare)
message_round_trip_example = message_round_trip bare

abbrev options : Options
options = record default_options { subject = "status"; file_path = some "" }

short : is_refused no_file "ready?" options ≡ false
unfolding is_refused get
short = refl

message_at-send_example :
    message_at "icc=@2" "17-ab.json" (send no_file stamp "icc:@1" "icc:@2" "ready?" options box).1
    ≡ (if "icc=@2" == "icc=@2"
        then (if file_name stamp.id == "17-ab.json"
            then some (found_of stamp "icc:@1" "icc:@2" "ready?" options)
            else message_at "icc=@2" "17-ab.json" box)
        else message_at "icc=@2" "17-ab.json" box)
message_at-send_example =
    message_at-send no_file stamp "icc:@1" "icc:@2" "ready?" "icc=@2" "icc=@2" "17-ab.json" options
      box short directory

abbrev ten : String → String
ten s = s <> (s <> (s <> (s <> (s <> (s <> (s <> (s <> (s <> s))))))))

abbrev long_text : String
long_text = ten (ten (ten (ten "0123456789")))

too_long : ltb body_size_limit (len long_text) ≡ true
too_long = refl

asked_message : message_at "icc=@2" (file_name "17-ab") box ≡ some question
unfolding message_at get
asked_message = refl

safe_id : has_traversal "17-ab" ≡ false
unfolding has_traversal has_char has_dots starts_with_dot
safe_id = refl

long_reply_marks_example :
    ((reply no_file stamp "17-ab" "icc:@2" long_text box).0 ≡ raised)
    × (message_at "icc=@2"
          (file_name "17-ab")
          (reply no_file stamp "17-ab" "icc:@2" long_text box).1
        ≡ some (read_back (record question { status = "replied" })))
long_reply_marks_example =
    long_reply_marks no_file stamp "17-ab" "icc:@2" long_text "icc=@2" question box too_long safe_id
      directory asked_message

sweep_keeps_listed_example :
    listed_at just_now "17-ab.json" (sweep_dir just_now asked).1.files
    ≡ listed_at just_now "17-ab.json" asked.files
sweep_keeps_listed_example = sweep_keeps_listed just_now "17-ab.json" asked
