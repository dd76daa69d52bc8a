-- ===== src/Mailbox/Sending/Laws.antt =====
-- utils/mailbox.py: what is found after a message was sent, and what raises.
use Prim.Native.String.{len}
use unified_icc.Base.{
  String, Bool, true, false, ◌≡◌, ◌⊎◌, ◌∙◌, refl, ap, none, some, if◌then◌else◌, ◌==◌, ltb, eq_iff,
  truthy, is_some, arith, ==_refl, Bool-cases, inl, inr,
}
use unified_icc.Base.Dict.{get, get-put}
use unified_icc.Mailbox.Names.{sanitize_dir_name, has_traversal}
use unified_icc.Mailbox.Messages.{Message}
use unified_icc.Mailbox.Messages.RoundTrip.{nonempty, read_back, message_round_trip}
use unified_icc.Mailbox.{
  Mailbox, Inbox, inbox_at, File, holds, raised, returned, written_file, write_message, message_at,
  find_message, file_name,
}
use unified_icc.Mailbox.Sending.{
  Stamp, Options, message_of, is_refused, send, answer, reply, reply_options, body_size_limit,
  default_ttl,
}

written_file-read_back : (msg : Message) → written_file msg ≡ holds (read_back msg)
unfolding written_file
written_file-read_back msg = rw (message_round_trip msg) refl

-- What is written is found as it is read back.
message_at-write :
    (dir name dir' name' : String) (msg : Message) (box : Mailbox)
    → message_at dir' name' (write_message dir name msg box) ≡ (
        if dir == dir'
        then (if name == name' then some (read_back msg) else message_at dir' name' box)
        else message_at dir' name' box)
unfolding message_at write_message
message_at-write dir name dir' name' msg box =
    let inbox = inbox_at dir box in
    elim (Bool-cases (dir == dir')) [
      | inl e ↦ elim (Bool-cases (name == name')) [
        | inl f ↦
            rw
              (
                get-put {V = Inbox} dir' dir _ box,
                e,
                get-put {V = File} name' name (written_file msg) inbox.files,
                f,
                written_file-read_back msg,
              )
              refl
        | inr f ↦
            rw
              (
                get-put {V = Inbox} dir' dir _ box,
                e,
                get-put {V = File} name' name (written_file msg) inbox.files,
                f,
              )
              (ap (λ d. message_at d name' box) ((eq_iff dir dir').0 e))
      ]
      | inr e ↦ rw (get-put {V = Inbox} dir' dir _ box, e) refl
    ]

-- The message that is found of one that was sent.
abbrev pub found_of : Stamp → String → String → String → Options → Message
found_of stamp from_id to_id body o = record (message_of stamp from_id to_id body o) {
  reply_to = nonempty o.reply_to;
  file_path = nonempty o.file_path;
}

module _ (is_file : String → Bool) where
  -- A type that is not refused is not empty.
  kind_given :
      (body : String) (o : Options) → is_refused is_file body o ≡ false → truthy o.msg_type ≡ true
  unfolding is_refused get
  kind_given body o fine = elim (Bool-cases (truthy o.msg_type)) [
    | inl e ↦ e
    | inr e ↦
        let empty : o.msg_type ≡ "" = ground (arith, e, eq_iff o.msg_type "") in
        let unknown : is_some (get o.msg_type default_ttl) ≡ false =
          ap (λ k. is_some (get k default_ttl)) empty in
        ground (arith, fine, unknown)
  ]

  read_back-sent :
      (stamp : Stamp) (from_id to_id body : String) (o : Options)
      → is_refused is_file body o ≡ false
      → read_back (message_of stamp from_id to_id body o) ≡ found_of stamp from_id to_id body o
  read_back-sent stamp from_id to_id body o fine = rw (kind_given body o fine) refl

  -- A message that is sent is found under its id by its recipient, as it was sent but for an empty
  -- `reply_to` or file path, which is found as none, and every other message is found as before.
  pub message_at-send :
      (stamp : Stamp) (from_id to_id body dir dir' name' : String) (o : Options) (box : Mailbox)
      → is_refused is_file body o ≡ false
      → sanitize_dir_name to_id ≡ some dir
      → message_at dir' name' (send is_file stamp from_id to_id body o box).1 ≡ (
          if dir == dir'
          then (if file_name stamp.id == name'
              then some (found_of stamp from_id to_id body o)
              else message_at dir' name' box)
          else message_at dir' name' box)
  unfolding send
  message_at-send stamp from_id to_id body dir dir' name' o box fine place =
      rw (fine, place)
        (message_at-write dir (file_name stamp.id) dir' name' _ box
          ∙ ap
              (λ msg.
                if dir == dir'
                then (if file_name stamp.id == name' then some msg else message_at dir' name' box)
                else message_at dir' name' box)
              (read_back-sent stamp from_id to_id body o fine))

  -- `send` raises exactly for an unknown type, a file that is not there, a body that is too long
  -- without a file, or an id that is no directory name; the mailbox is then as before.
  pub send_raises :
      (stamp : Stamp) (from_id to_id body : String) (o : Options) (box : Mailbox)
      → ((is_refused is_file body o ≡ true) ⊎ (sanitize_dir_name to_id ≡ none))
      → send is_file stamp from_id to_id body o box ≡ (raised, box)
  unfolding send
  send_raises stamp from_id to_id body o box (inl h) = rw h refl
  send_raises stamp from_id to_id body o box (inr h) =
      elim (Bool-cases (is_refused is_file body o)) [ inl e ↦ rw e refl | inr e ↦ rw (e, h) refl ]

  long_refused :
      (body msg_id : String)
      → ltb body_size_limit (len body) ≡ true
      → is_refused is_file body (reply_options msg_id) ≡ true
  unfolding is_refused get
  long_refused body msg_id long = long

  found-find :
      (msg_id window_id dir : String) (msg : Message) (box : Mailbox)
      → has_traversal msg_id ≡ false
      → sanitize_dir_name window_id ≡ some dir
      → message_at dir (file_name msg_id) box ≡ some msg
      → find_message msg_id window_id box ≡ returned (some (msg, dir, file_name msg_id))
  unfolding find_message
  found-find msg_id window_id dir msg box fine place found = rw (fine, place, found) refl

  abbrev marked : String → String → Message → Mailbox → Mailbox
  marked dir msg_id msg box =
      write_message dir (file_name msg_id) (record msg { status = "replied" }) box

  answer_refused :
      (stamp : Stamp) (msg_id window_id body dir : String) (msg : Message) (box : Mailbox)
      → ltb body_size_limit (len body) ≡ true
      → answer is_file stamp msg_id window_id body
          (returned (some (msg, dir, file_name msg_id)))
          box
        ≡ (raised, marked dir msg_id msg box)
  unfolding answer
  answer_refused stamp msg_id window_id body dir msg box long =
      ap (λ r. (elim r.0 [ raised ↦ raised | returned m ↦ returned (some m) ], r.1))
        (send_raises stamp window_id msg.from_id body (reply_options msg_id)
          (marked dir msg_id msg box) (inl (long_refused body msg_id long)))

  -- A reply that is too long raises, but the message that it answers is marked as replied.
  pub long_reply_marks :
      (stamp : Stamp) (msg_id window_id body dir : String) (msg : Message) (box : Mailbox)
      → ltb body_size_limit (len body) ≡ true
      → has_traversal msg_id ≡ false
      → sanitize_dir_name window_id ≡ some dir
      → message_at dir (file_name msg_id) box ≡ some msg
      → ((reply is_file stamp msg_id window_id body box).0 ≡ raised)
        × (message_at dir (file_name msg_id) (reply is_file stamp msg_id window_id body box).1
            ≡ some (read_back (record msg { status = "replied" })))
  unfolding reply
  long_reply_marks stamp msg_id window_id body dir msg box long fine place found =
      let same =
        ap (λ r. answer is_file stamp msg_id window_id body r box)
          (found-find msg_id window_id dir msg box fine place found)
        ∙ answer_refused stamp msg_id window_id body dir msg box long in
      (
        ap (λ r. r.0) same,
        ap (λ r. message_at dir (file_name msg_id) r.1) same
            ∙ message_at-write dir (file_name msg_id) dir (file_name msg_id) _ box
            ∙ rw (==_refl dir, ==_refl (file_name msg_id)) refl,
      )
