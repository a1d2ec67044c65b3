-- ===== src/Session/Saved.antt =====
-- memory/session_memory.go and persist/session.go: sessions in memory and in files.
use kugelblitz.Common.{
  String, Bool, true, false, ◌&&◌, Option, none, some, List, [], ◌∷◌, ◌++◌, map, ◌=ˢ◌,
  if◌then◌else◌, is_empty, ◌≡◌, refl, sym, ◌∙◌, ap, subst, text_eq_refl, append-nil, append_assoc,
  arith,
}
use kugelblitz.Constants.{RoleType}
use kugelblitz.Message.{Message, text_content}
use kugelblitz.Message.Json.{
  MessageJson, marshal_json, unmarshal_json, optional_without_base64, unmarshal_json-marshal_json,
}
use kugelblitz.Session.{SessionMemory}

-- The events of a session file.
pub data SessionEvent : Type 0 where
  init_event : (session_id : String) → SessionEvent
  summary_event : String → SessionEvent
  message_event : MessageJson → SessionEvent

-- The events that SaveSessionJSONL writes.
unfoldable pub session_events : String → SessionMemory → List SessionEvent
unfolding marshal_json
session_events id s =
    init_event id ∷ (if is_empty s.summary then [] else summary_event s.summary ∷ [])
    ++ map (λ m. message_event (marshal_json m)) s.history_messages

-- The loop of LoadSessionJSONL, with what it has read so far.
unfoldable pub read_events : List SessionEvent → SessionMemory → SessionMemory
unfolding unmarshal_json
read_events [] s = s
read_events (init_event _ ∷ es) s = read_events es s
read_events (summary_event t ∷ es) s = read_events es (record s { summary = t })
read_events (message_event j ∷ es) s =
    read_events es (record s { history_messages = s.history_messages ++ unmarshal_json j ∷ [] })

abbrev pub new_session : SessionMemory
new_session = record { history_messages = []; summary = "" }

abbrev pub no_messages : List Message → Bool
no_messages [] = true
no_messages (m ∷ ms) = false

-- LoadSessionMemory, for a file that can be read if it is there.
unfoldable pub load_session : Option (List SessionEvent) → Option SessionMemory
unfolding read_events
load_session none = none
load_session (some es) =
    let s = read_events es new_session in
    if is_empty s.summary && no_messages s.history_messages then none else some s

-- `sessions` is SessionMemoryMap, `files` the directory memory/sessions.
pub record SessionManager : Type 0 where
  pub sessions : List (String × SessionMemory)
  pub files : String → Option (List SessionEvent)

unfoldable pub lookup_session : String → List (String × SessionMemory) → Option SessionMemory
lookup_session id [] = none
lookup_session id ((k, s) ∷ ss) =
    let rest = lookup_session id ss in if k =ˢ id then some s else rest

unfoldable pub put_session :
    String → SessionMemory → List (String × SessionMemory) → List (String × SessionMemory)
put_session id s [] = (id, s) ∷ []
put_session id s ((k, t) ∷ ss) =
    let rest = put_session id s ss in if k =ˢ id then (id, s) ∷ ss else (k, t) ∷ rest

-- GetSessionMemory, with the manager that it leaves.
unfoldable pub get_session : String → SessionManager → Option SessionMemory × SessionManager
unfolding lookup_session load_session put_session
get_session id m = elim (lookup_session id m.sessions) [
  | some s ↦ (some s, m)
  | none ↦ elim (load_session (m.files id)) [
    | none ↦ (none, m)
    | some s ↦ (some s, record m { sessions = put_session id s m.sessions })
  ]
]

-- CreateSessionMemory
unfoldable pub create_session : String → SessionManager → SessionMemory × SessionManager
unfolding get_session put_session
create_session id m = elim (get_session id m).0 [
  | some s ↦ (s, (get_session id m).1)
  | none ↦ (new_session, record m { sessions = put_session id new_session m.sessions })
]

-- (s *SessionMemory) Persist
unfoldable pub persist_session : String → SessionMemory → SessionManager → SessionManager
unfolding session_events
persist_session id s m = record m {
  files = λ k. if k =ˢ id then some (session_events id s) else m.files k;
}

-- GetHistoryMessages: the summary comes first, as a message of the system.
unfoldable pub get_history_messages : (new_id : String) → SessionMemory → List Message
get_history_messages new_id s =
    if is_empty s.summary
    then s.history_messages
    else record {
      id = new_id;
      role = RoleType.system;
      content = some (text_content s.summary);
      finish_reason = "";
      usage = none;
    }
      ∷ s.history_messages

-- A message as it comes back from a file.
abbrev pub reread : Message → Message
reread m = record m { content = optional_without_base64 m.content }

read_messages :
    (ms : List Message) (s : SessionMemory)
    → read_events (map (λ m. message_event (marshal_json m)) ms) s
      ≡ record s { history_messages = s.history_messages ++ map reread ms }
unfolding read_events
read_messages [] s =
    ap (λ z. record s { history_messages = z }) (sym (append-nil s.history_messages))
read_messages (m ∷ ms) s =
    read_messages ms
      (record s { history_messages = s.history_messages ++ unmarshal_json (marshal_json m) ∷ [] })
    ∙ ap (λ z. record s { history_messages = z })
        (append_assoc s.history_messages (unmarshal_json (marshal_json m) ∷ []) (map reread ms)
          ∙ ap (λ z. s.history_messages ++ z ∷ map reread ms) (unmarshal_json-marshal_json m).0)

-- The session as it comes back from its file.
abbrev pub restored_session : SessionMemory → SessionMemory
restored_session s = record {
  history_messages = map reread s.history_messages;
  summary = s.summary;
}

read-session_events :
    (id t : String) (ms : List Message)
    → read_events (session_events id (record { history_messages = ms; summary = t })) new_session
      ≡ record { history_messages = map reread ms; summary = t }
unfolding read_events session_events
read-session_events id String.[] ms = read_messages ms new_session
read-session_events id (String.◌∷◌ c t) ms =
    read_messages ms (record { history_messages = []; summary = String.◌∷◌ c t })

no_messages-map : (ms : List Message) → no_messages (map reread ms) ≡ no_messages ms
no_messages-map [] = refl
no_messages-map (m ∷ ms) = refl

load-session_events :
    (id : String) (s : SessionMemory)
    → is_empty s.summary && no_messages s.history_messages ≡ false
    → load_session (some (session_events id s)) ≡ some (restored_session s)
unfolding load_session
load-session_events id s h =
    let back = read-session_events id s.summary s.history_messages in
    subst
      (λ z.
        (if is_empty z.summary && no_messages z.history_messages then none else some z)
        ≡ some (restored_session s))
      (sym back)
      (subst (λ b. (if b then none else some (restored_session s)) ≡ some (restored_session s))
        (sym (ap (λ b. is_empty s.summary && b) (no_messages-map s.history_messages) ∙ h)) refl)

lookup-put_session :
    (id : String) (s : SessionMemory) (ss : List (String × SessionMemory))
    → lookup_session id (put_session id s ss) ≡ some s
unfolding lookup_session put_session
lookup-put_session id s [] = ground (arith, text_eq_refl id)
lookup-put_session id s ((k, t) ∷ ss) = ground (arith, text_eq_refl id, lookup-put_session id s ss)

-- A session with a summary or a message that was written, and is not in memory, is found again: the
-- first look reads the file, with the same summary and the same messages without the data of their
-- media, and any later look returns this session from memory and changes nothing.
pub get_session-persist_session :
    (id : String) (s : SessionMemory) (m : SessionManager)
    → lookup_session id m.sessions ≡ none
    → is_empty s.summary && no_messages s.history_messages ≡ false
    → (m' : SessionManager) × (get_session id (persist_session id s m)
        ≡ (some (restored_session s), m'))
      × (get_session id m' ≡ (some (restored_session s), m'))
unfolding get_session persist_session
get_session-persist_session id s m absent something =
    let m1 = persist_session id s m in
    let m2 = record m1 { sessions = put_session id (restored_session s) m1.sessions } in
    let loaded = load-session_events id s something in
    let here = text_eq_refl id in
    let again = lookup-put_session id (restored_session s) m.sessions in
    (m2, ground (arith, absent, loaded, here), ground (arith, again))
