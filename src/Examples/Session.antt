-- ===== src/Examples/Session.antt =====
-- memory/session_memory.go: one compression during which a message arrives.
use kugelblitz.Common.{◌+◌, ◌≤◌, String, none, some, List, [], ◌∷◌, ◌++◌, length, ◌≡◌, refl}
use kugelblitz.Constants.{RoleType}
use kugelblitz.Message.{Message, text_content}
use kugelblitz.Session.{SessionMemory, Summarized, summarized, compressed, compress, keep_recent}
use kugelblitz.Session.Saved.{
  SessionManager, get_session, persist_session, restored_session, lookup_session,
  get_session-persist_session,
}
use kugelblitz.Session.Compression.{old, compress-append}

abbrev said : String → Message
said t = record {
  id = t;
  role = RoleType.user;
  content = some (text_content t);
  finish_reason = "";
  usage = none;
}

abbrev in_short : List Message → String → Summarized
in_short ms summary = summarized "they talked"

abbrev talk : SessionMemory
talk = record { history_messages = said "a" ∷ said "b" ∷ said "c" ∷ []; summary = "" }

abbrev shortened : SessionMemory
shortened = record { history_messages = said "c" ∷ said "d" ∷ []; summary = "they talked" }

first_run : compress in_short 1 2 (said "d" ∷ []) talk ≡ compressed shortened
unfolding compress keep_recent
first_run = refl

compress-append_example :
    (old in_short 1 2 (said "d" ∷ []) talk ++ shortened.history_messages
      ≡ talk.history_messages ++ said "d" ∷ [])
    × (2 ≤ length (old in_short 1 2 (said "d" ∷ []) talk))
    × (length shortened.history_messages ≡ 1 + 1)
    × (in_short (old in_short 1 2 (said "d" ∷ []) talk) talk.summary ≡ summarized shortened.summary)
compress-append_example = compress-append in_short 1 2 (said "d" ∷ []) talk shortened first_run

abbrev empty_manager : SessionManager
empty_manager = record { sessions = []; files = λ id. none }

nothing_there : lookup_session "s" empty_manager.sessions ≡ none
unfolding lookup_session
nothing_there = refl

get_session-persist_session_example :
    (m' : SessionManager) × (get_session "s" (persist_session "s" shortened empty_manager)
      ≡ (some (restored_session shortened), m'))
    × (get_session "s" m' ≡ (some (restored_session shortened), m'))
get_session-persist_session_example =
    get_session-persist_session "s" shortened empty_manager nothing_there refl
