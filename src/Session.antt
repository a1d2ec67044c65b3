-- ===== src/Session.antt =====
-- memory/session_memory.go: the messages of a session and the summary of the older ones.
pub mod Compression
pub mod Saved
use kugelblitz.Common.{
  ℕ, ◌-◌, String, Bool, true, false, Option, none, some, List, [], ◌∷◌, ◌++◌, length, take, drop,
  ltb, leb, if◌then◌else◌,
}
use kugelblitz.Message.{Message}

pub record SessionMemory : Type 0 where
  pub history_messages : List Message
  pub summary : String

-- What Summarize returns; the usage only goes on to the caller.
pub data Summarized : Type 0 where
  summarized : String → Summarized
  unsummarized : (error : String) → Summarized

pub data Compressed : Type 0 where
  too_short : Compressed
  failed : (error : String) → SessionMemory → Compressed
  compressed : SessionMemory → Compressed

-- AppendMessage
abbrev pub append_messages : List Message → SessionMemory → SessionMemory
append_messages ms s = record s { history_messages = s.history_messages ++ ms }

-- Step 3, on the history as it is when the summary has come.
unfoldable pub keep_recent : (total : ℕ) → (recent current : List Message) → List Message
keep_recent total recent current =
    if ltb total (length current) then recent ++ drop total current else recent

-- Compress up to the saving. `meanwhile` is what was appended during the call of Summarize.
unfoldable pub compress :
    (List Message → String → Summarized)
    → (keep_last_n min_to_compress : ℕ) → (meanwhile : List Message) → SessionMemory
    → Compressed
unfolding keep_recent
compress summarize keep_last_n min_to_compress meanwhile s =
    let total = length s.history_messages in
    let split_at = total - keep_last_n in
    let old = take split_at s.history_messages in
    let recent = drop split_at s.history_messages in
    if leb total keep_last_n
    then too_short
    else if ltb (length old) min_to_compress
    then too_short
    else elim (summarize old s.summary) [
      | unsummarized e ↦ failed e (append_messages meanwhile s)
      | summarized t ↦ compressed (record {
        history_messages = keep_recent total recent (s.history_messages ++ meanwhile);
        summary = t;
      })
    ]
