-- ===== src/Session/Compression.antt =====
-- memory/session_memory.go, Compress: which messages are summarised and which are kept.
use kugelblitz.Common.{
  ℕ, zero, suc, ◌+◌, ◌-◌, ◌≤◌, String, false, List, [], ◌∷◌, ◌++◌, length, take, drop, ltb, leb,
  ◌≡◌, ◌≢◌, refl, sym, ap, ◌∙◌, length-append, if_split, append-nil, append_assoc, Bool-cases, ◌⊎◌,
  inl, inr, arith,
}
use kugelblitz.Message.{Message}
use kugelblitz.Session.{
  SessionMemory, Summarized, summarized, unsummarized, too_short, failed, compressed, keep_recent,
  compress,
}

take-drop : (n : ℕ) (ms : List Message) → take n ms ++ drop n ms ≡ ms
take-drop zero ms = refl
take-drop (suc n) [] = refl
take-drop (suc n) (m ∷ ms) = ap (λ z. m ∷ z) (take-drop n ms)

drop-append : (ms ns : List Message) → drop (length ms) (ms ++ ns) ≡ ns
drop-append [] ns = refl
drop-append (m ∷ ms) ns = drop-append ms ns

length-drop : (n : ℕ) (ms : List Message) → n ≤ length ms → length (drop n ms) + n ≡ length ms
length-drop zero ms h = omega arith
length-drop (suc n) [] h = omega (arith, h)
length-drop (suc n) (m ∷ ms) h = omega (arith, length-drop n ms (omega (arith, h)))

not_longer :
    (old meanwhile : List Message)
    → ltb (length old) (length (old ++ meanwhile)) ≡ false
    → (recent : List Message) → recent ≡ recent ++ meanwhile
not_longer old [] h recent = sym (append-nil recent)
not_longer old (m ∷ ms) h recent =
    let more = length-append old (m ∷ ms) in absurd (ground (arith, h, more))

keep_recent_lem :
    (recent old meanwhile : List Message)
    → keep_recent (length old) recent (old ++ meanwhile) ≡ recent ++ meanwhile
unfolding keep_recent
keep_recent_lem recent old meanwhile =
    if_split (λ z. z ≡ recent ++ meanwhile) (ltb (length old) (length (old ++ meanwhile)))
      (λ h. ap (λ z. recent ++ z) (drop-append old meanwhile))
      (λ h. not_longer old meanwhile h recent)

Summarized-cases :
    (r : Summarized) → ((e : String) × (r ≡ unsummarized e)) ⊎ ((t : String) × (r ≡ summarized t))
Summarized-cases (summarized t) = inr (t, refl)
Summarized-cases (unsummarized e) = inl (e, refl)

short_ne : {s : SessionMemory} → too_short ≢ compressed s
short_ne h = ground arith

failed_ne : {e : String} {s s' : SessionMemory} → failed e s ≢ compressed s'
failed_ne h = ground arith

compressed_eq : {s s' : SessionMemory} → compressed s ≡ compressed s' → s ≡ s'
compressed_eq h = cc

module _ (summarize : List Message → String → Summarized) (keep_last_n min_to_compress : ℕ)
    (meanwhile : List Message) (s : SessionMemory) where
  -- The messages that are summarised.
  abbrev pub old : List Message
  old = take (length s.history_messages - keep_last_n) s.history_messages

  compress_inv :
      (s' : SessionMemory)
      → compress summarize keep_last_n min_to_compress meanwhile s ≡ compressed s'
      → (leb (length s.history_messages) keep_last_n ≡ false)
        × (ltb (length old) min_to_compress ≡ false)
        × (t : String) × (summarize old s.summary ≡ summarized t)
        × (record {
          history_messages =
              keep_recent
                (length s.history_messages)
                (drop (length s.history_messages - keep_last_n) s.history_messages)
                (s.history_messages ++ meanwhile);
          summary = t;
        }
            ≡ s')
  unfolding compress
  compress_inv s' h = elim (Bool-cases (leb (length s.history_messages) keep_last_n)) [
    | inl short ↦ absurd (short_ne (rw (short, compress) at h))
    | inr long ↦ elim (Bool-cases (ltb (length old) min_to_compress)) [
      | inl few ↦ absurd (short_ne (rw (long, compress, few) at h))
      | inr enough ↦ elim (Summarized-cases (summarize old s.summary)) [
        | inl (e, eq) ↦ absurd (failed_ne (rw (long, compress, enough, eq) at h))
        | inr (t, eq) ↦ (long, enough, t, eq, compressed_eq (rw (long, compress, enough, eq) at h))
      ]
    ]
  ]

  -- Compress loses nothing: if it replaces the older messages, then these, followed by the messages
  -- that it keeps, are the history with what was appended while the summary was made; at least
  -- minToCompress messages are summarised, together with the old summary; and the keepLastN latest
  -- messages and everything appended meanwhile are kept.
  pub compress-append :
      (s' : SessionMemory)
      → compress summarize keep_last_n min_to_compress meanwhile s ≡ compressed s'
      → (old ++ s'.history_messages ≡ s.history_messages ++ meanwhile)
        × (min_to_compress ≤ length old)
        × (length s'.history_messages ≡ keep_last_n + length meanwhile)
        × (summarize old s.summary ≡ summarized s'.summary)
  compress-append s' h =
      let (long, enough, t, answer, same) = compress_inv s' h in
      let split_at = length s.history_messages - keep_last_n in
      let recent = drop split_at s.history_messages in
      let kept : s'.history_messages ≡ recent ++ meanwhile =
        ap (λ (z : SessionMemory). z.history_messages) (sym same)
        ∙ keep_recent_lem recent s.history_messages meanwhile in
      (
        ap (λ z. old ++ z) kept
            ∙ sym (append_assoc old recent meanwhile)
            ∙ ap (λ z. z ++ meanwhile) (take-drop split_at s.history_messages),
        ground (arith, enough),
        ap length kept
            ∙ length-append recent meanwhile
            ∙ (let counted = length-drop split_at s.history_messages (omega arith) in
                ground (arith, counted, long)),
        answer ∙ ap summarized (ap (λ (z : SessionMemory). z.summary) same),
      )
