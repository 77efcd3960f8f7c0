-- ===== src/Proxy/Stream/Captured.antt =====
-- The captured text of a response: the first bytes of what the events carry.
use llm_proxy.Base.{
  lt→ltb, ℕ, true, false, ◌||◌, not, ◌≡◌, refl, ap, ◌∙◌, List, [], ◌∷◌, ◌++◌, String, length, take,
  ltb, text_iff, ◌==◌, number_eq, text_eq, if◌then◌else◌, inl, inr, Bool-cases, arith, append-nil,
  append_assoc,
}
use llm_proxy.Base.Int.{ℤ}
use llm_proxy.Base.Text.{bytes}
use llm_proxy.Base.Time.{Time}
use llm_proxy.Base.Floats.{Floats}
use llm_proxy.Json.{Object, get, text_or_empty}
use llm_proxy.Proxy.Stream.{
  SseParser, new_sse_parser, max_content_capture, add_text, mark_first, record_anthropic_tokens,
  first_delta_content, object_or_nil, response_text,
}
use llm_proxy.Proxy.Stream.Capturing.{
  Captures, whole, cut, branch, mark_first-Captures, add_text-Captures, record_input-Captures,
  record_output-Captures, set_prompt-Captures, set_completion-Captures, set_input-Captures,
  set_output-Captures, backend_type-Captures,
}
use llm_proxy.Proxy.Stream.Events.{
  handle_event, handle_open_ai_event, handle_anthropic_event, handle_delta,
}

-- The text of a `content_block_delta`.
unfoldable pub delta_text : {F : Type 0} → Object F → List ℕ
delta_text delta =
    if text_or_empty (get "type" delta) == "text_delta"
    then bytes (text_or_empty (get "text" delta))
    else []

-- The text of an event that is to be captured.
unfoldable pub event_text : {F : Type 0} → String → Object F → List ℕ
unfolding delta_text
event_text backend_type evt =
    let delta = object_or_nil (get "delta" evt) in
    if backend_type == "anthropic"
    then (if text_or_empty (get "type" evt) == "content_block_delta" then delta_text delta else [])
    else bytes (first_delta_content evt).0

unfoldable pub event_texts : {F : Type 0} → String → List (Time × Object F) → List ℕ
unfolding event_text
event_texts backend_type [] = []
event_texts backend_type ((now, evt) ∷ events) =
    event_text backend_type evt ++ event_texts backend_type events

module _ (Fl : Floats) (to_int64 : Fl.F → ℤ) where
  unfoldable pub handle_events : List (Time × Object Fl.F) → SseParser Fl.F → SseParser Fl.F
  handle_events [] p = p
  handle_events ((now, evt) ∷ events) p = handle_events events (handle_event Fl to_int64 now evt p)

  add_delta-Captures :
      (now : Time) (content think : String) (p : SseParser Fl.F) {type : String} {xs : List ℕ}
      → Captures type xs p
      → Captures type (xs ++ bytes content) (
          if not (content == "") || not (think == "")
          then add_text (bytes content) (bytes think) (mark_first now p)
          else p)
  unfolding bytes
  add_delta-Captures now content think p {xs = xs} h =
      elim (Bool-cases (not (content == "") || not (think == ""))) [
        | inl e ↦
            rw e (add_text-Captures (bytes content) (bytes think) _ (mark_first-Captures now p h))
        | inr e ↦
            let empty : (content == "") ≡ true = ground arith in
            rw (e, (text_iff content "").0 empty, append-nil xs) h
      ]

  handle_open_ai_event-Captures :
      (now : Time) (evt : Object Fl.F) (p : SseParser Fl.F) {type : String} {xs : List ℕ}
      → Captures type xs p
      → Captures type
          (xs ++ bytes (first_delta_content evt).0)
          (handle_open_ai_event Fl to_int64 now evt p)
  unfolding handle_open_ai_event
  handle_open_ai_event-Captures now evt p h =
      let (content, think) = first_delta_content evt in
      set_completion-Captures _ _
        (set_prompt-Captures _ _ (add_delta-Captures now content think p h))

  nothing :
      {type : String} {xs : List ℕ} {p : SseParser Fl.F}
      → Captures type xs p
      → Captures type (xs ++ []) p
  nothing {xs = xs} h = rw (append-nil xs) h

  handle_delta-Captures :
      (now : Time) (delta : Object Fl.F) (p : SseParser Fl.F) {type : String} {xs : List ℕ}
      → Captures type xs p
      → Captures type (xs ++ delta_text delta) (handle_delta Fl to_int64 now delta p)
  unfolding handle_delta delta_text
  handle_delta-Captures now delta p h =
      let think = bytes (text_or_empty (get "thinking" delta)) in
      let text = bytes (text_or_empty (get "text" delta)) in
      let dtype = text_or_empty (get "type" delta) in
      let marked = mark_first-Captures now p h in
      elim (Bool-cases (dtype == "thinking_delta")) [
        | inl e ↦
            let other : (dtype == "text_delta") ≡ false =
              rw ((text_iff dtype "thinking_delta").0 e) refl in
            rw (e, other) (add_text-Captures [] think _ marked)
        | inr e ↦ elim (Bool-cases (dtype == "text_delta")) [
          | inl t ↦ rw (e, t) (add_text-Captures text [] _ marked)
          | inr t ↦ rw (e, t) (nothing h)
        ]
      ]

  handle_anthropic_event-Captures :
      (now : Time) (evt : Object Fl.F) (p : SseParser Fl.F) {type : String} {xs : List ℕ}
      → Captures type xs p
      → Captures type
          (xs ++ event_text "anthropic" evt)
          (handle_anthropic_event Fl to_int64 now evt p)
  unfolding handle_anthropic_event event_text record_anthropic_tokens
  handle_anthropic_event-Captures now evt p {xs = xs} h =
      let kind = text_or_empty (get "type" evt) in
      let delta = object_or_nil (get "delta" evt) in
      elim (Bool-cases (kind == "content_block_delta")) [
        | inl e ↦
            let other : (kind == "message_start") ≡ false =
              rw ((text_iff kind "content_block_delta").0 e) refl in
            rw (e, other) (handle_delta-Captures now delta p h)
        | inr e ↦
            rw (e, append-nil xs)
              (branch (kind == "message_start") (set_input-Captures _ p h) (
                branch (kind == "message_delta") (set_output-Captures _ p h) (
                  branch (kind == "message_stop")
                    (record_output-Captures _ (record_input-Captures p h)) h)))
      ]

  handle_event-Captures :
      (now : Time) (evt : Object Fl.F) (p : SseParser Fl.F) {type : String} {xs : List ℕ}
      → Captures type xs p
      → Captures type (xs ++ event_text type evt) (handle_event Fl to_int64 now evt p)
  unfolding handle_event event_text
  handle_event-Captures now evt p {type = type} h =
      let same = ap (λ t. t == "anthropic") (backend_type-Captures h) in
      elim (Bool-cases (type == "anthropic")) [
        | inl e ↦ let e' = same ∙ e in rw (e, e') (handle_anthropic_event-Captures now evt p h)
        | inr e ↦ let e' = same ∙ e in rw (e, e') (handle_open_ai_event-Captures now evt p h)
      ]

  handle_events-Captures :
      (events : List (Time × Object Fl.F)) (p : SseParser Fl.F) {type : String} {xs : List ℕ}
      → Captures type xs p
      → Captures type (xs ++ event_texts type events) (handle_events events p)
  unfolding handle_events event_texts
  handle_events-Captures [] p h = nothing h
  handle_events-Captures ((now, evt) ∷ events) p {type = type} {xs = xs} h =
      rw (← append_assoc xs (event_text type evt) (event_texts type events))
        (handle_events-Captures events _ (handle_event-Captures now evt p h))

  captured :
      {type : String} {xs : List ℕ} {p : SseParser Fl.F}
      → Captures type xs p
      → response_text p ≡ (
          if ltb max_content_capture (length xs)
          then take max_content_capture xs ++ bytes " [truncated]"
          else xs)
  unfolding response_text
  captured {xs = xs} (whole p h) =
      let e : ltb max_content_capture (length xs) ≡ false = ground arith in rw e refl
  captured {xs = xs} (cut p h e) =
      let more : ltb max_content_capture (length xs) ≡ true =
        lt→ltb max_content_capture (length xs) h in
      rw more (ap (λ buf. buf ++ bytes " [truncated]") e)

  -- After any events, the captured text of a new parser that captures is what the events carry,
  -- or, if that is longer than 32768 bytes, its first 32768 bytes and a mark.
  pub response_text-handle_events :
      (backend_type : String) (t0 : Time) (events : List (Time × Object Fl.F))
      → response_text (handle_events events (new_sse_parser backend_type t0 true)) ≡ (
          let texts = event_texts backend_type events in
          if ltb max_content_capture (length texts)
          then take max_content_capture texts ++ bytes " [truncated]"
          else texts)
  response_text-handle_events backend_type t0 events = captured (
      handle_events-Captures events (new_sse_parser backend_type t0 true)
        (whole (new_sse_parser backend_type t0 true) (omega arith)))
