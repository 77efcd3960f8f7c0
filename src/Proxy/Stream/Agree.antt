-- ===== src/Proxy/Stream/Agree.antt =====
-- Parsers that differ in times only stay so.
use llm_proxy.Base.{
  ℕ, ◌+◌, ◌-◌, not, ◌||◌, ltb, length, take, Bool, true, false, ◌≡◌, ap, Option, none, some, List,
  [], ◌∷◌, ◌++◌, ◌==◌, number_eq, text_eq, if◌then◌else◌,
}
use llm_proxy.Base.Int.{ℤ, pos, is_pos}
use llm_proxy.Base.Time.{Time}
use llm_proxy.Base.Text.{bytes}
use llm_proxy.Base.Floats.{Floats}
use llm_proxy.Json.{Object, get, text_or_empty}
use llm_proxy.Proxy.Stream.{
  SseParser, Report, ttft, prompt_tokens, completion_tokens, max_content_capture, mark_first,
  record_input, record_output, add_text, append_content, record_anthropic_tokens, set_prompt,
  set_completion, set_input, set_output, first_delta_content, object_or_nil,
}
use llm_proxy.Proxy.Stream.Events.{
  handle_event, handle_open_ai_event, handle_anthropic_event, handle_delta,
}
use llm_proxy.Proxy.Stream.Feed.{handle_decoded}

-- A report without the time in it.
abbrev untimed_report : {F : Type 0} → Report F → Report F
untimed_report (ttft d) = ttft (pos 0)
untimed_report r = r

abbrev untimed_reports : {F : Type 0} → List (Report F) → List (Report F)
untimed_reports [] = []
untimed_reports (r ∷ rs) = untimed_report r ∷ untimed_reports rs

-- What the parser knows of the stream, without the times of arrival.
unfoldable pub untimed : {F : Type 0} → SseParser F → SseParser F
untimed p = record p { t0_first_tok = 0; recorded = untimed_reports p.recorded }

-- Parsers that agree but for times and for the saved part of a line.
pub data Agree {F : Type 0} : SseParser F → SseParser F → Type 0 where
  agree :
      (p : SseParser F) {a b : Time} {l m : List ℕ} {r s : List (Report F)}
      → untimed_reports r ≡ untimed_reports s
      → Agree
          (record p { t0_first_tok = a; line_buf = l; recorded = r })
          (record p { t0_first_tok = b; line_buf = m; recorded = s })

module _ {F : Type 0} where
  pub untimed-saved :
      (line : List ℕ) {p q : SseParser F}
      → Agree p q
      → untimed (record p { line_buf = line }) ≡ untimed (record q { line_buf = line })
  unfolding untimed
  untimed-saved line (agree p e) =
      ap (λ rs. record p { t0_first_tok = 0; line_buf = line; recorded = rs }) e

  -- Both parsers take the same branch of a test.
  pub branch :
      (b : Bool) {p q r s : SseParser F}
      → Agree p q
      → Agree r s
      → Agree (if b then p else r) (if b then q else s)
  branch true h k = h
  branch false h k = k

  mark_first-Agree :
      (t u : Time) {p q : SseParser F} → Agree p q → Agree (mark_first t p) (mark_first u q)
  unfolding mark_first
  mark_first-Agree t u (agree p e) =
      branch p.ttft_done (agree p e)
        (agree (record p { ttft_done = true }) (ap (◌∷◌ (ttft (pos 0))) e))

  append_content-Agree :
      (text : List ℕ) {p q : SseParser F}
      → Agree p q
      → Agree (append_content text p) (append_content text q)
  unfolding append_content
  append_content-Agree text (agree p e) =
      let remaining = max_content_capture - length p.content_buf in
      branch (not p.capture_content || p.truncated || length text == 0) (agree p e) (
        branch (remaining == 0) (agree (record p { truncated = true }) e) (
          branch (ltb remaining (length text))
            (agree
              (record p { content_buf = p.content_buf ++ take remaining text; truncated = true }) e)
            (agree (record p { content_buf = p.content_buf ++ text }) e)))

  add_text-Agree :
      (content think : List ℕ) {p q : SseParser F}
      → Agree p q
      → Agree (add_text content think p) (add_text content think q)
  unfolding add_text
  add_text-Agree content think (agree p e) = append_content-Agree content (
      agree
        (record p {
          content_chars = p.content_chars + length content;
          think_chars = p.think_chars + length think;
        })
        e)

  record_output-Agree : {p q : SseParser F} → Agree p q → Agree (record_output p) (record_output q)
  unfolding record_output
  record_output-Agree (agree p e) =
      branch (is_pos p.anthropic_output_tokens)
        (agree
          (record p {
            completion_toks = p.anthropic_output_tokens;
            anthropic_output_tokens = pos 0;
          })
          (ap (◌∷◌ (completion_tokens p.anthropic_output_tokens)) e))
        (agree p e)

  record_input-Agree : {p q : SseParser F} → Agree p q → Agree (record_input p) (record_input q)
  unfolding record_input
  record_input-Agree (agree p e) =
      branch (is_pos p.anthropic_input_tokens)
        (agree (record p { prompt_toks = p.anthropic_input_tokens; anthropic_input_tokens = pos 0 })
          (ap (◌∷◌ (prompt_tokens p.anthropic_input_tokens)) e))
        (agree p e)

  record_anthropic_tokens-Agree :
      {p q : SseParser F}
      → Agree p q
      → Agree (record_anthropic_tokens p) (record_anthropic_tokens q)
  unfolding record_anthropic_tokens
  record_anthropic_tokens-Agree h = record_output-Agree (record_input-Agree h)

  pub end_of_stream :
      {p q : SseParser F}
      → Agree p q
      → Agree
          (if p.backend_type == "anthropic" then record_anthropic_tokens p else p)
          (if q.backend_type == "anthropic" then record_anthropic_tokens q else q)
  end_of_stream (agree p e) =
      branch (p.backend_type == "anthropic") (record_anthropic_tokens-Agree (agree p e)) (agree p e)

  set_prompt-Agree :
      (o : Option ℤ) {p q : SseParser F} → Agree p q → Agree (set_prompt o p) (set_prompt o q)
  set_prompt-Agree none h = h
  set_prompt-Agree (some n) (agree p e) = agree (record p { prompt_toks = n }) e

  set_completion-Agree :
      (o : Option ℤ) {p q : SseParser F}
      → Agree p q
      → Agree (set_completion o p) (set_completion o q)
  set_completion-Agree none h = h
  set_completion-Agree (some n) (agree p e) = agree (record p { completion_toks = n }) e

  set_input-Agree :
      (o : Option ℤ) {p q : SseParser F} → Agree p q → Agree (set_input o p) (set_input o q)
  set_input-Agree none h = h
  set_input-Agree (some n) (agree p e) = agree (record p { anthropic_input_tokens = n }) e

  set_output-Agree :
      (o : Option ℤ) {p q : SseParser F} → Agree p q → Agree (set_output o p) (set_output o q)
  set_output-Agree none h = h
  set_output-Agree (some n) (agree p e) = agree (record p { anthropic_output_tokens = n }) e

module _ (Fl : Floats) (to_int64 : Fl.F → ℤ) where
  handle_open_ai_event-Agree :
      (t u : Time) (evt : Object Fl.F) {p q : SseParser Fl.F}
      → Agree p q
      → Agree (handle_open_ai_event Fl to_int64 t evt p) (handle_open_ai_event Fl to_int64 u evt q)
  unfolding handle_open_ai_event
  handle_open_ai_event-Agree t u evt h =
      let (content, think) = first_delta_content evt in
      set_completion-Agree _ (
        set_prompt-Agree _ (
          branch (not (content == "") || not (think == ""))
            (add_text-Agree (bytes content) (bytes think) (mark_first-Agree t u h)) h))

  handle_delta-Agree :
      (t u : Time) (delta : Object Fl.F) {p q : SseParser Fl.F}
      → Agree p q
      → Agree (handle_delta Fl to_int64 t delta p) (handle_delta Fl to_int64 u delta q)
  unfolding handle_delta
  handle_delta-Agree t u delta h =
      let dtype = text_or_empty (get "type" delta) in
      let think = bytes (text_or_empty (get "thinking" delta)) in
      let text = bytes (text_or_empty (get "text" delta)) in
      branch (dtype == "thinking_delta") (add_text-Agree [] think (mark_first-Agree t u h))
        (branch (dtype == "text_delta") (add_text-Agree text [] (mark_first-Agree t u h)) h)

  handle_anthropic_event-Agree :
      (t u : Time) (evt : Object Fl.F) {p q : SseParser Fl.F}
      → Agree p q
      → Agree
          (handle_anthropic_event Fl to_int64 t evt p)
          (handle_anthropic_event Fl to_int64 u evt q)
  unfolding handle_anthropic_event
  handle_anthropic_event-Agree t u evt h =
      let type = text_or_empty (get "type" evt) in
      let delta = object_or_nil (get "delta" evt) in
      branch (type == "message_start") (set_input-Agree _ h) (
        branch (type == "content_block_delta") (handle_delta-Agree t u delta h) (
          branch (type == "message_delta") (set_output-Agree _ h)
            (branch (type == "message_stop") (record_anthropic_tokens-Agree h) h)))

  handle_event-Agree :
      (t u : Time) (evt : Object Fl.F) {p q : SseParser Fl.F}
      → Agree p q
      → Agree (handle_event Fl to_int64 t evt p) (handle_event Fl to_int64 u evt q)
  unfolding handle_event
  handle_event-Agree t u evt (agree p e) =
      branch (p.backend_type == "anthropic") (handle_anthropic_event-Agree t u evt (agree p e))
        (handle_open_ai_event-Agree t u evt (agree p e))

  pub handle_decoded-Agree :
      (t u : Time) (o : Option (Object Fl.F)) {p q : SseParser Fl.F}
      → Agree p q
      → Agree (handle_decoded Fl to_int64 t o p) (handle_decoded Fl to_int64 u o q)
  handle_decoded-Agree t u none h = h
  handle_decoded-Agree t u (some evt) h = handle_event-Agree t u evt h
