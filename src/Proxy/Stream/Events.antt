-- ===== src/Proxy/Stream/Events.antt =====
-- What the parser of internal/proxy/stream.go reads of an event.
use llm_proxy.Base.{Option, none, some, not, ◌||◌, [], ◌==◌, text_eq, if◌then◌else◌}
use llm_proxy.Base.Int.{ℤ, pos}
use llm_proxy.Base.Text.{bytes}
use llm_proxy.Base.Time.{Time}
use llm_proxy.Base.Floats.{Floats}
use llm_proxy.Json.{Value, Object, num, get, text_or_empty}
use llm_proxy.Proxy.Stream.{
  SseParser, first_delta_content, mark_first, add_text, record_anthropic_tokens, object_or_nil,
  set_prompt, set_completion, set_input, set_output,
}

module _ (Fl : Floats) (to_int64 : Fl.F → ℤ) where
  -- if v, _ := usage[key].(float64); v > 0, with int64(v)
  abbrev pub positive : Option (Value Fl.F) → Option ℤ
  positive (some (num v)) = if Fl.lt (Fl.of_int (pos 0)) v then some (to_int64 v) else none
  positive _ = none

  unfoldable pub handle_open_ai_event : Time → Object Fl.F → SseParser Fl.F → SseParser Fl.F
  unfolding first_delta_content mark_first add_text
  handle_open_ai_event now evt p =
      let (content, think) = first_delta_content evt in
      let q =
        if not (content == "") || not (think == "")
        then add_text (bytes content) (bytes think) (mark_first now p)
        else p in
      let usage = object_or_nil (get "usage" evt) in
      set_completion (positive (get "completion_tokens" usage))
        (set_prompt (positive (get "prompt_tokens" usage)) q)

  -- A `content_block_delta`: its type is `dtype`.
  unfoldable pub handle_delta : Time → Object Fl.F → SseParser Fl.F → SseParser Fl.F
  unfolding mark_first add_text
  handle_delta now delta p =
      let dtype = text_or_empty (get "type" delta) in
      if dtype == "thinking_delta"
      then add_text [] (bytes (text_or_empty (get "thinking" delta))) (mark_first now p)
      else if dtype == "text_delta"
      then add_text (bytes (text_or_empty (get "text" delta))) [] (mark_first now p)
      else p

  unfoldable pub handle_anthropic_event : Time → Object Fl.F → SseParser Fl.F → SseParser Fl.F
  unfolding handle_delta record_anthropic_tokens
  handle_anthropic_event now evt p =
      let type = text_or_empty (get "type" evt) in
      let started = object_or_nil (get "usage" (object_or_nil (get "message" evt))) in
      let usage = object_or_nil (get "usage" evt) in
      if type == "message_start"
      then set_input (positive (get "input_tokens" started)) p
      else if type == "content_block_delta"
      then handle_delta now (object_or_nil (get "delta" evt)) p
      else if type == "message_delta"
      then set_output (positive (get "output_tokens" usage)) p
      else if type == "message_stop"
      then record_anthropic_tokens p
      else p

  unfoldable pub handle_event : Time → Object Fl.F → SseParser Fl.F → SseParser Fl.F
  unfolding handle_open_ai_event handle_anthropic_event
  handle_event now evt p =
      if p.backend_type == "anthropic"
      then handle_anthropic_event now evt p
      else handle_open_ai_event now evt p
