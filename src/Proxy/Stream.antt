-- ===== src/Proxy/Stream.antt =====
-- The parsers of streamed responses of internal/proxy/stream.go. What a parser reports to the
-- meters is the list `recorded`, the newest first; the attributes of a report are those of the
-- parser and are left out. Texts are captured as bytes, since the cap counts bytes.
--
-- Parameters: the float64 numbers, Go's conversions of a float64 to an int64 and of a duration to
-- seconds, and json.Unmarshal into a map (`none` for its error).
pub mod Events
pub mod Feed
pub mod Agree
pub mod Chunks
pub mod Capturing
pub mod Captured
pub mod Idle
pub mod Remaining
pub mod Intercepted
pub mod Delivered
use llm_proxy.Base.{
  ℕ, ◌+◌, ◌-◌, Bool, true, false, ◌||◌, not, Option, none, some, List, [], ◌∷◌, ◌++◌, String,
  length, take, ltb, ◌==◌, number_eq, text_eq, if◌then◌else◌,
}
use llm_proxy.Base.Int.{ℤ, pos, is_pos}
use llm_proxy.Base.Text.{bytes}
use llm_proxy.Base.Time.{Time, Duration, since}
use llm_proxy.Base.Floats.{Floats}
use llm_proxy.Json.{
  Value, Items, Object, num, obj, nil, cons, end, get, text_or_empty, items_or_nil,
}

abbrev pub max_content_capture : ℕ
max_content_capture = 32768

pub data Report (F : Type 0) : Type 0 where
  ttft : Duration → Report F
  prompt_tokens : ℤ → Report F
  completion_tokens : ℤ → Report F
  generation_speed : F → Report F
  think_content_ratio : F → Report F
  prompt_tokens_per_request : ℤ → Report F

-- `sseParser` without what it hands on to the meters: its identity and context.
pub record SseParser (F : Type 0) : Type 0 where
  pub backend_type : String
  pub t0 : Time
  pub ttft_done : Bool
  pub t0_first_tok : Time
  pub line_buf : List ℕ
  pub prompt_toks : ℤ
  pub completion_toks : ℤ
  pub think_chars : ℕ
  pub content_chars : ℕ
  pub anthropic_input_tokens : ℤ
  pub anthropic_output_tokens : ℤ
  pub capture_content : Bool
  pub content_buf : List ℕ
  pub truncated : Bool
  pub recorded : List (Report F)

abbrev pub new_sse_parser : {F : Type 0} → String → Time → Bool → SseParser F
new_sse_parser type t0 capture = record {
  backend_type = type;
  t0 = t0;
  ttft_done = false;
  t0_first_tok = 0;
  line_buf = [];
  prompt_toks = pos 0;
  completion_toks = pos 0;
  think_chars = 0;
  content_chars = 0;
  anthropic_input_tokens = pos 0;
  anthropic_output_tokens = pos 0;
  capture_content = capture;
  content_buf = [];
  truncated = false;
  recorded = [];
}

-- m, _ := v.(map[string]interface{}), where a failed assertion leaves a nil map, which reads as an
-- empty one
abbrev pub object_or_nil : {N : Type 0} → Option (Value N) → Object N
object_or_nil (some (obj m)) = m
object_or_nil _ = end

module _ {F : Type 0} where
  -- The loop of `firstDeltaContent` over the choices; when none has a text, both are "".
  unfoldable pub first_delta : Items F → String × String
  first_delta nil = ("", "")
  first_delta (cons c cs) =
      let delta = object_or_nil (get "delta" (object_or_nil (some c))) in
      let content = text_or_empty (get "content" delta) in
      let reasoning = text_or_empty (get "reasoning_content" delta) in
      let later = first_delta cs in
      if not (content == "") || not (reasoning == "") then (content, reasoning) else later

  unfoldable pub first_delta_content : Object F → String × String
  first_delta_content evt = first_delta (items_or_nil (get "choices" evt))

  -- The cap counts the bytes of the texts.
  unfoldable pub append_content : List ℕ → SseParser F → SseParser F
  append_content text p =
      let remaining = max_content_capture - length p.content_buf in
      if not p.capture_content || p.truncated || length text == 0
      then p
      else if remaining == 0
      then record p { truncated = true }
      else if ltb remaining (length text)
      then record p { content_buf = p.content_buf ++ take remaining text; truncated = true }
      else record p { content_buf = p.content_buf ++ text }

  -- The first content token: the time to it, and when it came.
  unfoldable pub mark_first : Time → SseParser F → SseParser F
  mark_first now p = if p.ttft_done then p else record p {
    ttft_done = true;
    t0_first_tok = now;
    recorded = ttft (since now p.t0) ∷ p.recorded;
  }

  unfoldable pub add_text : List ℕ → List ℕ → SseParser F → SseParser F
  unfolding append_content
  add_text content think p = append_content content (record p {
    content_chars = p.content_chars + length content;
    think_chars = p.think_chars + length think;
  })

  -- The two counts that `recordAnthropicTokens` hands on and resets.
  unfoldable pub record_input : SseParser F → SseParser F
  record_input p =
      if is_pos p.anthropic_input_tokens
      then record p {
        prompt_toks = p.anthropic_input_tokens;
        recorded = prompt_tokens p.anthropic_input_tokens ∷ p.recorded;
        anthropic_input_tokens = pos 0;
      }
      else p

  unfoldable pub record_output : SseParser F → SseParser F
  record_output p =
      if is_pos p.anthropic_output_tokens
      then record p {
        completion_toks = p.anthropic_output_tokens;
        recorded = completion_tokens p.anthropic_output_tokens ∷ p.recorded;
        anthropic_output_tokens = pos 0;
      }
      else p

  unfoldable pub record_anthropic_tokens : SseParser F → SseParser F
  unfolding record_input record_output
  record_anthropic_tokens p = record_output (record_input p)

  abbrev pub set_prompt : Option ℤ → SseParser F → SseParser F
  set_prompt (some n) p = record p { prompt_toks = n }
  set_prompt none p = p

  abbrev pub set_completion : Option ℤ → SseParser F → SseParser F
  set_completion (some n) p = record p { completion_toks = n }
  set_completion none p = p

  abbrev pub set_input : Option ℤ → SseParser F → SseParser F
  set_input (some n) p = record p { anthropic_input_tokens = n }
  set_input none p = p

  abbrev pub set_output : Option ℤ → SseParser F → SseParser F
  set_output (some n) p = record p { anthropic_output_tokens = n }
  set_output none p = p

  -- `ResponseText`, in bytes
  unfoldable pub response_text : SseParser F → List ℕ
  response_text p = if p.truncated then p.content_buf ++ bytes " [truncated]" else p.content_buf
