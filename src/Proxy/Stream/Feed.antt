-- ===== src/Proxy/Stream/Feed.antt =====
-- `feed` and `recordFinal` of the parsers of internal/proxy/stream.go.
use llm_proxy.Base.{
  ℕ, ◌+◌, Bool, true, false, ◌&&◌, not, Option, none, some, List, [], ◌∷◌, ◌++◌, drop, length, ltb,
  ◌==◌, number_eq, text_eq, if◌then◌else◌,
}
use llm_proxy.Base.Int.{ℤ, pos, is_pos}
use llm_proxy.Base.Text.{bytes}
use llm_proxy.Base.Time.{Time, Duration, since}
use llm_proxy.Base.Floats.{Floats}
use llm_proxy.Json.{Object}
use llm_proxy.Proxy.Stream.{
  SseParser, Report, ttft, prompt_tokens, completion_tokens, generation_speed, think_content_ratio,
  prompt_tokens_per_request, record_anthropic_tokens,
}
use llm_proxy.Proxy.Stream.Events.{handle_event}

-- Whether two slices hold the same bytes.
unfoldable pub same_bytes : List ℕ → List ℕ → Bool
same_bytes [] [] = true
same_bytes (x ∷ xs) (y ∷ ys) = x == y && same_bytes xs ys
same_bytes _ _ = false

-- bytes.HasPrefix
unfoldable pub has_prefix : List ℕ → List ℕ → Bool
has_prefix line [] = true
has_prefix [] (y ∷ ys) = false
has_prefix (x ∷ xs) (y ∷ ys) = x == y && has_prefix xs ys

unfoldable pub only_returns : List ℕ → Bool
only_returns [] = true
only_returns (c ∷ cs) = c == 13 && only_returns cs

-- bytes.TrimRight(line, "\r")
unfoldable pub trim_returns : List ℕ → List ℕ
unfolding only_returns
trim_returns [] = []
trim_returns (c ∷ cs) = if only_returns (c ∷ cs) then [] else c ∷ trim_returns cs

module _ (Fl : Floats) (to_int64 : Fl.F → ℤ) where
  -- A decoded event, or none when the payload is not a JSON object.
  abbrev pub handle_decoded : Time → Option (Object Fl.F) → SseParser Fl.F → SseParser Fl.F
  handle_decoded now none p = p
  handle_decoded now (some evt) p = handle_event Fl to_int64 now evt p

module _ (Fl : Floats) (to_int64 : Fl.F → ℤ) (unmarshal : List ℕ → Option (Object Fl.F)) where
  -- One turn of the loop in `feed`, for a line without its newline.
  unfoldable pub handle_line : Time → List ℕ → SseParser Fl.F → SseParser Fl.F
  unfolding trim_returns has_prefix same_bytes record_anthropic_tokens handle_event
  handle_line now raw p =
      let line = trim_returns raw in
      let payload = drop 6 line in
      if not (has_prefix line (bytes "data: "))
      then p
      else if same_bytes payload (bytes "[DONE]")
      then (if p.backend_type == "anthropic" then record_anthropic_tokens p else p)
      else handle_decoded Fl to_int64 now (unmarshal payload) p

  -- The loop of `feed`, with the search for a newline written out: `line` is what it has passed of
  -- the current line. At the end of the data, the incomplete line is saved.
  unfoldable pub feed_loop : Time → List ℕ → List ℕ → SseParser Fl.F → SseParser Fl.F
  unfolding handle_line
  feed_loop now line [] p = record p { line_buf = line }
  feed_loop now line (c ∷ chunk) p =
      if c == 10
      then feed_loop now [] chunk (handle_line now line p)
      else feed_loop now (line ++ c ∷ []) chunk p

  -- `feed` at a time.
  unfoldable pub feed : Time → List ℕ → SseParser Fl.F → SseParser Fl.F
  unfolding feed_loop
  feed now chunk p = feed_loop now [] (p.line_buf ++ chunk) (record p { line_buf = [] })

  -- The chunks of a stream, each at the time of its arrival.
  unfoldable pub feed_all : List (Time × List ℕ) → SseParser Fl.F → SseParser Fl.F
  unfolding feed
  feed_all [] p = p
  feed_all ((now, chunk) ∷ chunks) p = feed_all chunks (feed now chunk p)

module _ (Fl : Floats) (to_seconds : Duration → Fl.F) where
  abbrev report_if : Bool → Report Fl.F → SseParser Fl.F → SseParser Fl.F
  report_if true r p = record p { recorded = r ∷ p.recorded }
  report_if false r p = p

  -- `recordFinal` of the SSE parser at a time.
  unfoldable pub record_final : Time → SseParser Fl.F → SseParser Fl.F
  record_final now p =
      let open_ai = not (p.backend_type == "anthropic") in
      let decode_secs = to_seconds (since now p.t0_first_tok) in
      let total = p.think_chars + p.content_chars in
      let tps = Fl.div (Fl.of_int p.completion_toks) decode_secs in
      let ratio = Fl.div (Fl.of_int (pos p.think_chars)) (Fl.of_int (pos total)) in
      let speed =
        p.ttft_done && is_pos p.completion_toks && Fl.lt (Fl.of_int (pos 0)) decode_secs in
      let a = report_if (open_ai && is_pos p.prompt_toks) (prompt_tokens p.prompt_toks) p in
      let b =
        report_if (open_ai && is_pos p.completion_toks) (completion_tokens p.completion_toks) a in
      let c = report_if speed (generation_speed tps) b in
      let d = report_if (ltb 0 total) (think_content_ratio ratio) c in
      report_if (is_pos p.prompt_toks) (prompt_tokens_per_request p.prompt_toks) d

-- `ollamaParser`
pub record OllamaParser (F : Type 0) : Type 0 where
  pub t0 : Time
  pub ttft_done : Bool
  pub recorded : List (Report F)

unfoldable pub feed_ollama : {F : Type 0} → Time → List ℕ → OllamaParser F → OllamaParser F
feed_ollama now chunk p =
    if not p.ttft_done && ltb 0 (length chunk)
    then record p { recorded = ttft (since now p.t0) ∷ p.recorded; ttft_done = true }
    else p
