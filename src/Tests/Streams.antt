-- ===== src/Tests/Streams.antt =====
-- Streamed responses in small pieces. An event here is any payload that is not empty.
use llm_proxy.Base.{
  Bool, ◌==◌, number_eq, ℕ, ◌≡◌, refl, true, List, [], ◌∷◌, ◌++◌, Option, none, some, String,
  length, take, ltb, if◌then◌else◌, map_option, arith,
}
use llm_proxy.Base.Int.{pos, pos_part}
use llm_proxy.Base.Text.{bytes}
use llm_proxy.Base.Time.{Time}
use llm_proxy.Json.{Object, end, field, str, arr, obj, cons, nil, num}
use llm_proxy.Capture.{new_capped_buffer}
use llm_proxy.Proxy.Stream.{SseParser, new_sse_parser, response_text, max_content_capture}
use llm_proxy.Proxy.Stream.Agree.{untimed}
use llm_proxy.Proxy.Stream.Feed.{feed, feed_all}
use llm_proxy.Proxy.Stream.Chunks.{stream_of, feed_all-feed}
use llm_proxy.Proxy.Stream.Captured.{event_texts, handle_events, response_text-handle_events}
use llm_proxy.Proxy.Stream.Idle.{ReadResult, new_idle_timeout_body, until_error, prepend}
use llm_proxy.Proxy.Stream.Intercepted.{InterceptedBody, intercept, copy_all}
use llm_proxy.Proxy.Stream.Delivered.{Ended, copy_all-until_error}
use llm_proxy.Tests.Data.{fixed}

program : Unit {0}
unfolding until_error prepend
program = tt

-- {"choices": [{"delta": {"content": "Hi"}}], "usage": {"completion_tokens": 7}}
abbrev event : Object ℕ
event =
    field "choices"
      (arr (cons (obj (field "delta" (obj (field "content" (str "Hi") end)) end)) nil))
      (field "usage" (obj (field "completion_tokens" (num 7) end)) end)

abbrev decode_event : List ℕ → Option (Object ℕ)
decode_event [] = none
decode_event (c ∷ cs) = some event

abbrev parser : SseParser ℕ
parser = new_sse_parser "openai" 0 true

abbrev pieces : List (Time × List ℕ)
pieces = (1, bytes "da") ∷ (2, bytes "ta: {}\r\n\r\nda") ∷ (3, bytes "ta: [DONE]\n") ∷ []

feed_all-feed_example :
    untimed (feed_all fixed pos decode_event pieces parser)
    ≡ untimed (feed fixed pos decode_event 0 (stream_of pieces) parser)
feed_all-feed_example = feed_all-feed fixed pos decode_event 0 pieces parser tt

response_text-handle_events_example :
    response_text (handle_events fixed pos ((1, event) ∷ (2, event) ∷ []) parser) ≡ (
      let texts = event_texts "openai" ((1, event) ∷ (2, event) ∷ []) in
      if ltb max_content_capture (length texts)
      then take max_content_capture texts ++ bytes " [truncated]"
      else texts)
response_text-handle_events_example =
    response_text-handle_events fixed pos "openai" 0 ((1, event) ∷ (2, event) ∷ [])

abbrev reads : List (ReadResult String)
reads = (1 ∷ 2 ∷ 3 ∷ [], none) ∷ ([], none) ∷ (10 ∷ [], some "EOF") ∷ []

reads_end : until_error reads ≡ some (1 ∷ 2 ∷ 3 ∷ 10 ∷ [], "EOF")
unfolding program
reads_end = refl

-- The timer fires before the second read.
abbrev late : ℕ → Bool
late k = k == 6

copy_all-until_error_example :
    (c : InterceptedBody String ℕ) × (sent : List ℕ) × (err : String) × (copy_all fixed pos
        decode_event "idle" late
        (λ k. k)
        (λ k. 2)
        8
        (intercept (new_idle_timeout_body reads) parser (some (new_capped_buffer (pos 2))))
      ≡ some (record { sent = sent; err = err; final = c }))
    × Ended fixed pos decode_event "idle" late (1 ∷ 2 ∷ 3 ∷ 10 ∷ []) "EOF" sent err
    × (untimed c.parser ≡ untimed (feed fixed pos decode_event 0 sent parser))
    × (map_option (λ tee. tee.buf) c.tee ≡ some (take (pos_part (pos 2)) sent))
    × (c.read_err ≡ some err)
copy_all-until_error_example =
    copy_all-until_error fixed pos decode_event "idle" late (λ k. k) (λ k. 2) 8 0 reads parser
      (pos 2) reads_end (omega arith) tt
