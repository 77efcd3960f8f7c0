-- ===== src/Proxy/Stream/Chunks.antt =====
-- The SSE parser reads a stream, whatever the chunks are that it comes in.
use llm_proxy.Base.{
  ℕ, not, drop, All, append_assoc, append-nil, false, ◌≡◌, refl, ap, ◌∙◌, Option, List, [], ◌∷◌,
  ◌++◌, ◌==◌, number_eq, text_eq, inl, inr, Bool-cases,
}
use llm_proxy.Base.Int.{ℤ}
use llm_proxy.Base.Time.{Time}
use llm_proxy.Base.Text.{bytes}
use llm_proxy.Base.Floats.{Floats}
use llm_proxy.Json.{Object}
use llm_proxy.Proxy.Stream.{SseParser}
use llm_proxy.Proxy.Stream.Agree.{
  Agree, agree, untimed, untimed-saved, branch, end_of_stream, handle_decoded-Agree,
}
use llm_proxy.Proxy.Stream.Feed.{
  feed, feed_loop, feed_all, handle_line, trim_returns, has_prefix, same_bytes,
}

-- The bytes of a line before its newline.
abbrev pub IsPartial : List ℕ → Type 0
IsPartial line = All (λ c. (c == 10) ≡ false) line

append-IsPartial :
    (line : List ℕ) (c : ℕ) → IsPartial line → (c == 10) ≡ false → IsPartial (line ++ c ∷ [])
append-IsPartial [] c h e = (e, tt)
append-IsPartial (x ∷ xs) c (nl, h) e = (nl, append-IsPartial xs c h e)

-- The whole of what comes in chunks.
unfoldable pub stream_of : List (Time × List ℕ) → List ℕ
stream_of [] = []
stream_of ((t, xs) ∷ chunks) = xs ++ stream_of chunks

module _ (Fl : Floats) (to_int64 : Fl.F → ℤ) (unmarshal : List ℕ → Option (Object Fl.F)) where
  handle_line-Agree :
      (t u : Time) (raw : List ℕ) {p q : SseParser Fl.F}
      → Agree p q
      → Agree
          (handle_line Fl to_int64 unmarshal t raw p)
          (handle_line Fl to_int64 unmarshal u raw q)
  unfolding handle_line
  handle_line-Agree t u raw h =
      let line = trim_returns raw in
      let payload = drop 6 line in
      branch (not (has_prefix line (bytes "data: "))) h (
        branch (same_bytes payload (bytes "[DONE]")) (end_of_stream h)
          (handle_decoded-Agree Fl to_int64 t u (unmarshal payload) h))

  -- The result of the loop depends on the times only in the times.
  untimed-feed_loop :
      (t u : Time) (line chunk : List ℕ) {p q : SseParser Fl.F}
      → Agree p q
      → untimed (feed_loop Fl to_int64 unmarshal t line chunk p)
        ≡ untimed (feed_loop Fl to_int64 unmarshal u line chunk q)
  unfolding feed_loop
  untimed-feed_loop t u line [] h = untimed-saved line h
  untimed-feed_loop t u line (c ∷ chunk) h = elim (Bool-cases (c == 10)) [
    | inl nl ↦ rw nl (untimed-feed_loop t u [] chunk (handle_line-Agree t u line h))
    | inr nl ↦ rw nl (untimed-feed_loop t u (line ++ c ∷ []) chunk h)
  ]

  -- Bytes without a newline are passed over.
  feed_loop-skip :
      (t : Time) (line passed chunk : List ℕ) (p : SseParser Fl.F)
      → IsPartial passed
      → feed_loop Fl to_int64 unmarshal t line (passed ++ chunk) p
        ≡ feed_loop Fl to_int64 unmarshal t (line ++ passed) chunk p
  unfolding feed_loop
  feed_loop-skip t line [] chunk p h = rw (append-nil line) refl
  feed_loop-skip t line (c ∷ cs) chunk p (nl, h) =
      rw (nl, ← append_assoc line (c ∷ []) cs) (feed_loop-skip t (line ++ c ∷ []) cs chunk p h)

  line_buf-IsPartial :
      (t : Time) (line chunk : List ℕ) (p : SseParser Fl.F)
      → IsPartial line
      → IsPartial (feed_loop Fl to_int64 unmarshal t line chunk p).line_buf
  unfolding feed_loop
  line_buf-IsPartial t line [] p h = h
  line_buf-IsPartial t line (c ∷ chunk) p h = elim (Bool-cases (c == 10)) [
    | inl nl ↦ rw nl (line_buf-IsPartial t [] chunk _ tt)
    | inr nl ↦ rw nl (line_buf-IsPartial t (line ++ c ∷ []) chunk p (append-IsPartial line c h nl))
  ]

  feed_loop-append :
      (t u : Time) (line xs ys : List ℕ) (p : SseParser Fl.F)
      → IsPartial line
      → untimed (feed Fl to_int64 unmarshal u ys (feed_loop Fl to_int64 unmarshal t line xs p))
        ≡ untimed (feed_loop Fl to_int64 unmarshal u line (xs ++ ys) p)
  unfolding feed_loop feed
  feed_loop-append t u line [] ys p h =
      rw (feed_loop-skip u [] line ys (record p { line_buf = [] }) h)
        (untimed-feed_loop u u line ys (agree p refl))
  feed_loop-append t u line (c ∷ xs) ys p h = elim (Bool-cases (c == 10)) [
    | inl nl ↦
        let q = handle_line Fl to_int64 unmarshal t line p in
        rw nl (
          feed_loop-append t u [] xs ys q tt
          ∙ untimed-feed_loop u u [] (xs ++ ys) (handle_line-Agree t u line (agree p refl)))
    | inr nl ↦ rw nl (feed_loop-append t u (line ++ c ∷ []) xs ys p (append-IsPartial line c h nl))
  ]

  -- Feeding the chunks of a stream to a parser whose saved line has no newline, at whatever times
  -- they come, leaves it as feeding the whole stream at once does, but for the times that it notes
  -- and reports.
  pub feed_all-feed :
      (now : Time) (chunks : List (Time × List ℕ)) (p : SseParser Fl.F)
      → IsPartial p.line_buf
      → untimed (feed_all Fl to_int64 unmarshal chunks p)
        ≡ untimed (feed Fl to_int64 unmarshal now (stream_of chunks) p)
  unfolding feed_all feed stream_of
  feed_all-feed now [] p h =
      rw (feed_loop-skip now [] p.line_buf [] (record p { line_buf = [] }) h) refl
  feed_all-feed now ((t, xs) ∷ chunks) p h =
      let q = feed Fl to_int64 unmarshal t xs p in
      let p' : SseParser Fl.F = record p { line_buf = [] } in
      let saved = line_buf-IsPartial t [] (p.line_buf ++ xs) p' tt in
      feed_all-feed now chunks q saved
      ∙ feed_loop-append t now [] (p.line_buf ++ xs) (stream_of chunks) p' tt
      ∙ ap (λ bs. untimed (feed_loop Fl to_int64 unmarshal now [] bs p'))
          (append_assoc p.line_buf xs (stream_of chunks))
