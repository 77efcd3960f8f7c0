-- ===== src/Proxy/Stream/Capturing.antt =====
-- What a parser has captured of the text of a response, after each update of it.
use llm_proxy.Base.{
  ℕ, ◌-◌, ◌≤◌, ◌<◌, Bool, true, false, Option, none, some, ◌≡◌, refl, sym, ◌∙◌, List, [], ◌∷◌, ◌++◌,
  String, length, take, ltb, ◌==◌, number_eq, text_eq, if◌then◌else◌, inl, inr, subst, Bool-cases,
  arith, length-append, take-append, take-append_left, take_of_length-le, append-nil,
}
use llm_proxy.Base.Int.{ℤ, is_pos}
use llm_proxy.Base.Time.{Time}
use llm_proxy.Proxy.Stream.{
  SseParser, max_content_capture, append_content, add_text, mark_first, record_input, record_output,
  set_prompt, set_completion, set_input, set_output,
}

-- A parser that captures has all of the text `xs` so far, or the first bytes of it.
pub data Captures {F : Type 0} (backend_type : String) (xs : List ℕ) : SseParser F → Type 0 where
  whole :
      (p : SseParser F)
      → length xs ≤ max_content_capture
      → Captures backend_type xs (record p {
        backend_type = backend_type;
        capture_content = true;
        content_buf = xs;
        truncated = false;
      })
  cut :
      (p : SseParser F) {buf : List ℕ}
      → max_content_capture < length xs
      → buf ≡ take max_content_capture xs
      → Captures backend_type xs (record p {
        backend_type = backend_type;
        capture_content = true;
        content_buf = buf;
        truncated = true;
      })

module _ {F : Type 0} {type : String} {xs : List ℕ} where
  pub branch :
      (b : Bool) {p q : SseParser F}
      → Captures type xs p
      → Captures type xs q
      → Captures type xs (if b then p else q)
  branch true h k = h
  branch false h k = k

  append_content-Captures :
      (text : List ℕ) {p : SseParser F}
      → Captures type xs p
      → Captures type (xs ++ text) (append_content text p)
  unfolding append_content
  append_content-Captures [] (whole p h) = rw (append-nil xs) (whole p h)
  append_content-Captures [] (cut p h e) = rw (append-nil xs) (cut p h e)
  append_content-Captures (c ∷ cs) (cut p h e) =
      cut p (omega (arith, h, length-append xs (c ∷ cs)))
        (e ∙ sym (take-append_left max_content_capture xs (c ∷ cs) (omega (arith, h))))
  append_content-Captures (c ∷ cs) (whole p h) =
      let text = c ∷ cs in
      let remaining = max_content_capture - length xs in
      let written : (length text == 0) ≡ false = ground arith in
      elim (Bool-cases (remaining == 0)) [
        | inl z ↦
            let at_cap : max_content_capture ≤ length xs = ground arith in
            rw (written, z)
              (cut p (omega (arith, at_cap, length-append xs text)) (
                sym (
                  take-append_left max_content_capture xs text at_cap
                  ∙ take_of_length-le max_content_capture xs h)))
        | inr z ↦ elim (Bool-cases (ltb remaining (length text))) [
          | inl m ↦
              let more : max_content_capture < length (xs ++ text) =
                ground (arith, length-append xs text) in
              rw (written, z, m) (cut p more (sym (take-append max_content_capture xs text h)))
          | inr m ↦
              let fits : length (xs ++ text) ≤ max_content_capture =
                ground (arith, length-append xs text) in
              rw (written, z, m) (whole p fits)
        ]
      ]

  pub backend_type-Captures : {p : SseParser F} → Captures type xs p → p.backend_type ≡ type
  backend_type-Captures (whole p h) = refl
  backend_type-Captures (cut p h e) = refl

  -- An update of the other fields.
  other :
      {p : SseParser F} (q : SseParser F)
      → Captures type xs p
      → q.backend_type ≡ p.backend_type
      → q.capture_content ≡ p.capture_content
      → q.content_buf ≡ p.content_buf
      → q.truncated ≡ p.truncated
      → Captures type xs q
  other q (whole p h) t a b c =
      subst (Captures type xs)
        (λ i. record q {
          backend_type = sym t i;
          capture_content = sym a i;
          content_buf = sym b i;
          truncated = sym c i;
        })
        (whole q h)
  other q (cut p h e) t a b c =
      subst (Captures type xs)
        (λ i. record q {
          backend_type = sym t i;
          capture_content = sym a i;
          content_buf = sym b i;
          truncated = sym c i;
        })
        (cut q h e)

  pub mark_first-Captures :
      (now : Time) (p : SseParser F) → Captures type xs p → Captures type xs (mark_first now p)
  unfolding mark_first
  mark_first-Captures now p h = branch p.ttft_done h (other _ h refl refl refl refl)

  pub add_text-Captures :
      (text think : List ℕ) (p : SseParser F)
      → Captures type xs p
      → Captures type (xs ++ text) (add_text text think p)
  unfolding add_text
  add_text-Captures text think p h = append_content-Captures text (other _ h refl refl refl refl)

  pub record_input-Captures :
      (p : SseParser F) → Captures type xs p → Captures type xs (record_input p)
  unfolding record_input
  record_input-Captures p h =
      branch (is_pos p.anthropic_input_tokens) (other _ h refl refl refl refl) h

  pub record_output-Captures :
      (p : SseParser F) → Captures type xs p → Captures type xs (record_output p)
  unfolding record_output
  record_output-Captures p h =
      branch (is_pos p.anthropic_output_tokens) (other _ h refl refl refl refl) h

  pub set_prompt-Captures :
      (o : Option ℤ) (p : SseParser F) → Captures type xs p → Captures type xs (set_prompt o p)
  set_prompt-Captures none p h = h
  set_prompt-Captures (some n) p h = other _ h refl refl refl refl

  pub set_completion-Captures :
      (o : Option ℤ) (p : SseParser F) → Captures type xs p → Captures type xs (set_completion o p)
  set_completion-Captures none p h = h
  set_completion-Captures (some n) p h = other _ h refl refl refl refl

  pub set_input-Captures :
      (o : Option ℤ) (p : SseParser F) → Captures type xs p → Captures type xs (set_input o p)
  set_input-Captures none p h = h
  set_input-Captures (some n) p h = other _ h refl refl refl refl

  pub set_output-Captures :
      (o : Option ℤ) (p : SseParser F) → Captures type xs p → Captures type xs (set_output o p)
  set_output-Captures none p h = h
  set_output-Captures (some n) p h = other _ h refl refl refl refl
