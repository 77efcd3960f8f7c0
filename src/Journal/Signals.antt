-- ===== src/Journal/Signals.antt =====
-- What an entry of the journal says of a request: its token estimate, and what the hardened build
-- leaves out of it.
use Prim.Native.Char.{code}
use Prim.Native.String.{◌++◌ as text_append}
use Prim.Native.String.append.{nil as append_nil, cons as append_cons}
use llm_proxy.Base.{
  ◌+◌, ◌/◌, ◌≡◌, refl, ap, ◌∙◌, Bool, true, false, ◌||◌, Option, none, some, String, [], length,
  length-append, arith, ◌==◌, text_eq, Bool-cases, inl, inr,
}
use llm_proxy.Base.Text.{bytes, utf8_char}
use llm_proxy.Json.{
  Value, Items, Object, null, bool, num, int, str, arr, obj, nil, cons, get, text_or_empty, as_text,
  items_or_nil,
}
use llm_proxy.Proxy.Body.{part_bytes, content_bytes, messages_bytes, estimate_tokens}
use llm_proxy.Journal.{
  Entry, add_signals, add_role, analyze_message, analyze_messages, add_system, start_entry, analyze,
  parts_text, extract_message_text,
}

length_bytes-text_append :
    (s t : String) → length (bytes (text_append s t)) ≡ length (bytes s) + length (bytes t)
unfolding bytes
length_bytes-text_append String.[] t = rw (append_nil t) (omega arith)
length_bytes-text_append (String.◌∷◌ c s) t = rw (append_cons c s t) (
    omega (
      arith,
      length-append (utf8_char (code c)) (bytes (text_append s t)),
      length-append (utf8_char (code c)) (bytes s),
      length_bytes-text_append s t,
    ))

module _ {N : Type 0} where
  abbrev pub without_text : Entry N → Entry N
  without_text e = record e { system_text = []; last_user_text = [] }

  add_role-false :
      (role text : String) (e : Entry N)
      → add_role false role text (without_text e) ≡ without_text (add_role true role text e)
  unfolding add_role
  add_role-false role text e = elim (Bool-cases (role == "system")) [
    | inl s ↦ rw (s) refl
    | inr s ↦ elim (Bool-cases (role == "user")) [ inl u ↦ rw (s, u) refl | inr u ↦ rw (s, u) refl ]
  ]

  add_signals-without_text :
      (text : String) (e : Entry N)
      → add_signals text (without_text e) ≡ without_text (add_signals text e)
  unfolding add_signals
  add_signals-without_text text e = refl

  analyze_message-false :
      (m : Object N) (e : Entry N)
      → analyze_message false m (without_text e) ≡ without_text (analyze_message true m e)
  unfolding analyze_message
  analyze_message-false m e =
      let text = (extract_message_text (get "content" m)).0 in
      let role = text_or_empty (get "role" m) in
      let counted = record e {
        total_chars = e.total_chars + length (bytes text);
        is_multimodal = (extract_message_text (get "content" m)).1 || e.is_multimodal;
      } in
      ap (add_signals text) (add_role-false role text counted)
      ∙ add_signals-without_text text (add_role true role text counted)

  analyze_messages-false :
      (ms : Items N) (e : Entry N)
      → analyze_messages false ms (without_text e) ≡ without_text (analyze_messages true ms e)
  unfolding analyze_messages
  analyze_messages-false nil e = refl
  analyze_messages-false (cons (obj m) ms) e =
      ap (analyze_messages false ms) (analyze_message-false m e)
      ∙ analyze_messages-false ms (analyze_message true m e)
  analyze_messages-false (cons null ms) e = analyze_messages-false ms e
  analyze_messages-false (cons (bool b) ms) e = analyze_messages-false ms e
  analyze_messages-false (cons (num b) ms) e = analyze_messages-false ms e
  analyze_messages-false (cons (int b) ms) e = analyze_messages-false ms e
  analyze_messages-false (cons (str b) ms) e = analyze_messages-false ms e
  analyze_messages-false (cons (arr b) ms) e = analyze_messages-false ms e

  add_system-false :
      (sys : Option String) (e : Entry N)
      → add_system false sys (without_text e) ≡ without_text (add_system true sys e)
  unfolding add_system add_signals
  add_system-false none e = refl
  add_system-false (some s) e = refl

  abbrev estimated : Entry N → Entry N
  estimated e = record e { est_tokens = e.total_chars / 4 }

  -- The entry of the hardened build has none of the request's text and is else the entry of the
  -- debug build.
  pub analyze-false :
      (body : Object N) (protocol : String)
      → analyze false body protocol ≡ without_text (analyze true body protocol)
  unfolding analyze start_entry
  analyze-false body protocol =
      let ms = items_or_nil (get "messages" body) in
      let sys = as_text (get "system" body) in
      let e = start_entry body protocol in
      ap estimated (
        ap (analyze_messages false ms) (add_system-false sys e)
        ∙ analyze_messages-false ms (add_system true sys e))

  length_bytes-parts_text : (ps : Items N) → length (bytes ((parts_text ps).0)) ≡ part_bytes ps
  unfolding parts_text part_bytes bytes
  length_bytes-parts_text nil = refl
  length_bytes-parts_text (cons (obj p) ps) =
      elim (Bool-cases (text_or_empty (get "type" p) == "text")) [
        | inl t ↦ rw (t) (
            length_bytes-text_append (text_or_empty (get "text" p)) ((parts_text ps).0)
            ∙ ap (λ n. length (bytes (text_or_empty (get "text" p))) + n)
                (length_bytes-parts_text ps))
        | inr t ↦ rw (t) (length_bytes-parts_text ps)
      ]
  length_bytes-parts_text (cons null ps) = length_bytes-parts_text ps
  length_bytes-parts_text (cons (bool b) ps) = length_bytes-parts_text ps
  length_bytes-parts_text (cons (num b) ps) = length_bytes-parts_text ps
  length_bytes-parts_text (cons (int b) ps) = length_bytes-parts_text ps
  length_bytes-parts_text (cons (str b) ps) = length_bytes-parts_text ps
  length_bytes-parts_text (cons (arr b) ps) = length_bytes-parts_text ps

  length_bytes-extract_message_text :
      (content : Option (Value N))
      → length (bytes ((extract_message_text content).0)) ≡ content_bytes content
  unfolding extract_message_text bytes
  length_bytes-extract_message_text none = refl
  length_bytes-extract_message_text (some null) = refl
  length_bytes-extract_message_text (some (bool b)) = refl
  length_bytes-extract_message_text (some (num b)) = refl
  length_bytes-extract_message_text (some (int b)) = refl
  length_bytes-extract_message_text (some (str s)) = refl
  length_bytes-extract_message_text (some (arr ps)) = length_bytes-parts_text ps
  length_bytes-extract_message_text (some (obj b)) = refl

  total_chars-add_role :
      (capture : Bool) (role text : String) (e : Entry N)
      → (add_role capture role text e).total_chars ≡ e.total_chars
  unfolding add_role
  total_chars-add_role capture role text e = elim (Bool-cases (role == "system")) [
    | inl s ↦ rw (s) refl
    | inr s ↦ elim (Bool-cases (role == "user")) [ inl u ↦ rw (s, u) refl | inr u ↦ rw (s, u) refl ]
  ]

  total_chars-analyze_message :
      (capture : Bool) (m : Object N) (e : Entry N)
      → (analyze_message capture m e).total_chars ≡ e.total_chars + content_bytes (get "content" m)
  unfolding analyze_message add_signals
  total_chars-analyze_message capture m e =
      let text = (extract_message_text (get "content" m)).0 in
      let counted = record e {
        total_chars = e.total_chars + length (bytes text);
        is_multimodal = (extract_message_text (get "content" m)).1 || e.is_multimodal;
      } in
      total_chars-add_role capture (text_or_empty (get "role" m)) text counted
      ∙ ap (λ n. e.total_chars + n) (length_bytes-extract_message_text (get "content" m))

  total_chars-analyze_messages :
      (capture : Bool) (ms : Items N) (e : Entry N)
      → (analyze_messages capture ms e).total_chars ≡ e.total_chars + messages_bytes ms
  unfolding analyze_messages messages_bytes
  total_chars-analyze_messages capture nil e = omega arith
  total_chars-analyze_messages capture (cons (obj m) ms) e = omega (
    arith,
    total_chars-analyze_messages capture ms (analyze_message capture m e),
    total_chars-analyze_message capture m e,
  )
  total_chars-analyze_messages capture (cons null ms) e = total_chars-analyze_messages capture ms e
  total_chars-analyze_messages capture (cons (bool b) ms) e =
      total_chars-analyze_messages capture ms e
  total_chars-analyze_messages capture (cons (num b) ms) e =
      total_chars-analyze_messages capture ms e
  total_chars-analyze_messages capture (cons (int b) ms) e =
      total_chars-analyze_messages capture ms e
  total_chars-analyze_messages capture (cons (str b) ms) e =
      total_chars-analyze_messages capture ms e
  total_chars-analyze_messages capture (cons (arr b) ms) e =
      total_chars-analyze_messages capture ms e

  -- Where a body has no text at the top as its system prompt, the journal's token estimate is the
  -- server's.
  pub est_tokens-analyze :
      (capture : Bool) (body : Object N) (protocol : String)
      → as_text (get "system" body) ≡ none
      → (analyze capture body protocol).est_tokens ≡ estimate_tokens body
  unfolding analyze start_entry estimate_tokens add_system
  est_tokens-analyze capture body protocol h =
      let e = start_entry body protocol in
      let total = total_chars-analyze_messages capture (items_or_nil (get "messages" body)) e in
      ap (λ n. n / 4) (rw (h) (omega (arith, total)))
