-- ===== src/Proxy/Body/Prompt.antt =====
-- The system prompt of a route (internal/proxy/server.go), and what it leaves of the messages.
use Prim.Native.String.{◌++◌}
use llm_proxy.Base.{
  true, false, not, ◌≡◌, refl, Option, none, some, String, map_option, if◌then◌else◌, ◌==◌, text_eq,
  arith, inl, inr, Bool-cases, Option-cases,
}
use llm_proxy.Json.{
  Value, Items, Object, null, bool, num, int, str, arr, obj, nil, cons, end, field, get, put,
  get-put, as_items, items_or_nil, ◌+++◌,
}
use llm_proxy.Config.Types.{SystemPromptOp}
use llm_proxy.Config.Lookup.{prompt_zero}
use llm_proxy.Proxy.Defender.{has_role, last_user, get_last_user_message, system_message}
use llm_proxy.Proxy.Defender.Inject.{
  last_user-system, as_or_nil, last_user-head, last_user-kept, still_system,
}

unfoldable pub mutate_string : String → SystemPromptOp → String
mutate_string s op =
    if not (op.replace == "")
    then op.replace
    else if not (op.prepend == "")
    then op.prepend ++ s
    else if not (op.append == "")
    then s ++ op.append
    else s

module _ {N : Type 0} where
  -- A system message; a content that is not a text is left alone.
  unfoldable mutate_message : SystemPromptOp → Object N → Object N
  unfolding mutate_string
  mutate_message op m = elim (get "content" m) [
    | some (str s) ↦ put "content" (str (mutate_string s op)) m
    | _ ↦ m
  ]

  -- The messages with the first system message rewritten, or `none` if there is none.
  unfoldable rewrite_system : SystemPromptOp → Items N → Option (Items N)
  unfolding mutate_message
  rewrite_system op nil = none
  rewrite_system op (cons v vs) =
      let rest = map_option (cons v) (rewrite_system op vs) in
      elim v [
        | obj m ↦ if has_role "system" m then some (cons (obj (mutate_message op m)) vs) else rest
        | _ ↦ rest
      ]

  unfoldable pub apply_system_prompt_messages : Object N → SystemPromptOp → Object N
  unfolding rewrite_system
  apply_system_prompt_messages body op = elim (as_items (get "messages" body)) [
    | none ↦ body
    | some ms ↦ elim (rewrite_system op ms) [
      | some ns ↦ put "messages" (arr ns) body
      | none ↦ put "messages" (arr (cons (system_message (mutate_string "" op)) ms)) body
    ]
  ]

  unfoldable pub text_block : String → Value N
  text_block text = obj (field "type" (str "text") (field "text" (str text) end))

  -- The new `system` of a request in Anthropic's protocol.
  unfoldable pub anthropic_system : Option (Value N) → SystemPromptOp → Option (Value N)
  unfolding text_block mutate_string
  anthropic_system (some (arr blocks)) op =
      if not (op.replace == "")
      then some (str op.replace)
      else if not (op.prepend == "")
      then some (arr (cons (text_block op.prepend) blocks))
      else if not (op.append == "")
      then some (arr (blocks +++ cons (text_block op.append) nil))
      else none
  anthropic_system (some (str s)) op = some (str (mutate_string s op))
  anthropic_system _ op = some (str (mutate_string "" op))

  unfoldable pub apply_system_prompt_anthropic : Object N → SystemPromptOp → Object N
  unfolding anthropic_system
  apply_system_prompt_anthropic body op = elim (anthropic_system (get "system" body) op) [
    | none ↦ body
    | some system ↦ put "system" system body
  ]

  unfoldable pub apply_system_prompt : Object N → String → SystemPromptOp → Object N
  unfolding apply_system_prompt_messages apply_system_prompt_anthropic
  apply_system_prompt body protocol op =
      if prompt_zero op
      then body
      else if protocol == "anthropic"
      then apply_system_prompt_anthropic body op
      else apply_system_prompt_messages body op

  not_user :
      (op : SystemPromptOp) (m : Object N)
      → has_role "system" m ≡ true
      → (has_role "user" m ≡ false) × (has_role "user" (mutate_message op m) ≡ false)
  unfolding mutate_message
  not_user op m h =
      let no = (still_system "" m h).0 in
      elim (Option-cases (get "content" m)) [
        | inl e ↦ rw (e, mutate_message) (no, no)
        | inr (str s, e) ↦ rw (e, mutate_message) (still_system (mutate_string s op) m h)
        | inr (null, e) ↦ rw (e, mutate_message) (no, no)
        | inr (bool x, e) ↦ rw (e, mutate_message) (no, no)
        | inr (num x, e) ↦ rw (e, mutate_message) (no, no)
        | inr (int x, e) ↦ rw (e, mutate_message) (no, no)
        | inr (arr x, e) ↦ rw (e, mutate_message) (no, no)
        | inr (obj x, e) ↦ rw (e, mutate_message) (no, no)
      ]

  last_user-rewrite_system :
      (op : SystemPromptOp) (ms ns : Items N)
      → rewrite_system op ms ≡ some ns
      → last_user ns ≡ last_user ms
  unfolding rewrite_system last_user
  last_user-rewrite_system op nil ns e = cc
  last_user-rewrite_system op (cons v vs) ns e =
      let rest = last_user-rewrite_system op vs in
      elim v
          as (λ v. rewrite_system op (cons v vs) ≡ some ns → last_user ns ≡ last_user (cons v vs)) [
            | obj m ↦ λ h. elim (Bool-cases (has_role "system" m)) [
              | inl s ↦
                  let (a, b) = not_user op m s in
                  let same : cons (obj (mutate_message op m)) vs ≡ ns = ground arith in
                  rw (← same) (
                    last_user-head (obj (mutate_message op m)) (obj m) vs vs
                      (rw (a, b, last_user) refl) refl)
              | inr s ↦
                  last_user-kept (obj m) vs (rewrite_system op vs) (rw (s, rewrite_system) at h)
                    rest
            ]
            | _ ↦ λ h. last_user-kept _ vs (rewrite_system op vs) h rest
          ]
        e

  last_user-messages :
      (body : Object N) (op : SystemPromptOp)
      → get_last_user_message (apply_system_prompt_messages body op) ≡ get_last_user_message body
  unfolding get_last_user_message apply_system_prompt_messages
  last_user-messages body op = elim (Option-cases (as_items (get "messages" body))) [
    | inl n ↦ rw (n, apply_system_prompt_messages) refl
    | inr (ms, n) ↦
        let same : items_or_nil (get "messages" body) ≡ ms = as_or_nil (get "messages" body) n in
        elim (Option-cases (rewrite_system op ms)) [
          | inl a ↦
              let first = system_message (mutate_string "" op) in
              let read = get-put "messages" "messages" (arr (cons first ms)) body in
              rw (n, a, apply_system_prompt_messages, read, same)
                (last_user-system (mutate_string "" op) ms)
          | inr (ns, a) ↦
              let read = get-put "messages" "messages" (arr ns) body in
              rw (n, a, apply_system_prompt_messages, read, same)
                (last_user-rewrite_system op ms ns a)
        ]
  ]

  last_user-anthropic :
      (body : Object N) (op : SystemPromptOp)
      → get_last_user_message (apply_system_prompt_anthropic body op) ≡ get_last_user_message body
  unfolding get_last_user_message apply_system_prompt_anthropic
  last_user-anthropic body op = elim (Option-cases (anthropic_system (get "system" body) op)) [
    | inl n ↦ rw (n, apply_system_prompt_anthropic) refl
    | inr (v, n) ↦
        let read = get-put "system" "messages" v body in
        rw (n, apply_system_prompt_anthropic, read) refl
  ]

  -- Rewriting the system prompt, in either protocol, leaves the last message of the user as it is.
  pub get_last_user_message-apply_system_prompt :
      (body : Object N) (protocol : String) (op : SystemPromptOp)
      → get_last_user_message (apply_system_prompt body protocol op) ≡ get_last_user_message body
  unfolding apply_system_prompt
  get_last_user_message-apply_system_prompt body protocol op = elim (Bool-cases (prompt_zero op)) [
    | inl z ↦ rw z refl
    | inr z ↦ elim (Bool-cases (protocol == "anthropic")) [
      | inl a ↦ rw (z, a) (last_user-anthropic body op)
      | inr a ↦ rw (z, a) (last_user-messages body op)
    ]
  ]
