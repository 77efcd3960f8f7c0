-- ===== src/Proxy/Defender.antt =====
-- internal/proxy/defender.go: loop detection and zero-content detection. The loop detector's lock
-- makes each check one step. `sha_hex` is the hex digest of crypto/sha256 on bytes, `sprint_length`
-- the length of what fmt.Sprint prints of a list, and `show` how fmt prints an integer.
pub mod Loop
pub mod Escalation
pub mod Repeats
pub mod Inject
use Prim.Native.String.{◌++◌}
use llm_proxy.Base.{
  ℕ, zero, suc, ◌+◌, ◌/◌, Bool, true, false, not, ◌&&◌, List, Option, none, some, String, length,
  map_option, if◌then◌else◌, ◌==◌, text_eq,
}
use llm_proxy.Base.Int.{ℤ, pos, int_leb, is_zero}
use llm_proxy.Base.Time.{Time}
use llm_proxy.Base.Text.{bytes, trim_space}
use llm_proxy.Json.{
  Value, Items, Object, null, bool, num, int, str, arr, obj, nil, cons, end, field, get, put,
  as_text, as_items, as_object, text_or_empty, items_or_nil,
}
use llm_proxy.Config.Types.{Config, Route, ZeroContentDetectionConfig}
use llm_proxy.Config.Cascade.{get_zero_content_detection, get_loop_detection}
use Loop.{Detector, Verdict, check_loop, get_entry}

-- What a defender answers: whether the request ends here, the status and the body.
pub record Answer : Type 0 where
  pub short_circuit : Bool
  pub status : ℕ
  pub response : String

unfoldable pub pass : Answer
pass = record { short_circuit = false; status = 0; response = "" }

module _ {N : Type 0} where
  abbrev pub has_role : String → Object N → Bool
  has_role role m = text_or_empty (get "role" m) == role

  -- The walk back from the end of the messages.
  unfoldable pub last_user : Items N → Option (Object N)
  last_user nil = none
  last_user (cons v vs) = elim (last_user vs) [
    | some m ↦ some m
    | none ↦ elim v [ obj m ↦ if has_role "user" m then some m else none | _ ↦ none ]
  ]

  unfoldable pub get_last_user_message : Object N → Option (Object N)
  unfolding last_user
  get_last_user_message body = last_user (items_or_nil (get "messages" body))

  unfoldable pub get_message_content : Object N → String
  get_message_content m = text_or_empty (get "content" m)

  -- The bytes of the contents that are texts, and of the printed tool calls.
  unfoldable pub total_bytes : (Items N → ℕ) → Items N → ℕ
  total_bytes sprint_length nil = 0
  total_bytes sprint_length (cons v vs) =
      let rest = total_bytes sprint_length vs in
      elim v [ obj m ↦ message_bytes m + rest | _ ↦ rest ]
    where
      calls : Option (Items N) → ℕ
      calls none = 0
      calls (some tc) = sprint_length tc

      message_bytes : Object N → ℕ
      message_bytes m =
          length (bytes (text_or_empty (get "content" m))) + calls (as_items (get "tool_calls" m))

  unfoldable pub check_zero_content : (Items N → ℕ) → Object N → ZeroContentDetectionConfig → Bool
  check_zero_content sprint_length body cfg =
      if not cfg.enabled then false else elim (get_last_user_message body) [
        | none ↦ false
        | some m ↦
            let stripped = length (bytes (trim_space (get_message_content m))) in
            let total = total_bytes sprint_length (items_or_nil (get "messages" body)) in
            if int_leb cfg.min_user_content_chars (pos stripped)
            then false
            else int_leb
                (if is_zero cfg.min_total_input_tokens
                  then pos 2000
                  else cfg.min_total_input_tokens)
                (pos (total / 4))
      ]

  unfoldable pub system_message : String → Value N
  system_message content = obj (field "role" (str "system") (field "content" (str content) end))

  -- The first system message with the text appended, or `none` if there is none.
  unfoldable pub append_system : String → Items N → Option (Items N)
  append_system content nil = none
  append_system content (cons v vs) =
      let rest = map_option (cons v) (append_system content vs) in
      elim v [
        | obj m ↦
            if has_role "system" m
            then some (
                cons
                  (obj
                    (put "content" (str (text_or_empty (get "content" m) ++ "\n\n" ++ content)) m))
                  vs)
            else rest
        | _ ↦ rest
      ]

  unfoldable pub inject_system_message : Object N → String → Object N
  inject_system_message body content = elim (as_items (get "messages" body)) [
    | none ↦ body
    | some ms ↦ elim (append_system content ms) [
      | some ns ↦ put "messages" (arr ns) body
      | none ↦ put "messages" (arr (cons (system_message content) ms)) body
    ]
  ]

  unfoldable pub apply_loop_detected : (ℤ → String) → String → ℤ → Object N → Answer × Object N
  apply_loop_detected show action count body =
      if action == "refuse_429"
      then (
        record {
          short_circuit = true;
          status = 429;
          response =
              "{\"error\":{\"message\":\"loop detected: same request repeated "
              ++ show count
              ++ " times. Stop retrying.\",\"type\":\"defender\"},\"code\":429}";
        },
        body,
      )
      else if action == "inject_forcing_message"
      then (
        pass,
        inject_system_message body (
            "Your previous "
            ++ show count
            ++ " attempts of this exact request returned the same result. Stop retrying. Either fix the underlying issue (e.g. read the tool's error output and address it directly) or stop and surface to the human."),
      )
      else (pass, body)

-- `now_unix` is time.Now().Unix().
unfoldable pub apply_zero_content : (ℤ → String) → ℕ → String → Answer
apply_zero_content show now_unix action =
    if action == "refuse_400"
    then record {
      short_circuit = true;
      status = 400;
      response =
          "{\"error\":{\"message\":\"request blocked: minimal user content in a large payload. Add meaningful content or reduce system/tool overhead.\",\"type\":\"defender\"},\"code\":400}";
    }
    else if action == "inject_minimal_response"
    then record {
      short_circuit = true;
      status = 200;
      response =
          "{\"id\":\"def-zero-content\",\"object\":\"chat.completion\",\"created\":"
          ++ show (pos now_unix)
          ++ ",\"model\":\"\",\"choices\":[{\"index\":0,\"message\":{\"role\":\"assistant\",\"content\":\"\"},\"finish_reason\":\"length\"}]}";
    }
    else pass

-- The answer, the header's label, the detector after the check and the body as it goes on.
pub record Defence (N : Type 0) : Type 0 where
  pub answer : Answer
  pub label : String
  pub detector : Detector
  pub body : Object N

module _ {N : Type 0} (sha_hex : List ℕ → String) (sprint_length : Items N → ℕ)
    (show : ℤ → String) where
  unfoldable pub defend_loop :
      Detector → Time → Config N → Option (Route N) → Object N → String → Defence N
  defend_loop ld now cfg route body affinity_key = elim (get_last_user_message body) [
    | none ↦ record { answer = pass; label = ""; detector = ld; body = body }
    | some m ↦
        let hash = sha_hex (bytes (get_message_content m)) in
        let (verdict, after) =
          check_loop sha_hex now affinity_key hash (get_loop_detection cfg route) ld in
        if not verdict.detected
        then record { answer = pass; label = ""; detector = after; body = body }
        else elim (get_entry sha_hex after affinity_key hash) [
          | none ↦ record { answer = pass; label = ""; detector = after; body = body }
          | some e ↦
              let (answer, sent) = apply_loop_detected show verdict.action e.count body in
              record {
                answer = answer;
                label =
                    if verdict.escalated
                    then "loop_detection_escalated"
                    else "loop_detection_inject";
                detector = after;
                body = sent;
              }
        ]
  ]

  unfoldable pub check_defenders :
      Detector → Time → ℕ → Config N → Option (Route N) → Object N → String → Defence N
  check_defenders ld now now_unix cfg route body affinity_key =
      let zero_cfg = get_zero_content_detection cfg route in
      let blocked = apply_zero_content show now_unix zero_cfg.action in
      if check_zero_content sprint_length body zero_cfg && blocked.short_circuit
      then record { answer = blocked; label = "zero_content_blocked"; detector = ld; body = body }
      else defend_loop ld now cfg route body affinity_key
