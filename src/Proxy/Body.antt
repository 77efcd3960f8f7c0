-- ===== src/Proxy/Body.antt =====
-- How internal/proxy/server.go rewrites the decoded body of a request. A map of the configuration
-- that gets into a body is copied here; the code shares it.
pub mod Merge
pub mod Translate
pub mod Prompt
pub mod Options
use llm_proxy.Base.{
  ℕ, ◌+◌, ◌/◌, Bool, true, false, not, ◌&&◌, ◌||◌, Option, none, some, String, length,
  if◌then◌else◌, ◌==◌, text_eq,
}
use llm_proxy.Base.Text.{bytes, trim_space}
use llm_proxy.Config.Types.{Config, Route, Backend}
use llm_proxy.Config.Lookup.{should_drop_empty_content}
use llm_proxy.Router.{put_all}
use llm_proxy.Proxy.Stream.{object_or_nil}
use llm_proxy.Json.{
  Value, Items, Object, null, bool, num, int, str, arr, obj, nil, cons, end, field, get, put, drop,
  text_or_empty, items_or_nil,
}

module _ {N : Type 0} where
  -- _, ok := v.(map[string]interface{})
  abbrev pub is_object : Option (Value N) → Bool
  is_object (some (obj m)) = true
  is_object _ = false

  -- `deepMergeInto`, with what it leaves in `dst`. Go visits a map in no order; the model visits it
  -- from its end.
  unfoldable pub deep_merge_into : Object N → Object N → Object N
  deep_merge_into dst end = dst
  deep_merge_into dst (field k (obj src) m) =
      let rest = deep_merge_into dst m in
      let merged = deep_merge_into (object_or_nil (get k rest)) src in
      put k (obj (if is_object (get k rest) then merged else src)) rest
  deep_merge_into dst (field k v m) = put k v (deep_merge_into dst m)

  -- Whether a content has no text; the code asks the parts of a content for "content".
  unfoldable pub no_text : Items N → Bool
  no_text nil = true
  no_text (cons (obj p) ps) =
      let later = no_text ps in
      let text = text_or_empty (get "content" p) in
      if text_or_empty (get "type" p) == "text" && not (trim_space text == "") then false else later
  no_text (cons _ ps) = no_text ps

  unfoldable pub is_empty_content : Option (Value N) → Bool
  unfolding no_text
  is_empty_content none = true
  is_empty_content (some null) = true
  is_empty_content (some (str s)) = trim_space s == ""
  is_empty_content (some (arr parts)) = no_text parts
  is_empty_content (some _) = false

  unfoldable pub has_empty_message : Items N → Bool
  unfolding is_empty_content
  has_empty_message nil = false
  has_empty_message (cons (obj m) ms) = is_empty_content (get "content" m) || has_empty_message ms
  has_empty_message (cons _ ms) = has_empty_message ms

  -- `checkEmptyMessages`: whether the request is refused.
  unfoldable pub check_empty_messages :
      Config N → Option (Route N) → Option Backend → Object N → Bool
  unfolding has_empty_message
  check_empty_messages cfg route backend body =
      should_drop_empty_content cfg route backend
      && has_empty_message (items_or_nil (get "messages" body))

  unfoldable pub part_bytes : Items N → ℕ
  part_bytes nil = 0
  part_bytes (cons (obj p) ps) =
      let later = part_bytes ps in
      if text_or_empty (get "type" p) == "text"
      then length (bytes (text_or_empty (get "text" p))) + later
      else later
  part_bytes (cons _ ps) = part_bytes ps

  abbrev pub content_bytes : Option (Value N) → ℕ
  content_bytes (some (str s)) = length (bytes s)
  content_bytes (some (arr parts)) = part_bytes parts
  content_bytes _ = 0

  unfoldable pub messages_bytes : Items N → ℕ
  unfolding part_bytes
  messages_bytes nil = 0
  messages_bytes (cons (obj m) ms) = content_bytes (get "content" m) + messages_bytes ms
  messages_bytes (cons _ ms) = messages_bytes ms

  unfoldable pub estimate_tokens : Object N → ℕ
  unfolding messages_bytes
  estimate_tokens body = messages_bytes (items_or_nil (get "messages" body)) / 4

  -- The resolved parameters written into the body, where `max_tokens` then stands alone.
  unfoldable pub apply_params : Object N → Object N → Object N
  apply_params params body =
      let merged = put_all (λ _. true) params body in
      elim (get "max_tokens" merged) [
        | none ↦ merged
        | some _ ↦ drop "max_completion_tokens" merged
      ]
