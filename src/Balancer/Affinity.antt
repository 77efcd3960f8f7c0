-- ===== src/Balancer/Affinity.antt =====
-- internal/balancer/affinity_key.go: the key of a session, from the body of one of its requests.
-- `format_hex` is strconv.FormatUint with base 16, and `to_lower` strings.ToLower.
use Prim.Native.String.{◌++◌}
use llm_proxy.Base.{
  ℕ, ◌≡◌, refl, Bool, Option, none, some, String, length, take, if◌then◌else◌, ltb, ◌==◌, text_eq,
  arith, inl, inr, Bool-cases,
}
use llm_proxy.Base.Text.{bytes, trim_space}
use llm_proxy.Balancer.Hash.{fnv64a}
use llm_proxy.Json.{
  Items, Object, str, arr, obj, nil, cons, get, text_or_empty, items_or_nil, ◌+++◌,
}

module _ {N : Type 0} where
  abbrev is_user : Object N → Bool
  is_user m = text_or_empty (get "role" m) == "user"

  -- The first message of the user.
  unfoldable pub first_user : Items N → Option (Object N)
  first_user nil = none
  first_user (cons v vs) =
      let rest = first_user vs in elim v [ obj m ↦ if is_user m then some m else rest | _ ↦ rest ]

  unfoldable pub text_parts : Items N → String
  text_parts nil = ""
  text_parts (cons v vs) =
      let rest = text_parts vs in
      elim v [
        | obj part ↦
            if text_or_empty (get "type" part) == "text"
            then text_or_empty (get "text" part) ++ rest
            else rest
        | _ ↦ rest
      ]

  unfoldable pub stringify_content : Object N → String
  unfolding text_parts
  stringify_content m = elim (get "content" m) [
    | some (str s) ↦ s
    | some (arr ps) ↦ text_parts ps
    | _ ↦ ""
  ]

  module _ (format_hex : ℕ → String) where
    unfoldable pub content_key : ℕ → Object N → String
    unfolding stringify_content fnv64a
    content_key max_bytes m =
        let content = bytes (stringify_content m) in
        format_hex
          (fnv64a (if ltb max_bytes (length content) then take max_bytes content else content))

    unfoldable pub first_user_message_key : Object N → ℕ → String
    unfolding first_user content_key
    first_user_message_key body max_bytes = elim (first_user (items_or_nil (get "messages" body))) [
      | none ↦ ""
      | some m ↦ content_key max_bytes m
    ]

  first_user-append :
      (ms more : Items N) {m : Object N}
      → first_user ms ≡ some m
      → first_user (ms +++ more) ≡ some m
  unfolding first_user ◌+++◌
  first_user-append nil more e = cc
  first_user-append (cons v vs) more {m = u} e =
      elim v
          as (λ v. first_user (cons v vs) ≡ some u → first_user (cons v (vs +++ more)) ≡ some u) [
            | obj m ↦ λ h. elim (Bool-cases (is_user m)) [
              | inl q ↦ ground arith
              | inr q ↦ let k = first_user-append vs more {m = u} (ground arith) in ground arith
            ]
            | _ ↦ λ h. first_user-append vs more h
          ]
        e

  -- The key of a session stays the same over its turns: whatever messages are appended to a body
  -- that has a message of the user, and whatever else of the body changes, the key is that of the
  -- first request.
  pub first_user_message_key-append :
      (format_hex : ℕ → String) (body body' : Object N) (ms more : Items N) (max_bytes : ℕ)
      (m : Object N)
      → get "messages" body ≡ some (arr ms)
      → get "messages" body' ≡ some (arr (ms +++ more))
      → first_user ms ≡ some m
      → first_user_message_key format_hex body' max_bytes
        ≡ first_user_message_key format_hex body max_bytes
  unfolding first_user_message_key
  first_user_message_key-append format_hex body body' ms more max_bytes m e e' u =
      rw (e, e', u, first_user-append ms more u, first_user_message_key) refl

unfoldable pub header_affinity_key : (String → String) → String → String
header_affinity_key to_lower value = trim_space (to_lower value)
