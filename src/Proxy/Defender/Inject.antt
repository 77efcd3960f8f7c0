-- ===== src/Proxy/Defender/Inject.antt =====
-- What the injection of a system message leaves of the other messages.
use Prim.Native.String.{◌++◌}
use llm_proxy.Base.{
  ◌≡◌, refl, ◌∙◌, ap, true, false, Option, none, some, String, map_option, ◌==◌, text_eq, text_iff,
  arith, inl, inr, Option-cases, Bool-cases,
}
use llm_proxy.Json.{
  Value, Items, Object, null, bool, num, int, str, arr, obj, nil, cons, get, put, text_or_empty,
  get-put, as_items, items_or_nil,
}
use llm_proxy.Proxy.Defender.{
  has_role, last_user, get_last_user_message, append_system, system_message, inject_system_message,
}

module _ {N : Type 0} where
  -- Appending to the content of a system message makes no user message of it.
  pub still_system :
      (content : String) (m : Object N)
      → has_role "system" m ≡ true
      → (has_role "user" m ≡ false) × (has_role "user" (put "content" (str content) m) ≡ false)
  still_system content m h =
      let role = (text_iff (text_or_empty (get "role" m)) "system").0 h in
      let no : has_role "user" m ≡ false = ap (λ r. r == "user") role in
      (no, ap (λ r. text_or_empty r == "user") (get-put "content" "role" (str content) m) ∙ no)

  both_none :
      (content : String) (m : Object N)
      → has_role "system" m ≡ true
      → last_user (
          cons
            (obj (put "content" (str (text_or_empty (get "content" m) ++ "\n\n" ++ content)) m))
            nil)
        ≡ last_user (cons (obj m) nil)
  unfolding last_user
  both_none content m s =
      let (a, b) = still_system (text_or_empty (get "content" m) ++ "\n\n" ++ content) m s in
      rw (a, b, last_user) refl

  pub last_user-system :
      (content : String) (ms : Items N)
      → last_user (cons (system_message content) ms) ≡ last_user ms
  unfolding last_user system_message get
  last_user-system content ms = elim (Option-cases (last_user ms)) [
    | inl n ↦ rw (n, last_user) refl
    | inr (m, n) ↦ rw (n, last_user) refl
  ]

  pub as_or_nil : (o : Option (Value N)) {ms : Items N} → as_items o ≡ some ms → items_or_nil o ≡ ms
  as_or_nil (some (arr l)) e = ground arith
  as_or_nil (some null) e = cc
  as_or_nil (some (bool x)) e = cc
  as_or_nil (some (num x)) e = cc
  as_or_nil (some (int x)) e = cc
  as_or_nil (some (str x)) e = cc
  as_or_nil (some (obj x)) e = cc
  as_or_nil none e = cc

  pub last_user-head :
      (v w : Value N) (vs ws : Items N)
      → last_user (cons v nil) ≡ last_user (cons w nil)
      → last_user vs ≡ last_user ws
      → last_user (cons v vs) ≡ last_user (cons w ws)
  unfolding last_user
  last_user-head v w vs ws h t = elim (Option-cases (last_user ws)) [
    | inl n ↦ let n' = t ∙ n in rw (n, n', last_user) h
    | inr (m, n) ↦ let n' = t ∙ n in rw (n, n', last_user) refl
  ]

  -- The step of the induction for a message that is left as it is.
  pub last_user-kept :
      (v : Value N) (vs : Items N) (o : Option (Items N)) {ns : Items N}
      → map_option (cons v) o ≡ some ns
      → ((ws : Items N) → o ≡ some ws → last_user ws ≡ last_user vs)
      → last_user ns ≡ last_user (cons v vs)
  last_user-kept v vs none e rest = cc
  last_user-kept v vs (some ws) {ns = ns} e rest =
      let same : cons v ws ≡ ns = ground arith in
      rw (← same) (last_user-head v v ws vs refl (rest ws refl))

  last_user-append_system :
      (content : String) (ms ns : Items N)
      → append_system content ms ≡ some ns
      → last_user ns ≡ last_user ms
  unfolding append_system
  last_user-append_system content nil ns e = cc
  last_user-append_system content (cons v vs) ns e =
      let rest = last_user-append_system content vs in
      elim v
          as (λ v.
            append_system content (cons v vs) ≡ some ns → last_user ns ≡ last_user (cons v vs)) [
              | obj m ↦ λ h. elim (Bool-cases (has_role "system" m)) [
                | inl s ↦
                    let m' : Object N =
                      put "content" (str (text_or_empty (get "content" m) ++ "\n\n" ++ content))
                        m in
                    let same : cons (obj m') vs ≡ ns = ground arith in
                    rw (← same) (last_user-head (obj m') (obj m) vs vs (both_none content m s) refl)
                | inr s ↦
                    last_user-kept (obj m) vs (append_system content vs)
                      (rw (s, append_system) at h) rest
              ]
              | _ ↦ λ h. last_user-kept _ vs (append_system content vs) h rest
            ]
        e

  -- The injection of a system message leaves the last message of the user, which the loop detector
  -- and the check for content look at, as it is.
  pub get_last_user_message-inject :
      (body : Object N) (content : String)
      → get_last_user_message (inject_system_message body content) ≡ get_last_user_message body
  unfolding get_last_user_message inject_system_message
  get_last_user_message-inject body content = elim (Option-cases (as_items (get "messages" body))) [
    | inl n ↦ rw (n, inject_system_message) refl
    | inr (ms, n) ↦
        let same : items_or_nil (get "messages" body) ≡ ms = as_or_nil (get "messages" body) n in
        elim (Option-cases (append_system content ms)) [
          | inl a ↦
              let read =
                get-put "messages" "messages" (arr (cons (system_message content) ms)) body in
              rw (n, a, inject_system_message, read, same) (last_user-system content ms)
          | inr (ns, a) ↦
              let read = get-put "messages" "messages" (arr ns) body in
              rw (n, a, inject_system_message, read, same) (last_user-append_system content ms ns a)
        ]
  ]
