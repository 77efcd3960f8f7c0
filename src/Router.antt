-- ===== src/Router.antt =====
-- internal/router/router.go: from a virtual model's name to a backend and merged parameters.
pub mod Merge
pub mod Resolve
use Prim.Native.String
use llm_proxy.Base.{
  ℕ, zero, suc, Bool, true, false, ◌||◌, List, [], ◌∷◌, Option, none, some, String, if◌then◌else◌,
  ◌==◌, text_eq, Result, ok, err,
}
use llm_proxy.Json.{
  Value, Items, Object, null, bool, num, int, str, arr, obj, nil, cons, end, field, get, put,
  as_items, items_or_nil,
}
use llm_proxy.Config.Types.{Config, Backend, Route, AutoRoute, SystemPromptOp, HeadersOp}
use llm_proxy.Config.Lookup.{find_backend, find_route, group_backends}

unfoldable pub sampling_keys : String → Bool
sampling_keys k =
    k == "temperature"
    || k == "top_p"
    || k == "top_k"
    || k == "max_tokens"
    || k == "max_completion_tokens"
    || k == "presence_penalty"
    || k == "frequency_penalty"
    || k == "seed"
    || k == "stop"
    || k == "enable_thinking"
    || k == "thinking_budget"

pub data RouteError : Type 0 where
  routing_cycle unknown_model : String → RouteError
  empty_group unknown_backend : String → String → RouteError

pub record Resolution (F : Type 0) : Type 0 where
  pub backend : Backend
  pub route : Option (Route F)
  pub real_model : String
  pub params : Object F
  pub system_prompt : SystemPromptOp
  pub inject : Object F
  pub headers : HeadersOp
  pub group : String

abbrev media_type : String → Bool
media_type t =
    t == "image_url"
    || t == "image"
    || t == "video_url"
    || t == "video"
    || t == "document"
    || t == "file"

module _ {F : Type 0} where
  -- One loop of `mergeParams`: the entries whose key passes the test are written into `out`. Go
  -- visits a map in no order; the model visits it from its end.
  unfoldable pub put_all : (String → Bool) → Object F → Object F → Object F
  put_all p end out = out
  put_all p (field k v m) out = let rest = put_all p m out in if p k then put k v rest else rest

  unfoldable pub merge_params : Object F → Object F → Object F → Object F
  merge_params defaults body clamp =
      put_all (λ _. true) clamp (put_all sampling_keys body (put_all (λ _. true) defaults end))

  unfoldable pub is_media_part : Value F → Bool
  is_media_part (obj part) = elim (get "type" part) [ some (str t) ↦ media_type t | _ ↦ false ]
  is_media_part _ = false

  unfoldable pub has_media : Items F → Bool
  has_media nil = false
  has_media (cons p ps) = is_media_part p || has_media ps

  unfoldable pub is_media_message : Value F → Bool
  is_media_message (obj msg) = elim (as_items (get "content" msg)) [
    | some parts ↦ has_media parts
    | none ↦ false
  ]
  is_media_message _ = false

  unfoldable pub is_multimodal : Items F → Bool
  is_multimodal nil = false
  is_multimodal (cons m ms) = is_media_message m || is_multimodal ms

  -- The model that an auto-route sends a body to.
  unfoldable pub auto_target : AutoRoute → Object F → String
  auto_target a body =
      if is_multimodal (items_or_nil (get "messages" body)) then a.vision else a.text

  -- The backend that a route without auto-routing stands for.
  unfoldable pub route_backend : Config F → String → Route F → Result RouteError Backend
  route_backend c model r =
      if r.backend_group == ""
      then elim (find_backend r.backend c.backends) [
        | none ↦ err (unknown_backend model r.backend)
        | some b ↦ ok b
      ]
      else elim (group_backends c r.backend_group) [
        | [] ↦ err (empty_group model r.backend_group)
        | b ∷ _ ↦ ok b
      ]

  unfoldable pub resolution : String → Object F → Route F → Backend → Resolution F
  resolution model body r b = record {
    backend = b;
    route = some r;
    real_model = if r.real_model == "" then model else r.real_model;
    params = merge_params r.defaults body r.clamp;
    system_prompt = r.system_prompt;
    inject = r.inject;
    headers = r.headers;
    group = r.backend_group;
  }

  -- `resolve` where `left` more routes may be looked up: 2 - depth of the source, so that none are
  -- left where depth > 1.
  unfoldable pub resolve_at : ℕ → Config F → String → Object F → Result RouteError (Resolution F)
  resolve_at zero c model body = err (routing_cycle model)
  resolve_at (suc left) c model body = elim (find_route model c.routes) [
    | none ↦ err (unknown_model model)
    | some r ↦ elim r.auto_route [
      | some a ↦ resolve_at left c (auto_target a body) body
      | none ↦ elim (route_backend c model r) [
        | err e ↦ err e
        | ok b ↦ ok (resolution model body r b)
      ]
    ]
  ]

  unfoldable pub resolve : Config F → String → Object F → Result RouteError (Resolution F)
  unfolding resolve_at
  resolve c model body = resolve_at 2 c model body
