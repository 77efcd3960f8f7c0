-- ===== src/Proxy/Pipeline.antt =====
-- `proxyRequest` of internal/proxy/server.go up to the hand-over to httputil.ReverseProxy: where a
-- request goes, how its body is rewritten, what it takes of the server, and where it is refused.
-- Logging, the journal, the debug capture and the response's headers are left out.
--
-- `External` holds the code that is not the repository's: the hashes and printers of the packages
-- modelled before, encoding/json and net/url.
pub mod Routing
pub mod Start
pub mod Finish
pub mod Reload
pub mod Accounts
pub mod Live
pub mod Fresh
pub mod System
pub mod Taken
pub mod Kept
pub mod Initial
use llm_proxy.Base.{
  ℕ, zero, suc, ◌+◌, Bool, true, false, not, ◌&&◌, ◌||◌, List, [], ◌∷◌, ◌++◌, Option, none, some,
  String, Map, lookup, insert, length, ltb, if◌then◌else◌, ◌==◌, text_eq, number_eq, Result, ok,
  err, ◌>>=◌,
}
use Prim.Native.Char.{code}
use llm_proxy.Base.Int.{ℤ, pos, negsuc, ◌+ℤ◌, is_pos, pos_part}
use llm_proxy.Base.Time.{Time}
use llm_proxy.Base.Text.{bytes}
use llm_proxy.Base.Floats.{Floats}
use llm_proxy.Json.{Value, Items, Object, str, get, put, is_true, text_or_empty, as_text}
use llm_proxy.Config.Types.{Config, Backend, Route, GroupConfig, HeadersOp}
use llm_proxy.Config.Lookup
use llm_proxy.Config.Lookup.{default_backend, prompt_zero}
use llm_proxy.Router.{Resolution, RouteError, resolve}
use llm_proxy.Balancer.Affinity.{first_user_message_key, header_affinity_key}
use llm_proxy.Balancer.Group.{Balancer, SelectError, incr, dispatch}
use llm_proxy.Balancer.Group.Pool.{select}
use llm_proxy.Balancer.State.{BackendState}
use llm_proxy.Balancer.Selectors.{RequestContext}
use llm_proxy.Proxy.Defender.{Answer, Defence, check_defenders}
use llm_proxy.Proxy.Defender.Loop.{Detector}
use llm_proxy.Proxy.Body.{deep_merge_into, check_empty_messages, estimate_tokens, apply_params}
use llm_proxy.Proxy.Body.Translate.{translate_params}
use llm_proxy.Proxy.Body.Prompt.{apply_system_prompt}
use llm_proxy.Proxy.Body.Options.{flatten_options, injected_keys, nest_options, keys}

-- A channel that limits the requests to one backend: its capacity, and the slots that are taken.
pub record Semaphore : Type 0 where
  pub capacity : ℕ
  pub held : ℕ

unfoldable pub fill_semaphores : List Backend → Map Semaphore → Map Semaphore
fill_semaphores [] sems = sems
fill_semaphores (b ∷ bs) sems = fill_semaphores bs (
    if is_pos b.max_concurrency
    then insert b.id (record { capacity = pos_part b.max_concurrency; held = 0 }) sems
    else sems)

unfoldable pub build_semaphores : List Backend → Map Semaphore
unfolding fill_semaphores
build_semaphores backends = fill_semaphores backends []

-- `acquireSemaphore`: `turn` says that the request gets a slot before its context ends.
unfoldable pub acquire_semaphore : Bool → String → Map Semaphore → Option (Map Semaphore)
acquire_semaphore turn id sems = elim (lookup id sems) [
  | none ↦ some sems
  | some sem ↦ if turn then some (insert id (record sem { held = sem.held + 1 }) sems) else none
]

-- What a request uses of the server's state. `balancer` is absent when no groups are configured.
pub record Server (F : Type 0) : Type 0 where
  pub version : String
  pub build_mode : String
  pub cfg : Config F
  pub balancer : Option (Balancer F)
  pub detector : Detector
  pub semaphores : Map Semaphore
  pub buffered_bytes : ℤ
  pub active_requests : ℤ

-- Why io.ReadAll of the capped body failed.
pub data ReadError : Type 0 where
  too_large broken : ReadError

-- A POST request; `header` is http.Header.Get.
pub record Request : Type 0 where
  pub raw : Result ReadError (List ℕ)
  pub path : String
  pub header : String → String
  pub protocol : String

-- How a request ends here: an error with a status, a defender's answer with its label, or a panic of
-- the handler on a nil pointer or a nil map.
pub data Stop : Type 0 where
  refused : ℕ → Stop
  answered : ℕ → String → Stop
  crashed : Stop

-- Where a request goes. The resolution is absent in passthrough mode, and the backend when the
-- configuration does not have the one that the balancer chose.
pub record Target (F : Type 0) : Type 0 where
  pub backend : Option Backend
  pub real_model : String
  pub resolution : Option (Resolution F)
  pub lb_group : String
  pub lb_aff_key : String
  pub body : Object F

-- What a request's name and body say before they are rewritten.
pub record Asked : Type 0 where
  pub protocol : String
  pub model : String
  pub streaming : Bool

-- What the closures of the reverse proxy hold; `encoded` is the body that goes out.
pub record Forwarded : Type 0 where
  pub backend : Backend
  pub lb_group : String
  pub lb_aff_key : String
  pub streaming : Bool
  pub encoded : List ℕ

-- strings.HasSuffix
unfoldable pub has_suffix : String → String → Bool
has_suffix String.[] t = t == ""
has_suffix (String.◌∷◌ c s) t = (String.◌∷◌ c s == t) || has_suffix s t

unfoldable pub strip : String → String → Option String
strip String.[] s = some s
strip (String.◌∷◌ c p) String.[] = none
strip (String.◌∷◌ c p) (String.◌∷◌ d s) =
    let rest = strip p s in if code c == code d then rest else none

-- strings.TrimPrefix(s, p)
abbrev trim_prefix : String → String → String
trim_prefix s p = elim (strip p s) [ some rest ↦ rest | none ↦ s ]

unfoldable pub detect_protocol : Request → String
unfolding has_suffix
detect_protocol r =
    if has_suffix r.path "/messages" || not (r.header "anthropic-version" == "")
    then "anthropic"
    else "openai"

pub record External (Fl : Floats) : Type 0 where
  pub sha_hex : List ℕ → String
  pub sprint_length : Items Fl.F → ℕ
  pub show : ℤ → String
  pub format_hex : ℕ → String
  pub to_lower : String → String
  pub to_int : Fl.F → ℤ
  pub unmarshal : List ℕ → Option (Option (Object Fl.F))
  pub marshal : Object Fl.F → Option (List ℕ)
  pub is_url : String → Bool

module _ (Fl : Floats) (ext : External Fl) where
  open Fl use {F}

  -- The body of a request, none for Go's nil map.
  unfoldable pub decode : Request → Result Stop (Option (Object F))
  decode r = elim r.raw [
    | err too_large ↦ err (refused 413)
    | err broken ↦ err (refused 400)
    | ok raw ↦ elim (ext.unmarshal raw) [ none ↦ err (refused 400) | some body ↦ ok body ]
  ]

  -- The identity that the loop detector counts by.
  unfoldable pub defender_key : Config F → Request → Object F → String → String → String
  unfolding first_user_message_key header_affinity_key strip
  defender_key cfg r body group model =
      let none_left : String → String = λ k. if k == "" then model else k in
      elim (lookup group cfg.groups) [
        | none ↦ model
        | some g ↦
            if group == ""
            then model
            else if g.affinity.key == "first_user_message"
            then none_left
                (first_user_message_key ext.format_hex body (pos_part g.affinity.max_content_bytes))
            else none_left
                (header_affinity_key ext.to_lower (r.header (trim_prefix g.affinity.key "header:")))
      ]

  unfoldable pub affinity_key : GroupConfig F → Request → Object F → String
  unfolding first_user_message_key header_affinity_key strip
  affinity_key g r body =
      if g.affinity.key == "none"
      then ""
      else if g.affinity.key == "first_user_message"
      then first_user_message_key ext.format_hex body (pos_part g.affinity.max_content_bytes)
      else header_affinity_key ext.to_lower (r.header (trim_prefix g.affinity.key "header:"))
