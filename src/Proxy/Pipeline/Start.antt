-- ===== src/Proxy/Pipeline/Start.antt =====
-- The rest of `proxyRequest` (internal/proxy/server.go) up to the reverse proxy: the body that goes
-- out, and what the request takes of the server.
use llm_proxy.Base.{
  ℕ, Bool, not, ◌&&◌, ltb, List, [], ◌++◌, Option, none, some, String, length, if◌then◌else◌, ◌==◌,
  text_eq, Result, ok, err,
}
use llm_proxy.Base.Int.{pos, negsuc, ◌+ℤ◌}
use llm_proxy.Base.Time.{Time}
use llm_proxy.Base.Floats.{Floats}
use llm_proxy.Json.{Object, end, str, get, put, is_true, text_or_empty}
use llm_proxy.Config.Types.{Backend, Route}
use llm_proxy.Router.{Resolution}
use llm_proxy.Proxy.Body.{deep_merge_into, check_empty_messages, apply_params}
use llm_proxy.Proxy.Body.Translate.{translate_params}
use llm_proxy.Proxy.Body.Prompt.{apply_system_prompt}
use llm_proxy.Proxy.Body.Options.{flatten_options, injected_keys, nest_options, keys}
use llm_proxy.Proxy.Pipeline.{
  Server, Request, Stop, refused, crashed, Target, Forwarded, External, Asked, acquire_semaphore,
  detect_protocol, decode,
}
use llm_proxy.Proxy.Pipeline.Routing.{choose_target}

module _ (Fl : Floats) (ext : External Fl) where
  open Fl use {F}

  abbrev params_of : Option (Resolution F) → Object F → Object F
  params_of (some res) body = apply_params res.params body
  params_of none body = body

  abbrev route_of : Option (Resolution F) → Option (Route F)
  route_of (some res) = res.route
  route_of none = none

  -- The body as it is checked for empty messages.
  unfoldable pub addressed : Target F → Object F
  unfolding apply_params
  addressed t = put "model" (str t.real_model) (params_of t.resolution t.body)

  -- The system prompt and the body that the route injects.
  abbrev injected : Asked → Option (Resolution F) → Object F → Object F
  injected asked (some res) body =
      deep_merge_into (apply_system_prompt body asked.protocol res.system_prompt) res.inject
  injected asked none body = body

  -- The keys that go under Ollama's options.
  abbrev nested_keys : List String → Option (Resolution F) → Object F → List String
  nested_keys flat (some res) body = flat ++ keys res.params ++ injected_keys res.inject body
  nested_keys flat none body = flat

  -- The body as it goes to a backend.
  unfoldable pub rewrite_body : Asked → List String → Target F → Backend → Object F
  unfolding apply_system_prompt deep_merge_into translate_params nest_options addressed
  rewrite_body asked flat t backend =
      let body = injected asked t.resolution (addressed t) in
      let sent = translate_params Fl ext.to_int body backend asked.streaming in
      let nested = nested_keys flat t.resolution body in
      if asked.protocol == "ollama" && ltb 0 (length nested) then nest_options nested sent else sent

  -- From the target to the request's body, encoded.
  unfoldable pub encode_request : Asked → List String → Target F → Server F → Result Stop Forwarded
  unfolding addressed rewrite_body
  encode_request asked flat t s =
      if check_empty_messages s.cfg (route_of t.resolution) t.backend (addressed t)
      then err (refused 400)
      else elim t.backend [
        | none ↦ err crashed
        | some backend ↦ elim (ext.marshal (rewrite_body asked flat t backend)) [
          | none ↦ err (refused 500)
          | some encoded ↦ ok (record {
            backend = backend;
            lb_group = t.lb_group;
            lb_aff_key = t.lb_aff_key;
            streaming = asked.streaming;
            encoded = encoded;
          })
        ]
      ]

  -- The body's bytes, the URL and the count of active requests: what comes before the semaphore.
  unfoldable pub admit : Forwarded → Server F → Result Stop Forwarded × Server F
  admit f s =
      let held : Server F = record s {
        buffered_bytes = s.buffered_bytes +ℤ pos (length f.encoded);
      } in
      if not (ext.is_url f.backend.base_url)
      then (err (refused 500), held)
      else (ok f, record held { active_requests = s.active_requests +ℤ pos 1 })

  -- A request whose context ends while it waits for a slot.
  unfoldable pub give_up : Server F → Server F
  give_up s = record s { active_requests = s.active_requests +ℤ negsuc 0 }

  -- The semaphore: `turn` says that the request gets a slot before its context ends.
  unfoldable pub wait_slot : Bool → Forwarded → Server F → Result Stop Forwarded × Server F
  unfolding acquire_semaphore give_up
  wait_slot turn f s = elim (acquire_semaphore turn f.backend.id s.semaphores) [
    | none ↦ (err (refused 503), give_up s)
    | some sems ↦ (ok f, record s { semaphores = sems })
  ]

  unfoldable pub asked_of : Request → Object F → Asked
  asked_of r body = record {
    protocol = if r.protocol == "" then detect_protocol r else r.protocol;
    model = text_or_empty (get "model" body);
    streaming = is_true (get "stream" body);
  }

  abbrev pub body_or_nil : Option (Object F) → Object F
  body_or_nil none = end
  body_or_nil (some body) = body

  -- What follows the choice of a target, which writes to the body.
  unfoldable pub continue :
      Option (Object F)
      → Asked
      → List String
      → Result Stop (Target F) × Server F
      → Result Stop Forwarded × Server F
  unfolding encode_request
  continue decoded asked flat (err stop, s) = (err stop, s)
  continue none asked flat (ok t, s) = (err crashed, s)
  continue (some _) asked flat (ok t, s) = (encode_request asked flat t s, s)

  -- `proxyRequest` up to the encoded body.
  unfoldable pub prepare : Time → ℕ → Request → Server F → Result Stop Forwarded × Server F
  unfolding choose_target continue asked_of
  prepare now now_unix r s = elim (decode Fl ext r) [
    | err stop ↦ (err stop, s)
    | ok decoded ↦
        let body = body_or_nil decoded in
        let asked = asked_of r body in
        let (flattened, flat) =
          if asked.protocol == "ollama" then flatten_options body else (body, []) in
        continue decoded asked flat (choose_target Fl ext now now_unix asked r flattened s)
  ]

  abbrev pub and_then :
      (Forwarded → Server F → Result Stop Forwarded × Server F)
      → Result Stop Forwarded × Server F
      → Result Stop Forwarded × Server F
  and_then next (err stop, s) = (err stop, s)
  and_then next (ok f, s) = next f s

  -- `proxyRequest` up to the reverse proxy, for a request that does not meet others on its way.
  unfoldable pub proxy_request :
      Time → ℕ → Bool → Request → Server F → Result Stop Forwarded × Server F
  unfolding prepare admit wait_slot
  proxy_request now now_unix turn r s =
      and_then (wait_slot turn) (and_then admit (prepare now now_unix r s))
