-- ===== src/Proxy/Pipeline/Routing.antt =====
-- How `proxyRequest` (internal/proxy/server.go) chooses a backend for a request.
use llm_proxy.Base.{
  ℕ, not, none, some, String, lookup, if◌then◌else◌, ◌==◌, text_eq, Result, ok, err,
}
use llm_proxy.Base.Int.{pos}
use llm_proxy.Base.Time.{Time}
use llm_proxy.Base.Floats.{Floats}
use llm_proxy.Json.{Object}
use llm_proxy.Config.Types.{GroupConfig}
use llm_proxy.Config.Lookup
use llm_proxy.Config.Lookup.{default_backend, prompt_zero}
use llm_proxy.Router.{Resolution, resolve}
use llm_proxy.Balancer.Group.{Balancer, SelectError, incr, dispatch}
use llm_proxy.Balancer.Group.Pool.{select}
use llm_proxy.Balancer.State.{BackendState}
use llm_proxy.Balancer.Selectors.{RequestContext}
use llm_proxy.Proxy.Defender.{check_defenders}
use llm_proxy.Proxy.Body.{estimate_tokens}
use llm_proxy.Proxy.Pipeline.{
  Server, Request, Stop, refused, answered, crashed, Target, External, Asked, defender_key,
  affinity_key,
}

module _ (Fl : Floats) (ext : External Fl) where
  open Fl use {F}

  -- What follows the choice of a backend: it is counted as in flight.
  unfoldable pub selected :
      Time
      → Resolution F
      → String
      → Object F
      → Server F
      → Result SelectError (BackendState F)
      → Balancer F
      → Result Stop (Target F) × Server F
  selected now res key body s (err _) after =
      (err (refused 503), record s { balancer = some after })
  selected now res key body s (ok st) after = (
    ok (record {
      backend = Lookup.backend s.cfg st.id;
      real_model = res.real_model;
      resolution = some res;
      lb_group = res.group;
      lb_aff_key = key;
      body = body;
    }),
    record s { balancer = some (dispatch now st.id (incr st.id after)) },
  )

  -- The choice of a backend of a group.
  unfoldable pub balance :
      Time
      → Asked
      → Request
      → Resolution F
      → GroupConfig F
      → Object F
      → Balancer F
      → Server F
      → Result Stop (Target F) × Server F
  unfolding affinity_key estimate_tokens selected
  balance now asked r res g body b s =
      let key = affinity_key Fl ext g r body in
      let ctx : RequestContext = record {
        affinity_key = key;
        is_streaming = asked.streaming;
        estimated_size = estimate_tokens body;
        stale_threshold = pos 0;
      } in
      let (chosen, after) = select Fl now res.group key (some ctx) b in
      selected now res key body s chosen after

  -- A request that its route sends on, after the defenders.
  unfoldable pub route_request :
      Time
      → Asked
      → Request
      → Resolution F
      → Object F
      → Server F
      → Result Stop (Target F) × Server F
  unfolding balance
  route_request now asked r res body s =
      let direct : Target F = record {
        backend = some res.backend;
        real_model = res.real_model;
        resolution = some res;
        lb_group = "";
        lb_aff_key = "";
        body = body;
      } in
      if res.group == "" then (ok direct, s) else elim s.balancer [
        | none ↦ (ok direct, s)
        | some b ↦ elim (lookup res.group s.cfg.groups) [
          | none ↦ (err crashed, s)
          | some g ↦ balance now asked r res g body b s
        ]
      ]

  -- From a model's name to a backend.
  unfoldable pub choose_target :
      Time → ℕ → Asked → Request → Object F → Server F → Result Stop (Target F) × Server F
  unfolding route_request defender_key
  choose_target now now_unix asked r body s = elim (resolve s.cfg asked.model body) [
    | err _ ↦
        if not s.cfg.server.passthrough_unrouted
        then (err (refused 404), s)
        else elim (default_backend s.cfg) [
          | none ↦ (err (refused 503), s)
          | some b ↦ (
            ok (record {
              backend = some b;
              real_model = asked.model;
              resolution = none;
              lb_group = "";
              lb_aff_key = "";
              body = body;
            }),
            s,
          )
        ]
    | ok res ↦
        let key = defender_key Fl ext s.cfg r body res.group asked.model in
        let d =
          check_defenders ext.sha_hex ext.sprint_length ext.show s.detector now now_unix s.cfg
            res.route body key in
        let seen : Server F = record s { detector = d.detector } in
        if d.answer.short_circuit
        then (err (answered d.answer.status d.label), seen)
        else route_request now asked r res d.body seen
  ]
