-- ===== src/Balancer/Group.antt =====
-- internal/balancer/balancer.go: the groups, the pool that a request is chosen from, and what
-- requests and probes do to the states. Go's maps of groups and of states are lists here, visited in
-- the list's order; `New` fills both. The mutexes make each step atomic; a step reads the clock once.
pub mod Lookup
pub mod Pool
pub mod Account
pub mod Loops
pub mod Probe
pub mod Failover
use llm_proxy.Base.{
  ℕ, zero, suc, ◌+◌, ◌*◌, Bool, true, false, not, ◌&&◌, List, [], ◌∷◌, map, Option, none, some,
  String, Map, Result, ok, err, take, keep, length, ltb, if◌then◌else◌, ◌==◌, text_eq,
}
use llm_proxy.Base.Int.{ℤ, pos, negsuc, ◌+ℤ◌, is_pos, is_zero, int_ltb, pos_part}
use llm_proxy.Base.Time.{Time, Duration, nanos, seconds, since}
use llm_proxy.Config.Types.{Config, Backend, GroupConfig}
use llm_proxy.Config.Lookup.{group_backends, get_stale_threshold}
use llm_proxy.Config.Cascade.{get_flow_window_duration}
use llm_proxy.Balancer.Flow
use llm_proxy.Balancer.State.{
  BackendState, new_backend_state, set_healthy, record_failure, record_request_outcome,
  should_retry, update_metrics, record_dispatch_failure,
}
use llm_proxy.Balancer.Selectors.{
  Selector, RequestContext, sticky, new_selector, find_by_id, select,
}
use llm_proxy.Balancer.Store
use llm_proxy.Balancer.Store.{new_in_memory_store}

pub record Group (F : Type 0) : Type 0 where
  pub name : String
  pub cfg : GroupConfig F
  pub selector : Selector F
  pub states : List (BackendState F)

abbrev pub Balancer : Type 0 → Type 0
Balancer F = List (Group F)

pub data SelectError : Type 0 where
  unknown_group : String → SelectError
  no_healthy_backend : SelectError

module _ {F : Type 0} where
  -- grp.States[id] = f(grp.States[id]), if the id is there
  unfoldable pub update_state :
      String → (BackendState F → BackendState F) → List (BackendState F) → List (BackendState F)
  update_state id f [] = []
  update_state id f (s ∷ ss) = if s.id == id then f s ∷ ss else s ∷ update_state id f ss

  unfoldable pub find_group : String → Balancer F → Option (Group F)
  find_group name [] = none
  find_group name (g ∷ gs) = if g.name == name then some g else find_group name gs

  -- A loop over the groups that stops at the first which has the backend.
  unfoldable pub update_first : String → (BackendState F → BackendState F) → Balancer F → Balancer F
  unfolding update_state
  update_first id f [] = []
  update_first id f (g ∷ gs) = elim (find_by_id g.states id) [
    | some _ ↦ record g { states = update_state id f g.states } ∷ gs
    | none ↦ g ∷ update_first id f gs
  ]

  -- A loop over all groups that have the backend.
  unfoldable pub update_each :
      String → (Group F → BackendState F → BackendState F) → Balancer F → Balancer F
  unfolding update_state
  update_each id f [] = []
  update_each id f (g ∷ gs) =
      record g { states = update_state id (f g) g.states } ∷ update_each id f gs

  unfoldable pub find_state : Balancer F → String → Option (BackendState F)
  find_state [] id = none
  find_state (g ∷ gs) id = elim (find_by_id g.states id) [
    | some s ↦ some s
    | none ↦ find_state gs id
  ]

  unfoldable pub incr : String → Balancer F → Balancer F
  unfolding update_first
  incr id b = update_first id (λ s. record s { in_flight = s.in_flight +ℤ pos 1 }) b

  unfoldable pub decr : String → Balancer F → Balancer F
  unfolding update_first
  decr id b = update_first id (λ s. record s { in_flight = s.in_flight +ℤ negsuc 0 }) b

  unfoldable pub dispatch : Time → String → Balancer F → Balancer F
  unfolding update_first
  dispatch now id b = update_first id (λ s. record s { flow = Flow.dispatch now s.flow }) b

  unfoldable pub complete : Time → String → Bool → Bool → Balancer F → Balancer F
  unfolding update_first
  complete now id success timed_out b =
      update_first id (λ s. record s { flow = Flow.complete now success timed_out s.flow }) b

  -- `recordRequestOutcome`
  unfoldable pub record_outcome : Time → String → Bool → Balancer F → Balancer F
  unfolding update_each
  record_outcome now id success b =
      update_each id (λ g s. record_request_outcome now success (pos 3) (pos 0) s) b

  unfoldable pub complete_and_decr : Time → String → Bool → Bool → Balancer F → Balancer F
  complete_and_decr now id success timed_out b =
      let c = decr id (complete now id success timed_out b) in
      if timed_out then c else record_outcome now id success c

  unfoldable pub is_backend_healthy : Balancer F → String → Bool
  is_backend_healthy b id = elim (find_state b id) [ some s ↦ s.healthy | none ↦ false ]

  unfoldable pub should_retry_backend : Time → Balancer F → String → ℤ → Bool
  should_retry_backend now b id delay = elim (find_state b id) [
    | some s ↦ should_retry now delay s
    | none ↦ true
  ]

  unfoldable pub sum_in_flight : List (BackendState F) → ℤ
  sum_in_flight [] = pos 0
  sum_in_flight (s ∷ ss) = s.in_flight +ℤ sum_in_flight ss

  unfoldable pub total_in_flight : Balancer F → ℤ
  unfolding sum_in_flight
  total_in_flight [] = pos 0
  total_in_flight (g ∷ gs) = sum_in_flight g.states +ℤ total_in_flight gs

  unfoldable pub affinity_cache_size : Balancer F → ℕ
  affinity_cache_size [] = 0
  affinity_cache_size (g ∷ gs) = elim g.selector [
    | sticky s ↦ Store.size s.store + affinity_cache_size gs
    | _ ↦ affinity_cache_size gs
  ]

  unfoldable pub replace_group : String → (Group F → Group F) → Balancer F → Balancer F
  replace_group name f [] = []
  replace_group name f (g ∷ gs) = if g.name == name then f g ∷ gs else g ∷ replace_group name f gs
