-- ===== src/Balancer/State.antt =====
-- internal/balancer/state.go: what the balancer knows of one backend. Each method takes the time
-- that `time.Now()` returns; the mutex makes each one atomic. `F` is the type of floating-point
-- numbers. `Flow` is never nil, since `NewBackendState` sets it.
pub mod Health
use llm_proxy.Base.{
  ℕ, zero, suc, ◌+◌, ◌*◌, Bool, true, false, not, ◌&&◌, ◌||◌, String, if◌then◌else◌, ltb, leb,
}
use llm_proxy.Base.Int.{ℤ, pos, negsuc, int_leb, int_ltb, is_pos, is_zero, pos_part}
use llm_proxy.Base.Time.{Time, Duration, nanos, seconds, since, add_time, before}
use llm_proxy.Base.Floats.{Floats}
use llm_proxy.Balancer.Flow.{FlowStats, new_flow_stats}

pub record BackendState (F : Type 0) : Type 0 where
  pub id : String
  pub url : String
  pub weight : ℤ
  pub healthy : Bool
  pub consecutive_failures : ℕ
  pub last_health_check : Time
  pub last_success_at : Time
  pub ramping_up : Bool
  pub ramp_up_end : Time
  pub unhealthy_since : Time
  pub recent_failure_until : Time
  pub metrics_available : Bool
  pub running_reqs : ℤ
  pub waiting_reqs : ℤ
  pub kv_cache_pct : F
  pub last_metrics_update : Time
  pub flow : FlowStats
  pub in_flight : ℤ

-- `none_yet` is the float64 0 of a fresh struct.
unfoldable pub new_backend_state : {F : Type 0} → F → String → String → ℤ → ℤ → BackendState F
unfolding new_flow_stats
new_backend_state none_yet id url weight window = record {
  id = id;
  url = url;
  weight = weight;
  healthy = true;
  consecutive_failures = 0;
  last_health_check = 0;
  last_success_at = 0;
  ramping_up = false;
  ramp_up_end = 0;
  unhealthy_since = 0;
  recent_failure_until = 0;
  metrics_available = false;
  running_reqs = pos 0;
  waiting_reqs = pos 0;
  kv_cache_pct = none_yet;
  last_metrics_update = 0;
  flow = new_flow_stats window;
  in_flight = pos 0;
}

-- a number of seconds after `now`, for a positive number
abbrev after_seconds : Time → ℤ → Time
after_seconds now n = add_time now (pos_part n * nanos)

-- the threshold 3 where none is given
abbrev pub or_three : Bool → ℤ → ℤ
or_three missing n = if missing then pos 3 else n

module _ {F : Type 0} where
  unfoldable pub is_ramping_up : Time → BackendState F → Bool
  is_ramping_up now b = if not b.ramping_up then false else not (before b.ramp_up_end now)

  unfoldable pub finish_ramp_up : BackendState F → BackendState F
  finish_ramp_up b = record b { ramping_up = false }

  -- the part of `SetHealthy` and `RecordRequestOutcome` that starts or ends the ramp
  unfoldable pub enter_ramp : Time → ℤ → BackendState F → BackendState F
  enter_ramp now ramp_up b =
      if is_pos ramp_up
      then record b { ramping_up = true; ramp_up_end = after_seconds now ramp_up }
      else record b { ramping_up = false }

  unfoldable pub set_healthy : Time → ℤ → BackendState F → BackendState F
  unfolding enter_ramp
  set_healthy now ramp_up b =
      enter_ramp now ramp_up
        (record b { healthy = true; consecutive_failures = 0; last_health_check = now })

  -- the demotion that `RecordFailure` and `RecordRequestOutcome` share
  unfoldable pub demote : Time → Bool → BackendState F → BackendState F
  demote now reached b =
      if reached && b.healthy then record b { healthy = false; unhealthy_since = now } else b

  unfoldable pub record_failure : Time → ℕ → ℤ → BackendState F → BackendState F
  unfolding demote
  record_failure now failures threshold b =
      let t = or_three (is_zero threshold) threshold in
      let b' =
        demote now (int_leb t (pos failures)) (record b { consecutive_failures = failures }) in
      record b' { last_health_check = now }

  unfoldable pub record_dispatch_failure : Time → ℤ → BackendState F → BackendState F
  record_dispatch_failure now cooldown b =
      let c = if is_pos cooldown then cooldown else pos 10 in
      record b { recent_failure_until = after_seconds now c }

  unfoldable pub is_failing : Time → BackendState F → Bool
  is_failing now b = before now b.recent_failure_until

  unfoldable pub record_request_outcome : Time → Bool → ℤ → ℤ → BackendState F → BackendState F
  unfolding enter_ramp demote
  record_request_outcome now success unhealthy_after ramp_up b =
      let c = record b { last_health_check = now } in
      let reset = record c { consecutive_failures = 0; last_success_at = now } in
      let n = suc c.consecutive_failures in
      let t = or_three (not (is_pos unhealthy_after)) unhealthy_after in
      if success
      then if not reset.healthy
        then enter_ramp now ramp_up (record reset { healthy = true })
        else if reset.ramping_up && before reset.ramp_up_end now
        then record reset { ramping_up = false }
        else reset
      else demote now (int_leb t (pos n)) (record c { consecutive_failures = n })

  unfoldable pub should_retry : Time → ℤ → BackendState F → Bool
  should_retry now delay b =
      if b.healthy
      then true
      else if not (is_pos delay)
      then true
      else int_leb (seconds delay) (since now b.unhealthy_since)

  unfoldable pub update_metrics : Time → Bool → ℤ → ℤ → F → BackendState F → BackendState F
  update_metrics now available running waiting kv b = record b {
    metrics_available = available;
    running_reqs = running;
    waiting_reqs = waiting;
    kv_cache_pct = kv;
    last_metrics_update = now;
  }

-- The readings that need float64.
module _ (fl : Floats) where
  open fl use {F, of_int, lt}

  unfoldable pub get_effective_load : Time → Duration → BackendState F → F
  get_effective_load now stale b =
      if b.metrics_available && int_ltb (since now b.last_metrics_update) stale
      then of_int b.running_reqs
      else of_int b.in_flight

  unfoldable pub is_overloaded_by_metrics : Time → F → Duration → BackendState F → Bool
  is_overloaded_by_metrics now limit stale b =
      if not b.metrics_available || int_ltb stale (since now b.last_metrics_update)
      then false
      else lt (of_int (pos 0)) limit && (lt limit b.kv_cache_pct || fl.eq b.kv_cache_pct limit)
