-- ===== src/Balancer/Select.antt =====
-- internal/balancer/select.go: the load score, the least loaded backend of a pool, and the test for
-- an overloaded one. A pool is a list of backends; an empty pool, on which Go would panic, gives
-- `none`.
pub mod Least
use llm_proxy.Base.{
  ℕ, zero, suc, ◌+◌, ◌%◌, ◌<◌, Bool, true, false, ◌&&◌, ◌||◌, List, [], ◌∷◌, ◌++◌, Option, none,
  some, length, get_elem?, if◌then◌else◌, ltb, leb, ◌==◌, number_eq,
}
use llm_proxy.Base.Int.{ℤ, pos, int_leb, int_ltb, is_pos}
use llm_proxy.Base.Time.{Time, Duration, since}
use llm_proxy.Base.Floats.{Floats}
use llm_proxy.Balancer.Flow.{FlowSnapshot, get_stats}
use llm_proxy.Balancer.State.{BackendState, get_effective_load, is_overloaded_by_metrics}

module _ (fl : Floats) where
  open fl use {F, of_int, add, sub, mul, div, lt, eq}

  abbrev float : ℕ → F
  float n = of_int (pos n)

  -- `SuccessRate` of `GetStats`
  unfoldable pub success_rate : FlowSnapshot → F
  success_rate s = if ltb 0 s.completed then div (float s.success) (float s.completed) else float 1

  -- the load with the pressure on the KV cache added, if the metrics are fresh
  unfoldable pub cache_pressure : Time → Duration → BackendState F → F
  unfolding get_effective_load
  cache_pressure now stale b =
      let load = get_effective_load fl now stale b in
      if b.metrics_available
        && (int_ltb (since now b.last_metrics_update) stale && lt (float 0) b.kv_cache_pct)
      then add load (mul b.kv_cache_pct (float 2))
      else load

  unfoldable pub flow_penalty : FlowSnapshot → F → F
  unfolding success_rate
  flow_penalty s load =
      let staleness = mul (sub (float 1) (success_rate s)) (float 2) in
      let failure =
        if ltb 0 s.dispatched
        then mul (div (float s.timeout) (float s.dispatched)) (float 3)
        else float 0 in
      let stall = mul (float s.stalled) (float 3) in
      add (mul (mul load (add (float 1) staleness)) (add (float 1) failure)) stall

  unfoldable pub load_score : Time → Duration → BackendState F → F
  unfolding cache_pressure flow_penalty get_stats
  load_score now stale b =
      let load = flow_penalty (get_stats b.flow) (cache_pressure now stale b) in
      if is_pos b.weight then div load (of_int b.weight) else load

  -- The loop of `pickLeastLoaded` over any scored things: the best score and the tied ones so far.
  module _ {ℓ} {A : Type ℓ} (score : A → F) where
    unfoldable pub least_tied : F → List A → List A → List A
    least_tied best tied [] = tied
    least_tied best tied (b ∷ bs) =
        let better = least_tied (score b) (b ∷ []) bs in
        let equal = least_tied best (tied ++ b ∷ []) bs in
        let worse = least_tied best tied bs in
        if lt (score b) best then better else if eq (score b) best then equal else worse

    -- With one tied backend or no hash the first, else the hash spreads.
    unfoldable pub pick_tied : ℕ → List A → Option A
    pick_tied hash tied =
        if (length tied == 1) || (hash == 0)
        then get_elem? tied 0
        else get_elem? tied (hash % length tied)

    unfoldable pub pick_least : ℕ → List A → Option A
    unfolding least_tied pick_tied
    pick_least hash [] = none
    pick_least hash (b ∷ bs) = pick_tied hash (least_tied (score b) (b ∷ []) bs)

  unfoldable pub pick_least_loaded :
      Time → Duration → ℕ → List (BackendState F) → Option (BackendState F)
  unfolding pick_least load_score
  pick_least_loaded now stale hash pool = pick_least (load_score now stale) hash pool

  unfoldable pub is_overloaded : Time → ℤ → F → Duration → BackendState F → Bool
  unfolding is_overloaded_by_metrics get_stats
  is_overloaded now max_concurrency kv stale b =
      if is_pos max_concurrency && int_leb max_concurrency b.in_flight
      then true
      else if lt (float 0) kv && is_overloaded_by_metrics fl now kv stale b
      then true
      else ltb 10 (get_stats b.flow).stalled
