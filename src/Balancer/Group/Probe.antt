-- ===== src/Balancer/Group/Probe.antt =====
-- Probes: `markHealthy`, `markUnhealthy`, `updateMetrics` and the cycles that call them.
use llm_proxy.Base.{
  ℕ, suc, ◌≡◌, refl, ◌∙◌, arith, inl, inr, Option-cases, In, here, there, text_self, ◌*◌, Bool,
  true, false, not, ◌&&◌, ◌||◌, [], ◌∷◌, none, some, String, ltb, if◌then◌else◌, text_eq,
}
use llm_proxy.Base.Int.{ℤ, pos, is_pos, is_zero, int_ltb}
use llm_proxy.Base.Time.{Time, nanos, since}
use llm_proxy.Balancer.State
use llm_proxy.Balancer.State.{
  BackendState, new_backend_state, set_healthy, record_failure, record_request_outcome,
  should_retry, record_dispatch_failure,
}
use llm_proxy.Balancer.State.{enter_ramp, demote}
use llm_proxy.Balancer.Group.Lookup.{find_state-update_each, find_by_id-update_state}
use llm_proxy.Balancer.Selectors.{find_by_id}
use llm_proxy.Balancer.Group.{
  Group, Balancer, update_state, update_each, find_state, is_backend_healthy, should_retry_backend,
}

pub data Scrape (F : Type 0) : Type 0 where
  failed unparsed : Scrape F
  parsed : ℤ → ℤ → F → Scrape F

module _ {F : Type 0} where
  unfoldable pub mark_healthy : Time → String → Bool → ℤ → Balancer F → Balancer F
  unfolding update_each
  mark_healthy now id was_unhealthy ramp_up b =
      update_each id
        (λ g s. set_healthy now (if was_unhealthy && is_pos ramp_up then ramp_up else pos 0) s) b

  -- A probe's failure is ignored for a backend with requests in flight, or with a success in the
  -- last 60 seconds.
  unfoldable pub is_busy : Time → BackendState F → Bool
  is_busy now s = is_pos s.in_flight || int_ltb (since now s.last_success_at) (pos (60 * nanos))

  unfoldable pub failure_threshold : Group F → ℤ
  failure_threshold g =
      if is_zero g.cfg.health_check.unhealthy_after
      then pos 3
      else g.cfg.health_check.unhealthy_after

  -- The loop returns at the first group in which the backend is busy.
  unfoldable pub mark_unhealthy : Time → String → ℕ → Balancer F → Balancer F
  unfolding update_state
  mark_unhealthy now id failures [] = []
  mark_unhealthy now id failures (g ∷ gs) = elim (find_by_id g.states id) [
    | none ↦ g ∷ mark_unhealthy now id failures gs
    | some s ↦
        let failed = update_state id (record_failure now failures (failure_threshold g)) g.states in
        let rest = mark_unhealthy now id failures gs in
        if is_busy now s then g ∷ gs else record g { states = failed } ∷ rest
  ]

  unfoldable pub update_metrics : Time → String → Bool → ℤ → ℤ → F → Balancer F → Balancer F
  unfolding update_each
  update_metrics now id available running waiting kv b =
      update_each id (λ g s. State.update_metrics now available running waiting kv s) b

  -- A probe's outcome, by the number of failures that its job has counted. The counter is set to 0
  -- before it is tested, so `was_unhealthy` is false.
  unfoldable pub probe_cycle : Time → String → ℤ → Bool → ℕ × Balancer F → ℕ × Balancer F
  probe_cycle now id ramp_up alive (failures, b) =
      if alive
      then (0, mark_healthy now id (ltb 0 0) ramp_up b)
      else (suc failures, mark_unhealthy now id (suc failures) b)

  -- One tick of `runAliveCheck` and of `runHealthCheck`: an unhealthy backend is left alone until
  -- its retry delay has passed.
  unfoldable pub probe_tick : Time → String → ℤ → ℤ → Bool → ℕ × Balancer F → ℕ × Balancer F
  probe_tick now id ramp_up delay alive (failures, b) =
      if not (is_backend_healthy b id) && not (should_retry_backend now b id delay)
      then (failures, b)
      else probe_cycle now id ramp_up alive (failures, b)

  -- `doScrape`, by what the request and the parser made of `/metrics`
  unfoldable pub do_scrape : Time → String → ℤ → F → Scrape F → ℕ × Balancer F → ℕ × Balancer F
  do_scrape now id ramp_up nil failed (failures, b) = probe_cycle now id ramp_up false (failures, b)
  do_scrape now id ramp_up nil unparsed (failures, b) =
      let (n, c) = probe_cycle now id ramp_up true (failures, b) in
      (n, update_metrics now id false (pos 0) (pos 0) nil c)
  do_scrape now id ramp_up nil (parsed running waiting kv) (failures, b) =
      let (n, c) = probe_cycle now id ramp_up true (failures, b) in
      (n, update_metrics now id true running waiting kv c)

  -- One tick of `passiveRecoveryLoop` in all groups, for a cooldown in seconds.
  unfoldable pub passive_tick : Time → String → ℤ → ℤ → Balancer F → Balancer F
  unfolding update_each
  passive_tick now id ramp_up cooldown b =
      update_each id
        (λ g s.
          if s.healthy || not (should_retry now cooldown s) then s else set_healthy now ramp_up s)
        b

  set_healthy-plain :
      (now : Time) (s : BackendState F)
      → ((set_healthy now (pos 0) s).id ≡ s.id)
        × ((set_healthy now (pos 0) s).healthy ≡ true)
        × ((set_healthy now (pos 0) s).ramping_up ≡ false)
  unfolding set_healthy enter_ramp
  set_healthy-plain now s = (refl, refl, refl)

  -- A probe that succeeds leaves the backend healthy and not ramping up, whatever it was before
  -- and whatever the ramp-up setting is.
  pub probe_cycle-full_share :
      (now : Time) (id : String) (ramp_up : ℤ) (failures : ℕ) (b : Balancer F) (s : BackendState F)
      → find_state b id ≡ some s
      → (t : BackendState F) × (find_state (probe_cycle now id ramp_up true (failures, b)).1 id
          ≡ some t)
        × (t.healthy ≡ true)
        × (t.ramping_up ≡ false)
  unfolding probe_cycle mark_healthy
  probe_cycle-full_share now id ramp_up failures b s e =
      let rule : Group F → BackendState F → BackendState F = λ g s. set_healthy now (pos 0) s in
      let (g, i, q) = find_state-update_each id id rule b (λ g s. (set_healthy-plain now s).0) e in
      let (_, h, r) = set_healthy-plain now s in (rule g s, q ∙ rw (text_self id) refl, h, r)

  record_failure-kept :
      (now : Time) (n : ℕ) (limit : ℤ) (s : BackendState F)
      → (record_failure now n limit s).id ≡ s.id
  unfolding record_failure demote
  record_failure-kept now n limit s = ground arith

  find_state-mark_unhealthy :
      (now : Time) (id : String) (n : ℕ) (b : Balancer F) {s : BackendState F}
      → find_state b id ≡ some s
      → (g : Group F) × In g b
        × (find_state (mark_unhealthy now id n b) id
            ≡ some (if is_busy now s then s else record_failure now n (failure_threshold g) s))
  unfolding find_state mark_unhealthy
  find_state-mark_unhealthy now id n [] e = cc
  find_state-mark_unhealthy now id n (g ∷ gs) {s} e =
      let fail = record_failure now n (failure_threshold g) in
      let failed =
        find_by_id-update_state id id fail g.states
          (record_failure-kept now n (failure_threshold g)) in
      let self = text_self id in
      elim (Option-cases (find_by_id g.states id)) [
        | inl m ↦
            let (h, i, q) = find_state-mark_unhealthy now id n gs {s = s} (ground arith) in
            (h, there i, ground arith)
        | inr (t, m) ↦ let same : t ≡ s = ground arith in (g, here refl, rw (← same) (ground arith))
      ]

  failed_probe-healthy :
      (now : Time) (n : ℕ) (g : Group F) (s : BackendState F)
      → s.healthy ≡ true
      → (if is_busy now s then s else record_failure now n (failure_threshold g) s).healthy ≡ (
          (is_pos s.in_flight || int_ltb (since now s.last_success_at) (pos (60 * nanos)))
          || int_ltb (pos n) (failure_threshold g))
  unfolding is_busy record_failure demote failure_threshold
  failed_probe-healthy now n g s h = ground arith

  -- A failed probe takes a healthy backend out exactly if the backend has no request in flight and
  -- no success in the last 60 seconds, and the failures in a row reach the threshold of one of the
  -- groups.
  pub mark_unhealthy-healthy :
      (now : Time) (id : String) (n : ℕ) (b : Balancer F) (s : BackendState F)
      → find_state b id ≡ some s
      → s.healthy ≡ true
      → (g : Group F) × In g b
        × (is_backend_healthy (mark_unhealthy now id n b) id
            ≡ (is_pos s.in_flight || int_ltb (since now s.last_success_at) (pos (60 * nanos)))
              || int_ltb (pos n) (failure_threshold g))
  unfolding is_backend_healthy is_busy
  mark_unhealthy-healthy now id n b s e h =
      let (g, i, q) = find_state-mark_unhealthy now id n b e in
      (g, i, rw (q, is_backend_healthy) (failed_probe-healthy now n g s h))
