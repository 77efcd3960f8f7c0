-- ===== src/Balancer/Monitor/Healing.antt =====
-- What a tick of a monitor does for a backend that answers.
use llm_proxy.Base.{
  ℕ, ◌≡◌, refl, ◌∙◌, Bool, true, false, not, ◌||◌, List, Option, some, String, if◌then◌else◌,
  text_eq, text_self, arith,
}
use llm_proxy.Base.Int.{ℤ, pos}
use llm_proxy.Base.Time.{Time}
use llm_proxy.Balancer.Parser
use llm_proxy.Balancer.State
use llm_proxy.Balancer.State.{BackendState, set_healthy, should_retry, enter_ramp}
use llm_proxy.Balancer.Group.{Group, Balancer, find_state, is_backend_healthy, should_retry_backend}
use llm_proxy.Balancer.Group.Lookup.{find_state-update_each}
use llm_proxy.Balancer.Group.Probe.{
  Scrape, failed, unparsed, parsed, probe_cycle, probe_tick, do_scrape, passive_tick,
  update_metrics, probe_cycle-full_share,
}
use llm_proxy.Balancer.Monitor.{
  Monitor, scraping, checking, probing, recovering, watched_id, no_probes,
}
use llm_proxy.Balancer.Monitor.Ticks.{waits, scrape_outcome, timer_tick}
use llm_proxy.Balancer.Monitor.Coverage.{delay_of, can_probe}

module _ {F : Type 0} where
  healthy_found :
      (b : Balancer F) (id : String) (t : BackendState F)
      → find_state b id ≡ some t
      → t.healthy ≡ true
      → is_backend_healthy b id ≡ true
  unfolding is_backend_healthy
  healthy_found b id t e h = rw (e, is_backend_healthy) h

  waits-false :
      (now : Time) (id : String) (delay : ℤ) (b : Balancer F) (s : BackendState F)
      → find_state b id ≡ some s
      → should_retry now delay s ≡ true
      → waits now id delay b ≡ false
  unfolding waits is_backend_healthy should_retry_backend
  waits-false now id delay b s e h = ground arith

  cycle-healthy :
      (now : Time) (id : String) (ramp_up : ℤ) (n : ℕ) (b : Balancer F) (s : BackendState F)
      → find_state b id ≡ some s
      → is_backend_healthy (probe_cycle now id ramp_up true (n, b)).1 id ≡ true
  cycle-healthy now id ramp_up n b s e =
      let (t, f, h, _) = probe_cycle-full_share now id ramp_up n b s e in
      healthy_found (probe_cycle now id ramp_up true (n, b)).1 id t f h

  tick-healthy :
      (now : Time) (id : String) (ramp_up delay : ℤ) (n : ℕ) (b : Balancer F) (s : BackendState F)
      → find_state b id ≡ some s
      → should_retry now delay s ≡ true
      → is_backend_healthy (probe_tick now id ramp_up delay true (n, b)).1 id ≡ true
  unfolding probe_tick waits
  tick-healthy now id ramp_up delay n b s e h =
      rw (waits-false now id delay b s e h) (cycle-healthy now id ramp_up n b s e)

  update_metrics-healthy :
      (now : Time) (id : String) (available : Bool) (running waiting : ℤ) (kv : F) (b : Balancer F)
      (t : BackendState F)
      → find_state b id ≡ some t
      → t.healthy ≡ true
      → is_backend_healthy (update_metrics now id available running waiting kv b) id ≡ true
  unfolding update_metrics State.update_metrics
  update_metrics-healthy now id available running waiting kv b t e h =
      let rule : Group F → BackendState F → BackendState F =
        λ g s. State.update_metrics now available running waiting kv s in
      let (g, i, q) = find_state-update_each id id rule b (λ g s. refl) e in
      healthy_found (update_metrics now id available running waiting kv b) id (rule g t)
        (q ∙ rw (text_self id) refl) h

  -- A page that answers, whatever metrics it has.
  abbrev answered : Scrape F → Bool
  answered failed = false
  answered unparsed = true
  answered (parsed _ _ _) = true

  do_scrape-healthy :
      (now : Time) (id : String) (ramp_up : ℤ) (nil : F) (page : Scrape F) (n : ℕ) (b : Balancer F)
      (s : BackendState F)
      → find_state b id ≡ some s
      → answered page ≡ true
      → is_backend_healthy (do_scrape now id ramp_up nil page (n, b)).1 id ≡ true
  unfolding do_scrape
  do_scrape-healthy now id ramp_up nil failed n b s e a = cc
  do_scrape-healthy now id ramp_up nil unparsed n b s e a =
      let (t, f, h, _) = probe_cycle-full_share now id ramp_up n b s e in
      update_metrics-healthy now id false (pos 0) (pos 0) nil
        (probe_cycle now id ramp_up true (n, b)).1 t f h
  do_scrape-healthy now id ramp_up nil (parsed running waiting kv) n b s e a =
      let (t, f, h, _) = probe_cycle-full_share now id ramp_up n b s e in
      update_metrics-healthy now id true running waiting kv
        (probe_cycle now id ramp_up true (n, b)).1 t f h

  passive_tick-healthy :
      (now : Time) (id : String) (ramp_up cooldown : ℤ) (b : Balancer F) (s : BackendState F)
      → find_state b id ≡ some s
      → should_retry now cooldown s ≡ true
      → is_backend_healthy (passive_tick now id ramp_up cooldown b) id ≡ true
  unfolding passive_tick set_healthy enter_ramp
  passive_tick-healthy now id ramp_up cooldown b s e h =
      let rule : Group F → BackendState F → BackendState F = λ g s.
        if s.healthy || not (should_retry now cooldown s) then s else set_healthy now ramp_up s in
      let (g, i, q) = find_state-update_each id id rule b (λ g s. ground arith) e in
      let up : (rule g s).healthy ≡ true = ground arith in
      healthy_found (passive_tick now id ramp_up cooldown b) id (rule g s)
        (q ∙ rw (text_self id) refl) up

module _ {F : Type 0} (parse_float : String → Option F) (to_int : F → ℤ) (nil : F) where
  scrape_outcome-answered :
      (engine : Parser.Engine) (lines : List String)
      → answered (scrape_outcome parse_float to_int nil engine (some lines)) ≡ true
  unfolding scrape_outcome
  scrape_outcome-answered engine lines = ground arith

  pub timer_tick-healthy :
      (now : Time) (m : Monitor) (lines : List String) (b : Balancer F) (s : BackendState F)
      → find_state b (watched_id m) ≡ some s
      → should_retry now (delay_of m) s ≡ true
      → can_probe m ≡ true
      → is_backend_healthy
          (timer_tick parse_float to_int nil now true (some lines) (m, b)).1
          (watched_id m)
        ≡ true
  unfolding timer_tick
  timer_tick-healthy now (scraping j) lines b s e h a =
      rw (waits-false now j.id j.retry_delay_sec b s e h) (
        do_scrape-healthy now j.id j.ramp_up_sec nil
          (scrape_outcome parse_float to_int nil j.engine (some lines)) j.failures b s e
          (scrape_outcome-answered j.engine lines))
  timer_tick-healthy now (checking j) lines b s e h a =
      tick-healthy now j.id j.ramp_up_sec j.retry_delay_sec j.failures b s e h
  timer_tick-healthy now (probing j) lines b s e h a =
      let some_probe : no_probes j.probes ≡ false = ground arith in
      rw some_probe (tick-healthy now j.id j.ramp_up_sec j.retry_delay_sec j.failures b s e h)
  timer_tick-healthy now (recovering j) lines b s e h a =
      passive_tick-healthy now j.id j.ramp_up_sec j.cooldown_sec b s e h
