-- ===== src/Balancer/Probes/Answering.antt =====
-- A monitor whose backend answers makes it healthy.
use llm_proxy.Base.{
  ◌≡◌, refl, sym, subst, true, false, ◌||◌, List, [], ◌∷◌, Option, some, String, ◌==◌, text_eq,
  Bool-cases, inl, inr, ◌⊎◌, In, All, arith,
}
use llm_proxy.Base.Int.{ℤ}
use llm_proxy.Base.Time.{Time, Duration}
use llm_proxy.Config.Types.{Config, Backend, GroupConfig, AliveProbe}
use llm_proxy.Config.Lookup.{group_backends}
use llm_proxy.Config.Cascade.{get_recovery, get_alive_config}
use llm_proxy.Balancer.State.{BackendState, should_retry}
use llm_proxy.Balancer.Group.{Balancer, find_state, is_backend_healthy}
use llm_proxy.Balancer.Monitor.{
  Monitor, scraping, checking, probing, recovering, watched_id, no_probes, start_monitoring,
}
use llm_proxy.Balancer.Monitor.Ticks.{timer_tick}
use llm_proxy.Balancer.Monitor.Coverage.{
  delay_of, can_probe, probes_of, IsUnambiguous, start_monitoring-IsGuard,
}
use llm_proxy.Balancer.Monitor.Healing.{timer_tick-healthy}
use llm_proxy.Balancer.Probes.{
  Ask, Answer, resolve_probe_url, lightweight_chat_probe, http_get_probe, run_probe, check_alive,
  probe, scrape_metrics, alive_of, page_of, tick,
}

-- A type of probe that `checkAlive` has a request for.
abbrev pub IsKnown : AliveProbe → Type 0
IsKnown p = (p.type == "lightweight_chat" || p.type == "http_get") ≡ true

-- Every request is answered with status 200 and a page.
abbrev pub IsAnswering : (Ask → Option Answer) → List String → Type 0
IsAnswering send lines = (a : Ask) → send a ≡ some (record { status = 200; body = some lines })

module _ (resolve : String → String → Option String) (send : Ask → Option Answer)
    (lines : List String) (answers : IsAnswering send lines) where
  lightweight_chat_probe-true : (url : String) (n : ℤ) → lightweight_chat_probe send url n ≡ true
  unfolding lightweight_chat_probe
  lightweight_chat_probe-true url n = rw (lightweight_chat_probe, answers) refl

  http_get_probe-true : (url : String) (n : ℤ) → http_get_probe send url n ≡ true
  unfolding http_get_probe
  http_get_probe-true url n = rw (http_get_probe, answers) refl

  run_probe-true :
      (base : String) (p : AliveProbe) → IsKnown p → run_probe resolve send base p ≡ true
  unfolding run_probe
  run_probe-true base p k = elim (Bool-cases (p.type == "lightweight_chat")) [
    | inl e ↦ rw (e, run_probe) (lightweight_chat_probe-true _ p.timeout_seconds)
    | inr e ↦
        let g : (p.type == "http_get") ≡ true = ground arith in
        rw (e, run_probe) (rw g (http_get_probe-true _ p.timeout_seconds))
  ]

  scrape_metrics-some : (url : String) (d : Duration) → scrape_metrics send url d ≡ some lines
  unfolding scrape_metrics
  scrape_metrics-some url d = rw (scrape_metrics, answers) refl

  probe-some : (url : String) (d : Duration) → probe send url d ≡ some 200
  unfolding probe
  probe-some url d = rw (probe, answers) refl

  check_alive-true :
      (base : String) (ps : List AliveProbe)
      → no_probes ps ≡ false
      → All IsKnown ps
      → check_alive resolve send base ps ≡ true
  unfolding check_alive
  check_alive-true base [] n k = cc
  check_alive-true base (p ∷ ps) n k = rw (run_probe-true base p k.0) refl

  module _ {F : Type 0} (parse_float : String → Option F) (to_int : F → ℤ) (nil : F) where
    tick-healthy :
        (now : Time) (m : Monitor) (b : Balancer F) (s : BackendState F)
        → find_state b (watched_id m) ≡ some s
        → should_retry now (delay_of m) s ≡ true
        → can_probe m ≡ true
        → All IsKnown (probes_of m)
        → is_backend_healthy (tick resolve send parse_float to_int nil now (m, b)).1 (watched_id m)
          ≡ true
    unfolding tick alive_of page_of timer_tick
    tick-healthy now (scraping j) b s e h a k =
        rw (tick, page_of, scrape_metrics-some (resolve_probe_url resolve j.url j.path) j.timeout)
          (timer_tick-healthy parse_float to_int nil now (scraping j) lines b s e h a)
    tick-healthy now (checking j) b s e h a k =
        rw (tick, alive_of, probe-some (resolve_probe_url resolve j.url j.path) j.timeout)
          (timer_tick-healthy parse_float to_int nil now (checking j) lines b s e h a)
    tick-healthy now (probing j) b s e h a k =
        let some_probe : no_probes j.probes ≡ false = ground arith in
        rw (tick, alive_of, check_alive-true j.url j.probes some_probe k)
          (timer_tick-healthy parse_float to_int nil now (probing j) lines b s e h a)
    tick-healthy now (recovering j) b s e h a k =
        timer_tick-healthy parse_float to_int nil now (recovering j) lines b s e h a

    probes_of-IsKnown :
        (m : Monitor) (ps : List AliveProbe)
        → (probes_of m ≡ []) ⊎ (probes_of m ≡ ps)
        → All IsKnown ps
        → All IsKnown (probes_of m)
    probes_of-IsKnown m ps (inl e) k = subst (All IsKnown) (sym e) tt
    probes_of-IsKnown m ps (inr e) k = subst (All IsKnown) (sym e) k

    -- In a configuration without two backends of one id or two settings of one group, every
    -- backend of a group whose alive probes are all of a known type has a monitor whose tick, once
    -- the group's retry delay has passed since the backend went down, makes it healthy if the
    -- requests of the probes are answered with status 200 and a page.
    pub start_monitoring-answering :
        (cfg : Config F) (fetch : String → Option String) (name : String) (g : GroupConfig F)
        (be : Backend) (now : Time) (b : Balancer F) (s : BackendState F)
        → IsUnambiguous cfg
        → In (name, g) cfg.groups
        → In be (group_backends cfg name)
        → All IsKnown (get_alive_config g).probes
        → find_state b be.id ≡ some s
        → should_retry now (get_recovery cfg (some g)).retry_delay_sec s ≡ true
        → (m : Monitor) × In m (start_monitoring cfg fetch)
          × (is_backend_healthy (tick resolve send parse_float to_int nil now (m, b)).1 be.id
              ≡ true)
    start_monitoring-answering cfg fetch name g be now b s u i k known e h =
        let (m, launched, guard) = start_monitoring-IsGuard cfg fetch name g be u i k in
        let found = subst (λ id. find_state b id ≡ some s) (sym guard.watched) e in
        let due = subst (λ d. should_retry now d s ≡ true) (sym guard.delay) h in
        let asked = probes_of-IsKnown m (get_alive_config g).probes guard.asks known in
        (
          m,
          launched,
          subst
              (λ id.
                is_backend_healthy (tick resolve send parse_float to_int nil now (m, b)).1 id
                ≡ true)
              guard.watched (tick-healthy now m b s found due guard.able asked),
        )

-- Probes of unknown types alone never find a backend alive.
check_alive-false :
    (resolve : String → String → Option String) (send : Ask → Option Answer) (base : String)
    (ps : List AliveProbe)
    → All (λ p. (p.type == "lightweight_chat" || p.type == "http_get") ≡ false) ps
    → check_alive resolve send base ps ≡ false
unfolding check_alive run_probe
check_alive-false resolve send base [] h = refl
check_alive-false resolve send base (p ∷ ps) h =
    let rest = check_alive-false resolve send base ps h.1 in
    let chat : (p.type == "lightweight_chat") ≡ false = ground arith in
    let get : (p.type == "http_get") ≡ false = ground arith in
    rw (chat, get, check_alive, run_probe) rest
