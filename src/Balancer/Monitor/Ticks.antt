-- ===== src/Balancer/Monitor/Ticks.antt =====
-- The loops of the balancer's goroutines: `runScrapeAndHealth`, `runHealthCheck`, `runAliveCheck` and
-- `passiveRecoveryLoop`. A tick takes the time, whether the backend's probe succeeds, and the lines of
-- its metrics page, `none` for an error. `nil` is the float64 0.
use llm_proxy.Base.{Bool, false, not, ◌&&◌, List, Option, none, some, String, if◌then◌else◌}
use llm_proxy.Base.Int.{ℤ, pos}
use llm_proxy.Base.Time.{Time, seconds}
use llm_proxy.Balancer.Parser.{Engine, auto, parse_prometheus_metrics}
use llm_proxy.Balancer.Group.{Balancer, is_backend_healthy, should_retry_backend}
use llm_proxy.Balancer.Group.Probe.{
  Scrape, failed, unparsed, parsed, do_scrape, probe_cycle, probe_tick, passive_tick,
}
use llm_proxy.Balancer.Monitor.{
  Monitor, scraping, checking, probing, recovering, HealthJob, ScrapeJob, no_probes,
}

module _ {F : Type 0} where
  -- The test that leaves an unhealthy backend alone until its retry delay has passed.
  unfoldable pub waits : Time → String → ℤ → Balancer F → Bool
  waits now id delay b = not (is_backend_healthy b id) && not (should_retry_backend now b id delay)

  module _ (parse_float : String → Option F) (to_int : F → ℤ) (nil : F) where
    unfoldable pub scrape_outcome : Engine → Option (List String) → Scrape F
    scrape_outcome engine none = failed
    scrape_outcome engine (some lines) =
        let r = parse_prometheus_metrics parse_float to_int nil engine lines in
        if r.parsed then parsed r.running_reqs r.waiting_reqs r.kv_cache_pct else unparsed

    -- What a goroutine does before its loop.
    unfoldable pub first_run :
        Time → Bool → Option (List String) → Monitor × Balancer F → Monitor × Balancer F
    unfolding scrape_outcome
    first_run now alive page (scraping j, b) =
        let outcome = scrape_outcome j.engine page in
        let (n, c) = do_scrape now j.id j.ramp_up_sec nil outcome (j.failures, b) in
        (scraping (record j { failures = n }), c)
    first_run now alive page (checking j, b) =
        let (n, c) = probe_cycle now j.id j.ramp_up_sec alive (j.failures, b) in
        (checking (record j { failures = n }), c)
    first_run now alive page (probing j, b) =
        let (n, c) = probe_cycle now j.id j.ramp_up_sec alive (j.failures, b) in
        if no_probes j.probes then (probing j, b) else (probing (record j { failures = n }), c)
    first_run now alive page (recovering j, b) = (recovering j, b)

    -- A tick of the goroutine's timer.
    unfoldable pub timer_tick :
        Time → Bool → Option (List String) → Monitor × Balancer F → Monitor × Balancer F
    unfolding scrape_outcome waits
    timer_tick now alive page (scraping j, b) =
        let outcome = scrape_outcome j.engine page in
        let (n, c) = do_scrape now j.id j.ramp_up_sec nil outcome (j.failures, b) in
        if waits now j.id j.retry_delay_sec b
        then (scraping j, b)
        else (scraping (record j { failures = n }), c)
    timer_tick now alive page (checking j, b) =
        let (n, c) = probe_tick now j.id j.ramp_up_sec j.retry_delay_sec alive (j.failures, b) in
        (checking (record j { failures = n }), c)
    timer_tick now alive page (probing j, b) =
        let (n, c) = probe_tick now j.id j.ramp_up_sec j.retry_delay_sec alive (j.failures, b) in
        if no_probes j.probes then (probing j, b) else (probing (record j { failures = n }), c)
    timer_tick now alive page (recovering j, b) =
        (recovering j, passive_tick now j.id j.ramp_up_sec j.cooldown_sec b)

    unfoldable pub found_metrics : Option (List String) → Bool
    found_metrics none = false
    found_metrics (some lines) = (parse_prometheus_metrics parse_float to_int nil auto lines).parsed

    -- The scraper that a health check turns into once the metrics answer.
    unfoldable pub scrape_job_of : HealthJob → ScrapeJob
    scrape_job_of j = record {
      id = j.id;
      url = j.url;
      path = j.metrics_path;
      interval = seconds (pos 5);
      timeout = j.metrics_timeout;
      stale_threshold = pos 0;
      engine = auto;
      failures = 0;
      ramp_up_sec = j.ramp_up_sec;
      retry_delay_sec = j.retry_delay_sec;
    }

    -- A tick of the second timer of `runHealthCheck`. An empty page has no metrics.
    unfoldable pub metrics_tick : Option (List String) → Monitor → Monitor
    unfolding found_metrics scrape_job_of
    metrics_tick page (checking j) =
        if (j.metrics_scrape_enabled && not j.transited_to_scrape) && found_metrics page
        then scraping (scrape_job_of j)
        else checking j
    metrics_tick page (scraping j) = scraping j
    metrics_tick page (probing j) = probing j
    metrics_tick page (recovering j) = recovering j
