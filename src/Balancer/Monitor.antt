-- ===== src/Balancer/Monitor.antt =====
-- `New` of internal/balancer/balancer.go, and the monitors that it starts: which goroutine watches
-- which backend, from `startMonitoring`, `startAliveChecks` and `startPassiveRecovery`. Go visits the
-- maps of groups and backends in no order; the model visits the groups in the list's order. `fetch`
-- is `scrapeMetrics` at start-up: the page under a URL, or `none` for its error.
pub mod Ticks
pub mod Owners
pub mod Coverage
pub mod Healing
pub mod Total
use Prim.Native.String.{◌++◌ as text_append}
use llm_proxy.Base.{
  ℕ, zero, suc, Bool, true, false, not, ◌&&◌, ◌||◌, List, [], ◌∷◌, ◌++◌, Option, none, some, String,
  Map, any, if◌then◌else◌, ◌==◌, text_eq,
}
use llm_proxy.Base.Int.{ℤ, pos, is_zero, is_pos}
use llm_proxy.Base.Time.{Duration, seconds}
use llm_proxy.Base.Floats.{Floats}
use llm_proxy.Config.Types.{Config, Backend, GroupConfig, AliveProbe}
use llm_proxy.Config.Lookup.{
  group_backends, scrape_enabled, get_scrape_path, get_scrape_interval, get_stale_threshold,
}
use llm_proxy.Config.Cascade.{
  get_alive_config, get_recovery, get_metrics_config, get_flow_window_duration,
}
use llm_proxy.Balancer.Group.{Group, Balancer}
use llm_proxy.Balancer.Group.Pool.{new_states, group_selector}
use llm_proxy.Balancer.Parser.{Engine, auto}

-- `backendInfo`: a backend with the groups that it is in, of which there is at least one.
pub record Watched (F : Type 0) : Type 0 where
  pub id : String
  pub url : String
  pub first : GroupConfig F
  pub rest : List (GroupConfig F)

pub record ScrapeJob : Type 0 where
  pub id : String
  pub url : String
  pub path : String
  pub interval : Duration
  pub timeout : Duration
  pub stale_threshold : Duration
  pub engine : Engine
  pub failures : ℕ
  pub ramp_up_sec : ℤ
  pub retry_delay_sec : ℤ

pub record HealthJob : Type 0 where
  pub id : String
  pub url : String
  pub path : String
  pub interval : Duration
  pub timeout : Duration
  pub failures : ℕ
  pub ramp_up_sec : ℤ
  pub retry_delay_sec : ℤ
  pub metrics_path : String
  pub metrics_interval : Duration
  pub metrics_timeout : Duration
  pub metrics_scrape_enabled : Bool
  pub transited_to_scrape : Bool

pub record AliveJob : Type 0 where
  pub id : String
  pub url : String
  pub interval : Duration
  pub unhealthy_after : ℤ
  pub probes : List AliveProbe
  pub failures : ℕ
  pub ramp_up_sec : ℤ
  pub retry_delay_sec : ℤ

-- The arguments of `passiveRecoveryLoop`, its cooldown in seconds.
pub record RecoveryJob : Type 0 where
  pub id : String
  pub cooldown_sec : ℤ
  pub ramp_up_sec : ℤ

-- A goroutine of the balancer.
pub data Monitor : Type 0 where
  scraping : ScrapeJob → Monitor
  checking : HealthJob → Monitor
  probing : AliveJob → Monitor
  recovering : RecoveryJob → Monitor

abbrev pub watched_id : Monitor → String
watched_id (scraping j) = j.id
watched_id (checking j) = j.id
watched_id (probing j) = j.id
watched_id (recovering j) = j.id

-- if job.interval == 0 { job.interval = d }
unfoldable pub or_duration : Duration → Duration → Duration
or_duration d fallback = if is_zero d then fallback else d

unfoldable pub disabled : String → Bool
disabled enabled = enabled == "false"

-- err == nil && len(body) > 0
abbrev pub has_page : Option String → Bool
has_page none = false
has_page (some page) = not (page == "")

abbrev pub no_probes : List AliveProbe → Bool
no_probes [] = true
no_probes (_ ∷ _) = false

module _ {F : Type 0} where
  unfoldable pub watch : GroupConfig F → Backend → List (Watched F) → List (Watched F)
  watch g be [] = record { id = be.id; url = be.base_url; first = g; rest = [] } ∷ []
  watch g be (w ∷ ws) =
      if w.id == be.id then record w { rest = w.rest ++ g ∷ [] } ∷ ws else w ∷ watch g be ws

  unfoldable pub watch_all : GroupConfig F → List Backend → List (Watched F) → List (Watched F)
  unfolding watch
  watch_all g [] ws = ws
  watch_all g (be ∷ bs) ws = watch_all g bs (watch g be ws)

  -- `backendMap`, which all three functions build in the same way.
  unfoldable pub backend_map : Config F → Map (GroupConfig F) → List (Watched F) → List (Watched F)
  unfolding watch_all
  backend_map cfg [] ws = ws
  backend_map cfg ((name, g) ∷ gs) ws =
      backend_map cfg gs (watch_all g (group_backends cfg name) ws)

  unfoldable pub watched_backends : Config F → List (Watched F)
  unfolding backend_map
  watched_backends cfg = backend_map cfg cfg.groups []

  -- The first group of a backend that wants its metrics scraped.
  unfoldable pub scrape_config : List (GroupConfig F) → Option (GroupConfig F)
  scrape_config [] = none
  scrape_config (g ∷ gs) = if scrape_enabled g then some g else scrape_config gs

  unfoldable pub new_scrape_job : Config F → Watched F → GroupConfig F → ScrapeJob
  unfolding or_duration
  new_scrape_job cfg w scrape =
      let recovery = get_recovery cfg (some w.first) in
      record {
        id = w.id;
        url = w.url;
        path = get_scrape_path scrape;
        interval = or_duration (seconds (get_scrape_interval scrape)) (seconds (pos 5));
        timeout = seconds (pos 3);
        stale_threshold = seconds (get_stale_threshold scrape);
        engine = auto;
        failures = 0;
        ramp_up_sec = recovery.ramp_up_sec;
        retry_delay_sec = recovery.retry_delay_sec;
      }

  -- The job before the settings for the retry of metrics.
  unfoldable pub new_health_job : Config F → Watched F → HealthJob
  unfolding or_duration
  new_health_job cfg w =
      let recovery = get_recovery cfg (some w.first) in
      let check = w.first.health_check in
      record {
        id = w.id;
        url = w.url;
        path = check.path;
        interval = or_duration (seconds check.interval_seconds) (seconds (pos 10));
        timeout = or_duration (seconds check.timeout_seconds) (seconds (pos 2));
        failures = 0;
        ramp_up_sec = recovery.ramp_up_sec;
        retry_delay_sec = recovery.retry_delay_sec;
        metrics_path = "";
        metrics_interval = pos 0;
        metrics_timeout = pos 0;
        metrics_scrape_enabled = false;
        transited_to_scrape = false;
      }

  unfoldable pub with_metrics_retry : Config F → Option (GroupConfig F) → HealthJob → HealthJob
  unfolding or_duration
  with_metrics_retry cfg none j = j
  with_metrics_retry cfg (some scrape) j =
      let metrics = get_metrics_config cfg (some scrape) in
      record j {
        metrics_path = get_scrape_path scrape;
        metrics_interval = or_duration (seconds metrics.retry_interval_sec) (seconds (pos 120));
        metrics_timeout = or_duration (seconds metrics.scrape_timeout_seconds) (seconds (pos 3));
        metrics_scrape_enabled = true;
      }

  unfoldable pub start_health : Config F → Watched F → Option (GroupConfig F) → Option Monitor
  unfolding disabled new_health_job with_metrics_retry
  start_health cfg w scrape =
      if disabled w.first.health_check.enabled
      then none
      else some (checking (with_metrics_retry cfg scrape (new_health_job cfg w)))

  -- The scraper of a backend whose metrics answer, or else its health check.
  unfoldable pub start_scrape :
      Config F → (String → Option String) → Watched F → Option (GroupConfig F) → Option Monitor
  unfolding start_health new_scrape_job
  start_scrape cfg fetch w none = start_health cfg w none
  start_scrape cfg fetch w (some scrape) =
      if has_page (fetch (text_append w.url (get_scrape_path scrape)))
      then some (scraping (new_scrape_job cfg w scrape))
      else start_health cfg w (some scrape)

  -- One backend's turn of `startMonitoring`.
  unfoldable pub start_monitor : Config F → (String → Option String) → Watched F → Option Monitor
  unfolding start_scrape scrape_config
  start_monitor cfg fetch w = start_scrape cfg fetch w (scrape_config (w.first ∷ w.rest))

  unfoldable pub alive_enabled : GroupConfig F → Bool
  unfolding disabled
  alive_enabled g =
      not (disabled (get_alive_config g).enabled) && not (no_probes (get_alive_config g).probes)

  unfoldable pub new_alive_job : Config F → Watched F → AliveJob
  unfolding or_duration
  new_alive_job cfg w =
      let alive = get_alive_config w.first in
      let recovery = get_recovery cfg (some w.first) in
      record {
        id = w.id;
        url = w.url;
        interval = or_duration (seconds alive.interval_seconds) (seconds (pos 60));
        unhealthy_after = if is_zero alive.unhealthy_after then pos 3 else alive.unhealthy_after;
        probes = alive.probes;
        failures = 0;
        ramp_up_sec = recovery.ramp_up_sec;
        retry_delay_sec = recovery.retry_delay_sec;
      }

  -- One backend's turn of `startAliveChecks`.
  unfoldable pub start_alive : Config F → Watched F → Option Monitor
  unfolding alive_enabled new_alive_job
  start_alive cfg w = if alive_enabled w.first then some (probing (new_alive_job cfg w)) else none

  unfoldable pub has_probe : GroupConfig F → Bool
  unfolding alive_enabled disabled
  has_probe g = not (disabled g.health_check.enabled) || alive_enabled g

  unfoldable pub new_recovery_job : Config F → Watched F → RecoveryJob
  new_recovery_job cfg w =
      let recovery = get_recovery cfg (some w.first) in
      record {
        id = w.id;
        cooldown_sec = if is_pos recovery.retry_delay_sec then recovery.retry_delay_sec else pos 10;
        ramp_up_sec = recovery.ramp_up_sec;
      }

  -- One backend's turn of `startPassiveRecovery`, whose `hasProbe` is set by any of its groups.
  unfoldable pub start_recovery : Config F → Watched F → Option Monitor
  unfolding has_probe new_recovery_job
  start_recovery cfg w =
      if any has_probe (w.first ∷ w.rest) then none else some (recovering (new_recovery_job cfg w))

  unfoldable pub start_each : (Watched F → Option Monitor) → List (Watched F) → List Monitor
  start_each start [] = []
  start_each start (w ∷ ws) = elim (start w) [
    | none ↦ start_each start ws
    | some m ↦ m ∷ start_each start ws
  ]

  -- All goroutines that `startMonitoring` launches, in order.
  unfoldable pub start_monitoring : Config F → (String → Option String) → List Monitor
  unfolding watched_backends start_each start_monitor start_alive start_recovery
  start_monitoring cfg fetch =
      let ws = watched_backends cfg in
      start_each (start_monitor cfg fetch) ws
      ++ (start_each (start_alive cfg) ws ++ start_each (start_recovery cfg) ws)

module _ (fl : Floats) (to_int : fl.F → ℤ) where
  open fl use {F}

  -- The groups that `New` fills; `none` stands for a nil selector.
  unfoldable pub new_groups : Config F → Map (GroupConfig F) → Option (Balancer F)
  new_groups cfg [] = some []
  new_groups cfg ((name, g) ∷ gs) =
      let window = get_flow_window_duration fl to_int cfg (some g) in
      elim (group_selector fl g) [
        | none ↦ none
        | some s ↦ elim (new_groups cfg gs) [
          | none ↦ none
          | some b ↦ some (
              record {
                name = name;
                cfg = g;
                selector = s;
                states = new_states fl window (group_backends cfg name) [];
              }
              ∷ b)
        ]
      ]

  unfoldable pub new_balancer :
      Config F → (String → Option String) → Option (Balancer F × List Monitor)
  unfolding new_groups start_monitoring
  new_balancer cfg fetch = elim (new_groups cfg cfg.groups) [
    | none ↦ none
    | some b ↦ some (b, start_monitoring cfg fetch)
  ]
