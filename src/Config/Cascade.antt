-- ===== src/Config/Cascade.antt =====
-- The settings that cascade: defaults, then the global block, then the group's or the route's.
pub mod Positive
use llm_proxy.Base.{true, Option, none, some, [], map, String, if◌then◌else◌, ◌==◌, text_eq}
use llm_proxy.Base.Int.{ℤ, pos, is_pos, is_zero}
use llm_proxy.Base.Floats.{Floats}
use llm_proxy.Config.Types.{
  Config, Route, GroupConfig, LoopDetectionConfig, ZeroContentDetectionConfig, DefenderConfig,
  AliveConfig, AliveProbe, MetricsConfig, FlowTrackingConfig, RecoveryConfig,
}

-- if new > 0 { old = new }, and the same for texts that are not empty
abbrev pub over_int : ℤ → ℤ → ℤ
over_int new old = if is_pos new then new else old

abbrev pub over_text : String → String → String
over_text new old = if new == "" then old else new

abbrev pub default_loop : LoopDetectionConfig
default_loop = record {
  enabled = true;
  consecutive_threshold = pos 3;
  window_seconds = pos 60;
  action = "inject_forcing_message";
  escalate_after = pos 2;
  escalate_action = "refuse_429";
}

-- One layer of loop detection over the settings below it; `enabled` is taken as it stands.
unfoldable pub over_loop : Option LoopDetectionConfig → LoopDetectionConfig → LoopDetectionConfig
over_loop none c = c
over_loop (some n) c = record {
  enabled = n.enabled;
  consecutive_threshold = over_int n.consecutive_threshold c.consecutive_threshold;
  window_seconds = over_int n.window_seconds c.window_seconds;
  action = over_text n.action c.action;
  escalate_after = over_int n.escalate_after c.escalate_after;
  escalate_action = over_text n.escalate_action c.escalate_action;
}

abbrev default_zero_content : ZeroContentDetectionConfig
default_zero_content = record {
  enabled = true;
  min_user_content_chars = pos 10;
  min_total_input_tokens = pos 2000;
  action = "refuse_400";
}

unfoldable pub over_zero_content :
    Option ZeroContentDetectionConfig → ZeroContentDetectionConfig → ZeroContentDetectionConfig
over_zero_content none c = c
over_zero_content (some n) c = record {
  enabled = n.enabled;
  min_user_content_chars = over_int n.min_user_content_chars c.min_user_content_chars;
  min_total_input_tokens = over_int n.min_total_input_tokens c.min_total_input_tokens;
  action = over_text n.action c.action;
}

abbrev pub default_metrics : MetricsConfig
default_metrics = record {
  startup_retries = pos 3;
  startup_backoff_sec = pos 5;
  retry_interval_sec = pos 120;
  scrape_timeout_seconds = pos 3;
}

unfoldable pub over_metrics : MetricsConfig → MetricsConfig → MetricsConfig
over_metrics n c = record {
  startup_retries = over_int n.startup_retries c.startup_retries;
  startup_backoff_sec = over_int n.startup_backoff_sec c.startup_backoff_sec;
  retry_interval_sec = over_int n.retry_interval_sec c.retry_interval_sec;
  scrape_timeout_seconds = over_int n.scrape_timeout_seconds c.scrape_timeout_seconds;
}

abbrev pub default_recovery : RecoveryConfig
default_recovery = record { retry_delay_sec = pos 30; ramp_up_sec = pos 60 }

unfoldable pub over_recovery : RecoveryConfig → RecoveryConfig → RecoveryConfig
over_recovery n c = record {
  retry_delay_sec = over_int n.retry_delay_sec c.retry_delay_sec;
  ramp_up_sec = over_int n.ramp_up_sec c.ramp_up_sec;
}

-- One probe with its path and timeout filled in.
unfoldable pub fill_probe : AliveProbe → AliveProbe
fill_probe p = record {
  type = p.type;
  path =
      if p.path == ""
      then (if p.type == "lightweight_chat"
          then "chat/completions"
          else if p.type == "http_get"
          then "health"
          else "")
      else p.path;
  timeout_seconds = if is_zero p.timeout_seconds then pos 5 else p.timeout_seconds;
}

unfoldable pub over_alive : AliveConfig → AliveConfig
unfolding fill_probe
over_alive n = record {
  enabled = n.enabled;
  interval_seconds = over_int n.interval_seconds (pos 60);
  unhealthy_after = over_int n.unhealthy_after (pos 3);
  probes = map fill_probe n.probes;
}

abbrev default_alive : AliveConfig
default_alive = record {
  enabled = "";
  interval_seconds = pos 60;
  unhealthy_after = pos 3;
  probes = [];
}

module _ {F : Type 0} where
  abbrev pub route_defenders : Option (Route F) → Option DefenderConfig
  route_defenders none = none
  route_defenders (some r) = r.defenders

  unfoldable pub get_loop_detection : Config F → Option (Route F) → LoopDetectionConfig
  unfolding over_loop
  get_loop_detection c r =
      let base = over_loop c.defenders.loop_detection default_loop in
      elim (route_defenders r) [ none ↦ base | some d ↦ over_loop d.loop_detection base ]

  unfoldable pub get_zero_content_detection :
      Config F → Option (Route F) → ZeroContentDetectionConfig
  unfolding over_zero_content
  get_zero_content_detection c r =
      let base = over_zero_content c.defenders.zero_content_detection default_zero_content in
      elim (route_defenders r) [
        | none ↦ base
        | some d ↦ over_zero_content d.zero_content_detection base
      ]

  unfoldable pub get_alive_config : GroupConfig F → AliveConfig
  unfolding over_alive
  get_alive_config g = elim g.monitoring [
    | none ↦ default_alive
    | some m ↦ elim m.alive [ none ↦ default_alive | some a ↦ over_alive a ]
  ]

  unfoldable pub get_metrics_config : Config F → Option (GroupConfig F) → MetricsConfig
  unfolding over_metrics
  get_metrics_config c g =
      let base = over_metrics c.load_balancing.metrics default_metrics in
      elim g [
        | none ↦ base
        | some h ↦ elim h.monitoring [
          | none ↦ base
          | some m ↦ elim m.metrics [ none ↦ base | some n ↦ over_metrics n base ]
        ]
      ]

  unfoldable pub get_recovery : Config F → Option (GroupConfig F) → RecoveryConfig
  unfolding over_recovery
  get_recovery c g =
      let base = over_recovery c.load_balancing.recovery default_recovery in
      elim g [
        | none ↦ base
        | some h ↦ elim h.monitoring [
          | none ↦ base
          | some m ↦ elim m.recovery [ none ↦ base | some n ↦ over_recovery n base ]
        ]
      ]

module _ (fl : Floats) where
  open fl use {F, of_int, lt}

  -- `to_int` is Go's conversion of a float64 to an int.
  unfoldable pub over_flow : FlowTrackingConfig F → FlowTrackingConfig F → FlowTrackingConfig F
  over_flow n c = record {
    window_mode = over_text n.window_mode c.window_mode;
    window_multiplier =
        if lt (of_int (pos 0)) n.window_multiplier
        then n.window_multiplier
        else c.window_multiplier;
    window_fixed_sec = over_int n.window_fixed_sec c.window_fixed_sec;
  }

  unfoldable pub get_flow_tracking : Config F → Option (GroupConfig F) → FlowTrackingConfig F
  unfolding over_flow
  get_flow_tracking c g =
      let base = over_flow c.load_balancing.flow_tracking default_flow in
      elim g [
        | none ↦ base
        | some h ↦ elim h.monitoring [
          | none ↦ base
          | some m ↦ elim m.flow_tracking [ none ↦ base | some n ↦ over_flow n base ]
        ]
      ]
    where
      default_flow : FlowTrackingConfig F
      default_flow = record {
        window_mode = "multiplier";
        window_multiplier = of_int (pos 2);
        window_fixed_sec = pos 300;
      }

  unfoldable pub get_flow_window_duration : (F → ℤ) → Config F → Option (GroupConfig F) → ℤ
  unfolding get_flow_tracking
  get_flow_window_duration to_int c g =
      let ft = get_flow_tracking c g in
      if ft.window_mode == "fixed"
      then (if is_pos ft.window_fixed_sec then ft.window_fixed_sec else pos 300)
      else if ft.window_mode == "multiplier"
      then to_int (fl.mul ft.window_multiplier (of_int (pos 300)))
      else pos 300
