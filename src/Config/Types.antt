-- ===== src/Config/Types.antt =====
-- The configuration schema of internal/config/config.go and group.go, as the loader hands it on.
-- Settings that may be absent, Go's nil pointers, are `Option`; `F` is the type of float64 numbers.
use llm_proxy.Base.{Bool, String, Option, List, Map}
use llm_proxy.Base.Int.{ℤ}
use llm_proxy.Json.{Object}

pub record TlsConfig : Type 0 where
  pub cert : String
  pub key : String

pub record TransportConfig : Type 0 where
  pub max_idle_conns : ℤ
  pub max_idle_conns_per_host : ℤ
  pub idle_conn_timeout : ℤ

pub record ServerConfig : Type 0 where
  pub host : String
  pub port : ℤ
  pub api_key : String
  pub passthrough_unrouted : Bool
  pub log_level : Option ℤ
  pub max_request_body_mb : ℤ
  pub allow_plaintext : Bool
  pub tls : TlsConfig
  pub transport : TransportConfig
  pub drop_empty_content : Option Bool

pub record PrometheusConfig : Type 0 where
  pub enabled : Bool
  pub host : String
  pub port : ℤ
  pub path : String
  pub allow_plaintext : Bool
  pub tls : TlsConfig

pub record LoopDetectionConfig : Type 0 where
  pub enabled : Bool
  pub consecutive_threshold : ℤ
  pub window_seconds : ℤ
  pub action : String
  pub escalate_after : ℤ
  pub escalate_action : String

pub record ZeroContentDetectionConfig : Type 0 where
  pub enabled : Bool
  pub min_user_content_chars : ℤ
  pub min_total_input_tokens : ℤ
  pub action : String

-- `DefenderConfig`, and `RouteDefenderConfig`, which has the same fields
pub record DefenderConfig : Type 0 where
  pub loop_detection : Option LoopDetectionConfig
  pub zero_content_detection : Option ZeroContentDetectionConfig

pub record AutoRoute : Type 0 where
  pub text : String
  pub vision : String

pub record SystemPromptOp : Type 0 where
  pub prepend : String
  pub append : String
  pub replace : String

pub record HeadersOp : Type 0 where
  pub add : Map String
  pub remove : List String
  pub rename : Map String

pub record Backend : Type 0 where
  pub id : String
  pub type : String
  pub base_url : String
  pub api_key : String
  pub auth_type : String
  pub group : String
  pub timeout_seconds : ℤ
  pub max_concurrency : ℤ
  pub skip_probe : Bool
  pub default : Bool
  pub ports : List ℤ
  pub headers : HeadersOp
  pub drop_empty_content : Option Bool
  pub defenders : Option DefenderConfig

pub record Route (F : Type 0) : Type 0 where
  pub virtual_model : String
  pub backend : String
  pub backend_group : String
  pub real_model : String
  pub context_length : ℤ
  pub defaults : Object F
  pub clamp : Object F
  pub auto_route : Option AutoRoute
  pub system_prompt : SystemPromptOp
  pub inject : Object F
  pub headers : HeadersOp
  pub drop_empty_content : Option Bool
  pub defenders : Option DefenderConfig

pub record AliveProbe : Type 0 where
  pub type : String
  pub path : String
  pub timeout_seconds : ℤ

pub record AliveConfig : Type 0 where
  pub enabled : String
  pub interval_seconds : ℤ
  pub unhealthy_after : ℤ
  pub probes : List AliveProbe

pub record MetricsConfig : Type 0 where
  pub startup_retries : ℤ
  pub startup_backoff_sec : ℤ
  pub retry_interval_sec : ℤ
  pub scrape_timeout_seconds : ℤ

pub record FlowTrackingConfig (F : Type 0) : Type 0 where
  pub window_mode : String
  pub window_multiplier : F
  pub window_fixed_sec : ℤ

pub record RecoveryConfig : Type 0 where
  pub retry_delay_sec : ℤ
  pub ramp_up_sec : ℤ

pub record LoadBalancingConfig (F : Type 0) : Type 0 where
  pub metrics : MetricsConfig
  pub flow_tracking : FlowTrackingConfig F
  pub recovery : RecoveryConfig

pub record AffinityConfig : Type 0 where
  pub key : String
  pub max_content_bytes : ℤ
  pub ttl_seconds : ℤ
  pub max_entries : ℤ

pub record OverloadConfig (F : Type 0) : Type 0 where
  pub max_concurrency : ℤ
  pub kv_cache_pct : F
  pub stale_metrics_action : String

pub record HealthCheckConfig : Type 0 where
  pub enabled : String
  pub path : String
  pub interval_seconds : ℤ
  pub timeout_seconds : ℤ
  pub unhealthy_after : ℤ

pub record MetricsScrapeConfig : Type 0 where
  pub enabled : String
  pub interval_seconds : ℤ
  pub path : String
  pub stale_threshold_seconds : ℤ

pub record GroupMonitoringConfig (F : Type 0) : Type 0 where
  pub alive : Option AliveConfig
  pub metrics : Option MetricsConfig
  pub flow_tracking : Option (FlowTrackingConfig F)
  pub recovery : Option RecoveryConfig

pub record GroupConfig (F : Type 0) : Type 0 where
  pub strategy : String
  pub affinity : AffinityConfig
  pub overload : OverloadConfig F
  pub health_check : HealthCheckConfig
  pub metrics_scrape : MetricsScrapeConfig
  pub monitoring : Option (GroupMonitoringConfig F)
  pub failover_on_status_codes : List ℤ

-- The journal and capture settings are switches of parts that are not modelled. `backendByID` and
-- `routeByModel` are computed from the two lists (Config/Lookup).
pub record Config (F : Type 0) : Type 0 where
  pub server : ServerConfig
  pub prometheus : PrometheusConfig
  pub defenders : DefenderConfig
  pub load_balancing : LoadBalancingConfig F
  pub backends : List Backend
  pub routes : List (Route F)
  pub groups : Map (GroupConfig F)
