-- ===== src/Config/Load/Defaults.antt =====
-- `applyDefaults`. `canonical` is url.Parse with URL.String after it, `none` where the parse fails.
use llm_proxy.Base.{
  ◌≡◌, refl, false, List, [], ◌∷◌, map, Option, none, some, String, Map, if◌then◌else◌, ◌==◌,
  text_eq, Bool-cases, inl, inr,
}
use llm_proxy.Base.Int.{ℤ, pos, is_zero}
use llm_proxy.Config.Types.{
  Config, Backend, GroupConfig, AffinityConfig, HealthCheckConfig, ServerConfig, PrometheusConfig,
  TransportConfig,
}

-- A decoded file: `groups` may have names without settings, Go's nil, and stands for the field of the
-- configuration.
pub record Parsed (F : Type 0) : Type 0 where
  pub config : Config F
  pub groups : Map (Option (GroupConfig F))

abbrev pub int_or : ℤ → ℤ → ℤ
int_or n d = if is_zero n then d else n

abbrev pub text_or : String → String → String
text_or s d = if s == "" then d else s

unfoldable pub default_transport : TransportConfig → TransportConfig
default_transport t = record {
  max_idle_conns = int_or t.max_idle_conns (pos 100);
  max_idle_conns_per_host = int_or t.max_idle_conns_per_host (pos 20);
  idle_conn_timeout = int_or t.idle_conn_timeout (pos 120);
}

unfoldable pub default_server : ServerConfig → ServerConfig
unfolding default_transport
default_server s = record s {
  host = text_or s.host "0.0.0.0";
  port = int_or s.port (pos 4000);
  transport = default_transport s.transport;
  max_request_body_mb = int_or s.max_request_body_mb (pos 50);
}

unfoldable pub default_prometheus : PrometheusConfig → PrometheusConfig
default_prometheus p = record p {
  port = int_or p.port (pos 9091);
  path = text_or p.path "/metrics";
  host = text_or p.host "127.0.0.1";
}

module _ (canonical : String → Option String) where
  unfoldable pub canonical_url : String → String
  canonical_url url = elim (canonical url) [ none ↦ url | some u ↦ u ]

  unfoldable pub settle_backend : Backend → Backend
  unfolding canonical_url
  settle_backend b = record b {
    timeout_seconds = int_or b.timeout_seconds (pos 300);
    base_url = canonical_url b.base_url;
  }

unfoldable pub default_affinity : AffinityConfig → AffinityConfig
default_affinity a = record {
  key = text_or a.key "first_user_message";
  max_content_bytes = int_or a.max_content_bytes (pos 2048);
  ttl_seconds = int_or a.ttl_seconds (pos 3600);
  max_entries = int_or a.max_entries (pos 10000);
}

unfoldable pub default_health_check : HealthCheckConfig → HealthCheckConfig
default_health_check h = record h {
  path = text_or h.path "models";
  interval_seconds = int_or h.interval_seconds (pos 10);
  timeout_seconds = int_or h.timeout_seconds (pos 5);
  unhealthy_after = int_or h.unhealthy_after (pos 3);
}

module _ {F : Type 0} (nil : F) where
  -- &GroupConfig{}, with the float64 0
  abbrev pub empty_group : GroupConfig F
  empty_group = record {
    strategy = "";
    affinity = record {
      key = "";
      max_content_bytes = pos 0;
      ttl_seconds = pos 0;
      max_entries = pos 0;
    };
    overload = record { max_concurrency = pos 0; kv_cache_pct = nil; stale_metrics_action = "" };
    health_check = record {
      enabled = "";
      path = "";
      interval_seconds = pos 0;
      timeout_seconds = pos 0;
      unhealthy_after = pos 0;
    };
    metrics_scrape = record {
      enabled = "";
      interval_seconds = pos 0;
      path = "";
      stale_threshold_seconds = pos 0;
    };
    monitoring = none;
    failover_on_status_codes = [];
  }

  abbrev pub group_or_empty : Option (GroupConfig F) → GroupConfig F
  group_or_empty none = empty_group
  group_or_empty (some g) = g

  unfoldable pub default_group : GroupConfig F → GroupConfig F
  unfolding default_affinity default_health_check
  default_group g = record g {
    strategy = text_or g.strategy "sticky_least_loaded";
    affinity = default_affinity g.affinity;
    overload = record g.overload {
      stale_metrics_action = text_or g.overload.stale_metrics_action "pin";
    };
    health_check = default_health_check g.health_check;
  }

  unfoldable pub default_groups : Map (Option (GroupConfig F)) → Map (GroupConfig F)
  unfolding default_group
  default_groups [] = []
  default_groups ((name, g) ∷ gs) = (name, default_group (group_or_empty g)) ∷ default_groups gs

  unfoldable pub apply_defaults : (String → Option String) → Parsed F → Config F
  unfolding default_server default_prometheus settle_backend default_groups
  apply_defaults canonical p = record p.config {
    server = default_server p.config.server;
    prometheus = default_prometheus p.config.prometheus;
    backends = map (settle_backend canonical) p.config.backends;
    groups = default_groups p.groups;
  }

int_or-int_or : (n d : ℤ) → is_zero d ≡ false → int_or (int_or n d) d ≡ int_or n d
int_or-int_or n d h = elim (Bool-cases (is_zero n)) [
  | inl e ↦ rw (e, h) refl
  | inr e ↦ rw (e, e) refl
]

text_or-text_or : (s d : String) → (d == "") ≡ false → text_or (text_or s d) d ≡ text_or s d
text_or-text_or s d h = elim (Bool-cases (s == "")) [
  | inl e ↦ rw (e, h) refl
  | inr e ↦ rw (e, e) refl
]

default_transport_twice :
    (t : TransportConfig) → default_transport (default_transport t) ≡ default_transport t
unfolding default_transport
default_transport_twice t = λ i. record {
  max_idle_conns = int_or-int_or t.max_idle_conns (pos 100) refl i;
  max_idle_conns_per_host = int_or-int_or t.max_idle_conns_per_host (pos 20) refl i;
  idle_conn_timeout = int_or-int_or t.idle_conn_timeout (pos 120) refl i;
}

default_server_twice : (s : ServerConfig) → default_server (default_server s) ≡ default_server s
unfolding default_server
default_server_twice s = λ i. record s {
  host = text_or-text_or s.host "0.0.0.0" refl i;
  port = int_or-int_or s.port (pos 4000) refl i;
  transport = default_transport_twice s.transport i;
  max_request_body_mb = int_or-int_or s.max_request_body_mb (pos 50) refl i;
}

default_prometheus_twice :
    (p : PrometheusConfig) → default_prometheus (default_prometheus p) ≡ default_prometheus p
unfolding default_prometheus
default_prometheus_twice p = λ i. record p {
  port = int_or-int_or p.port (pos 9091) refl i;
  path = text_or-text_or p.path "/metrics" refl i;
  host = text_or-text_or p.host "127.0.0.1" refl i;
}

default_affinity_twice :
    (a : AffinityConfig) → default_affinity (default_affinity a) ≡ default_affinity a
unfolding default_affinity
default_affinity_twice a = λ i. record {
  key = text_or-text_or a.key "first_user_message" refl i;
  max_content_bytes = int_or-int_or a.max_content_bytes (pos 2048) refl i;
  ttl_seconds = int_or-int_or a.ttl_seconds (pos 3600) refl i;
  max_entries = int_or-int_or a.max_entries (pos 10000) refl i;
}

default_health_check_twice :
    (h : HealthCheckConfig) → default_health_check (default_health_check h) ≡ default_health_check h
unfolding default_health_check
default_health_check_twice h = λ i. record h {
  path = text_or-text_or h.path "models" refl i;
  interval_seconds = int_or-int_or h.interval_seconds (pos 10) refl i;
  timeout_seconds = int_or-int_or h.timeout_seconds (pos 5) refl i;
  unhealthy_after = int_or-int_or h.unhealthy_after (pos 3) refl i;
}

-- A parser of URLs that refuses all of them, so that they stay as they are written.
abbrev pub as_written : String → Option String
as_written url = none

settle_backend_twice :
    (canonical : String → Option String) (b : Backend)
    → settle_backend as_written (settle_backend canonical b) ≡ settle_backend canonical b
unfolding settle_backend canonical_url
settle_backend_twice canonical b = λ i. record b {
  timeout_seconds = int_or-int_or b.timeout_seconds (pos 300) refl i;
  base_url = canonical_url canonical b.base_url;
}

settle_backends_twice :
    (canonical : String → Option String) (bs : List Backend)
    → map (settle_backend as_written) (map (settle_backend canonical) bs)
      ≡ map (settle_backend canonical) bs
settle_backends_twice canonical [] = refl
settle_backends_twice canonical (b ∷ bs) =
    λ i. settle_backend_twice canonical b i ∷ settle_backends_twice canonical bs i

module _ {F : Type 0} (nil : F) where
  default_group_twice :
      (g : GroupConfig F) → default_group nil (default_group nil g) ≡ default_group nil g
  unfolding default_group
  default_group_twice g = λ i. record g {
    strategy = text_or-text_or g.strategy "sticky_least_loaded" refl i;
    affinity = default_affinity_twice g.affinity i;
    overload = record g.overload {
      stale_metrics_action = text_or-text_or g.overload.stale_metrics_action "pin" refl i;
    };
    health_check = default_health_check_twice g.health_check i;
  }

  -- The settings of a configuration, as a file that has them all decodes.
  unfoldable pub as_parsed : Config F → Parsed F
  as_parsed c = record {
    config = c;
    groups = map (λ (p : String × GroupConfig F). (p.0, some (p.1))) c.groups;
  }

  default_groups_twice :
      (gs : Map (Option (GroupConfig F)))
      → default_groups nil
          (map (λ (p : String × GroupConfig F). (p.0, some (p.1))) (default_groups nil gs))
        ≡ default_groups nil gs
  unfolding default_groups
  default_groups_twice [] = refl
  default_groups_twice ((name, g) ∷ gs) =
      λ i. (name, default_group_twice (group_or_empty nil g) i) ∷ default_groups_twice gs i

  -- Defaults that are applied to a configuration that has them change nothing, but for the URLs.
  pub apply_defaults_twice :
      (canonical : String → Option String) (p : Parsed F)
      → apply_defaults nil as_written (as_parsed (apply_defaults nil canonical p))
        ≡ apply_defaults nil canonical p
  unfolding apply_defaults as_parsed
  apply_defaults_twice canonical p = λ i. record p.config {
    server = default_server_twice p.config.server i;
    prometheus = default_prometheus_twice p.config.prometheus i;
    backends = settle_backends_twice canonical p.config.backends i;
    groups = default_groups_twice p.groups i;
  }
