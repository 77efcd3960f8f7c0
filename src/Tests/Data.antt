-- ===== src/Tests/Data.antt =====
-- The inputs that the tests share. Floating-point numbers are natural numbers here.
use llm_proxy.Base.{
  ℕ, ◌+◌, ◌-◌, ◌*◌, ◌/◌, ◌≡◌, Bool, true, false, List, [], ◌∷◌, none, some, String, ltb, ◌==◌,
  number_eq, arith,
}
use llm_proxy.Base.Int.{pos, pos_part}
use llm_proxy.Base.Floats.{Floats}
use llm_proxy.Json.{Object, Value, Items, end, field, str, num, arr, obj, cons, nil}
use llm_proxy.Config.Types.{Config, Route, Backend, GroupConfig, HeadersOp, TlsConfig}
use llm_proxy.Balancer.Flow.{FlowStats}
use llm_proxy.Balancer.State.{BackendState}
use llm_proxy.Balancer.Selectors.{Sticky, sticky}
use llm_proxy.Balancer.Store.{Store}
use llm_proxy.Balancer.Group.{Group}

pub ltb_irrefl : (a : ℕ) → ltb a a ≡ false
ltb_irrefl a = ground arith

pub ltb_trans : (x y z : ℕ) → ltb x y ≡ true → ltb y z ≡ true → ltb x z ≡ true
ltb_trans x y z below above = ground arith

pub ltb_of_eq : (a b c : ℕ) → (a == b) ≡ true → ltb c b ≡ false → ltb c a ≡ false
ltb_of_eq a b c p q = ground arith

abbrev pub fixed : Floats
fixed = record {
  F = ℕ;
  of_int = pos_part;
  add = λ a b. a + b;
  sub = λ a b. a - b;
  mul = λ a b. a * b;
  div = λ a b. a / b;
  lt = ltb;
  eq = λ a b. a == b;
  lt_irrefl = ltb_irrefl;
  lt_trans = ltb_trans;
  lt_of_eq = ltb_of_eq;
}

abbrev pub quiet : FlowStats
quiet = record {
  window_seconds = pos 300;
  dispatched = 0;
  completed = 0;
  success = 0;
  failure = 0;
  timeout = 0;
  last_dispatched = 0;
  last_completed = 0;
  last_success = 0;
}

-- A backend with some requests in flight.
abbrev pub backend_with : String → Bool → ℕ → BackendState ℕ
backend_with id healthy load = record {
  id = id;
  url = "http://gpu";
  weight = pos 1;
  healthy = healthy;
  consecutive_failures = 0;
  last_health_check = 0;
  last_success_at = 0;
  ramping_up = false;
  ramp_up_end = 0;
  unhealthy_since = 0;
  recent_failure_until = 0;
  metrics_available = false;
  running_reqs = pos 0;
  waiting_reqs = pos 0;
  kv_cache_pct = 0;
  last_metrics_update = 0;
  flow = quiet;
  in_flight = pos load;
}

abbrev pub second : ℕ
second = 1000000000

abbrev pub pool : List (BackendState ℕ)
pool = backend_with "a" true 2 ∷ backend_with "b" true 1 ∷ []

abbrev pub empty_store : Store
empty_store = record { entries = []; lru = []; ttl = pos (300 * second); max_size = pos 2 }

abbrev pub selector : Sticky ℕ
selector = record {
  store = empty_store;
  max_concurrency = pos 8;
  kv_cache_pct = 0;
  stale_threshold = pos (30 * second);
}

abbrev pub settings : GroupConfig ℕ
settings = record {
  strategy = "sticky_least_loaded";
  affinity = record {
    key = "first_user";
    max_content_bytes = pos 2048;
    ttl_seconds = pos 300;
    max_entries = pos 2;
  };
  overload = record { max_concurrency = pos 8; kv_cache_pct = 0; stale_metrics_action = "" };
  health_check = record {
    enabled = "auto";
    path = "";
    interval_seconds = pos 10;
    timeout_seconds = pos 2;
    unhealthy_after = pos 3;
  };
  metrics_scrape = record {
    enabled = "auto";
    interval_seconds = pos 5;
    path = "";
    stale_threshold_seconds = pos 30;
  };
  monitoring = none;
  failover_on_status_codes = [];
}

abbrev pub group : Group ℕ
group = record { name = "gpus"; cfg = settings; selector = sticky selector; states = pool }

abbrev pub no_headers : HeadersOp
no_headers = record { add = []; remove = []; rename = [] }

abbrev pub upstream : Backend
upstream = record {
  id = "a";
  type = "openai";
  base_url = "http://a";
  api_key = "";
  auth_type = "";
  group = "";
  timeout_seconds = pos 0;
  max_concurrency = pos 0;
  skip_probe = false;
  default = true;
  ports = [];
  headers = no_headers;
  drop_empty_content = none;
  defenders = none;
}

abbrev pub chat_route : Route ℕ
chat_route = record {
  virtual_model = "chat";
  backend = "a";
  backend_group = "";
  real_model = "qwen";
  context_length = pos 0;
  defaults = field "temperature" (num 1) end;
  clamp = field "max_tokens" (num 100) end;
  auto_route = none;
  system_prompt = record { prepend = ""; append = ""; replace = "" };
  inject = end;
  headers = no_headers;
  drop_empty_content = none;
  defenders = none;
}

abbrev pub auto_route : Route ℕ
auto_route = record chat_route {
  virtual_model = "auto";
  backend = "";
  auto_route = some (record { text = "chat"; vision = "chat" });
}

abbrev pub no_tls : TlsConfig
no_tls = record { cert = ""; key = "" }

abbrev pub config : Config ℕ
config = record {
  server = record {
    host = "";
    port = pos 8080;
    api_key = "";
    passthrough_unrouted = false;
    log_level = none;
    max_request_body_mb = pos 10;
    allow_plaintext = true;
    tls = no_tls;
    transport = record {
      max_idle_conns = pos 0;
      max_idle_conns_per_host = pos 0;
      idle_conn_timeout = pos 0;
    };
    drop_empty_content = none;
  };
  prometheus = record {
    enabled = false;
    host = "";
    port = pos 0;
    path = "";
    allow_plaintext = false;
    tls = no_tls;
  };
  defenders = record { loop_detection = none; zero_content_detection = none };
  load_balancing = record {
    metrics = record {
      startup_retries = pos 0;
      startup_backoff_sec = pos 0;
      retry_interval_sec = pos 0;
      scrape_timeout_seconds = pos 0;
    };
    flow_tracking = record { window_mode = ""; window_multiplier = 0; window_fixed_sec = pos 0 };
    recovery = record { retry_delay_sec = pos 0; ramp_up_sec = pos 0 };
  };
  backends = upstream ∷ [];
  routes = chat_route ∷ auto_route ∷ [];
  groups = [];
}

abbrev pub user_message : String → Value ℕ
user_message text = obj (field "role" (str "user") (field "content" (str text) end))

abbrev pub messages : Items ℕ
messages = cons (user_message "Hello") nil

abbrev pub body : Object ℕ
body = field "model" (str "chat") (
    field "temperature" (num 2)
      (field "max_tokens" (num 9999) (field "messages" (arr messages) end)))
