-- ===== src/Balancer/Probes.antt =====
-- The requests of the probes (internal/balancer/alive_checker.go and health.go). `resolve` is
-- url.Parse of a base and of a path with ResolveReference, `none` where one does not parse; `send`
-- is http.Client.Do with the request's context, `none` for an error.
pub mod Answering
use Prim.Native.String.{◌++◌ as text_append}
use llm_proxy.Base.{
  ℕ, Bool, true, false, ◌&&◌, ◌||◌, List, [], ◌∷◌, Option, none, some, String, leb, ltb,
  if◌then◌else◌, ◌==◌, text_eq, number_eq,
}
use llm_proxy.Base.Int.{ℤ, pos}
use llm_proxy.Base.Time.{Time, Duration, seconds}
use llm_proxy.Config.Types.{AliveProbe}
use llm_proxy.Balancer.Group.{Balancer}
use llm_proxy.Balancer.Monitor.{
  Monitor, scraping, checking, probing, recovering, ScrapeJob, HealthJob, AliveJob, or_duration,
}
use llm_proxy.Balancer.Monitor.Ticks.{timer_tick}

-- A request: a chat message of one token, sent by POST, or a GET. The client of alive probes has a
-- time limit of its own and follows redirects.
pub record Ask : Type 0 where
  pub chat : Bool
  pub url : String
  pub timeout : Duration
  pub client_timeout : Duration
  pub follows_redirects : Bool

-- An answer: its status, and the lines of its body if it can be read.
pub record Answer : Type 0 where
  pub status : ℕ
  pub body : Option (List String)

-- Any 2xx status.
abbrev pub is_success : ℕ → Bool
is_success status = leb 200 status && ltb status 300

unfoldable pub resolve_probe_url : (String → String → Option String) → String → String → String
resolve_probe_url resolve base path = elim (resolve base path) [
  | none ↦ text_append base path
  | some url ↦ url
]

module _ (send : Ask → Option Answer) where
  unfoldable pub lightweight_chat_probe : String → ℤ → Bool
  unfolding or_duration
  lightweight_chat_probe url timeout_sec =
      let ask : Ask = record {
        chat = true;
        url = url;
        timeout = or_duration (seconds timeout_sec) (seconds (pos 5));
        client_timeout = seconds (pos 10);
        follows_redirects = true;
      } in
      elim (send ask) [ none ↦ false | some answer ↦ is_success answer.status ]

  unfoldable pub http_get_probe : String → ℤ → Bool
  unfolding or_duration
  http_get_probe url timeout_sec =
      let ask : Ask = record {
        chat = false;
        url = url;
        timeout = or_duration (seconds timeout_sec) (seconds (pos 2));
        client_timeout = seconds (pos 10);
        follows_redirects = true;
      } in
      elim (send ask) [ none ↦ false | some answer ↦ is_success answer.status ]

  abbrev get_ask : String → Duration → Ask
  get_ask url timeout = record {
    chat = false;
    url = url;
    timeout = timeout;
    client_timeout = timeout;
    follows_redirects = false;
  }

  -- `hcClient.probe`: the status.
  unfoldable pub probe : String → Duration → Option ℕ
  probe url timeout = elim (send (get_ask url timeout)) [
    | none ↦ none
    | some answer ↦ some answer.status
  ]

  unfoldable pub scrape_metrics : String → Duration → Option (List String)
  scrape_metrics url timeout = elim (send (get_ask url timeout)) [
    | none ↦ none
    | some answer ↦ if answer.status == 200 then answer.body else none
  ]

module _ (resolve : String → String → Option String) (send : Ask → Option Answer) where
  -- One turn of the loop of `checkAlive`.
  unfoldable pub run_probe : String → AliveProbe → Bool
  unfolding resolve_probe_url lightweight_chat_probe http_get_probe
  run_probe base p =
      if p.type == "lightweight_chat"
      then lightweight_chat_probe send (resolve_probe_url resolve base p.path) p.timeout_seconds
      else if p.type == "http_get"
      then http_get_probe send (resolve_probe_url resolve base p.path) p.timeout_seconds
      else false

  unfoldable pub check_alive : String → List AliveProbe → Bool
  unfolding run_probe
  check_alive base [] = false
  check_alive base (p ∷ ps) = run_probe base p || check_alive base ps

  -- What the request of a monitor's tick says: whether the backend is alive, and its metrics page.
  unfoldable pub alive_of : Monitor → Bool
  unfolding probe check_alive resolve_probe_url
  alive_of (scraping j) = false
  alive_of (checking j) = elim (probe send (resolve_probe_url resolve j.url j.path) j.timeout) [
    | none ↦ false
    | some status ↦ status == 200
  ]
  alive_of (probing j) = check_alive j.url j.probes
  alive_of (recovering j) = false

  unfoldable pub page_of : Monitor → Option (List String)
  unfolding scrape_metrics resolve_probe_url
  page_of (scraping j) = scrape_metrics send (resolve_probe_url resolve j.url j.path) j.timeout
  page_of (checking j) = none
  page_of (probing j) = none
  page_of (recovering j) = none

  -- A tick of a monitor's timer with its request.
  unfoldable pub tick :
      {F : Type 0}
      → (String → Option F)
      → (F → ℤ)
      → F
      → Time
      → Monitor × Balancer F
      → Monitor × Balancer F
  unfolding timer_tick alive_of page_of
  tick parse_float to_int nil now (m, b) =
      timer_tick parse_float to_int nil now (alive_of m) (page_of m) (m, b)
