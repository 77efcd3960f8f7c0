-- ===== src/Config/Lookup.antt =====
-- The lookups of internal/config/config.go and group.go.
use text.Mathlib.Text.{starts_with}
use llm_proxy.Base.{
  Bool, true, false, not, ◌&&◌, ◌||◌, List, [], ◌∷◌, map, Option, none, some, String, keep, any,
  if◌then◌else◌, ◌==◌, text_eq,
}
use llm_proxy.Base.Int.{ℤ, pos, int_leb, int_ltb, is_pos, int_eq}
use llm_proxy.Config.Types.{
  Config, Backend, Route, GroupConfig, HeadersOp, SystemPromptOp, TlsConfig,
}

-- The maps that `Load` fills: of backends with one id the last is found.
unfoldable pub find_backend : String → List Backend → Option Backend
find_backend id [] = none
find_backend id (b ∷ bs) = elim (find_backend id bs) [
  | some c ↦ some c
  | none ↦ if b.id == id then some b else none
]

unfoldable pub find_route : {F : Type 0} → String → List (Route F) → Option (Route F)
find_route model [] = none
find_route model (r ∷ rs) = elim (find_route model rs) [
  | some q ↦ some q
  | none ↦ if r.virtual_model == model then some r else none
]

unfoldable pub first_default : List Backend → Option Backend
first_default [] = none
first_default (b ∷ bs) = if b.default then some b else first_default bs

unfoldable pub positive_or : ℤ → ℤ → ℤ
positive_or n d = if is_pos n then n else d

unfoldable pub is_loopback_host : String → Bool
is_loopback_host h =
    h == "127.0.0.1" || h == "localhost" || h == "::1" || h == "[::1]" || starts_with h "127."

abbrev has_tls : TlsConfig → Bool
has_tls t = not (t.cert == "") && not (t.key == "")

-- What `ValidateListenPolicy` refuses.
pub data Refusal : Type 0 where
  gateway_plaintext metrics_plaintext : Refusal

module _ {F : Type 0} where
  -- `Config.Backend` and `Config.Route`
  unfoldable pub backend : Config F → String → Option Backend
  unfolding find_backend
  backend c id = find_backend id c.backends

  unfoldable pub route : Config F → String → Option (Route F)
  unfolding find_route
  route c model = find_route model c.routes

  unfoldable pub default_backend : Config F → Option Backend
  unfolding first_default
  default_backend c = elim (first_default c.backends) [
    | some b ↦ some b
    | none ↦ elim c.backends [ [] ↦ none | b ∷ _ ↦ some b ]
  ]

  unfoldable pub has_explicit_default : Config F → Bool
  has_explicit_default c = any (λ b. b.default) c.backends

  unfoldable pub group_backends : Config F → String → List Backend
  group_backends c group = keep (λ b. b.group == group) c.backends

  unfoldable pub virtual_models : Config F → List String
  virtual_models c = map (λ r. r.virtual_model) c.routes

  -- The route's setting, else the backend's, else the global one.
  unfoldable pub should_drop_empty_content : Config F → Option (Route F) → Option Backend → Bool
  should_drop_empty_content c r b =
      first_set (drop_of_route r)
        (first_set (drop_of_backend b) (first_set c.server.drop_empty_content false))
    where
      first_set : Option Bool → Bool → Bool
      first_set (some v) d = v
      first_set none d = d

      drop_of_route : Option (Route F) → Option Bool
      drop_of_route (some r) = r.drop_empty_content
      drop_of_route none = none

      drop_of_backend : Option Backend → Option Bool
      drop_of_backend (some b) = b.drop_empty_content
      drop_of_backend none = none

  unfoldable pub get_stale_threshold : GroupConfig F → ℤ
  unfolding positive_or
  get_stale_threshold g = positive_or g.metrics_scrape.stale_threshold_seconds (pos 30)

  unfoldable pub get_scrape_interval : GroupConfig F → ℤ
  unfolding positive_or
  get_scrape_interval g = positive_or g.metrics_scrape.interval_seconds (pos 5)

  unfoldable pub scrape_enabled : GroupConfig F → Bool
  scrape_enabled g = g.metrics_scrape.enabled == "true" || g.metrics_scrape.enabled == "auto"

  unfoldable pub get_scrape_path : GroupConfig F → String
  get_scrape_path g = if g.metrics_scrape.path == "" then "/metrics" else g.metrics_scrape.path

  unfoldable pub should_failover_on_code : GroupConfig F → ℤ → Bool
  should_failover_on_code g code =
      (int_leb (pos 500) code && int_ltb code (pos 600))
      || any (λ c. int_eq c code) g.failover_on_status_codes

  unfoldable pub validate_listen_policy : Config F → Option Refusal
  unfolding is_loopback_host
  validate_listen_policy c =
      if not (has_tls c.server.tls) && not c.server.allow_plaintext
      then some gateway_plaintext
      else if not c.prometheus.enabled
      then none
      else if has_tls c.prometheus.tls
          || is_loopback_host c.prometheus.host
          || c.prometheus.allow_plaintext
      then none
      else some metrics_plaintext

-- `IsZero` of the two operations
unfoldable pub headers_zero : HeadersOp → Bool
headers_zero h = elim h.add [
  | [] ↦ elim h.remove [ [] ↦ elim h.rename [ [] ↦ true | _ ∷ _ ↦ false ] | _ ∷ _ ↦ false ]
  | _ ∷ _ ↦ false
]

unfoldable pub prompt_zero : SystemPromptOp → Bool
prompt_zero s = s.prepend == "" && s.append == "" && s.replace == ""
