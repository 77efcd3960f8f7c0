-- ===== src/Proxy/Endpoints/Gate.antt =====
-- Which calls get past the endpoints.
use llm_proxy.Base.{Bool, true, false, ◌≡◌, ◌⊎◌, some, String, lookup, text_eq}
use llm_proxy.Base.Time.{Time}
use llm_proxy.Base.Floats.{Floats}
use llm_proxy.Proxy.Headers.{is_authorized}
use llm_proxy.Proxy.Pipeline.{Server}
use llm_proxy.Proxy.Endpoints.{
  proxied, endpoints, Call, Reply, no_endpoint, healthy, listing, relayed, forwarded, stopped,
}

-- The health check, an error, or no endpoint: nothing of the configuration and of a backend.
abbrev pub is_closed : Reply → Bool
is_closed no_endpoint = true
is_closed (healthy _ _) = true
is_closed (listing _) = false
is_closed (relayed _ _) = false
is_closed (forwarded _) = false
is_closed (stopped _) = true

-- A reply that the handler gives without the pipeline.
abbrev pub is_forwarded : Reply → Bool
is_forwarded (forwarded _) = true
is_forwarded _ = false

-- What a call is that may reach the pipeline.
pub record IsProxied {F : Type 0} (s : Server F) (c : Call) : Type 0 where
  pub authorized : is_authorized s.cfg.server.api_key c.headers ≡ true
  pub method : c.method ≡ "POST"
  pub protocol : String
  pub endpoint : lookup c.request.path endpoints ≡ some (proxied protocol)

-- What the reply and the server after a call are: nothing has happened or the call is one of the
-- pipeline's, and the reply is closed or the call bears the key.
abbrev pub IsGated : {F : Type 0} → Server F → Call → Reply × Server F → Type 0
IsGated s c (reply, after) =
    (((after ≡ s) × (is_forwarded reply ≡ false)) ⊎ IsProxied s c)
    × ((is_closed reply ≡ true) ⊎ (is_authorized s.cfg.server.api_key c.headers ≡ true))
