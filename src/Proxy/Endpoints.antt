-- ===== src/Proxy/Endpoints.antt =====
-- The endpoints (`RegisterRoutes` and the handlers of internal/proxy/server.go and ollama.go): the
-- bearer token, the methods, the list of models, and Ollama's tags. http.ServeMux matches a pattern
-- without a slash at its end against the whole path. `tags_url` is url.Parse with ResolveReference
-- of "api/tags", and `ask` is the GET request to a backend.
pub mod Gate
pub mod Listing
use Prim.Native.String.{◌++◌ as text_append}
use llm_proxy.Base.{
  ℕ, Bool, true, false, ◌||◌, List, [], ◌∷◌, Option, none, some, String, Map, lookup, Result, ok,
  err, if◌then◌else◌, ◌==◌, text_eq,
}
use llm_proxy.Base.Time.{Time}
use llm_proxy.Base.Floats.{Floats}
use llm_proxy.Config.Types.{Config, Backend, Route}
use llm_proxy.Proxy.Headers.{Header, is_authorized}
use llm_proxy.Proxy.Pipeline.{Server, Request, Stop, refused, Forwarded, External}
use llm_proxy.Proxy.Pipeline.Start.{proxy_request}

-- The handlers: `proxied` with the protocol of its options.
pub data Handler : Type 0 where
  health list_models list_tags : Handler
  proxied : String → Handler

abbrev pub endpoints : Map Handler
endpoints =
    ("/health", health)
    ∷ ("/v1/models", list_models)
    ∷ ("/v1/chat/completions", proxied "")
    ∷ ("/v1/completions", proxied "openai")
    ∷ ("/v1/embeddings", proxied "openai")
    ∷ ("/v1/messages", proxied "")
    ∷ ("/api/chat", proxied "ollama")
    ∷ ("/api/generate", proxied "ollama")
    ∷ ("/api/embed", proxied "ollama")
    ∷ ("/api/embeddings", proxied "ollama")
    ∷ ("/api/tags", list_tags)
    ∷ []

-- A call of the server: `request.header` reads `headers`.
pub record Call : Type 0 where
  pub method : String
  pub headers : Header
  pub request : Request

-- What a backend answers to a GET: nothing, a body that breaks off, or a status with its body.
pub data Upstream : Type 0 where
  unreachable broken_off : Upstream
  response : ℕ → String → Upstream

pub data Reply : Type 0 where
  no_endpoint : Reply
  -- The version and the build mode.
  healthy : String → String → Reply
  listing : List String → Reply
  relayed : ℕ → String → Reply
  forwarded : Forwarded → Reply
  stopped : Stop → Reply

-- The names that the list of models has.
unfoldable pub models : {F : Type 0} → List (Route F) → List String
models [] = []
models (r ∷ rs) = elim r.auto_route [ some auto ↦ models rs | none ↦ r.virtual_model ∷ models rs ]

unfoldable pub ollama_backend : List Backend → Option Backend
ollama_backend [] = none
ollama_backend (b ∷ bs) = if b.type == "ollama" then some b else ollama_backend bs

abbrev bearer : String → Option String
bearer key = if key == "" then none else some (text_append "Bearer " key)

abbrev relay : Upstream → Reply
relay unreachable = stopped (refused 502)
relay broken_off = stopped (refused 502)
relay (response status body) = relayed status body

module _ (tags_url : String → Option String) (ask : String → Option String → Upstream) where
  unfoldable pub ollama_tags : List Backend → Reply
  unfolding ollama_backend
  ollama_tags bs = elim (ollama_backend bs) [
    | none ↦ stopped (refused 503)
    | some b ↦ elim (tags_url b.base_url) [
      | none ↦ stopped (refused 500)
      | some url ↦ relay (ask url (bearer b.api_key))
    ]
  ]

abbrev pub reply_of : Result Stop Forwarded → Reply
reply_of (ok f) = forwarded f
reply_of (err stop) = stopped stop

module _ (Fl : Floats) (ext : External Fl) (tags_url : String → Option String)
    (ask : String → Option String → Upstream) where
  open Fl use {F}

  -- The handler of an endpoint, for a call that may pass.
  unfoldable pub handle : Time → ℕ → Bool → Handler → Call → Server F → Reply × Server F
  unfolding proxy_request models ollama_tags
  handle now now_unix turn health c s = (healthy s.version s.build_mode, s)
  handle now now_unix turn list_models c s =
      (if c.method == "GET" then listing (models s.cfg.routes) else stopped (refused 405), s)
  handle now now_unix turn list_tags c s = (
    if c.method == "GET" then ollama_tags tags_url ask s.cfg.backends else stopped (refused 405),
    s,
  )
  handle now now_unix turn (proxied protocol) c s =
      let out =
        proxy_request Fl ext now now_unix turn (record c.request { protocol = protocol }) s in
      if c.method == "POST" then (reply_of out.0, out.1) else (stopped (refused 405), s)

  -- A call: every endpoint but the health check asks for the key.
  unfoldable pub serve : Time → ℕ → Bool → Call → Server F → Reply × Server F
  unfolding handle is_authorized
  serve now now_unix turn c s = elim (lookup c.request.path endpoints) [
    | none ↦ (no_endpoint, s)
    | some health ↦ (healthy s.version s.build_mode, s)
    | some h ↦
        if is_authorized s.cfg.server.api_key c.headers
        then handle now now_unix turn h c s
        else (stopped (refused 401), s)
  ]
