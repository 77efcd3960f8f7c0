-- ===== src/Tests/Doors.antt =====
-- Calls of a server with a key, and its list of models.
use llm_proxy.Base.{ℕ, ◌≡◌, refl, true, [], ◌∷◌, Option, none, some, String, In, ◌↔◌, ok, lookup}
use llm_proxy.Config.Lookup.{find_route}
use llm_proxy.Config.Types.{Route}
use llm_proxy.Config.Validate.{
  validate, validate_backends, check_backend, validate_routes, check_route, prompt_ops,
}
use llm_proxy.Proxy.Pipeline.{Server, refused}
use llm_proxy.Proxy.Headers.{is_authorized, values}
use llm_proxy.Proxy.Endpoints.{Call, Upstream, unreachable, stopped, listing, serve, handle, models}
use llm_proxy.Proxy.Endpoints.Listing.{models-validated}
use llm_proxy.Tests.Data.{fixed, config}
use llm_proxy.Tests.Pipelines.{external, request, server}

abbrev keyed : Server ℕ
keyed = record server {
  cfg = record config { server = record config.server { api_key = "secret" } };
}

abbrev no_tags : String → Option String → Upstream
no_tags url key = unreachable

abbrev call : Call
call = record { method = "POST"; headers = []; request = request }

abbrev models_call : Call
models_call = record {
  method = "GET";
  headers = ("Authorization", "Bearer secret" ∷ []) ∷ [];
  request = record request { path = "/v1/models" };
}

program : Unit {0}
unfolding serve handle is_authorized values models lookup validate validate_backends check_backend
    validate_routes check_route prompt_ops
program = tt

denied : serve fixed external some no_tags 0 0 true call keyed ≡ (stopped (refused 401), keyed)
unfolding program
denied = refl

listed :
    serve fixed external some no_tags 0 0 true models_call keyed ≡ (listing ("chat" ∷ []), keyed)
unfolding program
listed = refl

valid : validate config ≡ ok tt
unfolding program
valid = refl

models-validated_example :
    In "chat" (models config.routes)
    ↔ ((r : Route ℕ) × (find_route "chat" config.routes ≡ some r) × (r.auto_route ≡ none))
models-validated_example = models-validated config valid "chat"
