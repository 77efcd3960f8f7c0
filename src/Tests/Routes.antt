-- ===== src/Tests/Routes.antt =====
-- Validation, routing and the merge of parameters on a small configuration.
use llm_proxy.Base.{◌≡◌, refl, false, not, ◌&&◌, some, ok, here, if◌then◌else◌, ◌==◌, text_eq, ◌⊎◌}
use llm_proxy.Json.{num, get, put}
use llm_proxy.Config.Types.{Backend}
use llm_proxy.Config.Lookup.{find_backend, find_route, group_backends}
use llm_proxy.Config.Validate.{
  validate, validate_backends, validate_routes, check_backend, check_route, prompt_ops, is_some,
}
use llm_proxy.Config.Validate.Sound.{validate_sound}
use llm_proxy.Router.{
  resolve, resolve_at, route_backend, resolution, merge_params, put_all, sampling_keys, auto_target,
  is_multimodal, is_media_message, has_media, is_media_part,
}
use llm_proxy.Router.Merge.{or_else, get-merge_params}
use llm_proxy.Router.Resolve.{resolve-validated}
use llm_proxy.Tests.Data.{config, chat_route, upstream, body}

program : Unit {0}
unfolding find_backend find_route group_backends validate validate_backends validate_routes
    check_backend check_route prompt_ops resolve resolve_at route_backend resolution merge_params
    put_all sampling_keys auto_target is_multimodal is_media_message has_media is_media_part get put
program = tt

get-merge_params_example :
    get "max_tokens" (merge_params chat_route.defaults body chat_route.clamp)
    ≡ or_else (get "max_tokens" chat_route.clamp) (
        if sampling_keys "max_tokens"
        then or_else (get "max_tokens" body) (get "max_tokens" chat_route.defaults)
        else get "max_tokens" chat_route.defaults)
get-merge_params_example = get-merge_params chat_route.defaults body chat_route.clamp "max_tokens"

-- The caller's temperature wins over the default, and the clamp over the caller.
merged :
    (get "temperature" (merge_params chat_route.defaults body chat_route.clamp) ≡ some (num 2))
    × (get "max_tokens" (merge_params chat_route.defaults body chat_route.clamp) ≡ some (num 100))
unfolding program
merged = (refl, refl)

valid : validate config ≡ ok tt
unfolding program
valid = refl

validate_sound_example :
    (find_route "chat" config.routes ≡ some chat_route)
    × ((chat_route.backend ≡ "") ⊎ ((b : Backend) × (find_backend "a" config.backends ≡ some b)))
    × ((chat_route.backend == ""
          && (chat_route.backend_group == "" && not (is_some chat_route.auto_route)))
        ≡ false)
validate_sound_example = validate_sound config valid chat_route (here refl)

resolve-validated_example :
    (b : Backend) × (find_backend "a" config.backends ≡ some b)
    × (resolve config "chat" body ≡ ok (resolution "chat" body chat_route b))
resolve-validated_example = resolve-validated config valid chat_route (here refl) refl refl body

auto_resolved : resolve config "auto" body ≡ ok (resolution "chat" body chat_route upstream)
unfolding program
auto_resolved = refl
