-- ===== src/Config/Validate.antt =====
-- `validate` of internal/config/config.go: the checks on backends and routes.
pub mod Sound
use llm_proxy.Base.{
  ℕ, suc, ◌+◌, Bool, true, false, not, ◌&&◌, ◌||◌, List, [], ◌∷◌, Option, none, some, String, any,
  if◌then◌else◌, ltb, ◌==◌, text_eq, Result, ok, err, ◌>>=◌, ◌>>◌, refuse_if,
}
use llm_proxy.Config.Types.{Config, Backend, Route, AutoRoute, SystemPromptOp}

pub data ConfigError : Type 0 where
  missing_id missing_virtual_model : ConfigError
  missing_base_url bad_type : String → ConfigError
  two_defaults : String → String → ConfigError
  duplicate_model two_targets no_target bad_auto_route bad_system_prompt : String → ConfigError
  unknown_backend : String → String → ConfigError

abbrev pub contains : List String → String → Bool
contains ids id = any (λ i. i == id) ids

abbrev known_type : String → Bool
known_type t = t == "openai" || t == "anthropic" || t == "ollama"

-- The checks on one backend, with the default's id so far ("" for none).
unfoldable pub check_backend : Backend → String → Result ConfigError String
check_backend b default_id = do
  refuse_if (b.id == "") missing_id
  refuse_if (b.base_url == "") (missing_base_url b.id)
  refuse_if (not (known_type b.type)) (bad_type b.id)
  refuse_if (b.default && not (default_id == "")) (two_defaults default_id b.id)
  ok (if b.default then b.id else default_id)

-- The set of ids, in the order in which the loop adds them.
unfoldable pub validate_backends :
    List Backend → String → List String → Result ConfigError (List String)
validate_backends [] default_id ids = ok ids
validate_backends (b ∷ bs) default_id ids = do
  d ← check_backend b default_id
  validate_backends bs d (b.id ∷ ids)

abbrev pub is_some {ℓ} : {A : Type ℓ} → Option A → Bool
is_some none = false
is_some (some a) = true

abbrev bit : Bool → ℕ
bit b = if b then 1 else 0

-- How many of the three prompt operations are set.
unfoldable pub prompt_ops : SystemPromptOp → ℕ
prompt_ops s =
    bit (not (s.prepend == "")) + bit (not (s.append == "")) + bit (not (s.replace == ""))

abbrev half_auto_route : Option AutoRoute → Bool
half_auto_route none = false
half_auto_route (some a) = a.text == "" || a.vision == ""

module _ {F : Type 0} where
  unfoldable pub check_route : Route F → List String → List String → Result ConfigError (Unit {0})
  check_route r ids seen = do
    refuse_if (r.virtual_model == "") missing_virtual_model
    refuse_if (contains seen r.virtual_model) (duplicate_model r.virtual_model)
    refuse_if (not (r.backend == "") && not (r.backend_group == "")) (two_targets r.virtual_model)
    refuse_if (r.backend == "" && (r.backend_group == "" && not (is_some r.auto_route)))
        (no_target r.virtual_model)
    refuse_if (not (r.backend == "") && not (contains ids r.backend))
        (unknown_backend r.virtual_model r.backend)
    refuse_if (half_auto_route r.auto_route) (bad_auto_route r.virtual_model)
    refuse_if (ltb 1 (prompt_ops r.system_prompt)) (bad_system_prompt r.virtual_model)

  unfoldable pub validate_routes :
      List (Route F) → List String → List String → Result ConfigError (Unit {0})
  validate_routes [] ids seen = ok tt
  validate_routes (r ∷ rs) ids seen =
      check_route r ids seen >> validate_routes rs ids (r.virtual_model ∷ seen)

  unfoldable pub validate : Config F → Result ConfigError (Unit {0})
  validate c = do ids ← validate_backends c.backends "" []; validate_routes c.routes ids []
