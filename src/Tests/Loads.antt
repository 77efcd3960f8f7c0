-- ===== src/Tests/Loads.antt =====
-- The loading of a small configuration file.
use llm_proxy.Base.{
  true, ℕ, ◌≡◌, refl, [], ◌∷◌, Option, none, some, String, ok, All, if◌then◌else◌, ◌⊎◌, ◌==◌,
  text_eq,
}
use llm_proxy.Base.Int.{ℤ, pos}
use llm_proxy.Config.Types.{Config, Backend}
use llm_proxy.Config.Validate.{
  validate, validate_backends, check_backend, validate_routes, check_route, prompt_ops,
}
use llm_proxy.Config.Load.{load, normalize_text}
use llm_proxy.Config.Load.Nodes.{
  Pairs, scalar, sequence, mapping, nil, cons, end, pair, normalize_map_to_list, find_block, Nodes,
  text_of,
}
use llm_proxy.Config.Load.Listed.{IsListOf, normalize_map_to_list-entries}
use llm_proxy.Config.Load.Ports.{expand_ports, for_port}
use llm_proxy.Config.Load.Expanded.{is_expandable, all_copies, IsRefused, expand_ports-expanded}
use llm_proxy.Config.Load.Defaults.{Parsed, apply_defaults, as_parsed, as_written}
use llm_proxy.Config.Load.Loaded.{load-lem}
use llm_proxy.Tests.Data.{config, upstream}

abbrev variables : String → Option String
variables name = if name == "HOST" then some "gpu" else none

-- backends: {a: {type: openai}}
abbrev file_map : Pairs
file_map =
    pair (scalar "backends")
      (mapping (pair (scalar "a") (mapping (pair (scalar "type") (scalar "openai") end)) end))
      (pair (scalar "routes") (sequence nil) end)

-- backends: [{id: a, type: openai}]
abbrev file_list : Pairs
file_list =
    pair (scalar "backends")
      (sequence (
        cons
          (mapping (pair (scalar "id") (scalar "a") (pair (scalar "type") (scalar "openai") end)))
          nil))
      (pair (scalar "routes") (sequence nil) end)

made_list : normalize_map_to_list "backends" "id" (some (mapping file_map)) ≡ ok (mapping file_list)
unfolding normalize_map_to_list
made_list = refl

-- {a: {type: openai}}
abbrev block_map : Pairs
block_map = pair (scalar "a") (mapping (pair (scalar "type") (scalar "openai") end)) end

written : find_block "backends" file_map ≡ some (mapping block_map)
unfolding find_block text_of
written = refl

normalize_map_to_list-entries_example :
    (l : Nodes) × (find_block "backends" file_list ≡ some (sequence l))
    × IsListOf "id" block_map l
    × (find_block "routes" file_list ≡ find_block "routes" file_map)
    × (normalize_map_to_list "backends" "id" (some (mapping file_list)) ≡ ok (mapping file_list))
normalize_map_to_list-entries_example =
    normalize_map_to_list-entries "backends" "id" "routes" file_map file_list block_map refl written
      made_list

abbrev digits : ℤ → String
digits port = "3040"

abbrev ranged : Backend
ranged = record upstream {
  id = "gpu-{port}";
  base_url = "http://gpu:{port}/v1";
  ports = pos 3040 ∷ [];
}

abbrev single : Backend
single = record upstream { id = "gpu-3040"; base_url = "http://gpu:3040/v1"; ports = [] }

expanded : expand_ports digits (ranged ∷ []) ≡ ok (single ∷ [])
unfolding expand_ports
expanded = refl

expand_ports-expanded_example :
    (All (λ b. is_expandable b ≡ true) (ranged ∷ [])
      × (expand_ports digits (ranged ∷ []) ≡ ok (all_copies (for_port digits) (ranged ∷ [])))
      × All (λ b. b.ports ≡ []) (all_copies (for_port digits) (ranged ∷ []))
      × (expand_ports digits (all_copies (for_port digits) (ranged ∷ []))
          ≡ ok (all_copies (for_port digits) (ranged ∷ []))))
    ⊎ IsRefused digits (ranged ∷ [])
expand_ports-expanded_example = expand_ports-expanded digits (ranged ∷ [])

abbrev parsed : Parsed ℕ
parsed = record { config = config; groups = ("gpus", none) ∷ [] }

abbrev loaded : Config ℕ
loaded = apply_defaults 0 some parsed

loads :
    load 0 digits some variables
      (λ text. some (some (mapping end)))
      (λ root. some "")
      (λ text. some parsed)
      (some "")
    ≡ ok loaded
unfolding load normalize_text validate validate_backends check_backend validate_routes check_route
    prompt_ops
loads = refl

load-lem_example :
    (validate loaded ≡ ok tt)
    × All (λ b. b.ports ≡ []) loaded.backends
    × (apply_defaults 0 as_written (as_parsed 0 loaded) ≡ loaded)
load-lem_example =
    load-lem 0 digits some variables (λ text. some (some (mapping end))) (λ root. some "")
      (λ text. some parsed) (some "") loaded loads
