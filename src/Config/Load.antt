-- ===== src/Config/Load.antt =====
-- `Load` of internal/config/config.go, from the text of the file on: environment variables, blocks
-- written as maps, port ranges, defaults. yaml.v3 is a parameter of `load`; the YAML that it reads and
-- writes is a tree of nodes, without tags, styles and positions.
pub mod Env
pub mod Nodes
pub mod Listed
pub mod Ports
pub mod Expanded
pub mod Defaults
pub mod Loaded
use llm_proxy.Base.{ℕ, Bool, Option, none, some, List, String, Map, Result, ok, err, ◌>>=◌}
use llm_proxy.Base.Int.{ℤ}
use llm_proxy.Config.Types.{Config, Backend, Route, GroupConfig}
use llm_proxy.Config.Validate.{ConfigError, validate}
use Env.{expand_env_vars}
use Nodes.{Node, NodeError, mapping, normalize_map_to_list}
use Ports.{PortError, expand_ports}
use Defaults.{Parsed, apply_defaults}

pub data LoadError : Type 0 where
  unreadable : LoadError
  bad_yaml unprintable bad_schema : LoadError
  bad_node : NodeError → LoadError
  bad_ports : PortError → LoadError
  invalid : ConfigError → LoadError

abbrev pub or_error {ℓ} :
    {E : Type 0} {A : Type ℓ} → (E → LoadError) → Result E A → Result LoadError A
or_error wrap (ok a) = ok a
or_error wrap (err e) = err (wrap e)

abbrev pub need {ℓ} : {A : Type ℓ} → LoadError → Option A → Result LoadError A
need e none = err e
need e (some a) = ok a

-- What `normalizeMapToList` does with a text: `parse` reads its root node, if it has one, and `print`
-- is yaml.Marshal with strings.TrimSpace after it. A root that is no map leaves the text as it is.
unfoldable pub normalize_text :
    (String → Option (Option Node))
    → (Node → Option String)
    → String
    → String
    → String
    → Result LoadError String
unfolding normalize_map_to_list
normalize_text parse print block key_field text = do
  root ← need bad_yaml (parse text)
  normalized ← or_error bad_node (normalize_map_to_list block key_field root)
  elim normalized [ mapping m ↦ need unprintable (print (mapping m)) | _ ↦ ok text ]

module _ {F : Type 0} (nil : F) (itoa : ℤ → String) (canonical : String → Option String) where
  -- `parse` reads a YAML document, `none` for an error, and `decode` the schema. `nil` is the float64
  -- 0, and `file` what os.ReadFile gives.
  unfoldable pub load :
      (String → Option String)
      → (String → Option (Option Node))
      → (Node → Option String)
      → (String → Option (Parsed F))
      → Option String
      → Result LoadError (Config F)
  unfolding expand_env_vars normalize_text expand_ports apply_defaults
  load env parse print decode file = do
    raw ← need unreadable file
    with_backends ← normalize_text parse print "backends" "id" (expand_env_vars env raw)
    with_routes ← normalize_text parse print "routes" "virtual_model" with_backends
    parsed ← need bad_schema (decode with_routes)
    backends ← or_error bad_ports (expand_ports itoa parsed.config.backends)
    let settled =
        apply_defaults nil canonical
          (record parsed { config = record parsed.config { backends = backends } })
    _ ← or_error invalid (validate settled)
    ok settled
