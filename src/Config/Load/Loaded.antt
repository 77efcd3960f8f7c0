-- ===== src/Config/Load/Loaded.antt =====
-- What a configuration that `Load` returns is known to be.
use llm_proxy.Base.{
  ◌≡◌, subst, List, [], ◌∷◌, map, Option, String, Result, ok, err, >>=-eq-ok, ok_inj, All,
}
use llm_proxy.Base.Int.{ℤ}
use llm_proxy.Config.Types.{Config, Backend}
use llm_proxy.Config.Validate.{validate}
use llm_proxy.Config.Load.{
  normalize_text, LoadError, unreadable, bad_schema, bad_ports, invalid, or_error, need, load,
}
use llm_proxy.Config.Load.Env.{expand_env_vars}
use llm_proxy.Config.Load.Nodes.{Node}
use llm_proxy.Config.Load.Ports.{expand_ports}
use llm_proxy.Config.Load.Expanded.{expand_ports-lem}
use llm_proxy.Config.Load.Defaults.{
  Parsed, apply_defaults, as_parsed, as_written, apply_defaults_twice, settle_backend,
}

or_error-ok {ℓ} :
    {E : Type 0} {A : Type ℓ} (wrap : E → LoadError) (r : Result E A) {a : A}
    → or_error wrap r ≡ ok a
    → r ≡ ok a
or_error-ok wrap (ok b) h = cc
or_error-ok wrap (err e) h = cc

map-ports :
    (canonical : String → Option String) (bs : List Backend)
    → All (λ b. b.ports ≡ []) bs
    → All (λ b. b.ports ≡ []) (map (settle_backend canonical) bs)
unfolding settle_backend
map-ports canonical [] h = tt
map-ports canonical (b ∷ bs) h = (h.0, map-ports canonical bs h.1)

module _ {F : Type 0} (nil : F) (itoa : ℤ → String) (canonical : String → Option String) where
  -- Whatever the file holds, a configuration that Load returns validates, no backend has a range
  -- of ports, and it has every default: applying them again, all but the writing of URLs, changes
  -- nothing.
  pub load-lem :
      (env : String → Option String) (parse : String → Option (Option Node))
      (print : Node → Option String) (decode : String → Option (Parsed F)) (file : Option String)
      (c : Config F)
      → load nil itoa canonical env parse print decode file ≡ ok c
      → (validate c ≡ ok tt)
        × All (λ b. b.ports ≡ []) c.backends
        × (apply_defaults nil as_written (as_parsed nil c) ≡ c)
  unfolding load apply_defaults
  load-lem env parse print decode file c h =
      let (raw, _, h1) = >>=-eq-ok (need unreadable file) _ h in
      let (text, _, h2) =
        >>=-eq-ok (normalize_text parse print "backends" "id" (expand_env_vars env raw)) _ h1 in
      let (normal, _, h3) =
        >>=-eq-ok (normalize_text parse print "routes" "virtual_model" text) _ h2 in
      let (parsed, _, h4) = >>=-eq-ok (need bad_schema (decode normal)) _ h3 in
      let (backends, e, h5) =
        >>=-eq-ok (or_error bad_ports (expand_ports itoa parsed.config.backends)) _ h4 in
      let full : Parsed F = record parsed {
        config = record parsed.config { backends = backends };
      } in
      let settled = apply_defaults nil canonical full in
      let (_, v, h6) = >>=-eq-ok (or_error invalid (validate settled)) _ h5 in
      let (_, gone, _) =
        expand_ports-lem itoa parsed.config.backends backends
          (or_error-ok bad_ports (expand_ports itoa parsed.config.backends) e) in
      subst
        (λ c.
          (validate c ≡ ok tt)
          × All (λ b. b.ports ≡ []) c.backends
          × (apply_defaults nil as_written (as_parsed nil c) ≡ c))
        (ok_inj h6)
        (
          or_error-ok invalid (validate settled) v,
          map-ports canonical backends gone,
          apply_defaults_twice nil canonical full,
        )
