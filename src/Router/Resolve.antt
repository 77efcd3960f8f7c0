-- ===== src/Router/Resolve.antt =====
-- What validation promises of the resolution of a model's name.
use llm_proxy.Base.{
  ℕ, zero, suc, ◌≡◌, ◌≢◌, none, some, String, ◌==◌, text_eq, text_iff, arith, inl, inr, Bool-cases,
  Option-cases, Result-cases, ok, err, In, List-cases,
}
use llm_proxy.Json.{Object}
use llm_proxy.Config.Types.{Config, Backend, Route}
use llm_proxy.Config.Lookup.{find_backend, find_route, group_backends}
use llm_proxy.Config.Validate.{validate}
use llm_proxy.Config.Validate.Sound.{validate_sound, find_route-In}
use llm_proxy.Router.{unknown_backend, route_backend, resolution, resolve, resolve_at, auto_target}

module _ {F : Type 0} where
  -- A validated route without an auto-route never names a backend that is missing.
  route_backend-known :
      (c : Config F)
      → validate c ≡ ok tt
      → (m : String) (r : Route F) → find_route m c.routes ≡ some r
      → r.auto_route ≡ none
      → (n b : String) → route_backend c m r ≢ err (unknown_backend n b)
  unfolding route_backend
  route_backend-known c v m r f g n b e =
      let (i, name) = find_route-In m c.routes f in
      let (found, known, target) = validate_sound c v r i in
      elim known [
        | inl h ↦ ground (arith, text_iff r.backend "", text_iff r.backend_group "")
        | inr (x, h) ↦ elim (Bool-cases (r.backend_group == "")) [
          | inl k ↦ ground arith
          | inr k ↦ elim (List-cases (group_backends c r.backend_group)) [
            | inl q ↦ ground arith
            | inr (y, ys, q) ↦ ground arith
          ]
        ]
      ]

  resolve_at-no_unknown :
      (left : ℕ) (c : Config F)
      → validate c ≡ ok tt
      → (m : String) (body : Object F) (n b : String)
      → resolve_at left c m body ≢ err (unknown_backend n b)
  unfolding resolve_at
  resolve_at-no_unknown zero c v m body n b e = cc
  resolve_at-no_unknown (suc left) c v m body n b e = elim (Option-cases (find_route m c.routes)) [
    | inl f ↦ ground arith
    | inr (r, f) ↦ elim (Option-cases r.auto_route) [
      | inr (a, g) ↦ resolve_at-no_unknown left c v (auto_target a body) body n b (ground arith)
      | inl g ↦ elim (Result-cases (route_backend c m r)) [
        | inl (x, h) ↦ route_backend-known c v m r f g n b (ground arith)
        | inr (y, h) ↦ ground arith
      ]
    ]
  ]

  -- In a configuration that validates, no model is ever refused because its route names a backend
  -- that does not exist, whatever auto-routes lead to it.
  pub resolve-no_unknown_backend :
      (c : Config F)
      → validate c ≡ ok tt
      → (m : String) (body : Object F) (n b : String) → resolve c m body ≢ err (unknown_backend n b)
  unfolding resolve
  resolve-no_unknown_backend c v m body n b = resolve_at-no_unknown 2 c v m body n b

  -- In a configuration that validates, a route of it with a backend of its own and no auto-route
  -- is the resolution of its model's name, with the backend whose id it names.
  pub resolve-validated :
      (c : Config F)
      → validate c ≡ ok tt
      → (r : Route F) → In r c.routes
      → r.auto_route ≡ none
      → r.backend_group ≡ ""
      → (body : Object F)
      → (b : Backend) × (find_backend r.backend c.backends ≡ some b)
        × (resolve c r.virtual_model body ≡ ok (resolution r.virtual_model body r b))
  unfolding resolve resolve_at route_backend
  resolve-validated c v r i g h body =
      let (found, known, target) = validate_sound c v r i in
      elim known [
        | inl e ↦ absurd (ground (arith, text_iff r.backend "", text_iff r.backend_group ""))
        | inr (b, f) ↦ (b, f, ground (arith, text_iff r.backend_group ""))
      ]
