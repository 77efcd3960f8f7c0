-- ===== src/Proxy/Endpoints/Listing.antt =====
-- The list of models and the routes that it stands for.
use llm_proxy.Base.{
  ◌≡◌, refl, ap, List, [], ◌∷◌, none, some, String, In, here, there, Option-cases, inl, inr, ok,
  ◌↔◌, subst, sym,
}
use llm_proxy.Config.Types.{Config, Route}
use llm_proxy.Config.Lookup.{find_route}
use llm_proxy.Config.Validate.{validate}
use llm_proxy.Config.Validate.Sound.{validate_sound, find_route-In}
use llm_proxy.Proxy.Endpoints.{models}

module _ {F : Type 0} where
  -- The first route's own name, or one of the others'.
  headed :
      {m : String} (r : Route F) (rs : List (Route F))
      → r.auto_route ≡ none
      → (In m (models rs) → (q : Route F) × In q rs × (q.virtual_model ≡ m) × (q.auto_route ≡ none))
      → In m (r.virtual_model ∷ models rs)
      → (q : Route F) × In q (r ∷ rs) × (q.virtual_model ≡ m) × (q.auto_route ≡ none)
  headed r rs n later (here e) = (r, here refl, e, n)
  headed r rs n later (there k) = let (q, j, e, f) = later k in (q, there j, e, f)

  models-In :
      (m : String) (rs : List (Route F))
      → In m (models rs)
      → (r : Route F) × In r rs × (r.virtual_model ≡ m) × (r.auto_route ≡ none)
  unfolding models
  models-In m [] i = elim i [ ]
  models-In m (r ∷ rs) i = elim (Option-cases r.auto_route) [
    | inr (auto, n) ↦ let (q, k, e, f) = models-In m rs (rw (n, models) at i) in (q, there k, e, f)
    | inl n ↦ headed r rs n (models-In m rs) (rw (n, models) at i)
  ]

  In-models :
      (r : Route F) (rs : List (Route F))
      → In r rs
      → r.auto_route ≡ none
      → In r.virtual_model (models rs)
  unfolding models
  In-models r [] i n = elim i [ ]
  In-models r (q ∷ rs) (here e) n =
      let none_too : q.auto_route ≡ none = subst (λ (p : Route F). p.auto_route ≡ none) (sym e) n in
      rw (none_too, models) (here (ap (λ (p : Route F). p.virtual_model) e))
  In-models r (q ∷ rs) (there k) n = elim (Option-cases q.auto_route) [
    | inr (auto, m) ↦ rw (m, models) (In-models r rs k n)
    | inl m ↦ rw (m, models) (there (In-models r rs k n))
  ]

  -- In a configuration that validates, the list of models has exactly the names whose route has no
  -- auto-route.
  pub models-validated :
      (c : Config F)
      → validate c ≡ ok tt
      → (m : String)
      → In m (models c.routes)
        ↔ ((r : Route F) × (find_route m c.routes ≡ some r) × (r.auto_route ≡ none))
  models-validated c v m = (
    λ i.
        let (r, k, e, n) = models-In m c.routes i in
        let (found, _, _) = validate_sound c v r k in
        (r, subst (λ name. find_route name c.routes ≡ some r) e found, n),
    λ (r, found, n).
        let (k, e) = find_route-In m c.routes found in
        subst (λ name. In name (models c.routes)) e (In-models r c.routes k n),
  )
