-- ===== src/Balancer/Monitor/Owners.antt =====
-- The groups that a watched backend is in.
use llm_proxy.Base.{
  ◌≡◌, refl, sym, ap, ◌∙◌, subst, List, [], ◌∷◌, ◌++◌, String, Map, ◌==◌, text_eq, text_iff,
  Bool-cases, inl, inr, In, here, there, All,
}
use llm_proxy.Config.Types.{Config, Backend, GroupConfig}
use llm_proxy.Config.Lookup.{group_backends}
use llm_proxy.Balancer.Selectors.Choice.{In-keep}
use llm_proxy.Balancer.Monitor.{Watched, watch, watch_all, backend_map, watched_backends}

module _ {F : Type 0} (cfg : Config F) where
  -- A backend of this id is configured in this group.
  pub record Owns (id : String) (g : GroupConfig F) : Type 0 where
    pub backend : Backend
    pub known : In backend cfg.backends
    pub same_id : backend.id ≡ id
    pub grouped : In (backend.group, g) cfg.groups

  -- Every group of a watched backend is one in which it is configured.
  abbrev pub IsOwned : Watched F → Type 0
  IsOwned w = Owns w.id w.first × All (Owns w.id) w.rest

  All-append_one :
      (id : String) (gs : List (GroupConfig F)) (g : GroupConfig F)
      → All (Owns id) gs
      → Owns id g
      → All (Owns id) (gs ++ g ∷ [])
  All-append_one id [] g h o = (o, tt)
  All-append_one id (x ∷ gs) g h o = (h.0, All-append_one id gs g h.1 o)

  watch-IsOwned :
      (g : GroupConfig F) (be : Backend) (ws : List (Watched F))
      → Owns be.id g
      → All IsOwned ws
      → All IsOwned (watch g be ws)
  unfolding watch
  watch-IsOwned g be [] o h = ((o, tt), tt)
  watch-IsOwned g be (w ∷ ws) o h = elim (Bool-cases (w.id == be.id)) [
    | inl e ↦
        let same = sym ((text_iff w.id be.id).0 e) in
        rw e ((h.0.0, All-append_one w.id w.rest g h.0.1 (subst (λ i. Owns i g) same o)), h.1)
    | inr e ↦ rw e (h.0, watch-IsOwned g be ws o h.1)
  ]

  watch_all-IsOwned :
      (name : String) (g : GroupConfig F) (bs : List Backend) (ws : List (Watched F))
      → In (name, g) cfg.groups
      → ((b : Backend) → In b bs → In b cfg.backends × (b.group ≡ name))
      → All IsOwned ws
      → All IsOwned (watch_all g bs ws)
  unfolding watch_all
  watch_all-IsOwned name g [] ws i sub h = h
  watch_all-IsOwned name g (be ∷ bs) ws i sub h =
      let (known, same) = sub be (here refl) in
      watch_all-IsOwned name g bs (watch g be ws) i (λ b k. sub b (there k))
        (watch-IsOwned g be ws
          (record {
            backend = be;
            known = known;
            same_id = refl;
            grouped = subst (λ n. In (n, g) cfg.groups) (sym same) i;
          })
          h)

  pub group_backends-In :
      (name : String) (b : Backend)
      → In b (group_backends cfg name)
      → In b cfg.backends × (b.group ≡ name)
  unfolding group_backends
  group_backends-In name b i =
      let (k, e) = In-keep (λ c. c.group == name) cfg.backends i in (k, (text_iff b.group name).0 e)

  backend_map-IsOwned :
      (gs : Map (GroupConfig F)) (ws : List (Watched F))
      → ((p : String × GroupConfig F) → In p gs → In p cfg.groups)
      → All IsOwned ws
      → All IsOwned (backend_map cfg gs ws)
  unfolding backend_map
  backend_map-IsOwned [] ws sub h = h
  backend_map-IsOwned ((name, g) ∷ gs) ws sub h =
      backend_map-IsOwned gs (watch_all g (group_backends cfg name) ws) (λ p k. sub p (there k))
        (watch_all-IsOwned name g (group_backends cfg name) ws (sub (name, g) (here refl))
          (group_backends-In name) h)

  pub watched_backends-IsOwned : All IsOwned (watched_backends cfg)
  unfolding watched_backends
  watched_backends-IsOwned = backend_map-IsOwned cfg.groups [] (λ p k. k) tt

-- A backend of this id is watched.
abbrev pub Has : {F : Type 0} → String → List (Watched F) → Type 0
Has {F} id ws = (w : Watched F) × In w ws × (w.id ≡ id)

module _ {F : Type 0} where
  Has-cons : (id : String) (w : Watched F) (ws : List (Watched F)) → Has id ws → Has id (w ∷ ws)
  Has-cons id w ws (v, i, e) = (v, there i, e)

  watch-Has : (g : GroupConfig F) (be : Backend) (ws : List (Watched F)) → Has be.id (watch g be ws)
  unfolding watch
  watch-Has g be [] = (_, here refl, refl)
  watch-Has g be (w ∷ ws) = elim (Bool-cases (w.id == be.id)) [
    | inl e ↦ rw e (record w { rest = w.rest ++ g ∷ [] }, here refl, (text_iff w.id be.id).0 e)
    | inr e ↦ rw e (Has-cons be.id w (watch g be ws) (watch-Has g be ws))
  ]

  watch-Has_still :
      (id : String) (g : GroupConfig F) (be : Backend) (ws : List (Watched F))
      → Has id ws
      → Has id (watch g be ws)
  unfolding watch
  watch-Has_still id g be [] (v, i, q) = elim i [ ]
  watch-Has_still id g be (w ∷ ws) (v, here e, q) = elim (Bool-cases (w.id == be.id)) [
    | inl h ↦
        rw h (record w { rest = w.rest ++ g ∷ [] }, here refl, ap (λ (u : Watched F). u.id) e ∙ q)
    | inr h ↦ rw h (w, here refl, ap (λ (u : Watched F). u.id) e ∙ q)
  ]
  watch-Has_still id g be (w ∷ ws) (v, there i, q) = elim (Bool-cases (w.id == be.id)) [
    | inl h ↦ rw h (v, there i, q)
    | inr h ↦ rw h (Has-cons id w (watch g be ws) (watch-Has_still id g be ws (v, i, q)))
  ]

  watch_all-Has_still :
      (id : String) (g : GroupConfig F) (bs : List Backend) (ws : List (Watched F))
      → Has id ws
      → Has id (watch_all g bs ws)
  unfolding watch_all
  watch_all-Has_still id g [] ws h = h
  watch_all-Has_still id g (be ∷ bs) ws h =
      watch_all-Has_still id g bs (watch g be ws) (watch-Has_still id g be ws h)

  watch_all-Has :
      (be : Backend) (g : GroupConfig F) (bs : List Backend) (ws : List (Watched F))
      → In be bs
      → Has be.id (watch_all g bs ws)
  unfolding watch_all
  watch_all-Has be g [] ws i = elim i [ ]
  watch_all-Has be g (c ∷ bs) ws (here e) =
      subst (λ (b : Backend). Has b.id (watch_all g bs (watch g c ws))) e
        (watch_all-Has_still c.id g bs (watch g c ws) (watch-Has g c ws))
  watch_all-Has be g (c ∷ bs) ws (there i) = watch_all-Has be g bs (watch g c ws) i

  backend_map-Has_still :
      (cfg : Config F) (id : String) (gs : Map (GroupConfig F)) (ws : List (Watched F))
      → Has id ws
      → Has id (backend_map cfg gs ws)
  unfolding backend_map
  backend_map-Has_still cfg id [] ws h = h
  backend_map-Has_still cfg id ((name, g) ∷ gs) ws h =
      backend_map-Has_still cfg id gs (watch_all g (group_backends cfg name) ws)
        (watch_all-Has_still id g (group_backends cfg name) ws h)

  pub backend_map-Has :
      (cfg : Config F) (be : Backend) (name : String) (g : GroupConfig F) (gs : Map (GroupConfig F))
      (ws : List (Watched F))
      → In (name, g) gs
      → In be (group_backends cfg name)
      → Has be.id (backend_map cfg gs ws)
  unfolding backend_map
  backend_map-Has cfg be name g [] ws i k = elim i [ ]
  backend_map-Has cfg be name g ((n, h) ∷ gs) ws (here e) k =
      backend_map-Has_still cfg be.id gs (watch_all h (group_backends cfg n) ws) (
        watch_all-Has be h (group_backends cfg n) ws
          (subst (λ (p : String × GroupConfig F). In be (group_backends cfg (p.0))) (sym e) k))
  backend_map-Has cfg be name g ((n, h) ∷ gs) ws (there i) k =
      backend_map-Has cfg be name g gs (watch_all h (group_backends cfg n) ws) i k
