-- ===== src/Config/Validate/Sound.antt =====
-- What a configuration that passes validation guarantees to the router.
use llm_proxy.Base.{
  ◌≡◌, ◌⊎◌, true, false, not, ◌&&◌, List, [], ◌∷◌, some, String, ◌==◌, text_eq, text_iff, ok,
  >>=-eq-ok, arith, Bool-cases, Option-cases, inl, inr, In, here, there,
}
use llm_proxy.Config.Types.{Config, Backend, Route}
use llm_proxy.Config.Lookup.{find_backend, find_route}
use llm_proxy.Config.Validate.{
  contains, check_backend, validate_backends, check_route, validate_routes, validate, is_some,
}

-- An id that the set holds is the id of some backend.
validate_backends-found :
    (bs : List Backend) (d id : String) (ids : List String) {out : List String}
    → validate_backends bs d ids ≡ ok out
    → contains out id ≡ true
    → (contains ids id ≡ true) ⊎ ((b : Backend) × (find_backend id bs ≡ some b))
unfolding validate_backends find_backend
validate_backends-found [] d id ids e h = inl (ground arith)
validate_backends-found (b ∷ bs) d id ids {out} e h =
    let (d', _, e') = >>=-eq-ok (check_backend b d) (λ d. validate_backends bs d (b.id ∷ ids)) e in
    elim (validate_backends-found bs d' id (b.id ∷ ids) e' h) [
      | inl k ↦ elim (Option-cases (find_backend id bs)) [
        | inr (c, f) ↦ inr (c, ground arith)
        | inl f ↦ elim (Bool-cases (b.id == id)) [
          | inl q ↦ inr (b, ground arith)
          | inr q ↦ inl (ground arith)
        ]
      ]
      | inr (c, f) ↦ inr (c, ground arith)
    ]

module _ {F : Type 0} where
  -- The route checks that the router relies on.
  pub record IsRoutable (ids seen : List String) (r : Route F) : Type 0 where
    pub new : contains seen r.virtual_model ≡ false
    pub known : (r.backend ≡ "") ⊎ (contains ids r.backend ≡ true)
    pub target : (r.backend == "" && (r.backend_group == "" && not (is_some r.auto_route))) ≡ false

  check_route-IsRoutable :
      (r : Route F) (ids seen : List String)
      → check_route r ids seen ≡ ok tt
      → IsRoutable ids seen r
  unfolding check_route
  check_route-IsRoutable r ids seen e = record {
    new = ground arith;
    known = named;
    target = ground arith;
  }
    where
      named : (r.backend ≡ "") ⊎ (contains ids r.backend ≡ true)
      named = elim (Bool-cases (r.backend == "")) [
        | inl q ↦ inl ((text_iff r.backend "").0 q)
        | inr q ↦ inr (ground arith)
      ]

  pub find_route-In :
      (m : String) (rs : List (Route F)) {r : Route F}
      → find_route m rs ≡ some r
      → In r rs × (r.virtual_model ≡ m)
  unfolding find_route
  find_route-In m [] e = cc
  find_route-In m (q ∷ rs) {r} e = elim (Option-cases (find_route m rs)) [
    | inl f ↦
        let same : q ≡ r = ground arith in
        let name : (q.virtual_model == m) ≡ true = ground arith in
        (here same, rw (← same) ((text_iff q.virtual_model m).0 name))
    | inr (x, f) ↦
        let same : x ≡ r = ground arith in
        let (i, n) = find_route-In m rs {r = x} f in rw (← same) (there i, n)
  ]

  -- A route of the list passed its checks, no earlier model has its name, and it is the one found.
  record IsFound (ids seen : List String) (rs : List (Route F)) (r : Route F) : Type 0 where
    fresh : contains seen r.virtual_model ≡ false
    known : (r.backend ≡ "") ⊎ (contains ids r.backend ≡ true)
    target : (r.backend == "" && (r.backend_group == "" && not (is_some r.auto_route))) ≡ false
    found : find_route r.virtual_model rs ≡ some r

  IsFound-here :
      (ids seen : List String) (q : Route F) (rs : List (Route F))
      → IsRoutable ids seen q
      → ((x : Route F) → In x rs → IsFound ids (q.virtual_model ∷ seen) rs x)
      → IsFound ids seen (q ∷ rs) q
  unfolding find_route
  IsFound-here ids seen q rs a rest = record {
    fresh = a.new;
    known = a.known;
    target = a.target;
    found = elim (Option-cases (find_route q.virtual_model rs)) [
      | inl f ↦ ground (arith, text_iff q.virtual_model q.virtual_model)
      | inr (x, f) ↦
          let (i, n) = find_route-In q.virtual_model rs {r = x} f in
          absurd (ground (arith, (rest x i).fresh, text_iff q.virtual_model x.virtual_model))
    ];
  }

  IsFound-there :
      (ids seen : List String) (q : Route F) (rs : List (Route F)) (r : Route F)
      → IsFound ids (q.virtual_model ∷ seen) rs r
      → IsFound ids seen (q ∷ rs) r
  unfolding find_route
  IsFound-there ids seen q rs r h = record {
    fresh = ground arith;
    known = h.known;
    target = h.target;
    found = ground arith;
  }

  validate_routes-IsFound :
      (rs : List (Route F)) (ids seen : List String)
      → validate_routes rs ids seen ≡ ok tt
      → (r : Route F) → In r rs
      → IsFound ids seen rs r
  unfolding validate_routes
  validate_routes-IsFound [] ids seen e r i = elim i [ ]
  validate_routes-IsFound (q ∷ rs) ids seen e r i =
      let (u, c, e') =
        >>=-eq-ok (check_route q ids seen) (λ _. validate_routes rs ids (q.virtual_model ∷ seen))
          e in
      let rest = validate_routes-IsFound rs ids (q.virtual_model ∷ seen) e' in
      at_or_after i (IsFound-here ids seen q rs (check_route-IsRoutable q ids seen c) rest) rest
    where
      at_or_after :
          In r (q ∷ rs)
          → IsFound ids seen (q ∷ rs) q
          → ((x : Route F) → In x rs → IsFound ids (q.virtual_model ∷ seen) rs x)
          → IsFound ids seen (q ∷ rs) r
      at_or_after (here e) h rest = rw (← e) h
      at_or_after (there i) h rest = IsFound-there ids seen q rs r (rest r i)

  -- In a configuration that validates, every route is the one found under its model's name, the
  -- backend that it names, if any, is found too, and it has a backend, a group or an auto-route.
  pub validate_sound :
      (c : Config F)
      → validate c ≡ ok tt
      → (r : Route F) → In r c.routes
      → (find_route r.virtual_model c.routes ≡ some r)
        × ((r.backend ≡ "") ⊎ ((b : Backend) × (find_backend r.backend c.backends ≡ some b)))
        × ((r.backend == "" && (r.backend_group == "" && not (is_some r.auto_route))) ≡ false)
  unfolding validate
  validate_sound c e r i =
      let (ids, e1, e2) =
        >>=-eq-ok (validate_backends c.backends "" []) (λ ids. validate_routes c.routes ids []) e in
      let h = validate_routes-IsFound c.routes ids [] e2 r i in
      (
        h.found,
        elim h.known [
          | inl n ↦ inl n
          | inr k ↦ elim (validate_backends-found c.backends "" r.backend [] e1 k) [
            | inl no_id ↦ cc
            | inr b ↦ inr b
          ]
        ],
        h.target,
      )
