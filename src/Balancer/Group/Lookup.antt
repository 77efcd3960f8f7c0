-- ===== src/Balancer/Group/Lookup.antt =====
-- A backend's state after a change of one backend.
use llm_proxy.Base.{
  ◌≡◌, refl, ap, ◌∙◌, arith, inl, inr, Bool-cases, Option-cases, map_option, In, here, there,
  text_iff, List, [], ◌∷◌, some, String, if◌then◌else◌, ◌==◌, text_eq,
}
use llm_proxy.Balancer.State.{BackendState}
use llm_proxy.Balancer.Selectors.{find_by_id}
use llm_proxy.Balancer.Group.{Group, Balancer, update_state, update_first, update_each, find_state}

-- A change of a backend's state that keeps its id.
abbrev pub Keeps : {F : Type 0} → (BackendState F → BackendState F) → Type 0
Keeps {F} f = (s : BackendState F) → (f s).id ≡ s.id

module _ {F : Type 0} where
  pub find_by_id-update_state :
      (id j : String) (f : BackendState F → BackendState F) (l : List (BackendState F))
      → Keeps f
      → find_by_id (update_state id f l) j
        ≡ (if id == j then map_option f (find_by_id l j) else find_by_id l j)
  unfolding find_by_id update_state
  find_by_id-update_state id j f [] k = ground arith
  find_by_id-update_state id j f (s ∷ ss) k =
      let rest = find_by_id-update_state id j f ss k in
      let kept = k s in
      ground (arith, text_iff s.id id, text_iff s.id j, text_iff id j, text_iff (f s).id j)

  pub find_state-update_first :
      (id j : String) (f : BackendState F → BackendState F) (b : Balancer F)
      → Keeps f
      → find_state (update_first id f b) j
        ≡ (if id == j then map_option f (find_state b j) else find_state b j)
  unfolding find_state update_first
  find_state-update_first id j f [] k = ground arith
  find_state-update_first id j f (g ∷ gs) k =
      let rest = find_state-update_first id j f gs k in
      let at_j = find_by_id-update_state id j f g.states k in
      elim (Bool-cases (id == j)) [
        | inl e ↦
            let same : find_by_id g.states id ≡ find_by_id g.states j =
              ap (find_by_id g.states) ((text_iff id j).0 e) in
            elim (Option-cases (find_by_id g.states j)) [
              | inl n ↦ let m = same ∙ n in ground arith
              | inr (s, n) ↦ let m = same ∙ n in ground arith
            ]
        | inr e ↦ elim (Option-cases (find_by_id g.states id)) [
          | inl n ↦ elim (Option-cases (find_by_id g.states j)) [
            | inl m ↦ ground arith
            | inr (t, m) ↦ ground arith
          ]
          | inr (s, n) ↦ elim (Option-cases (find_by_id g.states j)) [
            | inl m ↦ ground arith
            | inr (t, m) ↦ ground arith
          ]
        ]
      ]

  -- The state that a loop over all groups leaves is changed by the rule of some group.
  pub find_state-update_each :
      (id j : String) (f : Group F → BackendState F → BackendState F) (b : Balancer F)
      → ((g : Group F) → Keeps (f g))
      → {s : BackendState F} → find_state b j ≡ some s
      → (g : Group F) × In g b
        × (find_state (update_each id f b) j ≡ some (if id == j then f g s else s))
  unfolding find_state update_each
  find_state-update_each id j f [] k e = cc
  find_state-update_each id j f (g ∷ gs) k {s} e =
      let at_j = find_by_id-update_state id j (f g) g.states (k g) in
      elim (Option-cases (find_by_id g.states j)) [
        | inl n ↦
            let (h, i, q) = find_state-update_each id j f gs k {s = s} (ground arith) in
            (h, there i, ground arith)
        | inr (t, n) ↦ let same : t ≡ s = ground arith in (g, here refl, rw (← same) (ground arith))
      ]
