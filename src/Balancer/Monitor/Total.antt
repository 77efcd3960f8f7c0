-- ===== src/Balancer/Monitor/Total.antt =====
-- What `New` makes of a configuration.
use llm_proxy.Base.{
  ◌≡◌, refl, ap, true, [], ◌∷◌, some, Map, map, Option-cases, inl, inr, arith, text_eq,
}
use llm_proxy.Base.Int.{ℤ}
use llm_proxy.Base.Floats.{Floats}
use llm_proxy.Config.Types.{Config, GroupConfig}
use llm_proxy.Config.Lookup.{group_backends}
use llm_proxy.Config.Cascade.{get_flow_window_duration}
use llm_proxy.Config.Validate.{is_some}
use llm_proxy.Balancer.Selectors.{new_selector}
use llm_proxy.Balancer.Group.{Group, Balancer}
use llm_proxy.Balancer.Group.Pool.{group_selector, new_states}
use llm_proxy.Balancer.Monitor.{new_groups}

module _ (fl : Floats) (to_int : fl.F → ℤ) where
  open fl use {F}

  group_selector-is_some : (g : GroupConfig F) → is_some (group_selector fl g) ≡ true
  unfolding group_selector new_selector
  group_selector-is_some g = ground arith

  -- `New` gives every group of the configuration a selector, in the configuration's order and with
  -- its settings.
  pub new_groups-total :
      (cfg : Config F) (gs : Map (GroupConfig F))
      → (b : Balancer F) × (new_groups fl to_int cfg gs ≡ some b)
        × (map (λ (g : Group F). (g.name, g.cfg)) b ≡ gs)
  unfolding new_groups
  new_groups-total cfg [] = ([], refl, refl)
  new_groups-total cfg ((name, g) ∷ gs) = elim (Option-cases (group_selector fl g)) [
    | inl n ↦ let h = rw n at (group_selector-is_some g) in cc
    | inr (s, n) ↦
        let (b, e, q) = new_groups-total cfg gs in
        let window = get_flow_window_duration fl to_int cfg (some g) in
        let new : Group F = record {
          name = name;
          cfg = g;
          selector = s;
          states = new_states fl window (group_backends cfg name) [];
        } in
        (new ∷ b, rw (n, e, new_groups) refl, ap (◌∷◌ (name, g)) q)
  ]
