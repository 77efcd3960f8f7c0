-- ===== src/Balancer/Group/Failover.antt =====
-- `InvalidatePin`, which the proxy calls before it tries another backend.
use llm_proxy.Base.{
  ◌+◌, ◌<◌, ◌≡◌, refl, ◌∙◌, arith, inl, inr, In, text_self, ◌*◌, true, false, List, Option, none,
  some, String, if◌then◌else◌, ◌==◌, text_eq,
}
use llm_proxy.Base.Int.{pos}
use llm_proxy.Base.Time.{Time, nanos}
use llm_proxy.Base.Floats.{Floats}
use llm_proxy.Balancer.State.{BackendState, record_dispatch_failure}
use llm_proxy.Balancer.Store.{AffinityEntry}
use llm_proxy.Balancer.Store.Sweep.{get-remove}
use llm_proxy.Balancer.State.{is_failing}
use llm_proxy.Balancer.Selectors.Choice.{length-In}
use llm_proxy.Balancer.Selectors.Pinning.{select_sticky-total}
use llm_proxy.Balancer.Group.Lookup.{find_by_id-update_state}
use llm_proxy.Balancer.Selectors.{Sticky, select_sticky, RequestContext, sticky, find_by_id}
use llm_proxy.Balancer.Store
use llm_proxy.Balancer.Store.{new_in_memory_store}
use llm_proxy.Balancer.Group.{Group, Balancer, update_state, replace_group}

module _ {F : Type 0} where
  -- What `InvalidatePin` does to the group that it finds.
  unfoldable pub drop_pin : Time → String → Group F → Group F
  unfolding update_state
  drop_pin now key g = elim g.selector [
    | sticky s ↦
        let deleted = sticky (record s { store = Store.remove s.store key }) in
        elim (Store.get s.store now key) [
          | none ↦ record g { selector = deleted }
          | some e ↦ record g {
            selector = deleted;
            states = update_state e.backend_id (record_dispatch_failure now (pos 10)) g.states;
          }
        ]
    | _ ↦ g
  ]

  unfoldable pub invalidate_pin : Time → String → String → Balancer F → Balancer F
  unfolding replace_group
  invalidate_pin now name key b = if key == "" then b else replace_group name (drop_pin now key) b

  cooling :
      (now later : Time) (t : BackendState F)
      → later < now + 10 * nanos
      → ((record_dispatch_failure now (pos 10) t).id ≡ t.id)
        × (is_failing later (record_dispatch_failure now (pos 10) t) ≡ true)
  unfolding record_dispatch_failure is_failing
  cooling now later t h = (refl, ground arith)

  -- After InvalidatePin on a group with the sticky strategy whose key is pinned to one of its
  -- backends, the key has no pin any more, and the backend counts as failing for the next ten
  -- seconds.
  pub drop_pin-cools :
      (now later : Time) (key : String) (g : Group F) (s : Sticky F) (e : AffinityEntry)
      (t : BackendState F)
      → g.selector ≡ sticky s
      → Store.get s.store now key ≡ some e
      → find_by_id g.states e.backend_id ≡ some t
      → later < now + 10 * nanos
      → ((s' : Sticky F) × ((drop_pin now key g).selector ≡ sticky s')
          × (Store.get s'.store later key ≡ none))
        × ((t' : BackendState F) × (find_by_id (drop_pin now key g).states e.backend_id ≡ some t')
            × (is_failing later t' ≡ true))
  unfolding drop_pin
  drop_pin-cools now later key g s e t k pin found soon =
      let cool = record_dispatch_failure now (pos 10) in
      let s' : Sticky F = record s { store = Store.remove s.store key } in
      let cooled =
        find_by_id-update_state e.backend_id e.backend_id cool g.states
          (λ t. (cooling now later t soon).0) in
      (
        (s', rw (k, drop_pin, pin) refl, get-remove s.store key later),
        (
          cool t,
          rw (k, drop_pin, pin) (cooled ∙ rw (text_self e.backend_id, found) refl),
          (cooling now later t soon).1,
        ),
      )

module _ (fl : Floats) where
  open fl use {F}

  -- While any backend of the pool is out of its cooldown, a sticky selector chooses one that is.
  pub select_sticky-avoids_failing :
      (s : Sticky F) (now : Time) (ctx : Option RequestContext) (key : String)
      (pool : List (BackendState F)) (x c : BackendState F)
      → In x pool
      → is_failing now x ≡ false
      → (select_sticky fl s now ctx key pool).0 ≡ some c
      → is_failing now c ≡ false
  select_sticky-avoids_failing s now ctx key pool x c i live e =
      let (d, q, _, why) = select_sticky-total fl s now ctx key pool (length-In pool i) in
      let same : d ≡ c = ground arith in
      rw (← same) (elim why [ inl (f, _) ↦ f | inr best ↦ best.avoids_failing x i live ])
