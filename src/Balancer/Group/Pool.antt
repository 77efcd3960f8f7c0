-- ===== src/Balancer/Group/Pool.antt =====
-- `New` and `Select`: the pool of a request and the choice from it.
use llm_proxy.Base.{
  ◌<◌, ◌≡◌, refl, ◌++◌, arith, inl, inr, Bool-cases, In, here, ◌*◌, ◌%◌, ltb→lt, true, false, not,
  ◌&&◌, List, [], ◌∷◌, Option, none, some, String, Result, ok, err, take, keep, length, ltb,
  if◌then◌else◌, ◌==◌, text_eq,
}
use llm_proxy.Base.Int.{ℤ, pos}
use llm_proxy.Base.Time.{Time, nanos, seconds}
use llm_proxy.Base.Floats.{Floats}
use llm_proxy.Config.Types.{Backend, GroupConfig}
use llm_proxy.Config.Lookup.{get_stale_threshold}
use llm_proxy.Balancer.State.{BackendState, new_backend_state, should_retry}
use llm_proxy.Balancer.Selectors
use llm_proxy.Balancer.Select.Least.{get_elem-In}
use llm_proxy.Balancer.Selectors.Choice.{In-keep, keep-In, length-In, pick_nonempty}
use llm_proxy.Balancer.Selectors.Pinning.{select_sticky-total}
use llm_proxy.Balancer.Selectors.{
  Selector, RequestContext, single, least_loaded, round_robin, sticky, stale_of, select_round_robin,
  new_selector, find_by_id,
}
use llm_proxy.Balancer.Store.{new_in_memory_store}
use llm_proxy.Balancer.Group.{
  Group, Balancer, SelectError, unknown_group, no_healthy_backend, update_state, find_group,
  replace_group,
}

module _ {F : Type 0} where
  -- The three rules for the pool of a request, in order.
  unfoldable pub pool_of : Time → List (BackendState F) → List (BackendState F)
  pool_of now states =
      let healthy = keep (λ s. s.healthy) states in
      let retried = keep (λ s. not s.healthy && should_retry now (pos 0) s) states in
      if ltb 0 (length healthy)
      then healthy
      else if ltb 0 (length retried)
      then retried
      else take 1 states

module _ (fl : Floats) where
  open fl use {F, of_int}

  -- states[be.ID] = NewBackendState(...): of two backends with one id the last state stays.
  unfoldable pub new_states : ℤ → List Backend → List (BackendState F) → List (BackendState F)
  unfolding update_state
  new_states window [] states = states
  new_states window (be ∷ bs) states =
      let new = new_backend_state (of_int (pos 0)) be.id be.base_url (pos 1) window in
      elim (find_by_id states be.id) [
        | some _ ↦ new_states window bs (update_state be.id (λ _. new) states)
        | none ↦ new_states window bs (states ++ new ∷ [])
      ]

  unfoldable pub group_selector : GroupConfig F → Option (Selector F)
  group_selector g =
      if g.strategy == "sticky_least_loaded"
      then some (
          sticky (record {
            store = new_in_memory_store (seconds g.affinity.ttl_seconds) g.affinity.max_entries;
            max_concurrency = g.overload.max_concurrency;
            kv_cache_pct = g.overload.kv_cache_pct;
            stale_threshold = seconds (get_stale_threshold g);
          }))
      else new_selector g.strategy

  -- The choice from the pool, and the group with its selector after the call.
  unfoldable pub select_in :
      Time
      → String
      → Option RequestContext
      → Group F
      → Result SelectError (BackendState F) × Group F
  select_in now key ctx g =
      let (chosen, after) = Selectors.select fl g.selector now ctx key (pool_of now g.states) in
      (elim chosen [ some s ↦ ok s | none ↦ err no_healthy_backend ], record g { selector = after })

  unfoldable pub select :
      Time
      → String
      → String
      → Option RequestContext
      → Balancer F
      → Result SelectError (BackendState F) × Balancer F
  unfolding replace_group
  select now name key ctx b = elim (find_group name b) [
    | none ↦ (err (unknown_group name), b)
    | some g ↦
        let (result, _) = select_in now key ctx g in
        (result, replace_group name (λ h. (select_in now key ctx h).1) b)
  ]

module _ {F : Type 0} (now : Time) where
  any_retry : (b : BackendState F) → b.healthy ≡ false → should_retry now (pos 0) b ≡ true
  unfolding should_retry
  any_retry b h = ground arith

  retried_all :
      (states : List (BackendState F))
      → length (keep (λ s. s.healthy) states) ≡ 0
      → keep (λ s. not s.healthy && should_retry now (pos 0) s) states ≡ states
  retried_all [] e = refl
  retried_all (s ∷ ss) e = elim (Bool-cases s.healthy) [
    | inl h ↦ absurd (ground arith)
    | inr h ↦ let r = any_retry s h in let rest = retried_all ss (ground arith) in ground arith
  ]

  -- The pool of a request is the group's healthy backends if there are any, and else all of the
  -- group: no retry delay holds a backend back.
  pub pool_of-lem :
      (states : List (BackendState F))
      → pool_of now states ≡ (
          if ltb 0 (length (keep (λ s. s.healthy) states))
          then keep (λ s. s.healthy) states
          else states)
  unfolding pool_of
  pool_of-lem [] = refl
  pool_of-lem (s ∷ ss) = elim (Bool-cases (ltb 0 (length (keep (λ s. s.healthy) (s ∷ ss))))) [
    | inl h ↦ ground arith
    | inr h ↦ let all = retried_all (s ∷ ss) (ground arith) in ground arith
  ]

  -- What a pool promises of its members, and that it has some.
  record IsPoolOf (states pool : List (BackendState F)) : Type 0 where
    nonempty : 0 < length pool
    from :
        (c : BackendState F)
        → In c pool
        → In c states × ((x : BackendState F) → In x states → x.healthy ≡ true → c.healthy ≡ true)

  pool_of-IsPoolOf :
      (states : List (BackendState F)) → 0 < length states → IsPoolOf states (pool_of now states)
  pool_of-IsPoolOf states n = elim (Bool-cases (ltb 0 (length (keep (λ s. s.healthy) states)))) [
    | inl h ↦
        rw (pool_of-lem states, h)
          record {
            nonempty = ltb→lt _ _ h;
            from = λ c i. let (k, q) = In-keep (λ s. s.healthy) states i in (k, λ _ _ _. q);
          }
    | inr h ↦
        rw (pool_of-lem states, h)
          record {
            nonempty = n;
            from = λ c i. (
              i,
              λ x j q.
                  let m =
                    length-In (keep (λ s. s.healthy) states)
                      (keep-In (λ s. s.healthy) states j q) in
                  absurd (ground arith),
            );
          }
  ]

module _ (fl : Floats) where
  open fl use {F}

  -- On a pool that is not empty, each of the four strategies yields a backend of the pool.
  pub select-In :
      (sel : Selector F) (now : Time) (ctx : Option RequestContext) (key : String)
      (pool : List (BackendState F))
      → 0 < length pool
      → (c : BackendState F) × ((Selectors.select fl sel now ctx key pool).0 ≡ some c) × In c pool
  unfolding Selectors.select select_round_robin
  select-In sel now ctx key [] n = absurd (omega arith)
  select-In single now ctx key (b ∷ bs) n = (b, refl, here refl)
  select-In least_loaded now ctx key (b ∷ bs) n =
      let (c, e, i, _) = pick_nonempty fl now (stale_of ctx (pos (30 * nanos))) 0 (b ∷ bs) n in
      (c, e, i)
  select-In (round_robin k) now ctx key (b ∷ bs) n =
      get_elem-In (b ∷ bs) (k % length (b ∷ bs)) (grind arith)
  select-In (sticky s) now ctx key (b ∷ bs) n =
      let (c, e, i, _) = select_sticky-total fl s now ctx key (b ∷ bs) n in (c, e, i)

  -- A request to a known group with at least one backend always gets one of the group's backends,
  -- whatever the strategy and however many are down, and a healthy one if the group has any.
  pub select-available :
      (now : Time) (name key : String) (ctx : Option RequestContext) (b : Balancer F) (g : Group F)
      → find_group name b ≡ some g
      → 0 < length g.states
      → (c : BackendState F) × ((select fl now name key ctx b).0 ≡ ok c)
        × In c g.states
        × ((x : BackendState F) → In x g.states → x.healthy ≡ true → c.healthy ≡ true)
  unfolding select select_in
  select-available now name key ctx b g f n =
      let pool = pool_of-IsPoolOf now g.states n in
      let (c, e, i) = select-In g.selector now ctx key (pool_of now g.states) pool.nonempty in
      let (k, h) = pool.from c i in (c, rw (f, select, e, select_in) refl, k, h)
