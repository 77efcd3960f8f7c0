-- ===== src/Balancer/Selectors.antt =====
-- internal/balancer/simple_selectors.go and sticky_selector.go. A selector is a value with its
-- state; `select` returns the chosen backend (`none` is ErrNoHealthyBackend) and the selector after
-- the call. One call reads the clock once, where Go may read it again within the call.
pub mod Choice
pub mod Pinning
use llm_proxy.Base.{
  ℕ, zero, suc, ◌+◌, ◌*◌, ◌%◌, Bool, true, false, not, ◌&&◌, List, [], ◌∷◌, Option, none, some,
  String, length, get_elem?, keep, if◌then◌else◌, ltb, ◌==◌, text_eq,
}
use llm_proxy.Base.Int.{ℤ, pos, is_pos, int_ltb}
use llm_proxy.Base.Time.{Time, Duration, nanos}
use llm_proxy.Base.Floats.{Floats}
use llm_proxy.Base.Text.{bytes}
use llm_proxy.Balancer.Hash.{fnv64a, uint64}
use llm_proxy.Balancer.State.{BackendState, is_failing, is_ramping_up}
use llm_proxy.Balancer.Select.{pick_least_loaded, is_overloaded}
use llm_proxy.Balancer.Store
use llm_proxy.Balancer.Store.{Store}

pub record RequestContext : Type 0 where
  pub affinity_key : String
  pub is_streaming : Bool
  pub estimated_size : ℕ
  pub stale_threshold : Duration

-- `StickyLeastLoaded`
pub record Sticky (F : Type 0) : Type 0 where
  pub store : Store
  pub max_concurrency : ℤ
  pub kv_cache_pct : F
  pub stale_threshold : Duration

pub data Selector (F : Type 0) : Type 0 where
  single least_loaded : Selector F
  round_robin : ℕ → Selector F
  sticky : Sticky F → Selector F

-- `NewSelector`; the sticky strategy is built by `New` itself, and its case is nil.
unfoldable pub new_selector : {F : Type 0} → String → Option (Selector F)
new_selector strategy =
    if strategy == "single"
    then some single
    else if strategy == "round_robin"
    then some (round_robin 0)
    else if strategy == "least_loaded"
    then some least_loaded
    else if strategy == "sticky_least_loaded"
    then none
    else some (round_robin 0)

-- The threshold of the context, if it sets one; a nil context is `none`.
unfoldable pub stale_of : Option RequestContext → Duration → Duration
stale_of none d = d
stale_of (some c) d = if int_ltb (pos 0) c.stale_threshold then c.stale_threshold else d

-- The counter wraps at 2^64 as `atomic.Uint64` does; the index is the value before the increment.
unfoldable pub select_round_robin : {A : Type 0} → ℕ → List A → Option A × ℕ
select_round_robin counter [] = (none, counter)
select_round_robin counter (b ∷ bs) =
    (get_elem? (b ∷ bs) (counter % length (b ∷ bs)), (counter + 1) % uint64)

unfoldable pub find_by_id : {F : Type 0} → List (BackendState F) → String → Option (BackendState F)
find_by_id [] id = none
find_by_id (b ∷ pool) id = if b.id == id then some b else find_by_id pool id

module _ (fl : Floats) where
  open fl use {F}

  -- The pinned backend, if the pin is fresh and its backend is in the pool, not in a cooldown and
  -- not overloaded.
  unfoldable pub pinned :
      Sticky F → Time → Duration → String → List (BackendState F) → Option (BackendState F)
  pinned s now stale key pool = if key == "" then none else elim (Store.get s.store now key) [
    | none ↦ none
    | some e ↦ elim (find_by_id pool e.backend_id) [
      | none ↦ none
      | some b ↦
          if is_failing now b
          then none
          else if is_overloaded fl now s.max_concurrency s.kv_cache_pct stale b
          then none
          else some b
    ]
  ]

  -- The three lists that the loop over the pool fills.
  unfoldable pub is_ready : Time → BackendState F → Bool
  unfolding is_failing is_ramping_up
  is_ready now b = not (is_failing now b) && not (is_ramping_up now b)

  unfoldable pub is_warming : Time → BackendState F → Bool
  unfolding is_failing is_ramping_up
  is_warming now b = not (is_failing now b) && is_ramping_up now b

  -- The least loaded of the first list that has any.
  unfoldable pub choose : Time → Duration → ℕ → List (BackendState F) → Option (BackendState F)
  choose now stale hash pool =
      let ready = keep (is_ready now) pool in
      let ramping = keep (is_warming now) pool in
      let failing = keep (is_failing now) pool in
      if ltb 0 (length ready)
      then pick_least_loaded fl now stale hash ready
      else if ltb 0 (length ramping)
      then pick_least_loaded fl now stale hash ramping
      else if ltb 0 (length failing)
      then pick_least_loaded fl now stale hash failing
      else pick_least_loaded fl now stale hash pool

  unfoldable pub key_hash : String → ℕ
  unfolding fnv64a bytes
  key_hash key = if key == "" then 0 else fnv64a (bytes key)

  -- The new pin, for a request with a key and a chosen backend that is ready.
  unfoldable pub pin_choice : Sticky F → Time → String → Option (BackendState F) → Sticky F
  pin_choice s now key none = s
  pin_choice s now key (some b) =
      if not (key == "") && is_ready now b
      then record s { store = Store.set s.store now key b.id }
      else s

  unfoldable pub select_sticky :
      Sticky F
      → Time
      → Option RequestContext
      → String
      → List (BackendState F)
      → Option (BackendState F) × Sticky F
  select_sticky s now ctx key [] = (none, s)
  select_sticky s now ctx key (b ∷ bs) =
      let pool = b ∷ bs in
      let stale = stale_of ctx s.stale_threshold in
      elim (pinned s now stale key pool) [
        | some p ↦ (some p, record s { store = Store.touch s.store now key })
        | none ↦
            let chosen = choose now stale (key_hash key) pool in
            (chosen, pin_choice s now key chosen)
      ]

  unfoldable pub select :
      Selector F
      → Time
      → Option RequestContext
      → String
      → List (BackendState F)
      → Option (BackendState F) × Selector F
  select single now ctx key pool = (get_elem? pool 0, single)
  select least_loaded now ctx key pool =
      (pick_least_loaded fl now (stale_of ctx (pos (30 * nanos))) 0 pool, least_loaded)
  select (round_robin n) now ctx key pool =
      let (b, n') = select_round_robin n pool in (b, round_robin n')
  select (sticky s) now ctx key pool =
      let (b, s') = select_sticky s now ctx key pool in (b, sticky s')
