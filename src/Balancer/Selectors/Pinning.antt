-- ===== src/Balancer/Selectors/Pinning.antt =====
-- Affinity: a request whose key is pinned goes to the pinned backend, and every call on a pool that
-- is not empty yields one of its backends.
use llm_proxy.Base.{
  ◌<◌, ◌≡◌, ◌≢◌, ◌⊎◌, refl, ◌∙◌, true, false, List, [], ◌∷◌, Option, some, String, length, arith,
  Bool-cases, Option-cases, inl, inr, In, here, there, ◌==◌, text_eq, text_iff,
}
use llm_proxy.Base.Int.{int_ltb}
use llm_proxy.Base.Time.{Time, Duration, since}
use llm_proxy.Base.Floats.{Floats}
use llm_proxy.Balancer.State.{BackendState, is_failing}
use llm_proxy.Balancer.Select.{is_overloaded}
use llm_proxy.Balancer.Store
use llm_proxy.Balancer.Store.{Store, AffinityEntry}
use llm_proxy.Balancer.Store.Invariant.{InSync}
use llm_proxy.Balancer.Store.Recency.{room}
use llm_proxy.Balancer.Store.Lookup.{get-set_self, set-settings}
use llm_proxy.Balancer.Selectors.{
  Sticky, RequestContext, is_ready, pinned, choose, key_hash, pin_choice, select_sticky, find_by_id,
  stale_of,
}
use llm_proxy.Balancer.Selectors.Choice.{IsBestFor, choose-IsBestFor}

find_by_id-In :
    {F : Type 0} (pool : List (BackendState F)) (id : String) {b : BackendState F}
    → find_by_id pool id ≡ some b
    → In b pool × (b.id ≡ id)
unfolding find_by_id
find_by_id-In [] id e = cc
find_by_id-In (x ∷ pool) id {b} e = elim (Bool-cases (x.id == id)) [
  | inl h ↦ let q : x ≡ b = ground arith in (here q, rw (← q) ((text_iff x.id id).0 h))
  | inr h ↦ let (i, q) = find_by_id-In pool id {b = b} (ground arith) in (there i, q)
]

module _ (fl : Floats) where
  open fl use {F}

  pinned-entry :
      (s : Sticky F) (now : Time) (stale : Duration) (key : String) (pool : List (BackendState F))
      {b : BackendState F}
      → pinned fl s now stale key pool ≡ some b
      → (en : AffinityEntry) × (Store.get s.store now key ≡ some en)
        × (find_by_id pool en.backend_id ≡ some b)
  unfolding pinned
  pinned-entry s now stale key pool {b} e = elim (Option-cases (Store.get s.store now key)) [
    | inl g ↦ absurd (ground arith)
    | inr (en, g) ↦ elim (Option-cases (find_by_id pool en.backend_id)) [
      | inl f ↦ absurd (ground arith)
      | inr (p, f) ↦ let q : p ≡ b = ground arith in (en, g, rw (← q) f)
    ]
  ]

  -- What it takes for a key to be usably pinned.
  pinned-some :
      (s : Sticky F) (now : Time) (stale : Duration) (key : String) (pool : List (BackendState F))
      {b : BackendState F}
      → pinned fl s now stale key pool ≡ some b
      → In b pool
        × (is_failing now b ≡ false)
        × (is_overloaded fl now s.max_concurrency s.kv_cache_pct stale b ≡ false)
  unfolding pinned
  pinned-some s now stale key pool {b} e = elim (Option-cases (Store.get s.store now key)) [
    | inl g ↦ absurd (ground arith)
    | inr (en, g) ↦ elim (Option-cases (find_by_id pool en.backend_id)) [
      | inl f ↦ absurd (ground arith)
      | inr (p, f) ↦
          let q : p ≡ b = ground arith in
          ((find_by_id-In pool en.backend_id (rw (← q) f)).0, ground arith, ground arith)
    ]
  ]

  -- On a pool that is not empty a sticky selector always returns one of the pool: a backend that
  -- is neither in its cooldown nor overloaded, or else the best choice.
  pub select_sticky-total :
      (s : Sticky F) (now : Time) (ctx : Option RequestContext) (key : String)
      (pool : List (BackendState F))
      → 0 < length pool
      → (c : BackendState F) × ((select_sticky fl s now ctx key pool).0 ≡ some c)
        × In c pool
        × ((is_failing now c ≡ false)
              × (is_overloaded fl now s.max_concurrency s.kv_cache_pct
                    (stale_of ctx s.stale_threshold)
                    c
                  ≡ false)
            ⊎ IsBestFor fl now (stale_of ctx s.stale_threshold) (key_hash fl key) pool c)
  unfolding select_sticky
  select_sticky-total s now ctx key [] h = absurd (omega arith)
  select_sticky-total s now ctx key (b ∷ bs) h =
      let stale = stale_of ctx s.stale_threshold in
      elim (Option-cases (pinned fl s now stale key (b ∷ bs))) [
        | inl e ↦
            let (c, f, best) = choose-IsBestFor fl now stale (key_hash fl key) (b ∷ bs) h in
            (c, rw (e, f, select_sticky), best.in_pool, inr best)
        | inr (p, e) ↦
            let (i, f, o) = pinned-some s now stale key (b ∷ bs) {b = p} e in
            (p, rw (e, select_sticky), i, inl (f, o))
      ]

  module _ (s : Sticky F) (now later : Time) (key : String) (c : BackendState F)
      (fresh : int_ltb s.store.ttl (since later now) ≡ false) where
    get-touch :
        (en : AffinityEntry)
        → Store.get s.store now key ≡ some en
        → Store.get (Store.touch s.store now key) later key
          ≡ some (record { backend_id = en.backend_id; last_seen = now })
    get-touch en g = Store.Lookup.get-touch s.store now later key en fresh g

    -- The pin that a call leaves for the backend that it returned.
    pin_left :
        (ctx : Option RequestContext) (pool : List (BackendState F))
        → key ≢ ""
        → InSync s.store
        → 0 < room s.store
        → (select_sticky fl s now ctx key pool).0 ≡ some c
        → is_ready fl now c ≡ true
        → Store.get (select_sticky fl s now ctx key pool).1.store later key
          ≡ some (record { backend_id = c.id; last_seen = now })
    unfolding select_sticky pin_choice
    pin_left ctx [] k sync r e ok = cc
    pin_left ctx (b ∷ bs) k sync r e ok =
        let stale = stale_of ctx s.stale_threshold in
        elim (Option-cases (pinned fl s now stale key (b ∷ bs))) [
          | inl n ↦
              let f : choose fl now stale (key_hash fl key) (b ∷ bs) ≡ some c =
                rw (n, select_sticky) at e in
              let nk : (key == "") ≡ false = ground (arith, text_iff key "") in
              rw (n, f, ok, nk, select_sticky)
                (get-set_self s.store now later key c.id sync r ∙ rw fresh)
          | inr (p, n) ↦
              let q : some p ≡ some c = rw (n, select_sticky) at e in
              let (en, g, found) = pinned-entry s now stale key (b ∷ bs) {b = p} n in
              let (_, id) = find_by_id-In (b ∷ bs) en.backend_id found in
              rw (n, select_sticky) (get-touch en g ∙ ground arith)
        ]

  unpinned_kept :
      (s : Sticky F) (now : Time) (ctx : Option RequestContext) (key : String)
      (pool : List (BackendState F))
      → ((select_sticky fl s now ctx key pool).1.max_concurrency ≡ s.max_concurrency)
        × ((select_sticky fl s now ctx key pool).1.kv_cache_pct ≡ s.kv_cache_pct)
        × ((select_sticky fl s now ctx key pool).1.stale_threshold ≡ s.stale_threshold)
  unfolding select_sticky pin_choice
  unpinned_kept s now ctx key [] = (refl, refl, refl)
  unpinned_kept s now ctx key (b ∷ bs) = (ground arith, ground arith, ground arith)

  pinned-intro :
      (s : Sticky F) (now : Time) (stale : Duration) (key : String) (pool : List (BackendState F))
      (en : AffinityEntry) (c : BackendState F)
      → key ≢ ""
      → Store.get s.store now key ≡ some en
      → find_by_id pool en.backend_id ≡ some c
      → is_failing now c ≡ false
      → is_overloaded fl now s.max_concurrency s.kv_cache_pct stale c ≡ false
      → pinned fl s now stale key pool ≡ some c
  unfolding pinned
  pinned-intro s now stale key pool en c k g f a o = ground (arith, text_iff key "")

  -- Session affinity: the next request with a key that is not empty, made before the pin is older
  -- than the TTL, goes to the backend that served the last one, also if that one was chosen
  -- because the pinned backend was overloaded, if that backend was ready when chosen, is still in
  -- the pool and is neither in its cooldown nor overloaded; the store must be in sync and have
  -- room for an entry.
  pub select_sticky_again :
      (s : Sticky F) (now later : Time) (ctx ctx' : Option RequestContext) (key : String)
      (pool pool' : List (BackendState F)) (c c' : BackendState F)
      → key ≢ ""
      → InSync s.store
      → 0 < room s.store
      → int_ltb s.store.ttl (since later now) ≡ false
      → (select_sticky fl s now ctx key pool).0 ≡ some c
      → is_ready fl now c ≡ true
      → find_by_id pool' c.id ≡ some c'
      → is_failing later c' ≡ false
      → is_overloaded fl later s.max_concurrency s.kv_cache_pct (stale_of ctx' s.stale_threshold) c'
        ≡ false
      → (select_sticky fl (select_sticky fl s now ctx key pool).1 later ctx' key pool').0 ≡ some c'
  unfolding find_by_id
  select_sticky_again s now later ctx ctx' key pool [] c c' k sync r fresh e ok found up room_left =
      cc
  select_sticky_again s now later ctx ctx' key pool (b ∷ bs) c c' k sync r fresh e ok found up
        room_left =
      let t = (select_sticky fl s now ctx key pool).1 in
      let (m, v, st) = unpinned_kept s now ctx key pool in
      let left = pin_left s now later key c fresh ctx pool k sync r e ok in
      let pin =
        pinned-intro t later (stale_of ctx' t.stale_threshold) key (b ∷ bs) _ c' k left found up
          (rw (m, v, st) room_left) in
      unfold select_sticky in rw (pin, select_sticky)
