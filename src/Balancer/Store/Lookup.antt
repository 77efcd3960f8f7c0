-- ===== src/Balancer/Store/Lookup.antt =====
-- What `Get` returns after `Set`, and the bound on the store's size.
use llm_proxy.Base.{
  ℕ, zero, suc, ◌≤◌, ◌<◌, ◌≡◌, ◌≢◌, ◌⊎◌, refl, sym, ◌∙◌, ap, Bool, true, false, List, [], ◌∷◌, map,
  Option, none, some, String, lookup, insert, lookup-insert, length, take, if◌then◌else◌, ◌==◌,
  text_eq, text_iff, arith, Option-cases, length-take, take_of_length-le, inl, inr,
}
use llm_proxy.Base.Int.{int_ltb, pos_part}
use llm_proxy.Base.Time.{Time, since}
use llm_proxy.Balancer.Store.Lists.{has_key, member, has_key-none, has_key-some, length-insert}
use llm_proxy.Balancer.Store.{
  Store, AffinityEntry, set, get, touch, expired, size, evict_loop, evict_back,
}
use llm_proxy.Balancer.Store.Invariant.{InSync, set-InSync}
use llm_proxy.Balancer.Store.Recency.{Item, item, view, forget, room, set-view, length-map}

-- The entry of a key in the view.
find : String → List Item → Option AffinityEntry
find k [] = none
find k ((j, e) ∷ l) = if j == k then e else find k l

find-map :
    (k : String) (s : Store) (l : List String)
    → find k (map (item s.entries) l) ≡ (if member k l then lookup k s.entries else none)
unfolding find member
find-map k s [] = refl
find-map k s (j ∷ l) = ground (arith, text_iff j k, find-map k s l)

lookup-view : (k : String) (s : Store) → InSync s → lookup k s.entries ≡ find k (view s)
lookup-view k s h = elim (Option-cases (lookup k s.entries)) [
  | inl e ↦ ground (arith, find-map k s s.lru)
  | inr (v, e) ↦ ground (arith, find-map k s s.lru, h.same_keys k, has_key-some k s.entries e)
]

find-forget : (k j : String) (l : List Item) → k ≢ j → find j (forget k l) ≡ find j l
unfolding find forget
find-forget k j [] h = refl
find-forget k j ((i, e) ∷ l) h = ground (arith, text_iff i k, text_iff i j, find-forget k j l h)

evict_loop-settings :
    (fuel : ℕ) (s : Store)
    → ((evict_loop fuel s).max_size ≡ s.max_size) × ((evict_loop fuel s).ttl ≡ s.ttl)
unfolding evict_loop evict_back
evict_loop-settings zero s = (refl, refl)
evict_loop-settings (suc fuel) s = ground (arith, evict_loop-settings fuel (evict_back s))

pub set-settings :
    (s : Store) (now : Time) (k b : String)
    → ((set s now k b).max_size ≡ s.max_size) × ((set s now k b).ttl ≡ s.ttl)
unfolding set
set-settings s now k b = elim (Option-cases (lookup k s.entries)) [
  | inl e ↦ rw (e, set) (evict_loop-settings (suc (suc (length s.lru))) _)
  | inr (v, e) ↦ rw (e, set) (refl, refl)
]

find-take_first :
    (n : ℕ) (k : String) (e : Option AffinityEntry) (l : List Item)
    → 0 < n
    → find k (take n ((k, e) ∷ l)) ≡ e
unfolding find
find-take_first zero k e l h = absurd (omega arith)
find-take_first (suc n) k e l h = ground (arith, text_iff k k)

length-view : (s : Store) → InSync s → length (view s) ≡ length s.entries
length-view s h = omega (arith, length-map (item s.entries) s.lru, h.same_length)

-- A key that was set is found with its backend until the entry is older than the TTL, for a store
-- in sync that may hold anything at all.
pub get-set_self :
    (s : Store) (now later : Time) (k b : String)
    → InSync s
    → 0 < room s
    → get (set s now k b) later k ≡ (
        if int_ltb s.ttl (since later now)
        then none
        else some (record { backend_id = b; last_seen = now }))
unfolding get find expired
get-set_self s now later k b h r =
    let entry : AffinityEntry = record { backend_id = b; last_seen = now } in
    let held : lookup k (set s now k b).entries ≡ some entry =
      lookup-view k (set s now k b) (set-InSync s now k b h)
      ∙ ap (find k) (set-view s now k b h)
      ∙ first_found (has_key k s.entries) entry in
    rw (held, get, (set-settings s now k b).1)
  where
    first_found :
        (known : Bool) (e : AffinityEntry)
        → find k (
            if known then (k, some e) ∷ forget k (view s) else take (room s) ((k, some e) ∷ view s))
          ≡ some e
    first_found true e = ground (arith, text_iff k k)
    first_found false e = find-take_first (room s) k (some e) (view s) r

-- Setting one key does not change what is found for another, if the key was known or there is
-- room, for a store in sync.
pub get-set_ne :
    (s : Store) (now later : Time) (k j b : String)
    → InSync s
    → k ≢ j
    → (has_key k s.entries ≡ true) ⊎ (size s < room s)
    → get (set s now k b) later j ≡ get s later j
unfolding get find expired size
get-set_ne s now later k j b h ne fits =
    let entry : AffinityEntry = record { backend_id = b; last_seen = now } in
    let same : lookup j (set s now k b).entries ≡ lookup j s.entries =
      lookup-view j (set s now k b) (set-InSync s now k b h)
      ∙ ap (find j) (set-view s now k b h)
      ∙ ground (
        arith,
        text_iff k j,
        find-forget k j (view s),
        length-view s h,
        take_of_length-le (room s) ((k, some entry) ∷ view s),
      )
      ∙ sym (lookup-view j s h) in
    ground (arith, same, set-settings s now k b)

-- For a store in sync that is within its bound, Set never leaves more entries than maxSize.
pub size-set :
    (s : Store) (now : Time) (k b : String)
    → InSync s
    → size s ≤ room s
    → size (set s now k b) ≤ room (set s now k b)
unfolding size set
size-set s now k b h fits = elim (Option-cases (lookup k s.entries)) [
  | inl e ↦
      let t = set s now k b in
      let entry : AffinityEntry = record { backend_id = b; last_seen = now } in
      let new = has_key-none k s.entries e in
      let seen : view t ≡ take (room s) ((k, some entry) ∷ view s) =
        set-view s now k b h ∙ rw new refl in
      omega (
        arith,
        length-view t (set-InSync s now k b h),
        ap length seen,
        length-take (room s) ((k, some entry) ∷ view s),
        ap pos_part (set-settings s now k b).0,
      )
  | inr (v, e) ↦
      rw (e, set)
        (ground (
          arith,
          has_key-some k s.entries e,
          length-insert k (record { backend_id = b; last_seen = now }) s.entries,
        ))
]

-- A touched key is found with its backend until the entry is older than the TTL.
pub get-touch :
    (s : Store) (now later : Time) (k : String) (e : AffinityEntry)
    → int_ltb s.ttl (since later now) ≡ false
    → get s now k ≡ some e
    → get (touch s now k) later k ≡ some (record { backend_id = e.backend_id; last_seen = now })
unfolding get touch expired
get-touch s now later k e fresh g = elim (Option-cases (lookup k s.entries)) [
  | inl n ↦ absurd (ground arith)
  | inr (v, n) ↦
      let held : lookup k (insert k (record v { last_seen = now }) s.entries)
          ≡ some (record v { last_seen = now }) =
        ground (arith, lookup-insert k k (record v { last_seen = now }) s.entries, text_iff k k) in
      let same : v ≡ e = ground arith in rw (n, touch, held, get, ← same) (ground arith)
]
