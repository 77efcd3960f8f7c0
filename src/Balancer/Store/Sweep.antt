-- ===== src/Balancer/Store/Sweep.antt =====
-- The two sweeps, `EvictExpired` and `Migrate`, remove exactly the entries that they look for.
use llm_proxy.Base.{
  ◌≡◌, refl, ◌∙◌, Bool, false, List, [], ◌∷◌, Option, none, some, String, Map, lookup,
  lookup-delete, if◌then◌else◌, ◌==◌, text_eq, text_iff, arith, Option-cases, inl, inr,
}
use llm_proxy.Base.Time.{Time}
use llm_proxy.Balancer.Store.Lists.{has_key, member, IsMap}
use llm_proxy.Balancer.Store.{
  Store, AffinityEntry, get, expired, remove, remove_all, keys_where, remove_where, evict_expired,
  is_foreign, migrate,
}
use llm_proxy.Balancer.Store.Invariant.{InSync}

lookup-remove :
    (s : Store) (k j : String)
    → lookup j (remove s k).entries ≡ (if k == j then none else lookup j s.entries)
unfolding remove
lookup-remove s k j = elim (Option-cases (lookup k s.entries)) [
  | inl e ↦ rw (e, remove) (ground (arith, text_iff k j))
  | inr (v, e) ↦ rw (e, remove) (lookup-delete k j s.entries)
]

lookup-remove_all :
    (s : Store) (ks : List String) (j : String)
    → lookup j (remove_all s ks).entries ≡ (if member j ks then none else lookup j s.entries)
unfolding remove_all member
lookup-remove_all s [] j = refl
lookup-remove_all s (k ∷ ks) j =
    ground (arith, lookup-remove_all (remove s k) ks j, lookup-remove s k j)

-- An entry without those that pass the test.
abbrev pub unless : (AffinityEntry → Bool) → Option AffinityEntry → Option AffinityEntry
unless p none = none
unless p (some e) = if p e then none else some e

abbrev passes : (AffinityEntry → Bool) → Option AffinityEntry → Bool
passes p none = false
passes p (some e) = p e

member-keys_where :
    (p : AffinityEntry → Bool) (m : Map AffinityEntry) (j : String)
    → IsMap m
    → member j (keys_where p m) ≡ passes p (lookup j m)
unfolding keys_where member lookup has_key
member-keys_where p [] j h = refl
member-keys_where p ((k, e) ∷ m) j (n, h) = ground (arith, text_iff k j, member-keys_where p m j h)

lookup-remove_where :
    (s : Store) (p : AffinityEntry → Bool) (j : String)
    → InSync s
    → lookup j (remove_where s p).entries ≡ unless p (lookup j s.entries)
unfolding remove_where
lookup-remove_where s p j h =
    lookup-remove_all s (keys_where p s.entries) j
    ∙ ground (arith, member-keys_where p s.entries j h.map_keys)

-- A key's entry is left by Migrate exactly if its backend is among those that stay, for a store in
-- sync.
pub lookup-migrate :
    (s : Store) (kept : Map (Unit {0})) (j : String)
    → InSync s
    → lookup j (migrate s kept).entries ≡ unless (is_foreign kept) (lookup j s.entries)
unfolding migrate
lookup-migrate s kept j h = lookup-remove_where s (is_foreign kept) j h

ttl-remove_all : (s : Store) (ks : List String) → (remove_all s ks).ttl ≡ s.ttl
unfolding remove_all remove
ttl-remove_all s [] = refl
ttl-remove_all s (k ∷ ks) = ground (arith, ttl-remove_all (remove s k) ks)

-- After EvictExpired on a store in sync, the map holds exactly the entries that Get returns at
-- that time.
lookup-evict_expired :
    (s : Store) (now : Time) (j : String)
    → InSync s
    → (lookup j (evict_expired s now).entries ≡ get s now j)
      × (get (evict_expired s now) now j ≡ get s now j)
unfolding evict_expired get expired remove_where
lookup-evict_expired s now j h = ground (
  arith,
  lookup-remove_where s (expired s now) j h,
  ttl-remove_all s (keys_where (expired s now) s.entries),
)

-- A key whose node was removed is not found.
pub get-remove : (s : Store) (k : String) (later : Time) → get (remove s k) later k ≡ none
unfolding get
get-remove s k later = ground (arith, lookup-remove s k k, text_iff k k)
