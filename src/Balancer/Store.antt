-- ===== src/Balancer/Store.antt =====
-- The affinity store of internal/balancer/store.go: a map of nodes and a recency list of the same
-- nodes. A node is known by its key, which `lruNode` carries and never changes. The methods take
-- the time that `time.Now()` returns.
pub mod Lists
pub mod Invariant
pub mod Recency
pub mod Lookup
pub mod Sweep
use llm_proxy.Base.{
  ℕ, zero, suc, Bool, true, false, List, [], ◌∷◌, ◌++◌, Option, none, some, String, Map, lookup,
  insert, delete, length, if◌then◌else◌, ltb,
}
use llm_proxy.Base.Int.{ℤ, pos, int_ltb}
use llm_proxy.Base.Time.{Time, Duration, since}
use Lists.{without, last?, drop_last, has_key}

pub record AffinityEntry : Type 0 where
  pub backend_id : String
  pub last_seen : Time

-- `lru` has the most recently used key at its head.
pub record Store : Type 0 where
  pub entries : Map AffinityEntry
  pub lru : List String
  pub ttl : Duration
  pub max_size : ℤ

unfoldable pub new_in_memory_store : Duration → ℤ → Store
new_in_memory_store ttl max_size = record { entries = []; lru = []; ttl = ttl; max_size = max_size }

-- the test of `Get` and `EvictExpired`
unfoldable pub expired : Store → Time → AffinityEntry → Bool
expired s now e = int_ltb s.ttl (since now e.last_seen)

unfoldable pub get : Store → Time → String → Option AffinityEntry
unfolding expired
get s now key = elim (lookup key s.entries) [
  | none ↦ none
  | some e ↦ if expired s now e then none else some e
]

unfoldable pub move_to_front : String → List String → List String
move_to_front key lru = key ∷ without key lru

-- One round of the eviction loop: the back of the list and its map entry go.
unfoldable pub evict_back : Store → Store
evict_back s = elim (last? s.lru) [
  | none ↦ s
  | some oldest ↦ record s { entries = delete oldest s.entries; lru = drop_last s.lru }
]

unfoldable pub over_capacity : Store → Bool
over_capacity s = int_ltb s.max_size (pos (length s.entries))

-- for len(s.entries) > s.maxSize; the fuel bounds the rounds.
unfoldable pub evict_loop : ℕ → Store → Store
evict_loop zero s = s
evict_loop (suc fuel) s =
    let rest = evict_loop fuel (evict_back s) in
    elim (last? s.lru) [ none ↦ s | some _ ↦ if over_capacity s then rest else s ]

unfoldable pub set : Store → Time → String → String → Store
unfolding move_to_front evict_loop
set s now key backend = elim (lookup key s.entries) [
  | some _ ↦ record s { entries = insert key entry s.entries; lru = move_to_front key s.lru }
  | none ↦
      evict_loop (suc (suc (length s.lru)))
        (record s { entries = insert key entry s.entries; lru = key ∷ s.lru })
]
  where
    entry : AffinityEntry
    entry = record { backend_id = backend; last_seen = now }

unfoldable pub touch : Store → Time → String → Store
unfolding move_to_front
touch s now key = elim (lookup key s.entries) [
  | none ↦ s
  | some e ↦ record s {
    entries = insert key (record e { last_seen = now }) s.entries;
    lru = move_to_front key s.lru;
  }
]

-- Removal of one node, which `Delete`, `EvictExpired` and `Migrate` share.
unfoldable pub remove : Store → String → Store
remove s key = elim (lookup key s.entries) [
  | none ↦ s
  | some _ ↦ record s { entries = delete key s.entries; lru = without key s.lru }
]

unfoldable pub remove_all : Store → List String → Store
unfolding remove
remove_all s [] = s
remove_all s (k ∷ ks) = remove_all (remove s k) ks

-- The keys whose entries pass a test, in the order of the map's iteration.
unfoldable pub keys_where : (AffinityEntry → Bool) → Map AffinityEntry → List String
keys_where p [] = []
keys_where p ((k, e) ∷ m) = if p e then k ∷ keys_where p m else keys_where p m

-- Both loops of `EvictExpired` and `Migrate`: collect the keys first, then remove them.
unfoldable pub remove_where : Store → (AffinityEntry → Bool) → Store
unfolding remove_all keys_where
remove_where s p = remove_all s (keys_where p s.entries)

unfoldable pub evict_expired : Store → Time → Store
unfolding remove_where expired
evict_expired s now = remove_where s (expired s now)

-- `kept` stands for the set of backends that stay.
unfoldable pub is_foreign : Map (Unit {0}) → AffinityEntry → Bool
is_foreign kept e = elim (lookup e.backend_id kept) [ none ↦ true | some _ ↦ false ]

unfoldable pub migrate : Store → Map (Unit {0}) → Store
unfolding remove_where is_foreign
migrate s kept = remove_where s (is_foreign kept)

-- `Len`
unfoldable pub size : Store → ℕ
size s = length s.entries
