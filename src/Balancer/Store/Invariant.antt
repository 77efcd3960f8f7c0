-- ===== src/Balancer/Store/Invariant.antt =====
-- The map and the recency list of the affinity store hold the same keys, each once.
use llm_proxy.Base.{
  ℕ, zero, suc, ◌≡◌, refl, inl, inr, Bool, true, false, List, [], ◌∷◌, String, Map, lookup, insert,
  length, text_eq, text_iff, arith, Option-cases,
}
use llm_proxy.Base.Int.{ℤ}
use llm_proxy.Base.Time.{Time, Duration}
use llm_proxy.Balancer.Store.Lists.{
  last?, has_key, member, IsDistinct, IsMap, member-without, without-IsDistinct, length-without,
  member-drop_last, drop_last-IsDistinct, length-drop_last, has_key-insert, has_key-delete,
  has_key-none, has_key-some, member-last, insert-IsMap, delete-IsMap, length-delete, length-insert,
}
use llm_proxy.Balancer.Store.{
  Store, AffinityEntry, new_in_memory_store, move_to_front, evict_back, evict_loop, set, touch,
  remove, remove_all, remove_where, keys_where, expired, is_foreign, evict_expired, migrate,
}

pub record InSync (s : Store) : Type 0 where
  pub map_keys : IsMap s.entries
  pub list_keys : IsDistinct s.lru
  pub same_keys : (k : String) → has_key k s.entries ≡ member k s.lru
  pub same_length : length s.entries ≡ length s.lru

new_in_memory_store-InSync : (ttl : Duration) (n : ℤ) → InSync (new_in_memory_store ttl n)
unfolding new_in_memory_store has_key lookup member
new_in_memory_store-InSync ttl n = record {
  map_keys = tt;
  list_keys = tt;
  same_keys = λ k. refl;
  same_length = refl;
}

-- An existing key gets a new entry and moves to the front.
pub move_to_front-InSync :
    (s : Store) (k : String) (e : AffinityEntry)
    → InSync s
    → has_key k s.entries ≡ true
    → InSync (record s { entries = insert k e s.entries; lru = move_to_front k s.lru })
unfolding move_to_front member
move_to_front-InSync s k e h there = record {
  map_keys = insert-IsMap k e s.entries h.map_keys;
  list_keys = (
    ground (arith, member-without k k s.lru, text_iff k k),
    without-IsDistinct k s.lru h.list_keys,
  );
  same_keys =
      λ j. ground (arith, has_key-insert k j e s.entries, member-without k j s.lru, h.same_keys j);
  same_length = ground (
    arith,
    length-insert k e s.entries,
    length-without k s.lru h.list_keys,
    h.same_length,
    h.same_keys k,
  );
}

pub push_front-InSync :
    (s : Store) (k : String) (e : AffinityEntry)
    → InSync s
    → has_key k s.entries ≡ false
    → InSync (record s { entries = insert k e s.entries; lru = k ∷ s.lru })
unfolding member
push_front-InSync s k e h absent = record {
  map_keys = insert-IsMap k e s.entries h.map_keys;
  list_keys = (ground (arith, h.same_keys k), h.list_keys);
  same_keys = λ j. ground (arith, has_key-insert k j e s.entries, h.same_keys j);
  same_length = ground (arith, length-insert k e s.entries, h.same_length);
}

pub evict_back-InSync : (s : Store) → InSync s → InSync (evict_back s)
unfolding evict_back
evict_back-InSync s h = elim (Option-cases (last? s.lru)) [
  | inl e ↦ rw (e, evict_back) h
  | inr (k, e) ↦
      rw (e, evict_back)
        (record {
          map_keys = delete-IsMap k s.entries h.map_keys;
          list_keys = drop_last-IsDistinct s.lru h.list_keys;
          same_keys = λ j. ground (
            arith,
            has_key-delete k j s.entries,
            member-drop_last s.lru {k = k} j h.list_keys e,
            h.same_keys j,
          );
          same_length = ground (
            arith,
            length-delete k s.entries h.map_keys,
            length-drop_last s.lru {k = k} e,
            h.same_length,
            h.same_keys k,
            member-last s.lru k e,
          );
        })
]

pub remove-InSync : (s : Store) (k : String) → InSync s → InSync (remove s k)
unfolding remove
remove-InSync s k h = elim (Option-cases (lookup k s.entries)) [
  | inl e ↦ rw (e, remove) h
  | inr (v, e) ↦
      rw (e, remove)
        (record {
          map_keys = delete-IsMap k s.entries h.map_keys;
          list_keys = without-IsDistinct k s.lru h.list_keys;
          same_keys = λ j.
              ground (arith, has_key-delete k j s.entries, member-without k j s.lru, h.same_keys j);
          same_length = ground (
            arith,
            length-delete k s.entries h.map_keys,
            length-without k s.lru h.list_keys,
            h.same_length,
            h.same_keys k,
          );
        })
]

pub evict_loop-InSync : (fuel : ℕ) (s : Store) → InSync s → InSync (evict_loop fuel s)
unfolding evict_loop
evict_loop-InSync zero s h = h
evict_loop-InSync (suc fuel) s h =
    ground (arith, evict_loop-InSync fuel (evict_back s) (evict_back-InSync s h))

pub set-InSync : (s : Store) (now : Time) (k b : String) → InSync s → InSync (set s now k b)
unfolding set
set-InSync s now k b h = elim (Option-cases (lookup k s.entries)) [
  | inl e ↦
      rw (e, set)
        (evict_loop-InSync (suc (suc (length s.lru))) _ (
          push_front-InSync s k (record { backend_id = b; last_seen = now }) h
            (has_key-none k s.entries e)))
  | inr (v, e) ↦ rw (e, set) (move_to_front-InSync s k _ h (has_key-some k s.entries e))
]

pub touch-InSync : (s : Store) (now : Time) (k : String) → InSync s → InSync (touch s now k)
unfolding touch
touch-InSync s now k h = elim (Option-cases (lookup k s.entries)) [
  | inl e ↦ rw (e, touch) h
  | inr (v, e) ↦ rw (e, touch) (move_to_front-InSync s k _ h (has_key-some k s.entries e))
]

remove_all-InSync : (s : Store) (ks : List String) → InSync s → InSync (remove_all s ks)
unfolding remove_all
remove_all-InSync s [] h = h
remove_all-InSync s (k ∷ ks) h = remove_all-InSync (remove s k) ks (remove-InSync s k h)

remove_where-InSync : (s : Store) (p : AffinityEntry → Bool) → InSync s → InSync (remove_where s p)
unfolding remove_where
remove_where-InSync s p h = remove_all-InSync s (keys_where p s.entries) h

-- Each call of the store's interface that changes it.
pub data Call : Type 0 where
  sets : String → String → Call
  touches deletes : String → Call
  evicts : Call
  migrates : Map (Unit {0}) → Call

unfoldable pub step : Store → Time × Call → Store
step s (now, sets k b) = set s now k b
step s (now, touches k) = touch s now k
step s (now, deletes k) = remove s k
step s (now, evicts) = evict_expired s now
step s (now, migrates kept) = migrate s kept

unfoldable pub run : Store → List (Time × Call) → Store
unfolding step
run s [] = s
run s (c ∷ cs) = run (step s c) cs

pub step-InSync : (s : Store) (c : Time × Call) → InSync s → InSync (step s c)
unfolding step evict_expired migrate
step-InSync s (now, sets k b) h = set-InSync s now k b h
step-InSync s (now, touches k) h = touch-InSync s now k h
step-InSync s (now, deletes k) h = remove-InSync s k h
step-InSync s (now, evicts) h = remove_where-InSync s (expired s now) h
step-InSync s (now, migrates kept) h = remove_where-InSync s (is_foreign kept) h

run-InSync : (s : Store) (cs : List (Time × Call)) → InSync s → InSync (run s cs)
unfolding run
run-InSync s [] h = h
run-InSync s (c ∷ cs) h = run-InSync (step s c) cs (step-InSync s c h)

-- After any calls on a new store, in any order, its map and its recency list hold the same keys,
-- each once.
pub run-new-InSync :
    (ttl : Duration) (n : ℤ) (cs : List (Time × Call)) → InSync (run (new_in_memory_store ttl n) cs)
run-new-InSync ttl n cs = run-InSync _ cs (new_in_memory_store-InSync ttl n)
