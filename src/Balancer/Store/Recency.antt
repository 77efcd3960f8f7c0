-- ===== src/Balancer/Store/Recency.antt =====
-- The affinity store seen as one list of keys and entries, most recently used first. The view
-- forgets the map's order; a `Set` of a new key keeps the first `maxSize` of it.
use llm_proxy.Base.{
  ℕ, zero, suc, ◌-◌, ◌≤◌, ◌<◌, ◌≡◌, refl, sym, ◌∙◌, ap, true, false, List, [], ◌∷◌, map, Option,
  none, some, String, Map, lookup, insert, delete, length, take, if◌then◌else◌, ◌==◌, text_eq,
  text_iff, arith, Option-cases, Bool-cases, lookup-insert, lookup-delete, take_of_length-le, inl,
  inr,
}
use llm_proxy.Base.Int.{pos_part}
use llm_proxy.Base.Time.{Time}
use llm_proxy.Balancer.Store.Lists.{
  without, last?, drop_last, has_key, member, member-without, member-drop_last, length-drop_last,
  drop_last-take, has_key-none, has_key-some, last-cons,
}
use llm_proxy.Balancer.Store.{
  Store, AffinityEntry, move_to_front, evict_back, over_capacity, evict_loop, set,
}
use llm_proxy.Balancer.Store.Invariant.{InSync, evict_back-InSync, push_front-InSync}

abbrev pub Item : Type 0
Item = String × Option AffinityEntry

abbrev pub item : Map AffinityEntry → String → Item
item m k = (k, lookup k m)

abbrev pub view : Store → List Item
view s = map (item s.entries) s.lru

-- The list without the items of one key.
unfoldable pub forget : String → List Item → List Item
forget k [] = []
forget k ((j, e) ∷ l) = if j == k then forget k l else (j, e) ∷ forget k l

-- maxSize, where a negative bound keeps nothing
abbrev pub room : Store → ℕ
room s = pos_part s.max_size

map-item_agree :
    (m n : Map AffinityEntry) (l : List String)
    → ((j : String) → member j l ≡ true → lookup j m ≡ lookup j n)
    → map (item m) l ≡ map (item n) l
unfolding member
map-item_agree m n [] h = refl
map-item_agree m n (k ∷ l) h =
    let rest = map-item_agree m n l (λ j p. h j (ground (arith, p))) in
    let here : lookup k m ≡ lookup k n = h k (ground (arith, text_iff k k)) in cc (rest, here)

forget-map :
    (k : String) (m : Map AffinityEntry) (l : List String)
    → forget k (map (item m) l) ≡ map (item m) (without k l)
unfolding forget without
forget-map k m [] = refl
forget-map k m (j ∷ l) = ground (arith, forget-map k m l)

-- Moving a key to the front with a new entry, in the view.
move_to_front-view :
    (s : Store) (k : String) (e : AffinityEntry)
    → map (item (insert k e s.entries)) (move_to_front k s.lru) ≡ (k, some e) ∷ forget k (view s)
unfolding move_to_front
move_to_front-view s k e =
    let rest : map (item (insert k e s.entries)) (without k s.lru)
        ≡ map (item s.entries) (without k s.lru) =
      map-item_agree (insert k e s.entries) s.entries (without k s.lru)
        (λ j p. ground (arith, lookup-insert k j e s.entries, member-without k j s.lru)) in
    let head : lookup k (insert k e s.entries) ≡ some e =
      ground (arith, lookup-insert k k e s.entries, text_iff k k) in
    cc (rest, head, forget-map k s.entries s.lru)

push_front-view :
    (s : Store) (k : String) (e : AffinityEntry)
    → member k s.lru ≡ false
    → map (item (insert k e s.entries)) (k ∷ s.lru) ≡ (k, some e) ∷ view s
push_front-view s k e absent =
    let rest : map (item (insert k e s.entries)) s.lru ≡ map (item s.entries) s.lru =
      map-item_agree (insert k e s.entries) s.entries s.lru
        (λ j p. ground (arith, lookup-insert k j e s.entries, text_iff k j)) in
    let head : lookup k (insert k e s.entries) ≡ some e =
      ground (arith, lookup-insert k k e s.entries, text_iff k k) in
    cc (rest, head)

take-take {ℓ} : {A : Type ℓ} (n m : ℕ) (l : List A) → n ≤ m → take n (take m l) ≡ take n l
take-take zero m l h = refl
take-take (suc n) zero l h = absurd (omega arith)
take-take (suc n) (suc m) [] h = refl
take-take (suc n) (suc m) (x ∷ l) h = ap (◌∷◌ x) (take-take n m l (omega arith))

map-take {ℓ κ} :
    {A : Type ℓ} {B : Type κ} (f : A → B) (n : ℕ) (l : List A) → map f (take n l) ≡ take n (map f l)
map-take f zero l = refl
map-take f (suc n) [] = refl
map-take f (suc n) (x ∷ l) = ap (◌∷◌ (f x)) (map-take f n l)

pub length-map {ℓ κ} :
    {A : Type ℓ} {B : Type κ} (f : A → B) (l : List A) → length (map f l) ≡ length l
length-map f [] = refl
length-map f (x ∷ l) = ap suc (length-map f l)

-- One eviction drops the least recently used item of the view.
evict_back-view :
    (s : Store) {k : String}
    → InSync s
    → last? s.lru ≡ some k
    → (n : ℕ) → suc n ≡ length s.lru
    → view (evict_back s) ≡ take n (view s)
unfolding evict_back
evict_back-view s {k} h e n len =
    rw (e, evict_back)
      (map-item_agree (delete k s.entries) s.entries (drop_last s.lru) (λ j p.
          ground
            (arith, lookup-delete k j s.entries, member-drop_last s.lru {k = k} j h.list_keys e))
        ∙ ap (map (item s.entries)) (drop_last-take n s.lru (sym len))
        ∙ map-take (item s.entries) n s.lru)

last-none : (l : List String) → last? l ≡ none → length l ≡ 0
last-none [] e = refl
last-none (k ∷ l) e = let (j, e') = last-cons k l in cc (e, e')

view_all : (s : Store) → length s.lru ≤ room s → take (room s) (view s) ≡ view s
view_all s h =
    take_of_length-le (room s) (view s) (omega (arith, length-map (item s.entries) s.lru))

over_capacity-false : (s : Store) → over_capacity s ≡ false → length s.entries ≤ room s
unfolding over_capacity
over_capacity-false s h = ground arith

over_capacity-true : (s : Store) → over_capacity s ≡ true → room s ≤ length s.entries - 1
unfolding over_capacity
over_capacity-true s h = ground arith

max_size-evict_back : (s : Store) → (evict_back s).max_size ≡ s.max_size
unfolding evict_back
max_size-evict_back s = ground arith

length-evict_back :
    (s : Store) {k : String} → last? s.lru ≡ some k → length s.lru ≡ suc (length (evict_back s).lru)
unfolding evict_back
length-evict_back s {k} e = rw (e, evict_back) (length-drop_last s.lru {k = k} e)

-- The eviction loop with enough fuel keeps exactly the first items of the view that fit.
pub evict_loop-view :
    (fuel : ℕ) (s : Store)
    → InSync s
    → length s.lru < fuel
    → view (evict_loop fuel s) ≡ take (room s) (view s)
unfolding evict_loop
evict_loop-view zero s h f = absurd (omega arith)
evict_loop-view (suc fuel) s h f = elim (Option-cases (last? s.lru)) [
  | inl e ↦ rw (e, evict_loop) (sym (view_all s (omega (arith, last-none s.lru e))))
  | inr (k, e) ↦ elim (Bool-cases (over_capacity s)) [
    | inl over ↦
        let len : length s.lru ≡ suc (length (evict_back s).lru) = length-evict_back s {k = k} e in
        let n = length s.lru - 1 in
        rw (e, over, evict_loop)
          (evict_loop-view fuel (evict_back s) (evict_back-InSync s h) (omega arith)
            ∙ rw max_size-evict_back (
                ap (take (room s)) (evict_back-view s {k = k} h e n (omega arith))
                ∙ take-take (room s) n (view s)
                    (omega (arith, over_capacity-true s over, h.same_length))))
    | inr fits ↦
        rw (e, fits, evict_loop)
          (sym (view_all s (omega (arith, over_capacity-false s fits, h.same_length))))
  ]
]

-- Set refines the recency list that the store stands for: a known key moves to the front with its
-- new entry, and with a new key the store holds the first maxSize of the list that the key now
-- heads, for a store whose map and list are in sync.
pub set-view :
    (s : Store) (now : Time) (k b : String)
    → InSync s
    → view (set s now k b) ≡ (
        if has_key k s.entries
        then (k, some (record { backend_id = b; last_seen = now })) ∷ forget k (view s)
        else take (room s) ((k, some (record { backend_id = b; last_seen = now })) ∷ view s))
unfolding set
set-view s now k b h = elim (Option-cases (lookup k s.entries)) [
  | inl e ↦
      let new = has_key-none k s.entries e in
      rw (new, e, set)
        (evict_loop-view (suc (suc (length s.lru)))
            (record s {
              entries = insert k (record { backend_id = b; last_seen = now }) s.entries;
              lru = k ∷ s.lru;
            })
            (push_front-InSync s k (record { backend_id = b; last_seen = now }) h new) (omega arith)
          ∙ ap (take (room s)) (
              push_front-view s k (record { backend_id = b; last_seen = now })
                (ground (arith, h.same_keys k))))
  | inr (v, e) ↦
      let old = has_key-some k s.entries e in
      rw (old, e, set) (move_to_front-view s k (record { backend_id = b; last_seen = now }))
]
