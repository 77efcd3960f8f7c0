-- ===== src/Config/Load/Listed.antt =====
-- What `normalizeMapToList` makes of the block that it is for.
use llm_proxy.Base.{
  ◌≡◌, refl, ◌∙◌, ap, sym, subst, false, not, ◌&&◌, Option, some, String, ok, ◌>>=◌, >>=-eq-ok,
  ok_inj, if◌then◌else◌, ◌==◌, text_eq, Bool-cases, inl, inr,
}
use llm_proxy.Config.Load.Nodes.{
  Node, Nodes, Pairs, scalar, sequence, mapping, nil, cons, end, pair, text_of, pairs_of, names_key,
  entry_of, entries_of, as_list, normalize_pairs, normalize_map_to_list, find_block,
  normalize_map_to_list-lem,
}

-- A field of the entry for the key `k` with settings `v`: its own, and else, for the key field, `k`.
abbrev pub field_of : String → Node → Node → String → Option Node
field_of key_field k v field =
    if (key_field == field) && not (names_key key_field (pairs_of v))
    then some (scalar (text_of k))
    else find_block field (pairs_of v)

-- One entry for each key, in order, with the key and its settings.
abbrev pub IsListOf : String → Pairs → Nodes → Type 0
IsListOf key_field end nil = Unit
IsListOf key_field (pair k v m) (cons e l) =
    ((field : String) → find_block field (pairs_of e) ≡ field_of key_field k v field)
    × IsListOf key_field m l
IsListOf key_field end (cons e l) = ⊥
IsListOf key_field (pair k v m) nil = ⊥

entry_of-lem :
    (key_field : String) (k v : Node) (field : String)
    → find_block field (pairs_of (entry_of key_field k v)) ≡ field_of key_field k v field
unfolding entry_of find_block text_of
entry_of-lem key_field k v field = elim (Bool-cases (names_key key_field (pairs_of v))) [
  | inl e ↦ elim (Bool-cases (key_field == field)) [
    | inl d ↦ rw (d, e, entry_of) refl
    | inr d ↦ rw (d, e, entry_of) refl
  ]
  | inr e ↦ elim (Bool-cases (key_field == field)) [
    | inl d ↦ rw (e, entry_of, find_block, text_of, d) refl
    | inr d ↦ rw (e, entry_of, find_block, text_of, d) refl
  ]
]

entries_of-IsListOf :
    (key_field : String) (m : Pairs) → IsListOf key_field m (entries_of key_field m)
unfolding entries_of
entries_of-IsListOf key_field end = tt
entries_of-IsListOf key_field (pair k v m) =
    (entry_of-lem key_field k v, entries_of-IsListOf key_field m)

find_block-entries :
    (block key_field : String) (m s : Pairs) {n : Pairs}
    → find_block block m ≡ some (mapping s)
    → normalize_pairs block key_field m ≡ ok n
    → find_block block n ≡ some (sequence (entries_of key_field s))
unfolding normalize_pairs find_block as_list
find_block-entries block key_field end s b h = cc
find_block-entries block key_field (pair k v m) s b h =
    let (w, e, h') =
      >>=-eq-ok (if text_of k == block then as_list block key_field v else ok v)
        (λ w. normalize_pairs block key_field m >>= λ rest. ok (pair k w rest)) h in
    let (rest, f, q) =
      >>=-eq-ok (normalize_pairs block key_field m) (λ rest. ok (pair k w rest)) h' in
    rw (← ok_inj q) (elim (Bool-cases (text_of k == block)) [
      | inl t ↦
          let s' : v ≡ mapping s = some_inj (rw (t, find_block) at b) in
          let made : as_list block key_field v ≡ ok w = rw t at e in
          let now : sequence (entries_of key_field s) ≡ w =
            ok_inj (subst (λ v. as_list block key_field v ≡ ok w) s' made) in
          rw (t, find_block) (ap some (sym now))
      | inr t ↦
          rw (t, find_block) (find_block-entries block key_field m s (rw (t, find_block) at b) f)
    ])
  where
    some_inj : {a b : Node} → some a ≡ some b → a ≡ b
    some_inj h = cc

-- A block that is a map becomes a list with one entry for each key, in order, which has the key's
-- settings and, where these do not name the key field, the key under it. Every other block stays
-- as it was, and doing it again changes nothing.
pub normalize_map_to_list-entries :
    (block key_field other : String) (m n s : Pairs)
    → (block == other) ≡ false
    → find_block block m ≡ some (mapping s)
    → normalize_map_to_list block key_field (some (mapping m)) ≡ ok (mapping n)
    → (l : Nodes) × (find_block block n ≡ some (sequence l))
      × IsListOf key_field s l
      × (find_block other n ≡ find_block other m)
      × (normalize_map_to_list block key_field (some (mapping n)) ≡ ok (mapping n))
unfolding normalize_map_to_list
normalize_map_to_list-entries block key_field other m n s d b h =
    let (again, kept) = normalize_map_to_list-lem block key_field other m n d h in
    let (r, e, q) = >>=-eq-ok (normalize_pairs block key_field m) (λ r. ok (mapping r)) h in
    let same : r ≡ n = mapping_inj (ok_inj q) in
    (
      entries_of key_field s,
      find_block-entries block key_field m s b (e ∙ ap ok same),
      entries_of-IsListOf key_field s,
      kept,
      again,
    )
  where
    mapping_inj : {a b : Pairs} → mapping a ≡ mapping b → a ≡ b
    mapping_inj h = cc
