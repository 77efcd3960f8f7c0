-- ===== src/Config/Load/Nodes.antt =====
-- `normalizeMapToList`: a block that is written as a map becomes a list of entries with the map's keys.
use llm_proxy.Base.{
  ◌≡◌, refl, sym, ap, ◌∙◌, Bool, false, ◌||◌, Option, none, some, String, Result, ok, err, ◌>>=◌,
  >>=-eq-ok, ok_inj, if◌then◌else◌, ◌==◌, text_eq, text_iff, Bool-cases, inl, inr,
}

-- A YAML node of a kind; the keys of a mapping are nodes.
mutual
  pub data Node : Type 0 where
    scalar : String → Node
    sequence : Nodes → Node
    mapping : Pairs → Node
    alias : String → Node

  pub data Nodes : Type 0 where
    nil : Nodes
    cons : Node → Nodes → Nodes

  pub data Pairs : Type 0 where
    end : Pairs
    pair : Node → Node → Pairs → Pairs

-- `mixed` names a block that is neither a map nor a list. For an empty document the code's
-- `doc.Content[0]` is out of range.
pub data NodeError : Type 0 where
  mixed : String → NodeError
  panics : NodeError

-- node.Value
unfoldable pub text_of : Node → String
text_of (scalar s) = s
text_of (sequence _) = ""
text_of (mapping _) = ""
text_of (alias s) = s

abbrev pub pairs_of : Node → Pairs
pairs_of (mapping m) = m
pairs_of _ = end

unfoldable pub names_key : String → Pairs → Bool
unfolding text_of
names_key key end = false
names_key key (pair k v m) = text_of k == key || names_key key m

-- The entry of the list for one key and its settings.
unfoldable pub entry_of : String → Node → Node → Node
unfolding names_key text_of
entry_of key_field k v = mapping (
    if names_key key_field (pairs_of v)
    then pairs_of v
    else pair (scalar key_field) (scalar (text_of k)) (pairs_of v))

unfoldable pub entries_of : String → Pairs → Nodes
unfolding entry_of
entries_of key_field end = nil
entries_of key_field (pair k v m) = cons (entry_of key_field k v) (entries_of key_field m)

unfoldable pub as_list : String → String → Node → Result NodeError Node
unfolding entries_of
as_list block key_field (sequence l) = ok (sequence l)
as_list block key_field (mapping m) = ok (sequence (entries_of key_field m))
as_list block key_field (scalar s) = err (mixed block)
as_list block key_field (alias s) = err (mixed block)

unfoldable pub normalize_pairs : String → String → Pairs → Result NodeError Pairs
unfolding as_list text_of
normalize_pairs block key_field end = ok end
normalize_pairs block key_field (pair k v m) = do
  w ← if text_of k == block then as_list block key_field v else ok v
  rest ← normalize_pairs block key_field m
  ok (pair k w rest)

unfoldable pub normalize_map_to_list : String → String → Option Node → Result NodeError Node
unfolding normalize_pairs
normalize_map_to_list block key_field none = err panics
normalize_map_to_list block key_field (some (mapping m)) = do
  n ← normalize_pairs block key_field m
  ok (mapping n)
normalize_map_to_list block key_field (some (scalar s)) = ok (scalar s)
normalize_map_to_list block key_field (some (sequence l)) = ok (sequence l)
normalize_map_to_list block key_field (some (alias s)) = ok (alias s)

module _ (block key_field : String) where
  as_list-as_list :
      (v : Node) {w : Node} → as_list block key_field v ≡ ok w → as_list block key_field w ≡ ok w
  unfolding as_list
  as_list-as_list (sequence l) h = rw (← ok_inj h) refl
  as_list-as_list (mapping m) h = rw (← ok_inj h) refl
  as_list-as_list (scalar s) h = cc
  as_list-as_list (alias s) h = cc

  -- What the loop makes of one pair.
  abbrev listed : Node → Node → Result NodeError Node
  listed k v = if text_of k == block then as_list block key_field v else ok v

  listed-listed : (k v : Node) {w : Node} → listed k v ≡ ok w → listed k w ≡ ok w
  listed-listed k v h = elim (Bool-cases (text_of k == block)) [
    | inl e ↦ rw e (as_list-as_list v (rw e at h))
    | inr e ↦ rw e refl
  ]

  normalize_pairs-normalize_pairs :
      (m : Pairs) {n : Pairs}
      → normalize_pairs block key_field m ≡ ok n
      → normalize_pairs block key_field n ≡ ok n
  unfolding normalize_pairs
  normalize_pairs-normalize_pairs end h = rw (← ok_inj h) refl
  normalize_pairs-normalize_pairs (pair k v m) h =
      let (w, e, h') =
        >>=-eq-ok (listed k v)
          (λ w. normalize_pairs block key_field m >>= λ rest. ok (pair k w rest)) h in
      let (rest, f, q) =
        >>=-eq-ok (normalize_pairs block key_field m) (λ rest. ok (pair k w rest)) h' in
      rw (← ok_inj q)
        (rw (listed-listed k v e, normalize_pairs) (rw (normalize_pairs-normalize_pairs m f) refl))

-- root[key], the first of that name
unfoldable pub find_block : String → Pairs → Option Node
find_block name end = none
find_block name (pair k v m) = if text_of k == name then some v else find_block name m

find_block-normalize_pairs :
    (block key_field other : String) (m : Pairs) {n : Pairs}
    → (block == other) ≡ false
    → normalize_pairs block key_field m ≡ ok n
    → find_block other n ≡ find_block other m
unfolding normalize_pairs find_block
find_block-normalize_pairs block key_field other end d h = rw (← ok_inj h) refl
find_block-normalize_pairs block key_field other (pair k v m) d h =
    let (w, e, h') =
      >>=-eq-ok (if text_of k == block then as_list block key_field v else ok v)
        (λ w. normalize_pairs block key_field m >>= λ rest. ok (pair k w rest)) h in
    let (rest, f, q) =
      >>=-eq-ok (normalize_pairs block key_field m) (λ rest. ok (pair k w rest)) h' in
    let later = find_block-normalize_pairs block key_field other m d f in
    rw (← ok_inj q) (elim (Bool-cases (text_of k == block)) [
      | inl t ↦
          let s : (text_of k == other) ≡ false =
            ap (λ (name : String). name == other) ((text_iff (text_of k) block).0 t) ∙ d in
          rw (s, find_block) later
      | inr t ↦
          let s : v ≡ w = ok_inj (rw t at e) in
          elim (Bool-cases (text_of k == other)) [
            | inl o ↦ rw (o, find_block) (ap some (sym s))
            | inr o ↦ rw (o, find_block) later
          ]
    ])

-- A configuration file whose backends and routes were made lists stays as it is when that is done
-- again, and making one block a list leaves every other block as it was.
pub normalize_map_to_list-lem :
    (block key_field other : String) (m n : Pairs)
    → (block == other) ≡ false
    → normalize_map_to_list block key_field (some (mapping m)) ≡ ok (mapping n)
    → (normalize_map_to_list block key_field (some (mapping n)) ≡ ok (mapping n))
      × (find_block other n ≡ find_block other m)
unfolding normalize_map_to_list
normalize_map_to_list-lem block key_field other m n d h =
    let (l, e, q) = >>=-eq-ok (normalize_pairs block key_field m) (λ l. ok (mapping l)) h in
    let same : l ≡ n = mapping_inj (ok_inj q) in
    let e' = e ∙ ap ok same in
    (
      rw (normalize_pairs-normalize_pairs block key_field m e') refl,
      find_block-normalize_pairs block key_field other m d e',
    )
  where
    mapping_inj : {a b : Pairs} → mapping a ≡ mapping b → a ≡ b
    mapping_inj h = cc
