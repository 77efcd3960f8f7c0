-- ===== src/Balancer/Store/Lists.antt =====
-- The operations of container/list that the affinity store uses, on a list of keys without
-- repetition, and maps as sets of keys.
use llm_proxy.Base.{
  ℕ, zero, suc, ◌+◌, ◌≡◌, refl, ap, Bool, true, false, List, [], ◌∷◌, Option, none, some, String,
  Map, lookup, insert, delete, lookup-insert, lookup-delete, length, take, if◌then◌else◌, ◌==◌,
  text_eq, text_iff, arith,
}

-- list.Remove at the element of a key
unfoldable pub without : String → List String → List String
without k [] = []
without k (j ∷ l) = if j == k then without k l else j ∷ without k l

unfoldable pub member : String → List String → Bool
member k [] = false
member k (j ∷ l) = if j == k then true else member k l

-- list.Back
unfoldable pub last? : List String → Option String
last? [] = none
last? (k ∷ []) = some k
last? (k ∷ j ∷ l) = last? (j ∷ l)

unfoldable pub drop_last : List String → List String
drop_last [] = []
drop_last (k ∷ []) = []
drop_last (k ∷ j ∷ l) = k ∷ drop_last (j ∷ l)

abbrev pub IsDistinct : List String → Type 0
IsDistinct [] = Unit
IsDistinct (k ∷ l) = (member k l ≡ false) × IsDistinct l

unfoldable pub has_key {ℓ} : {V : Type ℓ} → String → Map V → Bool
has_key k m = elim (lookup k m) [ none ↦ false | some _ ↦ true ]

-- No key stands twice in the association list.
abbrev pub IsMap {ℓ} : {V : Type ℓ} → Map V → Type 0
IsMap [] = Unit
IsMap ((k, v) ∷ m) = (has_key k m ≡ false) × IsMap m

pub member-without :
    (k j : String) (l : List String)
    → member j (without k l) ≡ (if k == j then false else member j l)
unfolding member without
member-without k j [] = ground arith
member-without k j (i ∷ l) =
    ground (arith, text_iff k j, text_iff i k, text_iff i j, member-without k j l)

pub without_absent : (k : String) (l : List String) → member k l ≡ false → without k l ≡ l
unfolding member without
without_absent k [] h = refl
without_absent k (j ∷ l) h = ground (arith, without_absent k l)

pub without-IsDistinct : (k : String) (l : List String) → IsDistinct l → IsDistinct (without k l)
unfolding without
without-IsDistinct k [] d = tt
without-IsDistinct k (j ∷ l) (n, d) = ground (arith, without-IsDistinct k l d, member-without k j l)

pub length-without :
    (k : String) (l : List String)
    → IsDistinct l
    → length l ≡ length (without k l) + (if member k l then 1 else 0)
unfolding member without
length-without k [] d = omega arith
length-without k (j ∷ l) (n, d) =
    ground (arith, text_iff j k, length-without k l d, without_absent k l)

pub member-last : (l : List String) (k : String) → last? l ≡ some k → member k l ≡ true
unfolding member last?
member-last [] k e = cc
member-last (x ∷ []) k e = ground (arith, text_iff x k)
member-last (x ∷ y ∷ l) k e = ground (arith, member-last (y ∷ l) k e)

pub member-drop_last :
    (l : List String) {k : String} (j : String)
    → IsDistinct l
    → last? l ≡ some k
    → member j (drop_last l) ≡ (if k == j then false else member j l)
unfolding member last? drop_last
member-drop_last [] j d e = cc
member-drop_last (i ∷ []) {k} j d e = ground (arith, text_iff k j, text_iff i j)
member-drop_last (i ∷ i' ∷ l) {k} j (n, d) e = ground (
  arith,
  text_iff k j,
  text_iff i j,
  text_iff i k,
  member-drop_last (i' ∷ l) {k = k} j d e,
  member-last (i' ∷ l) k e,
)

pub last-cons : (k : String) (l : List String) → (j : String) × (last? (k ∷ l) ≡ some j)
unfolding last?
last-cons k [] = (k, refl)
last-cons k (j ∷ l) = last-cons j l

pub drop_last-IsDistinct : (l : List String) → IsDistinct l → IsDistinct (drop_last l)
unfolding drop_last last?
drop_last-IsDistinct [] d = tt
drop_last-IsDistinct (i ∷ []) d = tt
drop_last-IsDistinct (i ∷ j ∷ l) (n, d) =
    let (k, e) = last-cons j l in
    (ground (arith, member-drop_last (j ∷ l) {k = k} i d e), drop_last-IsDistinct (j ∷ l) d)

pub length-drop_last :
    (l : List String) {k : String} → last? l ≡ some k → length l ≡ suc (length (drop_last l))
unfolding last? drop_last
length-drop_last [] e = cc
length-drop_last (i ∷ []) e = refl
length-drop_last (i ∷ j ∷ l) e = ap suc (length-drop_last (j ∷ l) e)

pub drop_last-take : (n : ℕ) (l : List String) → length l ≡ suc n → drop_last l ≡ take n l
unfolding drop_last
drop_last-take n [] h = absurd (omega arith)
drop_last-take zero (i ∷ []) h = refl
drop_last-take (suc n) (i ∷ []) h = absurd (omega arith)
drop_last-take zero (i ∷ j ∷ l) h = absurd (omega arith)
drop_last-take (suc n) (i ∷ j ∷ l) h = ap (◌∷◌ i) (drop_last-take n (j ∷ l) (omega arith))

module _ {ℓ} {V : Type ℓ} where
  pub has_key-insert :
      (k j : String) (v : V) (m : Map V)
      → has_key j (insert k v m) ≡ (if k == j then true else has_key j m)
  unfolding has_key
  has_key-insert k j v m = ground (arith, lookup-insert k j v m)

  pub has_key-delete :
      (k j : String) (m : Map V) → has_key j (delete k m) ≡ (if k == j then false else has_key j m)
  unfolding has_key
  has_key-delete k j m = ground (arith, lookup-delete k j m)

  pub insert-IsMap : (k : String) (v : V) (m : Map V) → IsMap m → IsMap (insert k v m)
  unfolding insert has_key lookup
  insert-IsMap k v [] h = (refl, tt)
  insert-IsMap k v ((j, w) ∷ m) (n, h) =
      ground (arith, text_iff j k, text_iff k j, insert-IsMap k v m h, has_key-insert k j v m)

  pub delete-IsMap : (k : String) (m : Map V) → IsMap m → IsMap (delete k m)
  unfolding delete
  delete-IsMap k [] h = tt
  delete-IsMap k ((j, w) ∷ m) (n, h) =
      ground (arith, text_iff k j, delete-IsMap k m h, has_key-delete k j m)

  pub delete_absent : (k : String) (m : Map V) → has_key k m ≡ false → delete k m ≡ m
  unfolding has_key lookup delete
  delete_absent k [] h = refl
  delete_absent k ((j, w) ∷ m) h = ground (arith, delete_absent k m)

  pub length-delete :
      (k : String) (m : Map V)
      → IsMap m
      → length m ≡ length (delete k m) + (if has_key k m then 1 else 0)
  unfolding has_key lookup delete
  length-delete k [] h = omega arith
  length-delete k ((j, w) ∷ m) (n, h) =
      ground (arith, text_iff j k, length-delete k m h, delete_absent k m)

  pub length-insert :
      (k : String) (v : V) (m : Map V)
      → length (insert k v m) + (if has_key k m then 1 else 0) ≡ suc (length m)
  unfolding has_key lookup insert
  length-insert k v [] = omega arith
  length-insert k v ((j, w) ∷ m) = ground (arith, length-insert k v m)

  pub has_key-none : (k : String) (m : Map V) → lookup k m ≡ none → has_key k m ≡ false
  unfolding has_key
  has_key-none k m e = rw (e, has_key) refl

  pub has_key-some : (k : String) (m : Map V) {v : V} → lookup k m ≡ some v → has_key k m ≡ true
  unfolding has_key
  has_key-some k m e = rw (e, has_key) refl
