-- ===== src/Proxy/Body/Merge.antt =====
-- `deepMergeInto` of internal/proxy/server.go changes nothing the second time.
use llm_proxy.Base.{
  Bool, true, false, ◌≡◌, refl, subst, Option, none, ap, ◌∙◌, some, String, if◌then◌else◌, ◌==◌,
  text_eq, text_iff, text_self, arith, inl, inr, Bool-cases,
}
use llm_proxy.Json.{Value, Object, obj, end, field, get, put, get-put}
use llm_proxy.Proxy.Body.{deep_merge_into, is_object}
use llm_proxy.Proxy.Stream.{object_or_nil}

module _ {N : Type 0} where
  -- The keys of an object, and of the objects in it, are distinct, as those of a Go map are.
  abbrev IsFresh : String → Object N → Type 0
  IsFresh k end = Unit
  IsFresh k (field j v m) = ((j == k) ≡ false) × IsFresh k m

  unfoldable pub IsMap : Object N → Type 0
  IsMap end = Unit
  IsMap (field k (obj s) m) = IsFresh k m × IsMap s × IsMap m
  IsMap (field k v m) = IsFresh k m × IsMap m

  -- `r` holds what merging the entries of an object would write.
  unfoldable Absorbs : Object N → Object N → Type 0
  Absorbs r end = Unit
  Absorbs r (field k (obj s) m) =
      ((d : Object N) × (get k r ≡ some (obj d)) × (deep_merge_into d s ≡ d)) × Absorbs r m
  Absorbs r (field k v m) = (get k r ≡ some v) × Absorbs r m

  abbrev write_object : String → Object N → Object N → Object N
  write_object k s rest =
      let merged = deep_merge_into (object_or_nil (get k rest)) s in
      put k (obj (if is_object (get k rest) then merged else s)) rest

  put-get : (k : String) (v : Value N) (m : Object N) → get k m ≡ some v → put k v m ≡ m
  unfolding put get
  put-get k v end e = absurd cc
  put-get k v (field j w m) e = elim (Bool-cases (j == k)) [
    | inl f ↦ let same : w ≡ v = ground (arith, e, f) in rw (f, (text_iff j k).0 f, same) refl
    | inr f ↦ rw f (ap (field j w) (put-get k v m (rw f at e)))
  ]

  deep_merge_into-Absorbs : (r s : Object N) → Absorbs r s → deep_merge_into r s ≡ r
  unfolding deep_merge_into Absorbs
  deep_merge_into-Absorbs r end h = refl
  deep_merge_into-Absorbs r (field k (obj s) m) ((d, e, f), h) =
      ap (λ x. write_object k s x) (deep_merge_into-Absorbs r m h)
      ∙ rw (e, f) (put-get k (obj d) r e)
  deep_merge_into-Absorbs r (field k v m) (e, h) =
      ap (λ x. put k v x) (deep_merge_into-Absorbs r m h) ∙ put-get k v r e

  -- What other keys hold does not matter.
  Absorbs-other :
      (r q m : Object N) (k : String)
      → IsFresh k m
      → ((j : String) → (j == k) ≡ false → get j q ≡ get j r)
      → Absorbs r m
      → Absorbs q m
  unfolding Absorbs
  Absorbs-other r q end k f same h = tt
  Absorbs-other r q (field j (obj s) m) k (n, f) same ((d, e, g), h) =
      ((d, same j n ∙ e, g), Absorbs-other r q m k f same h)
  Absorbs-other r q (field j v m) k (n, f) same (e, h) =
      (same j n ∙ e, Absorbs-other r q m k f same h)

  get-field_ne :
      (k j : String) (v : Value N) (m : Object N) → (j == k) ≡ false → get j (field k v m) ≡ get j m
  unfolding get
  get-field_ne k j v m n = ground (arith, text_iff k j, text_iff j k)

  get-put_ne :
      (k j : String) (v : Value N) (m : Object N) → (j == k) ≡ false → get j (put k v m) ≡ get j m
  get-put_ne k j v m n = ground (arith, get-put k j v m, text_iff k j, text_iff j k)

  get-put_self : (k : String) (v : Value N) (m : Object N) → get k (put k v m) ≡ some v
  get-put_self k v m = ground (arith, get-put k k v m, text_self k)

  get-field_self : (k : String) (v : Value N) (m : Object N) → get k (field k v m) ≡ some v
  unfolding get
  get-field_self k v m = rw (text_self k) refl

  Absorbs-self : (m : Object N) → IsMap m → Absorbs m m
  unfolding Absorbs IsMap
  Absorbs-self end h = tt
  Absorbs-self (field k (obj s) m) (f, g, h) = (
    (s, get-field_self k (obj s) m, deep_merge_into-Absorbs s s (Absorbs-self s g)),
    Absorbs-other m (field k (obj s) m) m k f (λ j n. get-field_ne k j (obj s) m n)
        (Absorbs-self m h),
  )
  Absorbs-self (field k v m) h = (
    get-field_self k v m,
    Absorbs-other m (field k v m) m k h.0 (λ j n. get-field_ne k j v m n) (Absorbs-self m h.1),
  )

  either :
      (b : Bool) (s : Object N) {x y : Object N}
      → deep_merge_into x s ≡ x
      → deep_merge_into y s ≡ y
      → deep_merge_into (if b then x else y) s ≡ (if b then x else y)
  either true s p q = p
  either false s p q = q

  -- Merging again what was merged changes nothing.
  merged-Absorbs : (s d : Object N) → IsMap s → Absorbs (deep_merge_into d s) s
  unfolding Absorbs IsMap deep_merge_into
  merged-Absorbs end d h = tt
  merged-Absorbs (field k (obj s) m) d (f, g, h) =
      let rest = deep_merge_into d m in
      let merged = deep_merge_into (object_or_nil (get k rest)) s in
      let later =
        Absorbs-other rest (write_object k s rest) m k f (λ j n. get-put_ne k j _ rest n)
          (merged-Absorbs m d h) in
      let again = deep_merge_into-Absorbs merged s (merged-Absorbs s _ g) in
      let itself = deep_merge_into-Absorbs s s (Absorbs-self s g) in
      ((_, get-put_self k _ rest, either (is_object (get k rest)) s again itself), later)
  merged-Absorbs (field k v m) d h =
      let rest = deep_merge_into d m in
      (
        get-put_self k v rest,
        Absorbs-other rest (put k v rest) m k h.0 (λ j n. get-put_ne k j v rest n)
            (merged-Absorbs m d h.1),
      )

  -- What is under a key after a merge.
  unfoldable pub merged_value : Option (Value N) → Option (Value N) → Option (Value N)
  merged_value old none = old
  merged_value old (some (obj s)) =
      some (obj (if is_object old then deep_merge_into (object_or_nil old) s else s))
  merged_value old (some v) = some v

  get-fresh : (k : String) (m : Object N) → IsFresh k m → get k m ≡ none
  unfolding get
  get-fresh k end f = refl
  get-fresh k (field j v m) (n, f) = rw n (get-fresh k m f)

  get-deep_merge_into :
      (src dst : Object N) (k : String)
      → IsMap src
      → get k (deep_merge_into dst src) ≡ merged_value (get k dst) (get k src)
  unfolding get deep_merge_into merged_value IsMap
  get-deep_merge_into end dst k h = refl
  get-deep_merge_into (field j (obj s) m) dst k (f, g, h) =
      let rest = deep_merge_into dst m in
      let later = get-deep_merge_into m dst k h in
      let merged : Option (Value N) → Object N =
        λ o. if is_object o then deep_merge_into (object_or_nil o) s else s in
      let read = get-put j k (obj (merged (get j rest))) rest in
      elim (Bool-cases (j == k)) [
        | inl e ↦
            let fresh = subst (λ k. IsFresh k m) ((text_iff j k).0 e) f in
            let under : get j rest ≡ get k dst =
              ap (λ k. get k rest) ((text_iff j k).0 e)
              ∙ later
              ∙ ap (merged_value (get k dst)) (get-fresh k m fresh) in
            rw (read, e) (ap (λ o. some (obj (merged o))) under)
        | inr e ↦ rw (read, e) later
      ]
  get-deep_merge_into (field j v m) dst k h =
      let later = get-deep_merge_into m dst k h.1 in
      let read = get-put j k v (deep_merge_into dst m) in
      elim (Bool-cases (j == k)) [ inl e ↦ rw (read, e) refl | inr e ↦ rw (read, e) later ]

  -- For an injected object whose keys are distinct at every level: under each key the merged body
  -- holds the object's value, or, where both values are objects, their merge, and what the body
  -- held where the object has nothing; and merging a second time changes nothing.
  pub deep_merge_into-lem :
      (dst src : Object N)
      → IsMap src
      → (deep_merge_into (deep_merge_into dst src) src ≡ deep_merge_into dst src)
        × ((k : String) → get k (deep_merge_into dst src) ≡ merged_value (get k dst) (get k src))
  deep_merge_into-lem dst src h = (
    deep_merge_into-Absorbs (deep_merge_into dst src) src (merged-Absorbs src dst h),
    λ k. get-deep_merge_into src dst k h,
  )
