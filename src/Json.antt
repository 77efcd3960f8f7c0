-- ===== src/Json.antt =====
-- What encoding/json decodes a body into (`interface{}`), over a type `N` of float64 numbers. An
-- object is a Go map: an association list in which a key is found once. `int` is an integer that
-- yaml.v3 decodes in a route's settings; encoding/json never makes one.
use Prim.Native.String.{String}
use llm_proxy.Base.Int.{ℤ}
use llm_proxy.Base.{
  Bool, true, false, Option, none, some, if◌then◌else◌, ◌==◌, text_eq, ◌≡◌, text_iff, arith, refl,
}

mutual
  pub data Value (N : Type 0) : Type 0 where
    null : Value N
    bool : Bool → Value N
    num : N → Value N
    int : ℤ → Value N
    str : String → Value N
    arr : Items N → Value N
    obj : Object N → Value N

  pub data Items (N : Type 0) : Type 0 where
    nil : Items N
    cons : Value N → Items N → Items N

  pub data Object (N : Type 0) : Type 0 where
    end : Object N
    field : String → Value N → Object N → Object N

module _ {N : Type 0} where
  -- v, ok := m[k]
  unfoldable pub get : String → Object N → Option (Value N)
  get k end = none
  get k (field j v m) = if j == k then some v else get k m

  -- m[k] = v
  unfoldable pub put : String → Value N → Object N → Object N
  put k v end = field k v end
  put k v (field j w m) = if j == k then field k v m else field j w (put k v m)

  -- delete(m, k)
  unfoldable pub drop : String → Object N → Object N
  drop k end = end
  drop k (field j w m) = if j == k then drop k m else field j w (drop k m)

  pub get-put :
      (k j : String) (v : Value N) (m : Object N)
      → get j (put k v m) ≡ (if k == j then some v else get j m)
  unfolding get put
  get-put k j v end = refl
  get-put k j v (field i w m) =
      ground (arith, text_iff k j, text_iff i k, text_iff i j, get-put k j v m)

  pub get-drop :
      (k j : String) (m : Object N) → get j (drop k m) ≡ (if k == j then none else get j m)
  unfolding get drop
  get-drop k j end = ground arith
  get-drop k j (field i w m) =
      ground (arith, text_iff k j, text_iff i k, text_iff i j, get-drop k j m)

  -- Type assertions: s, _ := v.(string), and so on, on a value that may be missing.
  abbrev pub as_text : Option (Value N) → Option String
  as_text (some (str s)) = some s
  as_text _ = none

  abbrev pub as_items : Option (Value N) → Option (Items N)
  as_items (some (arr l)) = some l
  as_items _ = none

  abbrev pub as_object : Option (Value N) → Option (Object N)
  as_object (some (obj m)) = some m
  as_object _ = none

  -- s, _ := v.(string), where a failed assertion leaves ""
  abbrev pub text_or_empty : Option (Value N) → String
  text_or_empty (some (str s)) = s
  text_or_empty _ = ""

  abbrev pub is_true : Option (Value N) → Bool
  is_true (some (bool true)) = true
  is_true _ = false

  -- body["messages"].([]interface{}), where a failed assertion leaves no messages
  abbrev pub items_or_nil : Option (Value N) → Items N
  items_or_nil (some (arr l)) = l
  items_or_nil _ = nil

  infixr 66 ◌+++◌
  unfoldable pub ◌+++◌ : Items N → Items N → Items N
  nil +++ ys = ys
  cons x xs +++ ys = cons x (xs +++ ys)
