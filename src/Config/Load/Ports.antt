-- ===== src/Config/Load/Ports.antt =====
-- `PortRange.UnmarshalYAML` and `expandPorts`. `atoi` is strconv.Atoi, and `itoa` strconv.Itoa.
use llm_proxy.Base.{
  ℕ, zero, suc, ◌+◌, ◌-◌, ◌<◌, ◌≤◌, ◌≡◌, refl, ap, ◌∙◌, Bool, true, false, not, List, [], ◌∷◌, ◌++◌,
  Option, none, some, String, Result, ok, err, ◌>>=◌, length, get_elem?, map, if◌then◌else◌, arith,
  Bool-cases, inl, inr,
}
use llm_proxy.Base.Int.{ℤ, pos, pos_part, neg_part, int_leb, ◌+ℤ◌}
use llm_proxy.Base.Text.{trim_space, split_at, replace_all}
use llm_proxy.Config.Types.{Backend}
use llm_proxy.Config.Load.Nodes.{Node, Nodes, scalar, sequence, mapping, alias, nil, cons, text_of}

pub data PortError : Type 0 where
  invalid_range non_integer : String → PortError
  wrong_kind : PortError
  no_port_in_id no_port_in_url : String → PortError

-- for i := lo; i <= hi; i++, with the rounds counted
unfoldable pub ints_from : ℤ → ℕ → List ℤ
ints_from lo zero = []
ints_from lo (suc n) = lo ∷ ints_from (lo +ℤ pos 1) n

-- hi - lo + 1, where lo <= hi
abbrev pub ports_between : ℤ → ℤ → ℕ
ports_between lo hi = (pos_part hi + neg_part lo) - (pos_part lo + neg_part hi) + 1

unfoldable pub port_range : String → Option ℤ → Option ℤ → Result PortError (List ℤ)
unfolding ints_from
port_range text (some lo) (some hi) =
    if int_leb lo hi then ok (ints_from lo (ports_between lo hi)) else err (invalid_range text)
port_range text none hi = err (invalid_range text)
port_range text (some lo) none = err (invalid_range text)

module _ (atoi : String → Option ℤ) where
  unfoldable pub parse_range : String → Result PortError (List ℤ)
  unfolding port_range split_at trim_space
  parse_range text = elim (split_at "-" text) [
    | none ↦ err (invalid_range text)
    | some (lo, hi) ↦ port_range text (atoi (trim_space lo)) (atoi (trim_space hi))
  ]

  unfoldable pub parse_ports : Nodes → Result PortError (List ℤ)
  unfolding text_of
  parse_ports nil = ok []
  parse_ports (cons child nodes) = elim (atoi (text_of child)) [
    | none ↦ err (non_integer (text_of child))
    | some n ↦ do rest ← parse_ports nodes; ok (n ∷ rest)
  ]

  unfoldable pub unmarshal_ports : Node → Result PortError (List ℤ)
  unfolding parse_range parse_ports
  unmarshal_ports (scalar text) = elim (atoi text) [
    | some n ↦ ok (n ∷ [])
    | none ↦ parse_range text
  ]
  unmarshal_ports (sequence nodes) = parse_ports nodes
  unmarshal_ports (mapping _) = err wrong_kind
  unmarshal_ports (alias _) = err wrong_kind

abbrev pub has_port : String → Bool
has_port s = elim (split_at "{port}" s) [ none ↦ false | some _ ↦ true ]

module _ (itoa : ℤ → String) where
  -- One port's copy of a backend.
  unfoldable pub for_port : Backend → ℤ → Backend
  unfolding replace_all
  for_port b port = record b {
    id = replace_all b.id "{port}" (itoa port);
    base_url = replace_all b.base_url "{port}" (itoa port);
    ports = [];
  }

  -- What one backend becomes.
  unfoldable pub expand_backend : Backend → List ℤ → Result PortError (List Backend)
  unfolding for_port split_at
  expand_backend b [] = ok (b ∷ [])
  expand_backend b (port ∷ ports) =
      if not (has_port b.id)
      then err (no_port_in_id b.id)
      else if not (has_port b.base_url)
      then err (no_port_in_url b.id)
      else ok (map (for_port b) (port ∷ ports))

  unfoldable pub expand_ports : List Backend → Result PortError (List Backend)
  unfolding expand_backend
  expand_ports [] = ok []
  expand_ports (b ∷ bs) = do
    copies ← expand_backend b b.ports
    rest ← expand_ports bs
    ok (copies ++ rest)

length-ints_from : (lo : ℤ) (n : ℕ) → length (ints_from lo n) ≡ n
unfolding ints_from
length-ints_from lo zero = refl
length-ints_from lo (suc n) = ap suc (length-ints_from (lo +ℤ pos 1) n)

get_elem?-ints_from : (lo : ℤ) (n i : ℕ) → i < n → get_elem? (ints_from lo n) i ≡ some (lo +ℤ pos i)
unfolding ints_from
get_elem?-ints_from lo zero i h = absurd (omega arith)
get_elem?-ints_from lo (suc n) zero h = ap some (ground arith)
get_elem?-ints_from lo (suc n) (suc i) h =
    get_elem?-ints_from (lo +ℤ pos 1) n i (omega arith) ∙ ap some (ground arith)

get_elem?-ints_from_end : (lo : ℤ) (n i : ℕ) → n ≤ i → get_elem? (ints_from lo n) i ≡ none
unfolding ints_from
get_elem?-ints_from_end lo zero i h = refl
get_elem?-ints_from_end lo (suc n) zero h = absurd (omega arith)
get_elem?-ints_from_end lo (suc n) (suc i) h =
    get_elem?-ints_from_end (lo +ℤ pos 1) n i (omega arith)

-- A range that is accepted has the ports from its first to its last, each once and in order.
port_range-ports :
    (text : String) (lo hi : ℤ) (i : ℕ)
    → int_leb lo hi ≡ true
    → (ps : List ℤ) × (port_range text (some lo) (some hi) ≡ ok ps)
      × (length ps ≡ ports_between lo hi)
      × (get_elem? ps i ≡ (if int_leb (lo +ℤ pos i) hi then some (lo +ℤ pos i) else none))
unfolding port_range
port_range-ports text lo hi i h = (
  ints_from lo (ports_between lo hi),
  rw h refl,
  length-ints_from lo (ports_between lo hi),
  elim (Bool-cases (int_leb (lo +ℤ pos i) hi)) [
    | inl e ↦ rw e (get_elem?-ints_from lo (ports_between lo hi) i (ground arith))
    | inr e ↦ rw e (get_elem?-ints_from_end lo (ports_between lo hi) i (ground arith))
  ],
)
