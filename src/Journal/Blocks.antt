-- ===== src/Journal/Blocks.antt =====
-- The loop of `countJSONBlocks`.
use Prim.Native.Char.{Char, code}
use llm_proxy.Base.{
  ℕ, ◌+◌, ◌<◌, ◌≤◌, zero, suc, ◌≡◌, subst, Option, none, some, String, arith, inl, inr,
  Option-cases, ◌==◌, number_eq, true, false, Bool, if◌then◌else◌,
}
use llm_proxy.Base.Text.{chars, strip_prefix, first, longer, split_at}
use llm_proxy.Journal.{up_to_fence, next_block, block_count, count_blocks, count_json_blocks}

-- The rounds of the loop from a text to its `break`, with what they count.
pub data Rounds : String → ℕ → Type 0 where
  breaks : {text : String} → next_block text ≡ none → Rounds text 0
  goes :
      {text block rest : String} {n : ℕ}
      → next_block text ≡ some (block, rest)
      → Rounds rest n
      → Rounds text (block_count block + n)

-- A search took at least `n` characters off a text of `all`.
IsLeft : ℕ → ℕ → Option String → Type 0
IsLeft n all none = Unit {0}
IsLeft n all (some rest) = n + chars rest ≤ all

IsCut : ℕ → ℕ → Option (String × String) → Type 0
IsCut n all none = Unit {0}
IsCut n all (some (_, rest)) = n + chars rest ≤ all

if-IsLeft :
    (b : Bool) (n all : ℕ) (o : Option String)
    → IsLeft n all o
    → IsLeft (suc n) (suc all) (if b then o else none)
unfolding IsLeft
if-IsLeft false n all o h = tt
if-IsLeft true n all none h = tt
if-IsLeft true n all (some r) h = omega (arith, h)

strip_prefix-IsLeft : (sep s : String) → IsLeft (chars sep) (chars s) (strip_prefix sep s)
unfolding strip_prefix IsLeft chars
strip_prefix-IsLeft String.[] s = omega arith
strip_prefix-IsLeft (String.◌∷◌ p ps) String.[] = tt
strip_prefix-IsLeft (String.◌∷◌ p ps) (String.◌∷◌ c s) =
    if-IsLeft (code p == code c) (chars ps) (chars s) (strip_prefix ps s) (strip_prefix-IsLeft ps s)

first-IsCut :
    (n all : ℕ) (o : Option String) (later : Option (String × String))
    → IsLeft n all o
    → IsCut n all later
    → IsCut n all (first o later)
unfolding first IsLeft IsCut
first-IsCut n all none later h k = k
first-IsCut n all (some r) later h k = h

longer-IsCut :
    (n all : ℕ) (c : Char) (o : Option (String × String))
    → IsCut n all o
    → IsCut n (suc all) (longer c o)
unfolding IsCut
longer-IsCut n all c none h = tt
longer-IsCut n all c (some (b, r)) h = omega (arith, h)

split_at-IsCut : (sep s : String) → IsCut (chars sep) (chars s) (split_at sep s)
unfolding split_at chars IsCut
split_at-IsCut sep String.[] =
    first-IsCut (chars sep) 0 (strip_prefix sep String.[]) none (strip_prefix-IsLeft sep String.[])
      tt
split_at-IsCut sep (String.◌∷◌ c s) =
    first-IsCut (chars sep) (suc (chars s)) (strip_prefix sep (String.◌∷◌ c s))
      (longer c (split_at sep s)) (strip_prefix-IsLeft sep (String.◌∷◌ c s))
      (longer-IsCut (chars sep) (chars s) c (split_at sep s) (split_at-IsCut sep s))

wider-IsCut :
    (n m all : ℕ) (o : Option (String × String)) → IsCut n m o → 7 + m ≤ all → IsCut (7 + n) all o
unfolding IsCut
wider-IsCut n m all none h k = tt
wider-IsCut n m all (some (b, r)) h k = omega (arith, h, k)

up_to_fence-IsCut :
    (all : ℕ) (o : Option (String × String)) → IsCut 7 all o → IsCut 10 all (up_to_fence o)
unfolding up_to_fence IsCut chars
up_to_fence-IsCut all none h = tt
up_to_fence-IsCut all (some (b, r)) h =
    wider-IsCut 3 (chars r) all (split_at "```" r) (split_at-IsCut "```" r) h

next_block-shorter :
    (text block rest : String) → next_block text ≡ some (block, rest) → chars rest < chars text
unfolding next_block IsCut chars
next_block-shorter text block rest e =
    let h =
      subst (IsCut 10 (chars text)) e (
        up_to_fence-IsCut (chars text) (split_at "```json" text) (split_at-IsCut "```json" text)) in
    omega (arith, h)

count_blocks-Rounds :
    (fuel : ℕ) (text : String) → chars text < fuel → Rounds text (count_blocks fuel text)
unfolding count_blocks
count_blocks-Rounds zero text h = absurd (omega arith)
count_blocks-Rounds (suc fuel) text h = elim (Option-cases (next_block text)) [
  | inl e ↦ rw (count_blocks, e) (breaks e)
  | inr ((block, rest), e) ↦
      rw (count_blocks, e)
        (goes e
          (count_blocks-Rounds fuel rest (omega (arith, h, next_block-shorter text block rest e))))
]

-- On every text the loop of countJSONBlocks comes to its break, and the count is the sum of what
-- its rounds count.
pub count_json_blocks-Rounds : (text : String) → Rounds text (count_json_blocks text)
unfolding count_json_blocks
count_json_blocks-Rounds text = count_blocks-Rounds (suc (chars text)) text (omega arith)
