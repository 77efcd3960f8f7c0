-- ===== src/Tests/Captures.antt =====
-- A capped buffer that is written in pieces.
use llm_proxy.Base.{ℕ, ◌≡◌, refl, true, List, [], ◌∷◌, length, ◌+◌}
use llm_proxy.Base.Int.{pos}
use llm_proxy.Capture.{new_capped_buffer, write, write_all}
use llm_proxy.Capture.Window.{
  Window, Steps, stay, more, loads, swaps, arm, load, compare_and_swap, countdown, issued-Steps,
}

abbrev pieces : List (List ℕ)
pieces = (1 ∷ 2 ∷ []) ∷ (3 ∷ 4 ∷ []) ∷ (5 ∷ []) ∷ []

-- A write of nothing at a buffer that is exactly full marks it as truncated.
truncated_by_nothing : (write_all (new_capped_buffer (pos 1)) ((7 ∷ []) ∷ [] ∷ [])).truncated ≡ true
unfolding write_all write
truncated_by_nothing = refl

abbrev window : Window
window = record { max_messages = 2; remaining = 0; loads = []; issued = [] }

-- Two requests load the counter, and the second finds it changed.
race : Steps (arm window) (record { max_messages = 2; remaining = 1; loads = []; issued = 1 ∷ [] })
unfolding arm load compare_and_swap
race = more (more (more (more stay (loads _)) (loads _)) (swaps [] 2 (2 ∷ []))) (swaps [] 2 [])

abbrev taken : List ℕ
taken = 1 ∷ []

issued-Steps_example : (taken ≡ countdown (length taken)) × (length taken + 1 ≡ 2)
issued-Steps_example = issued-Steps window race
