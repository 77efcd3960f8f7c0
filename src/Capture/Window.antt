-- ===== src/Capture/Window.antt =====
-- The capture window of internal/capture/capture.go: `Arm`, and `Reserve` with its load and its
-- compare-and-swap as two steps that others may come between. `New`
-- gives a window between 1 and 10000 messages, so the counter is a natural number.
use llm_proxy.Base.Int.{ℤ, pos, pos_part, int_leb}
use llm_proxy.Base.{
  ℕ, zero, suc, ◌+◌, ◌-◌, ◌≤◌, ◌≡◌, refl, sym, ap, ◌∙◌, List, [], ◌∷◌, ◌++◌, Option, none, some,
  length, ltb, ◌==◌, number_eq, if◌then◌else◌, arith, inl, inr, Bool-cases,
}

-- The size that `New` (internal/capture/new_debug.go) gives a window, or `none` for its error.
unfoldable pub window_size : ℤ → Option ℕ
window_size max =
    let m = if int_leb max (pos 0) then 5 else pos_part max in if ltb 10000 m then none else some m

-- `issued` has the slots' numbers since the window was armed, the newest first, and `loads` what the
-- requests in `Reserve` have loaded.
pub record Window : Type 0 where
  pub max_messages : ℕ
  pub remaining : ℕ
  pub loads : List ℕ
  pub issued : List ℕ

unfoldable pub arm : Window → Window
arm w = record w { remaining = w.max_messages; issued = [] }

-- n := c.remaining.Load()
unfoldable pub load : Window → Window
load w = record w { loads = w.remaining ∷ w.loads }

-- The rest of a turn of `Reserve`'s loop that has loaded `n`: whether the loop ends, and the slot's
-- number if it got one.
pub data Turn : Type 0 where
  closed retry : Turn
  slot : ℕ → Turn

unfoldable pub compare_and_swap : ℕ → Window → Turn × Window
compare_and_swap zero w = (closed, w)
compare_and_swap (suc n) w =
    let seq = w.max_messages - suc n + 1 in
    if w.remaining == suc n
    then (slot seq, record w { remaining = n; issued = seq ∷ w.issued })
    else (retry, w)

pub data Step : Window → Window → Type 0 where
  loads : (w : Window) → Step w (load w)
  arms : (w : Window) → Step w (arm w)
  swaps :
      {max remaining : ℕ} {issued : List ℕ} (before : List ℕ) (n : ℕ) (later : List ℕ)
      → Step
          (record {
            max_messages = max;
            remaining = remaining;
            loads = before ++ n ∷ later;
            issued = issued;
          })
          (compare_and_swap n (record {
            max_messages = max;
            remaining = remaining;
            loads = before ++ later;
            issued = issued;
          })).1

pub data Steps : Window → Window → Type 0 where
  stay : {w : Window} → Steps w w
  more : {u v w : Window} → Steps u v → Step v w → Steps u w

-- k, k - 1, …, 1
unfoldable pub countdown : ℕ → List ℕ
countdown zero = []
countdown (suc k) = suc k ∷ countdown k

pub record IsOpen (w : Window) : Type 0 where
  pub bound : w.remaining ≤ w.max_messages
  pub numbers : w.issued ≡ countdown (w.max_messages - w.remaining)

swap-IsOpen : (n : ℕ) (w : Window) → IsOpen w → IsOpen (compare_and_swap n w).1
unfolding compare_and_swap countdown
swap-IsOpen zero w h = h
swap-IsOpen (suc n) w h = elim (Bool-cases (w.remaining == suc n)) [
  | inl e ↦
      let same : w.remaining ≡ suc n = ground arith in
      let below = h.bound in
      let seq : w.max_messages - suc n + 1 ≡ suc (w.max_messages - suc n) = omega arith in
      let next : suc (w.max_messages - suc n) ≡ w.max_messages - n = omega (arith, below, same) in
      let old = h.numbers ∙ ap (λ r. countdown (w.max_messages - r)) same in
      let numbers =
        ap (λ s. s ∷ w.issued) seq
        ∙ ap (λ s. suc (w.max_messages - suc n) ∷ s) old
        ∙ ap countdown next in
      rw e (record { bound = omega (arith, below, same); numbers = numbers })
  | inr e ↦ rw e h
]

arm-IsOpen : (w : Window) → IsOpen (arm w)
unfolding arm countdown
arm-IsOpen w = record { bound = omega arith; numbers = ap countdown (none_issued w.max_messages) }
  where
    none_issued : (m : ℕ) → 0 ≡ m - m
    none_issued m = omega arith

Step-IsOpen : {v w : Window} → Step v w → IsOpen v → IsOpen w
unfolding load arm countdown
Step-IsOpen (loads w) h = record { bound = h.bound; numbers = h.numbers }
Step-IsOpen (arms w) h = arm-IsOpen w
Step-IsOpen (swaps before n later) h =
    swap-IsOpen n _ (record { bound = h.bound; numbers = h.numbers })

Steps-IsOpen : {v w : Window} → Steps v w → IsOpen v → IsOpen w
Steps-IsOpen stay h = h
Steps-IsOpen (more before next) h = Step-IsOpen next (Steps-IsOpen before h)

length-countdown : (k : ℕ) → length (countdown k) ≡ k
unfolding countdown
length-countdown zero = refl
length-countdown (suc k) = ap suc (length-countdown k)

-- However the loads, the compare-and-swaps and the armings of a capture window interleave after it
-- was armed, the slots since the last arming are numbered 1, 2 and so on without a gap or a
-- repetition, and with those that remain they are as many as the window has.
pub issued-Steps :
    (start : Window) {w : Window}
    → Steps (arm start) w
    → (w.issued ≡ countdown (length w.issued)) × (length w.issued + w.remaining ≡ w.max_messages)
issued-Steps start {w = w} steps =
    let h : IsOpen w = Steps-IsOpen steps (arm-IsOpen start) in
    let bound = h.bound in
    let count : length w.issued ≡ w.max_messages - w.remaining =
      ap length h.numbers ∙ length-countdown (w.max_messages - w.remaining) in
    (h.numbers ∙ ap countdown (sym count), omega (arith, bound, count))
