-- ===== src/Capture/Prefix.antt =====
-- The capped buffer holds a prefix of what was written, however it was cut into writes.
use llm_proxy.Base.{
  append_assoc, append-nil, take-append, take-append_left, ℕ, ◌-◌, ◌≤◌, ◌≡◌, sym, ◌∙◌, true, false,
  List, [], ◌∷◌, ◌++◌, length, take, length-append, ltb, arith, Bool-cases, inl, inr,
  take_of_length-le,
}
use llm_proxy.Base.Int.{ℤ, pos, pos_part, int_leb}
use llm_proxy.Capture.{CappedBuffer, new_capped_buffer, write, write_all}

-- All that was written.
unfoldable pub concat : List (List ℕ) → List ℕ
concat [] = []
concat (p ∷ ps) = p ++ concat ps

-- The buffer after `xs` was written: all of it, or its prefix if there was more than fits.
data Keeps (max : ℤ) (xs : List ℕ) : CappedBuffer → Type 0 where
  whole :
      length xs ≤ pos_part max → Keeps max xs (record { max = max; buf = xs; truncated = false })
  cut :
      {buf : List ℕ}
      → pos_part max ≤ length xs
      → buf ≡ take (pos_part max) xs
      → Keeps max xs (record { max = max; buf = buf; truncated = true })

write-Keeps :
    (max : ℤ) (xs p : List ℕ) (b : CappedBuffer)
    → Keeps max xs b
    → Keeps max (xs ++ p) (write b p).1
unfolding write
write-Keeps max xs p _ (cut {buf = buf} h e) =
    cut (omega (arith, h, length-append xs p)) (e ∙ sym (take-append_left (pos_part max) xs p h))
write-Keeps max xs p _ (whole h) = elim (Bool-cases (int_leb max (pos (length xs)))) [
  | inl f ↦
      let full : pos_part max ≤ length xs = ground arith in
      rw f (
        cut (omega (arith, full, length-append xs p))
          (sym (take-append_left (pos_part max) xs p full ∙ take_of_length-le (pos_part max) xs h)))
  | inr f ↦ elim (Bool-cases (ltb (pos_part max - length xs) (length p))) [
    | inl g ↦
        let more : pos_part max ≤ length (xs ++ p) = ground (arith, length-append xs p) in
        rw (f, g) (cut more (sym (take-append (pos_part max) xs p h)))
    | inr g ↦
        let fits : length (xs ++ p) ≤ pos_part max = ground (arith, length-append xs p) in
        rw (f, g) (whole fits)
  ]
]

write_all-Keeps :
    (max : ℤ) (xs : List ℕ) (ps : List (List ℕ)) (b : CappedBuffer)
    → Keeps max xs b
    → Keeps max (xs ++ concat ps) (write_all b ps)
unfolding write_all concat
write_all-Keeps max xs [] b k = rw (append-nil xs) k
write_all-Keeps max xs (p ∷ ps) b k =
    rw (← append_assoc xs p (concat ps))
      (write_all-Keeps max (xs ++ p) ps (write b p).1 (write-Keeps max xs p b k))

kept : (max : ℤ) (xs : List ℕ) (b : CappedBuffer) → Keeps max xs b → b.buf ≡ take (pos_part max) xs
kept max xs _ (whole h) = sym (take_of_length-le (pos_part max) xs h)
kept max xs _ (cut h e) = e

-- However the bytes are cut into writes, a new capped buffer holds the first Max of all that was
-- written, and all of it if it is not longer.
pub buf-write_all :
    (max : ℤ) (ps : List (List ℕ))
    → (write_all (new_capped_buffer max) ps).buf ≡ take (pos_part max) (concat ps)
buf-write_all max ps =
    kept max (concat ps) (write_all (new_capped_buffer max) ps)
      (write_all-Keeps max [] ps (new_capped_buffer max) (whole (omega arith)))
