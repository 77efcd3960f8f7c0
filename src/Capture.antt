-- ===== src/Capture.antt =====
-- `CappedBuffer` of internal/capture/capture.go: a writer that keeps the first bytes and drops the
-- rest, and never fails.
pub mod Prefix
pub mod Window
use llm_proxy.Base.{
  ℕ, ◌-◌, Bool, true, false, List, [], ◌∷◌, ◌++◌, length, take, ltb, if◌then◌else◌,
}
use llm_proxy.Base.Int.{ℤ, pos, pos_part, int_leb}

pub record CappedBuffer : Type 0 where
  pub max : ℤ
  pub buf : List ℕ
  pub truncated : Bool

abbrev pub new_capped_buffer : ℤ → CappedBuffer
new_capped_buffer max = record { max = max; buf = []; truncated = false }

-- The number of bytes that `Write` reports, and the buffer after it.
unfoldable pub write : CappedBuffer → List ℕ → ℕ × CappedBuffer
write b p =
    let remaining = pos_part b.max - length b.buf in
    if b.truncated
    then (length p, b)
    else if int_leb b.max (pos (length b.buf))
    then (length p, record b { truncated = true })
    else if ltb remaining (length p)
    then (length p, record b { buf = b.buf ++ take remaining p; truncated = true })
    else (length p, record b { buf = b.buf ++ p })

-- Writes one after the other, as io.Copy and io.TeeReader make them.
unfoldable pub write_all : CappedBuffer → List (List ℕ) → CappedBuffer
write_all b [] = b
write_all b (p ∷ ps) = write_all (write b p).1 ps
