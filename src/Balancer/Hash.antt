-- ===== src/Balancer/Hash.antt =====
-- `fnv64a` of internal/balancer/affinity_key.go, on bytes.
use Prim.Native.Nat.{bit_xor}
use llm_proxy.Base.{ℕ, ◌*◌, ◌%◌, ◌^◌, ◌<◌, List, [], ◌∷◌, arith}

abbrev pub offset64 : ℕ
offset64 = 14695981039346656037

abbrev pub prime64 : ℕ
prime64 = 1099511628211

abbrev pub uint64 : ℕ
uint64 = 2 ^ 64

-- The loop, from a running hash.
unfoldable pub fnv_from : ℕ → List ℕ → ℕ
fnv_from h [] = h
fnv_from h (b ∷ bs) = fnv_from (bit_xor h b * prime64 % uint64) bs

unfoldable pub fnv64a : List ℕ → ℕ
unfolding fnv_from
fnv64a = fnv_from offset64

fnv_from-lt : (h : ℕ) (bs : List ℕ) → h < uint64 → fnv_from h bs < uint64
unfolding fnv_from
fnv_from-lt h [] p = p
fnv_from-lt h (b ∷ bs) p = fnv_from-lt (bit_xor h b * prime64 % uint64) bs (omega arith)

pub fnv64a-lt : (bs : List ℕ) → fnv64a bs < uint64
unfolding fnv64a
fnv64a-lt bs = fnv_from-lt offset64 bs (omega arith)
