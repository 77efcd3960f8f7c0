-- ===== src/Proxy/Defender/Repeats.antt =====
-- Which repeat of a request is the first that the loop detector detects.
use llm_proxy.Base.{
  ℕ, suc, ◌+◌, ◌≡◌, refl, ◌∙◌, true, false, List, [], ◌∷◌, none, some, String, lookup, ◌==◌,
  text_eq, Bool-cases, lookup-insert, All, leb, text_self, arith, Option-cases, inl, inr, min,
}
use llm_proxy.Base.Int.{pos, int_leb, int_ltb}
use llm_proxy.Base.Time.{Time, seconds, since}
use llm_proxy.Config.Types.{LoopDetectionConfig}
use llm_proxy.Proxy.Defender.Loop.{
  LoopEntry, Detector, is_stale, maybe_cleanup, repeat_entry, check_key, new_entry,
  maybe_cleanup-fresh, lookup-maybe_cleanup,
}

-- What `n` requests of one window leave in the entry of their key, for a threshold `t`.
record Counted (start : Time) (t n : ℕ) (e : LoopEntry) : Type 0 where
  began : e.first_seen ≡ start
  high : int_leb e.count (pos n) ≡ true
  low : int_leb (pos (min n t)) e.count ≡ true

repeat_entry-Counted :
    (cfg : LoopDetectionConfig) (start : Time) (t n : ℕ) (e : LoopEntry)
    → cfg.consecutive_threshold ≡ pos t
    → Counted start t n e
    → Counted start t (suc n) (repeat_entry cfg e).1
      × ((repeat_entry cfg e).0.detected ≡ leb t (suc n))
unfolding repeat_entry
repeat_entry-Counted cfg start t n e a c =
    let began = c.began in
    let high = c.high in
    let low = c.low in
    (
      record { began = rw a (ground arith); high = rw a (ground arith); low = rw a (ground arith) },
      rw a (ground arith),
    )

-- A request of the key that is looked at, or one of another key, of a route of its own.
pub data Check : Type 0 where
  again : Time → Check
  other : String → String → LoopDetectionConfig → Time → Check

-- A check does not end the window that began at `start`: its own window reaches back so far.
abbrev pub IsWithin : LoopDetectionConfig → Time → String → Check → Type 0
IsWithin cfg start key (again now) = int_ltb (seconds cfg.window_seconds) (since now start) ≡ false
IsWithin cfg start key (other k hash c now) =
    (k == key ≡ false) × (int_ltb (seconds c.window_seconds) (since now start) ≡ false)

unfoldable pub again_count : List Check → ℕ
again_count [] = 0
again_count (c ∷ cs) = let n = again_count cs in elim c [ again _ ↦ suc n | other _ _ _ _ ↦ n ]

check_key-Counted :
    (cfg : LoopDetectionConfig) (start now : Time) (t n : ℕ) (key hash : String) (ld : Detector)
    {e : LoopEntry}
    → cfg.consecutive_threshold ≡ pos t
    → int_ltb (seconds cfg.window_seconds) (since now start) ≡ false
    → lookup key ld ≡ some e
    → Counted start t n e
    → ((check_key key now hash cfg ld).0.detected ≡ leb t (suc n))
      × (f : LoopEntry) × (lookup key (check_key key now hash cfg ld).1 ≡ some f)
      × Counted start t (suc n) f
unfolding check_key
check_key-Counted cfg start now t n key hash ld {e} a w h c =
    let fresh : is_stale cfg.window_seconds now e ≡ false = rw c.began w in
    let m = maybe_cleanup cfg.window_seconds now ld in
    let held = maybe_cleanup-fresh cfg.window_seconds now key ld h fresh in
    let (counted, verdict) = repeat_entry-Counted cfg start t n e a c in
    let f = (repeat_entry cfg e).1 in
    (
      rw (held, fresh, check_key) verdict,
      f,
      rw (held, fresh, check_key) (lookup-insert key key f m ∙ rw (text_self key) refl),
      counted,
    )

lookup-check_key :
    (cfg : LoopDetectionConfig) (now : Time) (k key hash : String) (ld : Detector) {e : LoopEntry}
    → k == key ≡ false
    → is_stale cfg.window_seconds now e ≡ false
    → lookup key ld ≡ some e
    → lookup key (check_key k now hash cfg ld).1 ≡ some e
unfolding check_key
lookup-check_key cfg now k key hash ld {e} apart fresh h =
    let m = maybe_cleanup cfg.window_seconds now ld in
    let held = maybe_cleanup-fresh cfg.window_seconds now key ld h fresh in
    elim (Option-cases (lookup k m)) [
      | inl q ↦ rw (q, check_key) (lookup-insert k key (new_entry now hash) m ∙ rw apart held)
      | inr (x, q) ↦
          let counted = lookup-insert k key (repeat_entry cfg x).1 m ∙ rw apart held in
          let renewed = lookup-insert k key (new_entry now hash) m ∙ rw apart held in
          elim (Bool-cases (is_stale cfg.window_seconds now x)) [
            | inl a ↦ rw (q, a, check_key) renewed
            | inr a ↦ rw (q, a, check_key) counted
          ]
    ]

-- The detector after the checks.
unfoldable pub checks : String → String → LoopDetectionConfig → List Check → Detector → Detector
checks key hash cfg [] ld = ld
checks key hash cfg (again now ∷ cs) ld = checks key hash cfg cs (check_key key now hash cfg ld).1
checks key hash cfg (other k h c now ∷ cs) ld = checks key hash cfg cs (check_key k now h c ld).1

checks-Counted :
    (cfg : LoopDetectionConfig) (start : Time) (t n : ℕ) (key hash : String) (cs : List Check)
    (ld : Detector) {e : LoopEntry}
    → cfg.consecutive_threshold ≡ pos t
    → All (IsWithin cfg start key) cs
    → lookup key ld ≡ some e
    → Counted start t n e
    → (f : LoopEntry) × (lookup key (checks key hash cfg cs ld) ≡ some f)
      × Counted start t (n + again_count cs) f
unfolding checks again_count
checks-Counted cfg start t n key hash [] ld {e} a w h c = (e, h, rw (zero_right n) c)
  where
    zero_right : (n : ℕ) → n + 0 ≡ n
    zero_right n = omega arith
checks-Counted cfg start t n key hash (again now ∷ cs) ld {e} a (w, ws) h c =
    let (_, f, q, d) = check_key-Counted cfg start now t n key hash ld a w h c in
    let (x, r, k) =
      checks-Counted cfg start t (suc n) key hash cs (check_key key now hash cfg ld).1 a ws q d in
    (x, r, rw (shift n (again_count cs)) k)
  where
    shift : (n m : ℕ) → n + suc m ≡ suc n + m
    shift n m = omega arith
checks-Counted cfg start t n key hash (other k g o now ∷ cs) ld {e} a ((apart, w), ws) h c =
    let fresh : is_stale o.window_seconds now e ≡ false = rw c.began w in
    checks-Counted cfg start t n key hash cs (check_key k now g o ld).1 a ws
      (lookup-check_key o now k key g ld apart fresh h) c

-- A key that the detector does not hold asks at some time and again while its window lasts, and
-- requests of other keys come in between, by whose own windows, after which they clean up, the
-- key's entry has not expired either: a repeat is detected exactly if it is the threshold's or a
-- later request of the key in its window, whether escalation is set or not.
pub detected-after_repeats :
    (cfg : LoopDetectionConfig) (start now : Time) (t : ℕ) (key hash : String) (cs : List Check)
    (ld : Detector)
    → cfg.consecutive_threshold ≡ pos t
    → lookup key ld ≡ none
    → All (IsWithin cfg start key) cs
    → int_ltb (seconds cfg.window_seconds) (since now start) ≡ false
    → (check_key key now hash cfg
        (checks key hash cfg cs (check_key key start hash cfg ld).1)).0.detected
      ≡ leb t (again_count cs + 2)
unfolding check_key
detected-after_repeats cfg start now t key hash cs ld a n ws w =
    let m = maybe_cleanup cfg.window_seconds start ld in
    let new : LoopEntry = record {
      hash = hash;
      count = pos 1;
      first_seen = start;
      escaped = false;
    } in
    let none_left : lookup key m ≡ none = elim (Option-cases (lookup key m)) [
      | inl q ↦ q
      | inr (e, q) ↦
          let p = lookup-maybe_cleanup cfg.window_seconds start key ld q in absurd (ground arith)
    ] in
    let first_seen : lookup key (check_key key start hash cfg ld).1 ≡ some new =
      rw (none_left, check_key) (lookup-insert key key new m ∙ rw (text_self key) refl) in
    let (f, q, c) =
      checks-Counted cfg start t 1 key hash cs (check_key key start hash cfg ld).1 a ws first_seen
        (record { began = refl; high = ground arith; low = ground arith }) in
    (check_key-Counted cfg start now t (1 + again_count cs) key hash _ a w q c).0 ∙ ground arith
