-- ===== src/Proxy/Defender/Loop.antt =====
-- The loop detector: how often one key has asked the same thing in a window of time.
use Prim.Native.String.{◌++◌}
use llm_proxy.Base.{
  ℕ, ◌%◌, Bool, true, false, not, ◌&&◌, List, [], ◌∷◌, Option, none, some, String, Map, lookup,
  insert, delete, length, if◌then◌else◌, ◌==◌, text_eq, number_eq, ltb, ◌≡◌, refl, arith,
  Bool-cases, Option-cases, inl, inr, lookup-delete,
}
use llm_proxy.Base.Int.{ℤ, pos, ◌+ℤ◌, int_leb, int_ltb}
use llm_proxy.Base.Time.{Time, seconds, since}
use llm_proxy.Base.Text.{bytes}
use llm_proxy.Config.Types.{LoopDetectionConfig}

pub record LoopEntry : Type 0 where
  pub hash : String
  pub count : ℤ
  pub first_seen : Time
  pub escaped : Bool

abbrev pub Detector : Type 0
Detector = Map LoopEntry

pub record Verdict : Type 0 where
  pub detected : Bool
  pub escalated : Bool
  pub action : String

abbrev pub undetected : Verdict
undetected = record { detected = false; escalated = false; action = "" }

-- The test of `cleanupStale`, and of `checkLoop` for a window that has ended: Go compares seconds as
-- float64, which is exact here for windows below about 90 days.
abbrev pub is_stale : ℤ → Time → LoopEntry → Bool
is_stale window now e = int_ltb (seconds window) (since now e.first_seen)

unfoldable pub cleanup_stale : ℤ → Time → Detector → Detector
cleanup_stale window now [] = []
cleanup_stale window now ((k, e) ∷ m) =
    let rest = cleanup_stale window now m in
    if is_stale window now e then delete k rest else (k, e) ∷ rest

unfoldable pub maybe_cleanup : ℤ → Time → Detector → Detector
unfolding cleanup_stale
maybe_cleanup window now m =
    if (length m % 1000 == 0) && ltb 100 (length m) then cleanup_stale window now m else m

abbrev pub escalate_action : LoopDetectionConfig → String
escalate_action cfg = if cfg.escalate_action == "" then "refuse_429" else cfg.escalate_action

-- What `checkLoop` makes of an entry whose window has not ended.
unfoldable pub repeat_entry : LoopDetectionConfig → LoopEntry → Verdict × LoopEntry
repeat_entry cfg e =
    let n = e.count +ℤ pos 1 in
    let counted : LoopEntry = record e { count = n } in
    let escalation : Verdict = record {
      detected = true;
      escalated = true;
      action = escalate_action cfg;
    } in
    if int_ltb n cfg.consecutive_threshold
    then (undetected, counted)
    else if e.escaped
    then (escalation, counted)
    else if int_leb (cfg.consecutive_threshold +ℤ cfg.escalate_after) n
    then (escalation, record counted { escaped = true })
    else (
      record {
        detected = true;
        escalated = false;
        action = if cfg.action == "" then "inject_forcing_message" else cfg.action;
      },
      record counted { count = cfg.consecutive_threshold },
    )

abbrev pub new_entry : Time → String → LoopEntry
new_entry now hash = record { hash = hash; count = pos 1; first_seen = now; escaped = false }

-- One check under the composite key of the map.
unfoldable pub check_key :
    String → Time → String → LoopDetectionConfig → Detector → Verdict × Detector
check_key key now hash cfg ld =
    let m = maybe_cleanup cfg.window_seconds now ld in
    elim (lookup key m) [
      | none ↦ (undetected, insert key (new_entry now hash) m)
      | some e ↦
          let (verdict, counted) = repeat_entry cfg e in
          if is_stale cfg.window_seconds now e
          then (undetected, insert key (new_entry now hash) m)
          else (verdict, insert key counted m)
    ]

-- `sha_hex` is the hex digest of the bytes.
module _ (sha_hex : List ℕ → String) where
  unfoldable pub composite_key : String → String → String
  composite_key affinity_key hash = sha_hex (bytes (affinity_key ++ ":" ++ hash))

  unfoldable pub check_loop :
      Time → String → String → LoopDetectionConfig → Detector → Verdict × Detector
  check_loop now affinity_key hash cfg ld =
      if not cfg.enabled
      then (undetected, ld)
      else check_key (composite_key affinity_key hash) now hash cfg ld

  unfoldable pub get_entry : Detector → String → String → Option LoopEntry
  get_entry ld affinity_key hash = lookup (composite_key affinity_key hash) ld

stale_none : ℤ → Time → Option LoopEntry → Option LoopEntry
stale_none window now none = none
stale_none window now (some e) = if is_stale window now e then none else some e

lookup-cleanup_stale :
    (window : ℤ) (now : Time) (k : String) (m : Detector)
    → lookup k (cleanup_stale window now m) ≡ stale_none window now (lookup k m)
unfolding lookup cleanup_stale stale_none
lookup-cleanup_stale window now k [] = refl
lookup-cleanup_stale window now k ((j, e) ∷ m) =
    let rest = lookup-cleanup_stale window now k m in
    let gone = lookup-delete j k (cleanup_stale window now m) in
    elim (Bool-cases (is_stale window now e)) [
      | inl s ↦ elim (Bool-cases (j == k)) [ inl q ↦ ground arith | inr q ↦ ground arith ]
      | inr s ↦ elim (Bool-cases (j == k)) [ inl q ↦ ground arith | inr q ↦ ground arith ]
    ]

-- Cleaning up adds no entry, and takes none whose window has not ended.
pub lookup-maybe_cleanup :
    (window : ℤ) (now : Time) (k : String) (m : Detector) {e : LoopEntry}
    → lookup k (maybe_cleanup window now m) ≡ some e
    → lookup k m ≡ some e
unfolding maybe_cleanup stale_none
lookup-maybe_cleanup window now k m {e} h =
    let c = lookup-cleanup_stale window now k m in
    elim (Option-cases (lookup k m)) [ inl n ↦ absurd (ground arith) | inr (x, n) ↦ ground arith ]

pub maybe_cleanup-fresh :
    (window : ℤ) (now : Time) (k : String) (m : Detector) {e : LoopEntry}
    → lookup k m ≡ some e
    → is_stale window now e ≡ false
    → lookup k (maybe_cleanup window now m) ≡ some e
unfolding maybe_cleanup stale_none
maybe_cleanup-fresh window now k m h f = let c = lookup-cleanup_stale window now k m in ground arith
