-- ===== src/Logger.antt =====
-- internal/logger: the level, and the calls that print at it. `hardened` says which of
-- level_hardened.go and level_debug.go is built; `atoi` is strconv.Atoi, and `env` the environment's
-- LOG_LEVEL, "" if it is not set.
use llm_proxy.Base.{
  ℕ, ◌≡◌, ◌<◌, ◌≤◌, ◌↔◌, refl, sym, ap, ◌∙◌, inl, inr, Bool-cases, Option-cases, Bool, true, false,
  not, ◌&&◌, Option, none, some, String, if◌then◌else◌, ◌==◌, text_eq, leb, arith,
}
use llm_proxy.Base.Int.{ℤ, pos, negsuc, pos_part, int_leb}

-- The calls, with the level that each prints from.
pub data LogCall : Type 0 where
  request headers body content : LogCall

abbrev pub level_of : LogCall → ℕ
level_of request = 1
level_of headers = 2
level_of body = 3
level_of content = 4

abbrev pub max_allowed_level : Bool → ℕ
max_allowed_level true = level_of headers
max_allowed_level false = level_of content

-- Whether the call of this name prints, at a level.
unfoldable pub prints : Bool → ℕ → LogCall → Bool
prints hardened current request = leb 1 current
prints hardened current headers = leb 2 current
prints hardened current body = not hardened && leb 3 current
prints hardened current content = not hardened && leb 4 current

-- A level that was asked for, if it is one of the five.
unfoldable pub in_range : Option ℤ → Option ℕ
in_range none = none
in_range (some n) = if int_leb (pos 0) n && int_leb n (pos 4) then some (pos_part n) else none

abbrev pub level_or : Option ℕ → ℕ → ℕ
level_or (some n) _ = n
level_or none l = l

-- The level that `Apply` stores.
unfoldable pub apply : Bool → (String → Option ℤ) → Option ℤ → String → ℕ
unfolding in_range
apply hardened atoi yaml_level env =
    let from_config = level_or (in_range yaml_level) 0 in
    let l = level_or (in_range (if env == "" then none else atoi env)) from_config in
    if leb l (max_allowed_level hardened) then l else max_allowed_level hardened

leb-clamp : (k l m : ℕ) → leb k (if leb l m then l else m) ≡ (leb k m && leb k l)
leb-clamp k l m = ground arith

prints-clamp :
    (hardened : Bool) (l : ℕ) (call : LogCall)
    → prints hardened
        (if leb l (max_allowed_level hardened) then l else max_allowed_level hardened)
        call
      ≡ (leb (level_of call) (max_allowed_level hardened) && leb (level_of call) l)
unfolding prints
prints-clamp true l request = leb-clamp 1 l 2
prints-clamp true l headers = leb-clamp 2 l 2
prints-clamp true l body = refl
prints-clamp true l content = refl
prints-clamp false l request = leb-clamp 1 l 4
prints-clamp false l headers = leb-clamp 2 l 4
prints-clamp false l body = leb-clamp 3 l 4
prints-clamp false l content = leb-clamp 4 l 4

-- A call that the build has code for.
abbrev pub IsBuilt : Bool → LogCall → Type 0
IsBuilt true request = Unit
IsBuilt true headers = Unit
IsBuilt true body = ⊥
IsBuilt true content = ⊥
IsBuilt false _ = Unit

-- A setting that is no level from 0 to 4.
abbrev pub IsNoLevel : Option ℤ → Type 0
IsNoLevel none = Unit
IsNoLevel (some (pos n)) = 4 < n
IsNoLevel (some (negsuc _)) = Unit

-- The level that is asked for: the environment's, else the configuration's, else 0.
pub data IsAsked (env_level yaml_level : Option ℤ) : ℕ → Type 0 where
  by_env : {n : ℕ} → n ≤ 4 → env_level ≡ some (pos n) → IsAsked env_level yaml_level n
  by_config :
      {n : ℕ}
      → IsNoLevel env_level
      → n ≤ 4
      → yaml_level ≡ some (pos n)
      → IsAsked env_level yaml_level n
  by_default : IsNoLevel env_level → IsNoLevel yaml_level → IsAsked env_level yaml_level 0

in_range-some : (o : Option ℤ) {n : ℕ} → in_range o ≡ some n → (n ≤ 4) × (o ≡ some (pos n))
unfolding in_range
in_range-some none e = cc
in_range-some (some (pos m)) {n} e = elim (Bool-cases (leb m 4)) [
  | inl h ↦
      let q : some m ≡ some n = ground arith in
      let q' : m ≡ n = ground arith in (ground arith, ap (λ k. some (pos k)) q')
  | inr h ↦ absurd (ground arith)
]
in_range-some (some (negsuc m)) e = absurd (ground arith)

in_range-none : (o : Option ℤ) → in_range o ≡ none → IsNoLevel o
unfolding in_range
in_range-none none e = tt
in_range-none (some (pos m)) e = elim (Bool-cases (leb m 4)) [
  | inl h ↦ absurd (ground arith)
  | inr h ↦ ground arith
]
in_range-none (some (negsuc m)) e = tt

level_or-IsAsked :
    (env_level yaml_level : Option ℤ)
    → IsAsked env_level yaml_level
        (level_or (in_range env_level) (level_or (in_range yaml_level) 0))
level_or-IsAsked env_level yaml_level = elim (Option-cases (in_range env_level)) [
  | inr (n, e) ↦ let (h, q) = in_range-some env_level e in rw e (by_env h q)
  | inl e ↦ elim (Option-cases (in_range yaml_level)) [
    | inr (n, f) ↦
        let (h, q) = in_range-some yaml_level f in
        rw (e, f) (by_config (in_range-none env_level e) h q)
    | inl f ↦ rw (e, f) (by_default (in_range-none env_level e) (in_range-none yaml_level f))
  ]
]

IsBuilt-level :
    (hardened : Bool) (call : LogCall)
    → leb (level_of call) (max_allowed_level hardened) ≡ true
    → IsBuilt hardened call
IsBuilt-level true request h = tt
IsBuilt-level true headers h = tt
IsBuilt-level true body h = absurd (ground arith)
IsBuilt-level true content h = absurd (ground arith)
IsBuilt-level false request h = tt
IsBuilt-level false headers h = tt
IsBuilt-level false body h = tt
IsBuilt-level false content h = tt

level-IsBuilt :
    (hardened : Bool) (call : LogCall)
    → IsBuilt hardened call
    → leb (level_of call) (max_allowed_level hardened) ≡ true
level-IsBuilt true request h = refl
level-IsBuilt true headers h = refl
level-IsBuilt true body h = elim h [ ]
level-IsBuilt true content h = elim h [ ]
level-IsBuilt false request h = refl
level-IsBuilt false headers h = refl
level-IsBuilt false body h = refl
level-IsBuilt false content h = refl

-- After Apply, with any configuration and environment, there is one level that is asked for:
-- LOG_LEVEL's if that is a number from 0 to 4, else the configuration's if it is one, else 0; and
-- a call prints exactly if it is not above that level and, in a hardened build, is neither a
-- body's nor a content's.
pub prints-apply :
    (hardened : Bool) (atoi : String → Option ℤ) (yaml_level : Option ℤ) (env : String)
    → (n : ℕ) × IsAsked (if env == "" then none else atoi env) yaml_level n
      × ((call : LogCall)
          → (prints hardened (apply hardened atoi yaml_level env) call ≡ true)
            ↔ (IsBuilt hardened call × (leb (level_of call) n ≡ true)))
unfolding apply
prints-apply hardened atoi yaml_level env =
    let env_level = if env == "" then none else atoi env in
    let n = level_or (in_range env_level) (level_or (in_range yaml_level) 0) in
    (
      n,
      level_or-IsAsked env_level yaml_level,
      λ call.
          let same = prints-clamp hardened n call in
          (
            λ p.
                let both = sym same ∙ p in
                (
                  IsBuilt-level hardened call (and_left _ _ both),
                  and_right (leb (level_of call) (max_allowed_level hardened)) _ both,
                ),
            λ (b, h). same ∙ rw (level-IsBuilt hardened call b, h) refl,
          ),
    )
  where
    and_left : (a b : Bool) → (a && b) ≡ true → a ≡ true
    and_left true b h = refl
    and_left false b h = cc

    and_right : (a b : Bool) → (a && b) ≡ true → b ≡ true
    and_right true b h = h
    and_right false b h = cc
