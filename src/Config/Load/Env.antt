-- ===== src/Config/Load/Env.antt =====
-- `expandEnvVars`: `${NAME}`, where NAME is any text that is not empty and has no closing brace, is
-- replaced by the variable's value, and the value is not looked at again. `env` is os.Getenv, "" for a
-- variable that is not set: `none` here.
use Prim.Native.Char.{Char, code}
use Prim.Native.String.{◌++◌ as text_append}
use Prim.Native.String.append.{nil as append_nil, cons as append_cons}
use llm_proxy.Base.{
  ℕ, zero, suc, ◌+◌, ◌≡◌, refl, ap, ◌∙◌, false, Option, none, some, String, if◌then◌else◌, ◌==◌,
  number_eq, text_eq, Bool-cases, inl, inr, arith,
}
use llm_proxy.Base.Text.{chars, strip_prefix, split_at, longer}

-- The text up to a closing brace, if it is not empty.
unfoldable pub name_of : Option (String × String) → Option String
name_of none = none
name_of (some (name, _)) = if name == "" then none else some name

-- The name of a variable that a text starts with.
unfoldable pub variable : String → Option String
unfolding strip_prefix split_at name_of
variable s = elim (strip_prefix "${" s) [ none ↦ none | some rest ↦ name_of (split_at "}" rest) ]

abbrev pub or_empty : Option String → String
or_empty none = ""
or_empty (some s) = s

-- `skip` counts the characters of a replaced variable that are still to be left out.
unfoldable pub expand_from : (String → Option String) → ℕ → String → String
unfolding variable chars
expand_from env skip String.[] = String.[]
expand_from env (suc skip) (String.◌∷◌ c s) = expand_from env skip s
expand_from env zero (String.◌∷◌ c s) = elim (variable (String.◌∷◌ c s)) [
  | some name ↦ text_append (or_empty (env name)) (expand_from env (chars name + 2) s)
  | none ↦ String.◌∷◌ c (expand_from env zero s)
]

unfoldable pub expand_env_vars : (String → Option String) → String → String
unfolding expand_from
expand_env_vars env s = expand_from env 0 s

longer-none : (c : Char) (o : Option (String × String)) → longer c o ≡ none → o ≡ none
longer-none c none h = refl
longer-none c (some found) h = cc

brace_missed :
    (c : Char) (name : String)
    → split_at "}" (String.◌∷◌ c name) ≡ none
    → ((0x7d == code c) ≡ false) × (split_at "}" name ≡ none)
unfolding split_at
brace_missed c name h = elim (Bool-cases (0x7d == code c)) [
  | inl e ↦ let h' = rw (e, strip_prefix) at h in cc
  | inr e ↦ (e, longer-none c (split_at "}" name) (rw e at h))
]

split_at-name :
    (name rest : String)
    → split_at "}" name ≡ none
    → split_at "}" (text_append name (String.◌∷◌ "}" rest)) ≡ some (name, rest)
unfolding split_at
split_at-name String.[] rest h = rw (append_nil (String.◌∷◌ "}" rest)) refl
split_at-name (String.◌∷◌ c name) rest h =
    let (e, h') = brace_missed c name h in
    rw (append_cons c name (String.◌∷◌ "}" rest)) (rw (e, split_at-name name rest h') refl)

variable-name :
    (name rest : String)
    → (name == "") ≡ false
    → split_at "}" name ≡ none
    → variable (String.◌∷◌ "$" (String.◌∷◌ "{" (text_append name (String.◌∷◌ "}" rest))))
      ≡ some name
unfolding variable
variable-name name rest n h = rw (split_at-name name rest h) (rw n refl)

module _ (env : String → Option String) where
  expand_from-skip :
      (name rest : String) (c : Char)
      → expand_from env (suc (chars name)) (text_append name (String.◌∷◌ c rest))
        ≡ expand_from env 0 rest
  unfolding expand_from
  expand_from-skip String.[] rest c = rw (append_nil (String.◌∷◌ c rest)) refl
  expand_from-skip (String.◌∷◌ d name) rest c =
      rw (append_cons d name (String.◌∷◌ c rest)) (expand_from-skip name rest c)

  -- A variable with a name that is not empty and has no closing brace becomes its value, or nothing if
  -- it is not set, and the expansion goes on after it.
  expand_env_vars-variable :
      (name rest : String)
      → (name == "") ≡ false
      → split_at "}" name ≡ none
      → expand_env_vars env
          (String.◌∷◌ "$" (String.◌∷◌ "{" (text_append name (String.◌∷◌ "}" rest))))
        ≡ text_append (or_empty (env name)) (expand_env_vars env rest)
  unfolding expand_env_vars expand_from
  expand_env_vars-variable name rest n h =
      let text = String.◌∷◌ "{" (text_append name (String.◌∷◌ "}" rest)) in
      let two : chars name + 2 ≡ suc (suc (chars name)) = omega arith in
      rw (variable-name name rest n h, expand_from)
        (ap (text_append (or_empty (env name)))
          (ap (λ k. expand_from env k text) two ∙ expand_from-skip name rest "}"))
