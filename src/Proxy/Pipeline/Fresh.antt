-- ===== src/Proxy/Pipeline/Fresh.antt =====
-- The semaphores of a new configuration.
use llm_proxy.Base.{
  ◌≡◌, sym, ap, ◌∙◌, inl, inr, List, [], ◌∷◌, some, String, Map, lookup, lookup-insert, ◌==◌,
  text_eq, Bool-cases,
}
use llm_proxy.Base.Int.{is_pos, pos_part}
use llm_proxy.Config.Types.{Backend}
use llm_proxy.Proxy.Pipeline.{Semaphore, fill_semaphores, build_semaphores}
use llm_proxy.Proxy.Pipeline.Live.{some_semaphore}

never : (id : String) (sem : Semaphore) → lookup id [] ≡ some sem → ⊥
unfolding lookup
never id sem e = cc

fill_semaphores-zero :
    (bs : List Backend) (sems : Map Semaphore)
    → ((id : String) (sem : Semaphore) → lookup id sems ≡ some sem → sem.held ≡ 0)
    → (id : String) (sem : Semaphore) → lookup id (fill_semaphores bs sems) ≡ some sem
    → sem.held ≡ 0
unfolding fill_semaphores
fill_semaphores-zero [] sems h = h
fill_semaphores-zero (b ∷ bs) sems h = elim (Bool-cases (is_pos b.max_concurrency)) [
  | inl p ↦
      let new : Semaphore = record { capacity = pos_part b.max_concurrency; held = 0 } in
      rw p (
        fill_semaphores-zero bs _ (λ id sem e.
          let read = sym (lookup-insert b.id id new sems) ∙ e in
          elim (Bool-cases (b.id == id)) [
            | inl q ↦ ap (λ s. s.held) (sym (some_semaphore (rw q at read)))
            | inr q ↦ h id sem (rw q at read)
          ]))
  | inr p ↦ rw p (fill_semaphores-zero bs sems h)
]

-- No slot of a new semaphore is taken.
pub build_semaphores-zero :
    (bs : List Backend) (id : String) (sem : Semaphore)
    → lookup id (build_semaphores bs) ≡ some sem
    → sem.held ≡ 0
unfolding build_semaphores
build_semaphores-zero bs = fill_semaphores-zero bs [] (λ id sem e. absurd (never id sem e))
