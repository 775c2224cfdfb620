-- ===== src/Runner/Agents/Choice.antt =====
-- The choice of internal/runner/agents.go and the CLIs that are installed.
use zcoms_agent.Prelude.{
  Bool, true, false, List, [], ◌∷◌, ◌++◌, ◌≡◌, ◌≢◌, ◌⊎◌, ◌↔◌, refl, arith, if◌then◌else◌, inl, inr,
}
use zcoms_agent.Prelude.Text.{Text, text_eq}
use zcoms_agent.Runner.Agents.{
  Backend, backend_claude, backend_codex, no_backend, normalize, AgentConfig, agent_available,
  first_available, candidates, agent_for, given, given_task, task_backend, is_set,
}

module _ (installed : Text → Bool) where
  first_available-installed :
      (bs : List Backend)
      → first_available installed bs ≢ no_backend
      → installed (first_available installed bs) ≡ true
  unfolding first_available agent_available
  first_available-installed [] h = absurd (h refl)
  first_available-installed (b ∷ bs) h = ground (arith, first_available-installed bs)

  available-claude : agent_available installed backend_claude ≡ installed backend_claude
  unfolding agent_available normalize text_eq
  available-claude = refl

  available-codex : agent_available installed backend_codex ≡ installed backend_codex
  unfolding agent_available normalize text_eq
  available-codex = refl

  normalize-claude : normalize backend_claude ≡ backend_claude
  unfolding normalize text_eq
  normalize-claude = refl

  normalize-codex : normalize backend_codex ≡ backend_codex
  unfolding normalize text_eq
  normalize-codex = refl

  normalize_set : (b : Backend) → normalize b ≢ no_backend
  unfolding normalize
  normalize_set b = ground arith

  abbrev EitherInstalled : Type 0
  EitherInstalled = installed backend_claude ≡ true ⊎ installed backend_codex ≡ true

  first_available-last :
      EitherInstalled → first_available installed (backend_claude ∷ backend_codex ∷ []) ≢ no_backend
  unfolding first_available
  first_available-last h e = ground (
    arith,
    available-claude,
    available-codex,
    normalize_set backend_claude,
    normalize_set backend_codex,
  )

  first_available-append :
      (bs cs : List Backend)
      → first_available installed cs ≢ no_backend
      → first_available installed (bs ++ cs) ≢ no_backend
  unfolding first_available
  first_available-append [] cs h e = h e
  first_available-append (b ∷ bs) cs h e =
      ground (arith, first_available-append bs cs h, normalize_set b)

  first_available-none :
      (bs : List Backend)
      → installed backend_claude ≡ false
      → installed backend_codex ≡ false
      → first_available installed bs ≡ no_backend
  unfolding first_available agent_available normalize
  first_available-none [] h k = refl
  first_available-none (b ∷ bs) h k = ground (arith, first_available-none bs h k)

  abbrev for_task : AgentConfig → Text → List Backend
  for_task c task = if is_set task then given_task (task_backend task c.tasks) else []

  first_available-candidates :
      (c : AgentConfig) (task : Text) (override : Backend)
      → first_available installed (backend_claude ∷ backend_codex ∷ []) ≢ no_backend
      → first_available installed (candidates c task override) ≢ no_backend
  unfolding candidates
  first_available-candidates c task override h =
      first_available-append (given override ++ for_task c task ++ given c.default)
        (backend_claude ∷ backend_codex ∷ []) h

  -- No agent is chosen for a task exactly when neither CLI is installed, and an agent that is
  -- chosen is installed.
  pub agent_for-installed :
      (c : AgentConfig) (task : Text) (override : Backend)
      → (agent_for installed c task override ≡ no_backend
          ↔ (installed backend_claude ≡ false) × (installed backend_codex ≡ false))
        × (agent_for installed c task override ≢ no_backend
            → installed (agent_for installed c task override) ≡ true)
  unfolding agent_for candidates
  agent_for-installed c task override = (
    (
      λ e. (not_none (λ h. none_of (inl h) e), not_none (λ h. none_of (inr h) e)),
      λ none_is. first_available-none (candidates c task override) none_is.0 none_is.1,
    ),
    first_available-installed (candidates c task override),
  )
    where
      not_none : {b : Bool} → (b ≡ true → ⊥) → b ≡ false
      not_none h = ground arith

      none_of :
          EitherInstalled → first_available installed (candidates c task override) ≢ no_backend
      none_of h = first_available-candidates c task override (first_available-last h)
