-- ===== src/Scheduler/Concurrency/Threads.antt =====
-- Budgets of agent threads: what `subagent_threads_per_root` and `admit_nested_threads` grant.
use firstgreen.Prelude.{ℕ, ◌+◌, ◌*◌, ◌≤◌, ◌<◌, Bool, true, false, ◌≡◌, arith}
use firstgreen.Prelude.Result.{ok}
use firstgreen.Scheduler.Concurrency.{
  ThreadAdmission, subagent_threads_per_root, admit_nested_threads,
}

-- With every root at work, each with its granted subagents, no more threads run than the total;
-- and no root is granted more than was configured.
pub subagents_fit_budget :
    (total roots configured : ℕ) {granted : ℕ}
    → subagent_threads_per_root total roots configured ≡ ok granted
    → (roots * (1 + granted) ≤ total) × (granted ≤ configured)
unfolding subagent_threads_per_root
subagents_fit_budget total roots configured h = grind arith

-- With the same budget one subagent more per root would not fit, unless it was not configured.
pub subagents_maximal :
    (total roots configured : ℕ) {granted : ℕ}
    → subagent_threads_per_root total roots configured ≡ ok granted
    → granted < configured
    → total < roots * (1 + (granted + 1))
unfolding subagent_threads_per_root
subagents_maximal total roots configured h lt = grind arith

module _ (active requested total : ℕ) (reduce : Bool) where
  -- An admission never takes the active threads beyond the budget nor beyond the request, and
  -- grants at least one thread exactly if it allows the start.
  pub admission_fits :
      {a : ThreadAdmission}
      → admit_nested_threads active requested total reduce ≡ ok a
      → (a.granted_threads ≤ requested)
        × (a.allowed ≡ true → (1 ≤ a.granted_threads) × (active + a.granted_threads ≤ total))
        × (a.allowed ≡ false → a.granted_threads ≡ 0)
  unfolding admit_nested_threads
  admission_fits h = (ground arith, (λ e. ground arith), (λ e. ground arith))

  -- Where reduction is allowed, a start is refused only if no thread is left.
  pub refused_only_when_full :
      {a : ThreadAdmission}
      → admit_nested_threads active requested total true ≡ ok a
      → a.allowed ≡ false
      → total ≤ active
  unfolding admit_nested_threads
  refused_only_when_full h e = ground arith
