-- ===== src/Orchestrator/Enough.antt =====
-- The fuel of the escalation ladder's loop: the rungs that are left are enough.
use ai_system_canonical.Prelude.{
  ℕ, zero, suc, ◌+◌, ◌-◌, ◌≤◌, ◌≡◌, refl, ap, ◌∙◌, String, true, arith,
}
use ai_system_canonical.Contracts.Task.{TaskContract}
use ai_system_canonical.Escalation.{Ladder, advance, exhausted, rungs_length}
use ai_system_canonical.Escalation.Laws.{i-advance}
use ai_system_canonical.Orchestrator.Seams.{Seams}
use ai_system_canonical.Orchestrator.Execute.{climb, run_ladder}

past : (l : Ladder) → rungs_length ≤ l.i → exhausted l ≡ true
unfolding exhausted
past l h = ground arith

module _ {W : Type 0} (sm : Seams W) (t : String) (c : TaskContract) where
  climb-suc :
      (n : ℕ) (l : Ladder) (diff : String)
      → rungs_length ≤ n + l.i
      → climb sm t c (suc n) l diff ≡ climb sm t c n l diff
  unfolding climb
  climb-suc zero l diff h = rw (past l (omega arith)) refl
  climb-suc (suc n) l diff h = rw (climb-suc n (advance l).0 diff (omega (arith, i-advance l))) refl

  climb-more :
      (k n : ℕ) (l : Ladder) (diff : String)
      → rungs_length ≤ n + l.i
      → climb sm t c (n + k) l diff ≡ climb sm t c n l diff
  climb-more zero n l diff h = ap (λ m. climb sm t c m l diff) (omega arith)
  climb-more (suc k) n l diff h =
      ap (λ m. climb sm t c m l diff) (omega arith)
      ∙ (climb-suc (n + k) l diff (omega arith) ∙ climb-more k n l diff h)

-- With any more fuel than the rungs that are left, the loop does what `run_ladder` does.
pub climb-enough :
    {W : Type 0} (sm : Seams W) (t : String) (c : TaskContract) (k : ℕ) (l : Ladder) (diff : String)
    → climb sm t c (rungs_length - l.i + k) l diff ≡ run_ladder sm t c l diff
unfolding run_ladder
climb-enough sm t c k l diff = climb-more sm t c k (rungs_length - l.i) l diff (omega arith)
