-- ===== src/Orchestrator/Act.antt =====
-- What the methods of the orchestrator raise.
use ai_system_canonical.Prelude.{String}
use ai_system_canonical.Prelude.Act as Methods
pub use ai_system_canonical.Prelude.Act.{returns, throws}
unfoldable pub use ai_system_canonical.Prelude.Act.{
  pure, throw, from, go_on, ◌>>=◌, ◌>>◌, handle, catch, finally, either, try_else, on_option,
  modify, gets, for_each, when,
}
use ai_system_canonical.State.{State}
use ai_system_canonical.State.Gate.{Reason}
use ai_system_canonical.Progress.Service.{ProgressClass}

-- What the methods raise. `raised` is an exception of a component behind a seam.
pub data Exc : Type 0 where
  transition_error : State → State → Reason → Exc
  build_error : Exc
  capability_error : Exc
  approval_pause : String → String → Exc
  stalled_escalation : ProgressClass → Exc
  budget_exhausted : Exc
  unbound_local : Exc
  no_events : Exc
  stop_iteration : Exc
  raised : String → Exc

abbrev pub Outcome : Type 0 → Type 0
Outcome A = Methods.Outcome Exc A

abbrev pub Act : Type 0 → Type 0 → Type 0
Act S A = Methods.Act Exc S A
