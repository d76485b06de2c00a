-- ===== src/Experience/Sequence.antt =====
-- Sequences of calls of the store, as a client makes them: one that raises leaves what it had changed.
use ai_system_canonical.Prelude.{String, Bool, List, [], ◌∷◌}
use ai_system_canonical.Prelude.Floats.{Floats}
use ai_system_canonical.Experience.{ExperienceState, ShadowRun, Why}
use ai_system_canonical.Experience.Store.{Table, advance}
use ai_system_canonical.Experience.Operations.{
  Capture, Report, capture, add_shadow_result, promote_on, record_use, try_validate, try_promote,
  sweep_stale,
}
use ai_system_canonical.Experience.Invariant.{
  Stable, capture-Keeps, advance-Keeps, add_shadow_result-Keeps, promote_on-Keeps, record_use-Keeps,
  try_validate-Keeps, try_promote-Keeps, sweep_stale-Keeps,
}

-- The store's methods that write, with their arguments.
pub data Operation (F : Type 0) : Type 0 where
  captures : Capture F → Operation F
  advances : String → ExperienceState → Why → Operation F
  uses : String → Bool → Bool → Operation F
  shadows : String → ShadowRun F → Operation F
  validates : String → Operation F
  promotes : String → Bool → Operation F
  promotes_on : String → Report F → Operation F
  sweeps : Operation F

module _ (N : Floats) where
  open N use {Float}

  -- the table after a call
  unfoldable pub perform : Operation Float → Table Float → Table Float
  perform (captures c) s = (capture c s).1
  perform (advances j target why) s = (advance j target why s).1
  perform (uses j verified catastrophic) s = (record_use N j verified catastrophic s).1
  perform (shadows j run) s = (add_shadow_result j run s).1
  perform (validates j) s = (try_validate N j s).1
  perform (promotes j human_approved) s = (try_promote N j human_approved s).1
  perform (promotes_on j r) s = (promote_on j r s).1
  perform sweeps s = (sweep_stale N s).1

  unfoldable pub perform_all : List (Operation Float) → Table Float → Table Float
  perform_all [] s = s
  perform_all (o ∷ os) s = perform_all os (perform o s)

  module _ {P : Table Float → Type 0} (inv : Stable P) where
    pub perform_keeps : (o : Operation Float) (s : Table Float) → P s → P (perform o s)
    unfolding perform
    perform_keeps (captures c) s p = (capture-Keeps inv c).holds s p
    perform_keeps (advances j target why) s p = (advance-Keeps inv j target why).holds s p
    perform_keeps (uses j verified cat) s p = (record_use-Keeps N inv j verified cat).holds s p
    perform_keeps (shadows j run) s p = (add_shadow_result-Keeps inv j run).holds s p
    perform_keeps (validates j) s p = (try_validate-Keeps N inv j).holds s p
    perform_keeps (promotes j approved) s p = (try_promote-Keeps N inv j approved).holds s p
    perform_keeps (promotes_on j r) s p = (promote_on-Keeps inv j r).holds s p
    perform_keeps sweeps s p = (sweep_stale-Keeps N inv).holds s p

    pub perform_all_keeps :
        (os : List (Operation Float)) (s : Table Float) → P s → P (perform_all os s)
    unfolding perform_all
    perform_all_keeps [] s p = p
    perform_all_keeps (o ∷ os) s p = perform_all_keeps os (perform o s) (perform_keeps o s p)
