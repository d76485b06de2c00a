-- ===== src/State.antt =====
-- nexus/app/core/state.py: the task states and the transition table `ALLOWED`.
pub mod Gate
pub mod Trace
pub mod Laws
use ai_system_canonical.Prelude.{ℕ, Bool, true, false, List, [], ◌∷◌, any, ◌==◌}

pub data State : Type 0 where
  created interpreting planning waiting_for_user executing verifying stalled recovering completed
        failed cancelled :
      State

pub State-discrete : Discrete State
State-discrete = hlevel

-- A number for each state, to compare states by.
abbrev pub index : State → ℕ
index created = 0
index interpreting = 1
index planning = 2
index waiting_for_user = 3
index executing = 4
index verifying = 5
index stalled = 6
index recovering = 7
index completed = 8
index failed = 9
index cancelled = 10

abbrev pub state_eq : State → State → Bool
state_eq a b = index a == index b

-- `ALLOWED`
unfoldable pub allowed : State → List State
allowed created = interpreting ∷ cancelled ∷ []
allowed interpreting = planning ∷ waiting_for_user ∷ failed ∷ cancelled ∷ []
allowed planning = executing ∷ waiting_for_user ∷ failed ∷ cancelled ∷ []
allowed waiting_for_user = interpreting ∷ executing ∷ failed ∷ cancelled ∷ []
allowed executing = verifying ∷ waiting_for_user ∷ stalled ∷ failed ∷ cancelled ∷ []
allowed verifying = completed ∷ stalled ∷ waiting_for_user ∷ failed ∷ cancelled ∷ []
allowed stalled = recovering ∷ waiting_for_user ∷ failed ∷ cancelled ∷ []
allowed recovering = executing ∷ verifying ∷ waiting_for_user ∷ failed ∷ cancelled ∷ []
allowed completed = []
allowed failed = []
allowed cancelled = []

-- `target in ALLOWED[current]`
unfoldable pub is_allowed : State → State → Bool
unfolding allowed
is_allowed current target = any (state_eq target) (allowed current)

-- `_TERMINAL` of the orchestrator and of `reconcile`
unfoldable pub is_terminal : State → Bool
is_terminal completed = true
is_terminal failed = true
is_terminal cancelled = true
is_terminal _ = false
