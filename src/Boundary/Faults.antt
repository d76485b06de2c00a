-- ===== src/Boundary/Faults.antt =====
-- nexus/app/services/faults/model.py: the schedule of injected faults.
use ai_system_canonical.Prelude.{
  ℕ, zero, suc, ◌+◌, ◌≡◌, refl, ap, ◌∙◌, String, Bool, Option, none, some, List, [], ◌∷◌, ◌&&◌,
  ◌||◌, leb, ◌==◌, str_eq, eq_iff, if◌then◌else◌, arith,
}

pub record Fault : Type 0 where
  pub kind : String
  pub on_call : ℕ
  pub sticky : Bool

pub record FaultPlan : Type 0 where
  pub faults : List Fault
  pub counts : List (String × ℕ)

-- `_counts.get(kind, 0)`
unfoldable pub count_of : String → List (String × ℕ) → ℕ
count_of kind [] = 0
count_of kind ((k, n) ∷ cs) = if str_eq k kind then n else count_of kind cs

unfoldable pub set_count : String → ℕ → List (String × ℕ) → List (String × ℕ)
set_count kind n [] = (kind, n) ∷ []
set_count kind n ((k, m) ∷ cs) = if str_eq k kind then (k, n) ∷ cs else (k, m) ∷ set_count kind n cs

-- the loop over the faults at the n-th call
unfoldable pub due : String → ℕ → List Fault → Option Fault
due kind n [] = none
due kind n (f ∷ fs) =
    if str_eq f.kind kind && (n == f.on_call || (f.sticky && leb f.on_call n))
    then some f
    else due kind n fs

unfoldable pub should_fire : String → FaultPlan → FaultPlan × Option Fault
should_fire kind plan =
    let n = count_of kind plan.counts + 1 in
    (record plan { counts = set_count kind n plan.counts }, due kind n plan.faults)

-- `should_fire`, call by call: the answers to so many calls of one kind
unfoldable pub fires : ℕ → String → FaultPlan → List (Option Fault)
unfolding should_fire
fires zero kind plan = []
fires (suc n) kind plan = let (plan', f) = should_fire kind plan in f ∷ fires n kind plan'

-- the answers by the schedule alone, from the k-th call on
unfoldable pub scheduled : ℕ → ℕ → String → List Fault → List (Option Fault)
unfolding due
scheduled zero k kind faults = []
scheduled (suc n) k kind faults = due kind k faults ∷ scheduled n (k + 1) kind faults

count-set :
    (kind : String) (n : ℕ) (cs : List (String × ℕ)) → count_of kind (set_count kind n cs) ≡ n
unfolding count_of set_count
count-set kind n [] = ground (arith, eq_iff kind kind)
count-set kind n ((k, m) ∷ cs) = ground (arith, count-set kind n cs)

-- Each call of a kind is counted once, so a run of calls meets the faults of the schedule: the k-th call
-- of a kind is answered by the first of its faults that is due at k.
pub fires-scheduled :
    (n : ℕ) (kind : String) (plan : FaultPlan)
    → fires n kind plan ≡ scheduled n (count_of kind plan.counts + 1) kind plan.faults
unfolding fires scheduled
fires-scheduled zero kind plan = refl
fires-scheduled (suc n) kind plan =
    let k = count_of kind plan.counts + 1 in
    let plan' : FaultPlan = record plan { counts = set_count kind k plan.counts } in
    ap (λ (l : List (Option Fault)). due kind k plan.faults ∷ l)
      (fires-scheduled n kind plan'
        ∙ ap (λ c. scheduled n (c + 1) kind plan.faults) (count-set kind k plan.counts))
