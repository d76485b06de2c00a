-- ===== src/Escalation.antt =====
-- nexus/app/services/escalation/ladder.py: the fixed escalation ladder.
pub mod Laws
use ai_system_canonical.Prelude.{
  ℕ, zero, suc, ◌+◌, Bool, true, false, List, [], ◌∷◌, ltb, leb, if◌then◌else◌,
}

pub data RungName : Type 0 where
  inspect change_strategy critic research stronger_model ask_user : RungName

pub record Rung : Type 0 where
  pub name : RungName
  pub actionable : Bool

pub record Ladder : Type 0 where
  pub i : ℕ
  pub max_replans : ℕ
  pub replans_used : ℕ
  pub has_critic : Bool
  pub has_researcher : Bool
  pub has_stronger_model : Bool

abbrev pub new_ladder : ℕ → Bool → Bool → Bool → Ladder
new_ladder max_replans critic? researcher? stronger? = record {
  i = 0;
  max_replans = max_replans;
  replans_used = 0;
  has_critic = critic?;
  has_researcher = researcher?;
  has_stronger_model = stronger?;
}

-- RUNGS[min(i, len(RUNGS) - 1)]
unfoldable pub rung_at : ℕ → RungName
rung_at zero = inspect
rung_at (suc zero) = change_strategy
rung_at (suc (suc zero)) = critic
rung_at (suc (suc (suc zero))) = research
rung_at (suc (suc (suc (suc zero)))) = stronger_model
rung_at (suc (suc (suc (suc (suc _))))) = ask_user

-- len(RUNGS)
abbrev pub rungs_length : ℕ
rungs_length = 6

-- the rung of that name, after `i` was advanced
act_on : RungName → Ladder → Ladder × Rung
act_on inspect l = (l, record { name = inspect; actionable = false })
act_on change_strategy l =
    if ltb l.replans_used l.max_replans
    then (
      record l { replans_used = l.replans_used + 1 },
      record { name = change_strategy; actionable = true },
    )
    else (l, record { name = change_strategy; actionable = false })
act_on critic l = (l, record { name = critic; actionable = l.has_critic })
act_on research l = (l, record { name = research; actionable = l.has_researcher })
act_on stronger_model l = (l, record { name = stronger_model; actionable = l.has_stronger_model })
act_on ask_user l = (l, record { name = ask_user; actionable = true })

unfoldable pub advance : Ladder → Ladder × Rung
unfolding rung_at act_on
advance l = act_on (rung_at l.i) (record l { i = l.i + 1 })

unfoldable pub exhausted : Ladder → Bool
exhausted l = leb rungs_length l.i
