-- ===== src/Escalation/Laws.antt =====
-- Bounds on the ladder: each call climbs one rung, and the re-plan rung is passed once.
use ai_system_canonical.Prelude.{
  ℕ, zero, suc, ◌+◌, ◌≤◌, Bool, false, ◌≡◌, refl, List, [], ◌∷◌, ◌&&◌, leb, if◌then◌else◌, arith,
}
use ai_system_canonical.Escalation.{Ladder, Rung, RungName, change_strategy, new_ladder, advance}

pub i-advance : (l : Ladder) → (advance l).0.i ≡ l.i + 1
unfolding advance
i-advance l = ground arith

unfoldable pub advances : ℕ → Ladder → Ladder
advances zero l = l
advances (suc n) l = advances n (advance l).0

-- the rungs that so many calls hand out
unfoldable pub rungs_of : ℕ → Ladder → List Rung
rungs_of zero l = []
rungs_of (suc n) l = (advance l).1 ∷ rungs_of n (advance l).0

-- a rung on which the caller re-plans
abbrev pub is_replan : RungName → Bool → Bool
is_replan change_strategy act = act
is_replan _ act = false

unfoldable pub count_replans : List Rung → ℕ
count_replans [] = 0
count_replans (r ∷ rs) = (if is_replan r.name r.actionable then 1 else 0) + count_replans rs

-- A ladder past its second rung hands out no re-plan.
no_replans : (n : ℕ) (l : Ladder) → 2 ≤ l.i → count_replans (rungs_of n l) ≡ 0
unfolding count_replans rungs_of advance
no_replans zero l h = refl
no_replans (suc n) l h = ground (arith, no_replans n (advance l).0)

-- Of the rungs that a new ladder hands out over any number of calls, exactly one asks for a change of
-- strategy that can be acted on, if there were two calls at least and `max_replans` is positive; else
-- none does.
pub count_replans-rungs_of :
    (n max : ℕ) (c r s : Bool)
    → count_replans (rungs_of n (new_ladder max c r s)) ≡ (if leb 2 n && leb 1 max then 1 else 0)
unfolding count_replans rungs_of advance
count_replans-rungs_of zero max c r s = refl
count_replans-rungs_of (suc zero) max c r s = refl
count_replans-rungs_of (suc (suc n)) max c r s =
    let l = (advance (advance (new_ladder max c r s)).0).0 in ground (arith, no_replans n l)
