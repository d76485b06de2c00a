-- ===== src/Budget/Laws.antt =====
-- The hard mark lies above the soft one, and admission keeps the step budget.
use ai_system_canonical.Prelude.{
  ℕ, ◌+◌, ◌≤◌, ◌<◌, Bool, true, false, ◌≡◌, List, [], ◌∷◌, arith, any, ltb, ◌&&◌, All,
}
use ai_system_canonical.Contracts.Task.{Dimension, steps}
use ai_system_canonical.Budget.{
  BudgetTracker, over_soft, over_hard, would_exceed, add_step, spent, extra,
}

any_mono {ℓ} :
    {A : Type ℓ} (f g : A → Bool) (xs : List A)
    → ((x : A) → f x ≡ true → g x ≡ true)
    → any f xs ≡ true
    → any g xs ≡ true
any_mono f g [] h k = k
any_mono f g (x ∷ xs) h k = ground (arith, h x, any_mono f g xs h)

-- A budget at its hard mark is past its soft mark.
pub over_hard-over_soft :
    (b : BudgetTracker) (elapsed : ℕ) → over_hard b elapsed ≡ true → over_soft b elapsed ≡ true
unfolding over_hard over_soft
over_hard-over_soft b elapsed h = any_mono _ _ b.limits (λ d k. ground arith) h

any-false {ℓ} :
    {A : Type ℓ} (f : A → Bool) (xs : List A) → any f xs ≡ false → All (λ x. f x ≡ false) xs
any-false f [] h = tt
any-false f (x ∷ xs) h = (ground arith, any-false f xs (ground arith))

All-map {ℓ κ μ} :
    {A : Type ℓ} {P : A → Type κ} {Q : A → Type μ} (xs : List A)
    → ((x : A) → P x → Q x)
    → All P xs
    → All Q xs
All-map [] h k = tt
All-map (x ∷ xs) h k = (h x k.0, All-map xs h k.1)

admitted :
    (b : BudgetTracker) (elapsed : ℕ) (d : Dimension) (limit : ℕ)
    → (ltb 0 limit && ltb limit (spent b elapsed d + extra 1 d)) ≡ false
    → 0 < limit
    → spent (add_step b) elapsed d ≤ limit
unfolding spent extra add_step
admitted b elapsed steps limit k h = ground arith
admitted b elapsed _ limit k h = ground arith

-- A step that is admitted stays within every non-zero limit once it is counted, at the same time.
pub would_exceed-add_step :
    (b : BudgetTracker) (elapsed : ℕ)
    → would_exceed b elapsed 1 ≡ false
    → All (λ (d : Dimension × ℕ). 0 < d.1 → spent (add_step b) elapsed d.0 ≤ d.1) b.limits
unfolding would_exceed
would_exceed-add_step b elapsed h =
    All-map b.limits (λ d k. admitted b elapsed d.0 d.1 k) (any-false _ b.limits h)
