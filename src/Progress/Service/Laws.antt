-- ===== src/Progress/Service/Laws.antt =====
-- When the progress service calls a task stalled.
use mathlib.Core.List.{append-nil, append_assoc}
use ai_system_canonical.Prelude.{
  ◌+◌, ◌*◌, ◌≤◌, Bool, true, false, ◌≡◌, refl, Option, none, some, List, [], ◌∷◌, ◌++◌, arith,
  length, length-append, last?, is_some, is_cons, ◌∙◌, ap, sym, subst, ℕ, All, Bool-cases, inl, inr,
}
use ai_system_canonical.Progress.Signals.{StepMeasurement, hard_progress}
use ai_system_canonical.Progress.Service.{
  ProgressService, ProgressEvent, new_service, stalled, observe, classify, observe_after,
}

-- the measurements observed one after the other, with no flag of the loop or the budget
unfoldable pub after : ProgressService → List StepMeasurement → ProgressService
after p [] = p
after p (m ∷ ms) = after (observe p m false false).0 ms

-- none of them made hard progress
abbrev pub Quiet : ProgressService → List StepMeasurement → Type 0
Quiet p [] = Unit
Quiet p (m ∷ ms) =
    ((observe p m false false).1.made_progress ≡ false) × Quiet (observe p m false false).0 ms

last?-snoc {ℓ} : {A : Type ℓ} (xs : List A) (x : A) → last? (xs ++ x ∷ []) ≡ some x
last?-snoc [] x = refl
last?-snoc (y ∷ []) x = refl
last?-snoc (y ∷ z ∷ xs) x = last?-snoc (z ∷ xs) x

-- A baseline was taken.
abbrev pub HasBaseline : ProgressService → Type 0
HasBaseline p = is_some (last? p.history) ≡ true

observe_after-quiet :
    (o : Option StepMeasurement) (p : ProgressService) (m : StepMeasurement)
    → is_some o ≡ true
    → (observe_after o p m false false).1.made_progress ≡ false
    → ((observe_after o p m false false).0.run ≡ p.run + 1)
      × ((observe_after o p m false false).0.k ≡ p.k)
      × ((observe_after o p m false false).0.history ≡ p.history ++ m ∷ [])
unfolding observe_after
observe_after-quiet none p m b h = cc
observe_after-quiet (some prev) p m b h = (ground arith, refl, refl)

observe-quiet :
    (p : ProgressService) (m : StepMeasurement)
    → HasBaseline p
    → (observe p m false false).1.made_progress ≡ false
    → ((observe p m false false).0.run ≡ p.run + 1)
      × ((observe p m false false).0.k ≡ p.k)
      × HasBaseline (observe p m false false).0
unfolding observe
observe-quiet p m b h =
    let (r, k, hist) = observe_after-quiet (last? p.history) p m b h in
    (r, k, rw hist (rw last?-snoc refl))

run-after :
    (p : ProgressService) (ms : List StepMeasurement)
    → HasBaseline p
    → Quiet p ms
    → ((after p ms).run ≡ p.run + length ms) × ((after p ms).k ≡ p.k) × HasBaseline (after p ms)
unfolding after
run-after p [] b q = (omega arith, refl, b)
run-after p (m ∷ ms) b q =
    let (r, k, b') = observe-quiet p m b q.0 in
    let (r', k', b'') = run-after (observe p m false false).0 ms b' q.1 in
    (omega arith, k' ∙ k, b'')

observe_after-stalls :
    (o : Option StepMeasurement) (p : ProgressService) (m : StepMeasurement)
    → is_some o ≡ true
    → (observe_after o p m false false).1.made_progress ≡ false
    → 2 * p.k ≤ p.run + 1
    → (observe_after o p m false false).1.classification ≡ stalled
unfolding observe_after classify
observe_after-stalls none p m b h e = cc
observe_after-stalls (some prev) p m b h e = ground arith

-- After a baseline, a run of at least twice the patience without a hard signal ends STALLED, whether
-- or not the builder still moves files.
pub Quiet-run_stalls :
    (p : ProgressService) (ms : List StepMeasurement) (m : StepMeasurement)
    → HasBaseline p
    → Quiet p ms
    → (observe (after p ms) m false false).1.made_progress ≡ false
    → 2 * p.k ≤ p.run + length ms + 1
    → (observe (after p ms) m false false).1.classification ≡ stalled
unfolding observe
Quiet-run_stalls p ms m b q h e =
    let (r, k, b') = run-after p ms b q in
    observe_after-stalls (last? (after p ms).history) (after p ms) m b' h (omega arith)

-- a measurement with the flags of the loop and of the budget
abbrev pub Step : Type 0
Step = StepMeasurement × Bool × Bool

abbrev pub observe_step : ProgressService → Step → ProgressService × ProgressEvent
observe_step p (m, loop_flag, resource_flag) = observe p m loop_flag resource_flag

-- the service after so many steps, and the events of these steps
unfoldable pub after_steps : ProgressService → List Step → ProgressService
after_steps p [] = p
after_steps p (x ∷ xs) = after_steps (observe_step p x).0 xs

unfoldable pub events : ProgressService → List Step → List ProgressEvent
events p [] = []
events p (x ∷ xs) = (observe_step p x).1 ∷ events (observe_step p x).0 xs

-- The events end with so many that made no hard progress.
abbrev pub EndsQuiet : List ProgressEvent → ℕ → Type 0
EndsQuiet es n =
    (before : List ProgressEvent) × (recent : List ProgressEvent) × (es ≡ before ++ recent)
    × All (λ (e : ProgressEvent). e.made_progress ≡ false) recent
    × (length recent ≡ n)

All-snoc :
    (es : List ProgressEvent) (e : ProgressEvent)
    → All (λ (x : ProgressEvent). x.made_progress ≡ false) es
    → e.made_progress ≡ false
    → All (λ (x : ProgressEvent). x.made_progress ≡ false) (es ++ e ∷ [])
All-snoc [] e h k = (k, tt)
All-snoc (x ∷ es) e (h, hs) k = (h, All-snoc es e hs k)

quiet-snoc :
    (es : List ProgressEvent) (n : ℕ) (e : ProgressEvent)
    → EndsQuiet es n
    → e.made_progress ≡ false
    → EndsQuiet (es ++ e ∷ []) (n + 1)
quiet-snoc es n e (before, recent, same, quiet, count) h = (
  before,
  recent ++ e ∷ [],
  ap (λ (t : List ProgressEvent). t ++ e ∷ []) same ∙ append_assoc before recent (e ∷ []),
  All-snoc recent e quiet h,
  omega (arith, count, length-append recent (e ∷ [])),
)

loud-snoc : (es : List ProgressEvent) → EndsQuiet es 0
loud-snoc es = (es, [], sym (append-nil es), tt, refl)

-- The run of the service is that of the events since the last hard progress.
observe_after-run :
    (o : Option StepMeasurement) (p : ProgressService) (m : StepMeasurement)
    (loop_flag resource_flag : Bool) (es : List ProgressEvent)
    → is_some o ≡ true
    → EndsQuiet es p.run
    → let (p', e) = observe_after o p m loop_flag resource_flag in EndsQuiet (es ++ e ∷ []) p'.run
unfolding observe_after
observe_after-run none p m l r es b h = cc
observe_after-run (some prev) p m l r es b h =
    elim (Bool-cases (is_cons (hard_progress (some prev) m p.touched))) [
      | inl made ↦ rw made (loud-snoc _)
      | inr quiet ↦ rw quiet (quiet-snoc es p.run _ h refl)
    ]

observe_after-keeps :
    (o : Option StepMeasurement) (p : ProgressService) (m : StepMeasurement)
    (loop_flag resource_flag : Bool)
    → let p' = (observe_after o p m loop_flag resource_flag).0 in
      (p'.k ≡ p.k) × (p'.history ≡ p.history ++ m ∷ [])
unfolding observe_after
observe_after-keeps none p m l r = (refl, refl)
observe_after-keeps (some prev) p m l r = (refl, refl)

observe_after-patience :
    (o : Option StepMeasurement) (p : ProgressService) (m : StepMeasurement)
    (loop_flag resource_flag : Bool)
    → let (p', e) = observe_after o p m loop_flag resource_flag in
      e.classification ≡ stalled → p.k ≤ p'.run
unfolding observe_after classify
observe_after-patience none p m l r h = ground arith
observe_after-patience (some prev) p m l r h = ground arith

observe_step-keeps :
    (p : ProgressService) (x : Step)
    → ((observe_step p x).0.k ≡ p.k) × HasBaseline (observe_step p x).0
unfolding observe
observe_step-keeps p (m, l, r) =
    let (k, hist) = observe_after-keeps (last? p.history) p m l r in
    (k, rw hist (rw last?-snoc refl))

-- the events so far, and those of the steps that follow
events-run :
    (p : ProgressService) (xs : List Step) (es : List ProgressEvent)
    → HasBaseline p
    → EndsQuiet es p.run
    → EndsQuiet (es ++ events p xs) (after_steps p xs).run
      × HasBaseline (after_steps p xs)
      × ((after_steps p xs).k ≡ p.k)
unfolding events after_steps observe
events-run p [] es b q = (subst (λ t. EndsQuiet t p.run) (sym (append-nil es)) q, b, refl)
events-run p ((m, l, r) ∷ xs) es b q =
    let (p', e) = observe_after (last? p.history) p m l r in
    let (k, b') = observe_step-keeps p (m, l, r) in
    let (q'', b'', k') =
      events-run p' xs (es ++ e ∷ []) b' (observe_after-run (last? p.history) p m l r es b q) in
    (
      subst (λ t. EndsQuiet t (after_steps p' xs).run) (append_assoc es (e ∷ []) (events p' xs))
          q'',
      b'',
      k' ∙ k,
    )

events-snoc :
    (p : ProgressService) (xs : List Step) (x : Step)
    → events p (xs ++ x ∷ []) ≡ events p xs ++ (observe_step (after_steps p xs) x).1 ∷ []
unfolding events after_steps
events-snoc p [] x = refl
events-snoc p (y ∷ xs) x =
    ap (λ (t : List ProgressEvent). (observe_step p y).1 ∷ t)
      (events-snoc (observe_step p y).0 xs x)

-- A step of a task is classified STALLED only if the events since the baseline end with at least as many
-- as the patience that made no hard progress, this one included; whatever flags the steps carried.
pub stalled-EndsQuiet :
    (k : ℕ) (baseline : Step) (steps : List Step) (x : Step)
    → let start = (observe_step (new_service k) baseline).0 in
      (observe_step (after_steps start steps) x).1.classification ≡ stalled
      → (n : ℕ) × (k ≤ n) × EndsQuiet (events start (steps ++ x ∷ [])) n
unfolding observe
stalled-EndsQuiet k (m, l, r) steps (m', l', r') h =
    let start = (observe_step (new_service k) (m, l, r)).0 in
    let p = after_steps start steps in
    let o = last? p.history in
    let (kept, b) = observe_step-keeps (new_service k) (m, l, r) in
    let (q, b', same) = events-run start steps [] b (loud-snoc []) in
    let patience = observe_after-patience o p m' l' r' h in
    (
      (observe_after o p m' l' r').0.run,
      omega (arith, same, kept, patience),
      subst (λ t. EndsQuiet t (observe_after o p m' l' r').0.run)
          (sym (events-snoc start steps (m', l', r')))
          (observe_after-run o p m' l' r' (events start steps) b' q),
    )
