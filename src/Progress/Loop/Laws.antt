-- ===== src/Progress/Loop/Laws.antt =====
-- The loop detector sees every plain repetition, and forgives after progress.
use mathlib.Core.List.{append-nil, append_assoc}
use text.Mathlib.TextPositions.{eq_refl}
use ai_system_canonical.Prelude.{
  ℕ, zero, suc, ◌+◌, ◌-◌, ◌≤◌, String, Bool, true, false, ◌≡◌, refl, sym, ap, Option, none, some,
  List, [], ◌∷◌, ◌++◌, arith, length, length-append, drop, last?, ◌==◌, inl, inr, ◌∙◌, Bool-cases,
}
use ai_system_canonical.Progress.Loop.{
  LoopDetector, record_step, recorded, report, repeats, last_n, count_str, next_run, next_errors,
}

drop-append {ℓ} :
    {A : Type ℓ} (k : ℕ) (xs ys : List A) → k ≤ length xs → drop k (xs ++ ys) ≡ drop k xs ++ ys
drop-append zero xs ys h = refl
drop-append (suc k) [] ys h = elim h [ ]
drop-append (suc k) (x ∷ xs) ys h = drop-append k xs ys (omega arith)

-- The last `n` of a list that ends in at most `n` items are some of the others, and then those.
last_n-append {ℓ} :
    {A : Type ℓ} (n : ℕ) (xs ys : List A)
    → length ys ≤ n
    → (front : List A) × (last_n n (xs ++ ys) ≡ front ++ ys)
unfolding last_n
last_n-append n xs ys h = elim (Bool-cases (n == 0)) [
  | inl all ↦ (xs, rw all)
  | inr some_only ↦ (
    drop (length (xs ++ ys) - n) xs,
    rw some_only (drop-append (length (xs ++ ys) - n) xs ys (omega (arith, length-append xs ys))),
  )
]

copies : String → List (Option String × String) → List String
copies h [] = []
copies h (_ ∷ steps) = h ∷ copies h steps

count_str-append :
    (h : String) (xs ys : List String) → count_str h (xs ++ ys) ≡ count_str h xs + count_str h ys
unfolding count_str
count_str-append h [] ys = omega arith
count_str-append h (x ∷ xs) ys = ground (arith, count_str-append h xs ys)

count_str-copies :
    (h : String) (steps : List (Option String × String))
    → count_str h (copies h steps) ≡ length steps
unfolding count_str copies
count_str-copies h [] = refl
count_str-copies h (_ ∷ steps) = rw (eq_refl h) (ap suc (count_str-copies h steps))

last?-append {ℓ} :
    {A : Type ℓ} (xs : List A) (y : A) (ys : List A) → last? (xs ++ y ∷ ys) ≡ last? (y ∷ ys)
last?-append [] y ys = refl
last?-append (x ∷ []) y ys = refl
last?-append (x ∷ x' ∷ xs) y ys = last?-append (x' ∷ xs) y ys

last?-copies :
    (h : String) (e : Option String × String) (steps : List (Option String × String))
    → last? (copies h (e ∷ steps)) ≡ some h
unfolding copies
last?-copies h e [] = refl
last?-copies h e (e' ∷ steps) = last?-copies h e' steps

module _ (similar : String → String → Bool) where
  -- the same action, step after step, with what each step's error and diff were, and no progress
  unfoldable pub repeated : LoopDetector → String → List (Option String × String) → LoopDetector
  repeated d h [] = d
  repeated d h ((e, diff) ∷ steps) = repeated (recorded similar d h e diff false) h steps

  repeated_fields :
      (d : LoopDetector) (h : String) (steps : List (Option String × String))
      → ((repeated d h steps).hashes ≡ d.hashes ++ copies h steps)
        × ((repeated d h steps).repeat_window ≡ d.repeat_window)
        × ((repeated d h steps).repeat_threshold ≡ d.repeat_threshold)
  unfolding repeated copies recorded
  repeated_fields d h [] = (sym (append-nil d.hashes), refl, refl)
  repeated_fields d h ((e, diff) ∷ steps) =
      let (hs, w, t) = repeated_fields (recorded similar d h e diff false) h steps in
      (hs ∙ append_assoc d.hashes (h ∷ []) (copies h steps), w, t)

repeats-last :
    (threshold : ℕ) (xs : List String) (h : String)
    → last? xs ≡ some h
    → threshold ≤ count_str h xs
    → repeats threshold xs ≡ true
unfolding repeats
repeats-last threshold xs h l le = ground arith

repeats-copies :
    (threshold : ℕ) (front : List String) (h : String) (e : Option String × String)
    (steps : List (Option String × String))
    → threshold ≤ length (e ∷ steps)
    → repeats threshold (front ++ copies h (e ∷ steps)) ≡ true
repeats-copies threshold front h e steps le =
    repeats-last threshold (front ++ copies h (e ∷ steps)) h
      (unfold copies in last?-append front h (copies h steps) ∙ last?-copies h e steps)
      (omega
        (arith, count_str-append h front (copies h (e ∷ steps)), count_str-copies h (e ∷ steps)))

length-copies :
    (h : String) (steps : List (Option String × String)) → length (copies h steps) ≡ length steps
unfolding copies
length-copies h [] = refl
length-copies h (_ ∷ steps) = ap suc (length-copies h steps)

report-risk :
    (d : LoopDetector)
    → repeats d.repeat_threshold (last_n d.repeat_window d.hashes) ≡ true
    → (report d).risk ≡ true
unfolding report
report-risk d h = ground arith

-- The same action as often as the threshold says, inside the window and without progress, is reported
-- as a loop, whatever was recorded before and whatever errors and diffs the steps had.
pub repeated_action_flagged :
    (similar : String → String → Bool) (d : LoopDetector) (h : String) (e : Option String × String)
    (steps : List (Option String × String))
    → d.repeat_threshold ≤ length (e ∷ steps)
    → length (e ∷ steps) ≤ d.repeat_window
    → (report (repeated similar d h (e ∷ steps))).risk ≡ true
repeated_action_flagged similar d h e steps t w =
    let (hs, win, thr) = repeated_fields similar d h (e ∷ steps) in
    let (front, split) =
      last_n-append d.repeat_window d.hashes (copies h (e ∷ steps))
        (omega (arith, length-copies h (e ∷ steps))) in
    report-risk (repeated similar d h (e ∷ steps))
      (rw (hs, win, thr, split) (repeats-copies d.repeat_threshold front h e steps t))

last_n-one {ℓ} : {A : Type ℓ} (n : ℕ) (x : A) → last_n n (x ∷ []) ≡ x ∷ []
unfolding last_n
last_n-one zero x = refl
last_n-one (suc n) x =
    let one_less : 1 - suc n ≡ 0 = omega arith in
    let positive : (suc n == 0) ≡ false = ground arith in rw (positive, one_less)

errors-recorded :
    (similar : String → String → Bool) (errors : List String) (e : Option String)
    → length (next_errors similar errors e) ≤ length errors + 1
unfolding next_errors
errors-recorded similar errors none = omega arith
errors-recorded similar errors (some e) = ground (arith, length-append errors (e ∷ []))

run-recorded :
    (similar : String → String → Bool) (d : LoopDetector) (diff : String)
    → next_run similar d diff ≤ d.thrash_run + 1
unfolding next_run
run-recorded similar d diff = ground arith

quiet_report :
    (d : LoopDetector) (h : String)
    → d.hashes ≡ h ∷ []
    → length d.errors ≤ 1
    → d.thrash_run ≤ 1
    → 2 ≤ d.repeat_threshold
    → 2 ≤ d.error_threshold
    → 3 ≤ d.thrash_threshold
    → (report d).risk ≡ false
unfolding report repeats count_str
quiet_report d h hs es run r e t = rw (hs, last_n-one) (ground (arith, eq_refl h))

-- A step without progress right after one with progress is never reported as a loop.
pub progress_forgives :
    (similar : String → String → Bool) (d : LoopDetector) (h h' : String) (e e' : Option String)
    (diff diff' : String)
    → 2 ≤ d.repeat_threshold
    → 2 ≤ d.error_threshold
    → 3 ≤ d.thrash_threshold
    → (record_step similar (record_step similar d h e diff true).0 h' e' diff' false).1.risk ≡ false
unfolding record_step
progress_forgives similar d h h' e e' diff diff' r er t =
    quiet_report (recorded similar (recorded similar d h e diff true) h' e' diff' false) h' refl
      (unfold recorded in errors-recorded similar [] e')
      (unfold recorded in run-recorded similar (recorded similar d h e diff true) diff') r er t
