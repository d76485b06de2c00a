-- ===== src/Tools/Bounds.antt =====
-- What the bounded loop returns.
use ai_system_canonical.Prelude.{
  ◌≡◌, ◌≢◌, ◌≤◌, ◌+◌, ◌-◌, refl, sym, ap, ◌∙◌, ℕ, zero, suc, String, Bool, true, false, Option,
  none, some, List, [], ◌∷◌, ◌++◌, All, length, length-append, last?, last-append, arith, inl, inr,
  Bool-cases, leb,
}
use ai_system_canonical.Prelude.Act.{Outcome, pure}
use ai_system_canonical.Prelude.Gives.{Gives, Gives-bind, Gives-pure, Gives-if}
use ai_system_canonical.Contracts.{
  PolicyDecision, Decision, allow, deny, require_approval, require_verification, escalate,
}
use ai_system_canonical.Progress.Loop.{LoopDetector, LoopReport}
use ai_system_canonical.Tools.{Act, Args, ToolResult, ToolAdapter, DispatchContext}
use ai_system_canonical.Tools.Loop.{
  Progress, ToolLoopResult, LoopSeams, Turn, Reply, finished, calling, done_turn, error_turn,
  call_turn, result_turn, risk_turn, Ending, counted, count_denial, after_call, noted, result_of,
  wasted, judged, on_reply, rounds, run_tools,
}

-- The count of denials is that of the decisions, none of which allows.
pub record IsCounted (denials : ℕ) (decisions : List PolicyDecision) : Type 0 where
  pub counted : denials ≡ length decisions
  pub denying : All (λ (d : PolicyDecision). d.decision ≢ allow) decisions

-- a turn that a reply of the model gave: each reply gives one
abbrev pub of_reply : Turn → ℕ
of_reply error_turn = 1
of_reply (done_turn _) = 1
of_reply (call_turn _ _) = 1
of_reply _ = 0

abbrev pub of_error : Turn → ℕ
of_error error_turn = 1
of_error _ = 0

abbrev pub is_done : Option Turn → Bool
is_done (some (done_turn _)) = true
is_done _ = false

unfoldable pub total : (Turn → ℕ) → List Turn → ℕ
total f [] = 0
total f (t ∷ ts) = f t + total f ts

-- The replies are as many as the iterations, which are within the cap; the useless ones are within the
-- budget, of which one is always had; the denials are counted; and the result is successful, and done,
-- exactly if the last turn says so.
pub record IsBounded (cap budget : ℕ) (r : ToolLoopResult) : Type 0 where
  pub replies : total of_reply r.transcript ≡ r.iterations
  pub within : total of_reply r.transcript ≤ cap
  pub errors : total of_error r.transcript ≤ suc (budget - 1)
  pub tally : IsCounted r.denials r.decisions
  pub succeeds : r.succeeded ≡ is_done (last? r.transcript)
  pub finishes : r.done ≡ is_done (last? r.transcript)

-- The variables before a round, of which so many are left.
record IsOpen (cap budget left : ℕ) (p : Progress) : Type 0 where
  round : total of_reply p.transcript + left ≡ cap
  spared : total of_error p.transcript + p.parse_left ≡ budget
  spare : total of_error p.transcript + 1 ≤ suc (budget - 1)
  tally : IsCounted p.denials p.decisions
  running : is_done (last? p.transcript) ≡ false

total-append : (f : Turn → ℕ) (xs ys : List Turn) → total f (xs ++ ys) ≡ total f xs + total f ys
unfolding total
total-append f [] ys = omega arith
total-append f (x ∷ xs) ys = omega (arith, total-append f xs ys)

All-append :
    (P : PolicyDecision → Type 0) (xs ys : List PolicyDecision)
    → All P xs
    → All P ys
    → All P (xs ++ ys)
All-append P [] ys h k = k
All-append P (x ∷ xs) ys h k = (h.0, All-append P xs ys h.1 k)

-- one decision more, which does not allow
one_more :
    (p : Progress) (d : PolicyDecision)
    → d.decision ≢ allow
    → IsCounted p.denials p.decisions
    → IsCounted (p.denials + 1) (p.decisions ++ d ∷ [])
one_more p d n c = record {
  counted = omega (arith, c.counted, length-append p.decisions (d ∷ []));
  denying = All-append _ p.decisions (d ∷ []) c.denying (n, tt);
}

counted-IsCounted :
    (p : Progress) (d : PolicyDecision) (k : Decision)
    → d.decision ≡ k
    → IsCounted p.denials p.decisions
    → IsCounted (counted p d k).denials (counted p d k).decisions
counted-IsCounted p d allow e c = c
counted-IsCounted p d deny e c = one_more p d (λ h. let n : deny ≡ allow = sym e ∙ h in cc) c
counted-IsCounted p d require_approval e c =
    one_more p d (λ h. let n : require_approval ≡ allow = sym e ∙ h in cc) c
counted-IsCounted p d require_verification e c =
    one_more p d (λ h. let n : require_verification ≡ allow = sym e ∙ h in cc) c
counted-IsCounted p d escalate e c =
    one_more p d (λ h. let n : escalate ≡ allow = sym e ∙ h in cc) c

count_denial-IsCounted :
    (o : Option PolicyDecision) (p : Progress)
    → IsCounted p.denials p.decisions
    → IsCounted (count_denial o p).denials (count_denial o p).decisions
unfolding count_denial
count_denial-IsCounted none p c = c
count_denial-IsCounted (some d) p c = counted-IsCounted p d d.decision refl c

parse_left-count_denial :
    (o : Option PolicyDecision) (p : Progress) → (count_denial o p).parse_left ≡ p.parse_left
unfolding count_denial
parse_left-count_denial none p = refl
parse_left-count_denial (some d) p = kept d.decision
  where
    kept : (k : Decision) → (counted p d k).parse_left ≡ p.parse_left
    kept allow = refl
    kept deny = refl
    kept require_approval = refl
    kept require_verification = refl
    kept escalate = refl

last_two : (ts : List Turn) (t u : Turn) → last? (ts ++ t ∷ u ∷ []) ≡ some u
last_two [] t u = refl
last_two (x ∷ []) t u = refl
last_two (x ∷ y ∷ ts) t u = last_two (y ∷ ts) t u

module _ {W : Type 0} (sm : LoopSeams W) (cap budget : ℕ) (detect : Bool) where
  abbrev Tidy : Act W ToolLoopResult → Type 0
  Tidy = Gives (IsBounded cap budget)

  -- the rounds that are left keep the bound
  abbrev Follows : ℕ → (Progress → Act W ToolLoopResult) → Type 0
  Follows left next = (p : Progress) → IsOpen cap budget left p → Tidy (next p)

  wasted-Tidy :
      (left : ℕ) (e : Ending) (p : Progress) (next : Progress → Act W ToolLoopResult)
      → IsOpen cap budget (suc left) p
      → Follows left next
      → Tidy (wasted sm cap detect (cap - left) e p next)
  unfolding total
  wasted-Tidy left e p next o k =
      let r = total-append of_reply p.transcript (error_turn ∷ []) in
      let x = total-append of_error p.transcript (error_turn ∷ []) in
      let l = ap is_done (last-append p.transcript error_turn) in
      elim (Bool-cases (leb p.parse_left 1)) [
        | inl final ↦ rw final (
            Gives-pure _ (record {
              replies = omega (arith, o.round, r);
              within = omega (arith, o.round, r);
              errors = omega (arith, o.spare, x);
              tally = o.tally;
              succeeds = sym l;
              finishes = sym l;
            }))
        | inr more ↦ rw more (
            k _ (record {
              round = omega (arith, o.round, r);
              spared = ground (arith, o.spared, x);
              spare = ground (arith, o.spared, x);
              tally = o.tally;
              running = l;
            }))
      ]

  finished-Tidy :
      (left : ℕ) (summary : String) (e : Ending) (p : Progress)
      → IsOpen cap budget (suc left) p
      → Tidy (pure (result_of true (cap - left) e (noted (done_turn summary) p)))
  unfolding total
  finished-Tidy left summary e p o =
      let r = total-append of_reply p.transcript (done_turn summary ∷ []) in
      let x = total-append of_error p.transcript (done_turn summary ∷ []) in
      let l = ap is_done (last-append p.transcript (done_turn summary)) in
      Gives-pure _ (record {
        replies = omega (arith, o.round, r);
        within = omega (arith, o.round, r);
        errors = omega (arith, o.spare, x);
        tally = o.tally;
        succeeds = sym l;
        finishes = sym l;
      })

  judged-Tidy :
      (left : ℕ) (out : Progress × LoopReport) (next : Progress → Act W ToolLoopResult)
      → IsOpen cap budget left out.0
      → Follows left next
      → Tidy (judged sm cap detect (cap - left) out next)
  unfolding total
  judged-Tidy left (p, report) next o k =
      let r = total-append of_reply p.transcript (risk_turn report.flags ∷ []) in
      let x = total-append of_error p.transcript (risk_turn report.flags ∷ []) in
      let l = ap is_done (last-append p.transcript (risk_turn report.flags)) in
      Gives-if _ _ _
        (Gives-pure _ (record {
          replies = omega (arith, o.round, r);
          within = omega (arith, o.round, r);
          errors = omega (arith, o.spare, x);
          tally = o.tally;
          succeeds = sym l;
          finishes = sym l;
        }))
        (k p o)

  called_IsOpen :
      (left : ℕ) (op : String) (args : Args) (res : ToolResult) (d : Option PolicyDecision)
      (p : Progress)
      → IsOpen cap budget (suc left) p
      → IsOpen cap budget left (after_call sm cap detect op args res d p).0
  unfolding after_call total
  called_IsOpen left op args res d p o =
      let ts = call_turn op args ∷ result_turn res ∷ [] in
      let r = total-append of_reply p.transcript ts in
      let x = total-append of_error p.transcript ts in
      let same = parse_left-count_denial d p in
      record {
        round = omega (arith, o.round, r);
        spared = omega (arith, o.spared, x, same);
        spare = omega (arith, o.spare, x);
        tally = count_denial-IsCounted d p o.tally;
        running = ap is_done (last_two p.transcript (call_turn op args) (result_turn res));
      }

  on_reply-Tidy :
      (registry : List (ToolAdapter W)) (ctx : DispatchContext) (left : ℕ) (p : Progress)
      (reply : Option Reply) (next : Progress → Act W ToolLoopResult)
      → IsOpen cap budget (suc left) p
      → Follows left next
      → Tidy (on_reply sm cap detect registry ctx (cap - left) p reply next)
  unfolding on_reply
  on_reply-Tidy registry ctx left p none next o k = wasted-Tidy left _ p next o k
  on_reply-Tidy registry ctx left p (some (finished summary)) next o k =
      finished-Tidy left summary _ p o
  on_reply-Tidy registry ctx left p (some (calling op args)) next o k =
      Gives-if _ _ _ (wasted-Tidy left _ p next o k) (
        Gives-bind _ _
          (λ out. judged-Tidy left _ next (called_IsOpen left op args out.0 out.1 p o) k))

  rounds-Tidy :
      (objective : String) (registry : List (ToolAdapter W)) (ctx : DispatchContext) (left : ℕ)
      (p : Progress)
      → IsOpen cap budget left p
      → Tidy (rounds sm cap detect objective registry ctx left p)
  unfolding rounds
  rounds-Tidy objective registry ctx zero p o = Gives-pure _ (record {
    replies = omega (arith, o.round);
    within = omega (arith, o.round);
    errors = omega (arith, o.spare);
    tally = o.tally;
    succeeds = sym o.running;
    finishes = sym o.running;
  })
  rounds-Tidy objective registry ctx (suc left) p o =
      Gives-bind _ _
        (λ reply. on_reply-Tidy registry ctx left p _ _ o (rounds-Tidy objective registry ctx left))

-- Whatever the model replies and the tools answer, a result of `ToolLoop.run` lists in its transcript as
-- many replies of the model as it counts iterations, at most `max_iters`, and no more useless ones than
-- the parse budget, of which one is always had; it counts as denials exactly the decisions that it
-- lists, none of which allows; and it is successful, and done, exactly if its last turn says so.
pub run_tools-IsBounded :
    {W : Type 0} (sm : LoopSeams W) (cap : ℕ) (detect : Bool) (objective : String)
    (registry : List (ToolAdapter W)) (ctx : DispatchContext) (parse_budget : ℕ)
    (detector : LoopDetector) (w : W) (r : ToolLoopResult)
    → (run_tools sm cap detect objective registry ctx parse_budget detector w).0 ≡ Outcome.returns r
    → IsBounded cap parse_budget r
unfolding run_tools total
run_tools-IsBounded sm cap detect objective registry ctx parse_budget detector w r h =
    (rounds-Tidy sm cap parse_budget detect objective registry ctx cap _ (record {
      round = omega arith;
      spared = omega arith;
      spare = omega arith;
      tally = record { counted = refl; denying = tt };
      running = refl;
    })).given
      w r h
