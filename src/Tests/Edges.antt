-- ===== src/Tests/Edges.antt =====
-- The theorems on tools, fetches and secrets at concrete inputs.
use ai_system_canonical.Prelude.{
  ◌≡◌, ◌≤◌, refl, ◌⊎◌, ℕ, ◌+◌, String, Bool, true, false, Option, none, some, List, [], ◌∷◌, ◌++◌,
  All, str_eq, if◌then◌else◌, ◌↔◌,
}
use ai_system_canonical.Prelude.Act.{Outcome, returns, throws}
use ai_system_canonical.Contracts.{workspace}
use ai_system_canonical.Progress.Loop.{new_detector}
use ai_system_canonical.Tools.{
  ToolAdapter, ToolWorld, ToolResult, DispatchContext, failed, unknown_op, dispatch,
}
use ai_system_canonical.Tools.Loop.{
  LoopSeams, ToolLoopResult, finished, summarised, done_turn, run_tools,
}
use ai_system_canonical.Tools.Authorised.{IsGuarded, dispatch-IsGuarded}
use ai_system_canonical.Tools.Bounds.{IsBounded, run_tools-IsBounded}
use ai_system_canonical.Boundary.Egress.{EgressFault, EgressState, allows}
use ai_system_canonical.Boundary.Listed.{IsAllowed}
use ai_system_canonical.Boundary.Guarded.{allows-IsAllowed}
use ai_system_canonical.Boundary.Secrets.{Environment, values, scrub_env}
use ai_system_canonical.Boundary.Scrubbed.{IsMarked, IsSecret, Has, scrub_env-Has}
use ai_system_canonical.Tests.World.{env, grant}

abbrev reader : ToolAdapter ℕ
reader = record {
  name = "fs";
  ops =
      record {
        op = "fs.read";
        capability = "fs.read";
        output_trust = workspace;
        side_effecting = false;
      }
      ∷ [];
  invoke = λ op args ctx n. (returns (failed op unknown_op), n + 100);
}

abbrev ids : ToolWorld ℕ
ids = record { policy_env = λ n. env; new_id = λ n. ("x", n + 1) }

abbrev context : DispatchContext
context = record { task_id = "t"; grant = some grant; workspace = "ws"; trust = workspace }

dispatch-IsGuarded_example :
    IsGuarded ids
      (reader ∷ [])
      "fs.read"
      []
      context
      0
      (dispatch ids (reader ∷ []) "fs.read" [] context 0).1
dispatch-IsGuarded_example = dispatch-IsGuarded ids (reader ∷ []) "fs.read" [] context 0

-- a model that is done at once
abbrev seams : LoopSeams ℕ
seams = record {
  tools = ids;
  ask = λ objective turns n. (returns "{}", n);
  loads = λ cs. some (finished "done");
  action_hash = λ op args. op;
  error_signature = λ op e. op;
  similar = λ a b. false;
  excerpt = λ o. "";
}

abbrev outcome : ToolLoopResult
outcome = record {
  succeeded = true;
  done = true;
  iterations = 1;
  ending = summarised "done";
  transcript = done_turn "done" ∷ [];
  denials = 0;
  decisions = [];
  loop_risk = false;
}

ends_at_once :
    (run_tools seams 6 true "tidy up" (reader ∷ []) context 2 new_detector 0).0 ≡ returns outcome
unfolding run_tools ai_system_canonical.Prelude.Act.◌>>=◌ ai_system_canonical.Tools.Loop.on_reply
    ai_system_canonical.Tools.Parse.json_object ai_system_canonical.Prelude.Act.pure
ends_at_once = refl

run_tools-IsBounded_example : IsBounded 6 2 outcome
run_tools-IsBounded_example =
    run_tools-IsBounded seams 6 true "tidy up" (reader ∷ []) context 2 new_detector 0 outcome
      ends_at_once

abbrev quiet : EgressState ℕ
quiet = record { blocked = []; fetched = []; world = 0 }

-- a URL is its own host, and the empty one cannot be parsed
abbrev host_of : String → Option String
host_of url = if str_eq url "" then none else some url

abbrev answers : String → ℕ → Outcome EgressFault (List ℕ) × ℕ
answers url n = (returns [], n + 1)

allows-IsAllowed_example :
    (allows ("a.org" ∷ []) host_of answers "x.a.org" ≡ some true)
    ↔ IsAllowed ("a.org" ∷ []) host_of "x.a.org"
allows-IsAllowed_example = allows-IsAllowed ("a.org" ∷ []) host_of answers "x.a.org"

abbrev variables : Environment
variables = ("PATH", "/bin") ∷ ("gh_Token", "abc") ∷ ("X", "hidden") ∷ []

abbrev known_secrets : List (List ℕ × String)
known_secrets = (b'k' ∷ [], "hidden") ∷ []

scrub_env-Has_example :
    Has ("X", "hidden") (scrub_env variables (values known_secrets))
    ↔ (Has ("X", "hidden") variables × (¬ IsMarked "X") × (¬ IsSecret known_secrets "hidden"))
scrub_env-Has_example = scrub_env-Has variables known_secrets "X" "hidden"
