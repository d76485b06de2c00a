-- ===== src/Capability.antt =====
-- nexus/app/services/capability/registry.py and issue.py: tokens, the operations that they grant, the
-- repair of unknown tokens, and the issue of a grant.
pub mod Laws
use mathlib.Core.Option
use mathlib.Core.List.{reverse}
use ai_system_canonical.Prelude.{
  ℕ, String, Bool, true, false, Option, none, some, List, [], ◌∷◌, ◌||◌, any, is_some, map, str_eq,
  ◌==◌, if◌then◌else◌,
}
use ai_system_canonical.Prelude.Text.{codes, lower, codes_eq, mem_str}
use ai_system_canonical.Contracts.{PlanStep, CapabilityGrant}

-- `SIDE_EFFECTING_OPS`
abbrev pub side_effecting_ops : List String
side_effecting_ops =
    "file.write" ∷ "file.create" ∷ "file.delete" ∷ "shell.run" ∷ "net.fetch" ∷ "secret.use"
    ∷ "vcs.branch" ∷ "vcs.commit" ∷ []

unfoldable pub is_side_effecting : String → Bool
unfolding mem_str
is_side_effecting op = mem_str op side_effecting_ops

pub record CapabilitySpec : Type 0 where
  pub token : String
  pub operations : List String
  pub needs_network : Bool
  pub needs_secret : Bool

-- `_REGISTRY`; the operations of a token in the order that `sorted` gives them
abbrev pub registry : List CapabilitySpec
registry =
    spec "fs.read" ("dir.list" ∷ "file.read" ∷ []) false false
    ∷ spec "fs.write" ("dir.list" ∷ "file.create" ∷ "file.read" ∷ "file.write" ∷ []) false false
    ∷ spec "fs.delete" ("dir.list" ∷ "file.delete" ∷ "file.read" ∷ []) false false
    ∷ spec "shell.run" ("shell.run" ∷ []) false false
    ∷ spec "net.fetch" ("net.fetch" ∷ []) true false
    ∷ spec "secret.use" ("secret.use" ∷ []) false true
    ∷ spec "vcs.read" ("vcs.read" ∷ []) false false
    ∷ spec "vcs.write" ("vcs.branch" ∷ "vcs.commit" ∷ "vcs.read" ∷ []) false false
    ∷ []
  where
    spec : String → List String → Bool → Bool → CapabilitySpec
    spec t ops net secret = record {
      token = t;
      operations = ops;
      needs_network = net;
      needs_secret = secret;
    }

find_spec : String → List CapabilitySpec → Option CapabilitySpec
find_spec t [] = none
find_spec t (s ∷ rest) = if str_eq s.token t then some s else find_spec t rest

unfoldable pub spec_for : String → Option CapabilitySpec
unfolding find_spec
spec_for t = find_spec t registry

-- `_PRIMARY_OP.get(token, token)`
unfoldable pub primary_operation : String → String
primary_operation t =
    if str_eq t "fs.read"
    then "file.read"
    else if str_eq t "fs.write"
    then "file.write"
    else if str_eq t "fs.delete"
    then "file.delete"
    else if str_eq t "vcs.write"
    then "vcs.commit"
    else t

-- `_NORMALIZE_HINTS`
abbrev pub normalize_hints : List (List String × String)
normalize_hints =
    ("diff" ∷ "status" ∷ "log" ∷ "blame" ∷ "git" ∷ "vcs" ∷ "history" ∷ [], "vcs.read")
    ∷ ("branch" ∷ "commit" ∷ "checkout" ∷ [], "vcs.write")
    ∷ ("delete" ∷ "remove" ∷ "rm" ∷ "unlink" ∷ [], "fs.delete")
    ∷ ("write" ∷ "edit" ∷ "create" ∷ "modify" ∷ "patch" ∷ "apply" ∷ "save" ∷ [], "fs.write")
    ∷ (
      "shell" ∷ "run" ∷ "exec" ∷ "cmd" ∷ "command" ∷ "bash" ∷ "pytest" ∷ "test" ∷ "python" ∷ [],
      "shell.run",
    )
    ∷ (
      "net" ∷ "http" ∷ "https" ∷ "fetch" ∷ "url" ∷ "web" ∷ "download" ∷ "request" ∷ [],
      "net.fetch",
    )
    ∷ ("secret" ∷ "token" ∷ "credential" ∷ "key" ∷ [], "secret.use")
    ∷ ("read" ∷ "list" ∷ "inspect" ∷ "view" ∷ "cat" ∷ "open" ∷ "scan" ∷ "ls" ∷ [], "fs.read")
    ∷ []

-- token.lower().replace("-", ".").replace("_", ".")
dotted : ℕ → ℕ
unfolding lower
dotted c = let l = lower c in if l == b'-' || l == b'_' then b'.' else l

-- low.split("."), the piece at hand reversed
split_dots : List ℕ → List ℕ → List (List ℕ)
split_dots piece [] = reverse piece ∷ []
split_dots piece (c ∷ cs) =
    let here = split_dots [] cs in
    let on = split_dots (c ∷ piece) cs in if c == b'.' then reverse piece ∷ here else on

-- set(low.split(".")) | {low}
unfoldable pub token_parts : String → List (List ℕ)
unfolding split_dots dotted
token_parts t = let low = map dotted (codes t) in low ∷ split_dots [] low

unfoldable pub first_hint : List (List ℕ) → List (List String × String) → String
unfolding codes_eq
first_hint parts [] = "fs.read"
first_hint parts ((keywords, target) ∷ rest) =
    if any (λ p. any (λ k. codes_eq p (codes k)) keywords) parts
    then target
    else first_hint parts rest

unfoldable pub normalize_token : String → String
normalize_token t = if is_some (spec_for t) then t else first_hint (token_parts t) normalize_hints

-- DEFAULT_TTL_S, in ticks of a second
abbrev pub default_ttl : ℕ
default_ttl = 1800

grant_of : PlanStep → String → List String → ℕ → CapabilitySpec → CapabilityGrant
grant_of step root allowlist now spec = record {
  step_id = step.id;
  token = spec.token;
  scope_path = root;
  operations = spec.operations;
  network_allowlist = allowlist;
  issued_at = now;
  ttl = default_ttl;
}

-- `none`: it raises CapabilityError
unfoldable pub issue_grant : PlanStep → String → List String → ℕ → Option CapabilityGrant
unfolding grant_of
issue_grant step root allowlist now =
    Option.map (grant_of step root allowlist now) (spec_for step.required_capability)
