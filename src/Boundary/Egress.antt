-- ===== src/Boundary/Egress.antt =====
-- nexus/app/services/egress/broker.py: the only way to the network. `urlparse` and the opener are
-- parameters; `hostname url` is `urlparse(url).hostname or ""`, or `none` where this raises ValueError.
use ai_system_canonical.Prelude.{
  ℕ, String, Bool, true, false, Option, none, some, List, [], ◌∷◌, ◌++◌, ◌||◌, ◌&&◌, is_cons, any,
  map, if◌then◌else◌,
}
use ai_system_canonical.Prelude.Text.{codes, codes_eq, ends_with, strip, lower}
use ai_system_canonical.Prelude.Act as Methods
use ai_system_canonical.Prelude.Act.{
  Outcome, returns, throws, pure, throw, modify, try_else, either, ◌>>=◌, ◌>>◌,
}

pub data EgressFault : Type 0 where
  egress_denied : String → EgressFault
  egress_error : String → EgressFault
  value_error : String → EgressFault

-- The broker's two lists, and the world that the opener's calls change.
pub record EgressState (W : Type 0) : Type 0 where
  pub blocked : List String
  pub fetched : List String
  pub world : W

pub record EgressResult : Type 0 where
  pub url : String
  pub content : List ℕ

-- `_norm`
unfoldable pub normalised : List String → List (List ℕ)
unfolding strip lower
normalised [] = []
normalised (a ∷ as') =
    let rest = normalised as' in
    if is_cons (strip (codes a)) then map lower (strip (codes a)) ∷ rest else rest

-- host == a or host.endswith("." + a)
unfoldable pub is_listed : List ℕ → List (List ℕ) → Bool
unfolding codes_eq ends_with
is_listed host allowlist = any (λ a. codes_eq host a || ends_with host (b'.' ∷ a)) allowlist

module _ {W : Type 0} (allowlist : List String) (hostname : String → Option String)
    (opener : String → W → Outcome EgressFault (List ℕ) × W) where
  abbrev pub on_host : Option String → Option Bool
  on_host none = none
  on_host (some h) =
      let host = map lower (codes h) in some (is_cons host && is_listed host (normalised allowlist))

  -- `allows`: `none` is the ValueError of a URL that cannot be parsed
  unfoldable pub allows : String → Option Bool
  unfolding normalised is_listed lower
  allows url = on_host (hostname url)

  abbrev pub block : String → EgressState W → EgressState W
  block url s = record s { blocked = s.blocked ++ url ∷ [] }

  -- the opener's call
  unfoldable pub opened : String → Methods.Act EgressFault (EgressState W) (List ℕ)
  opened url s = let (o, w) = opener url s.world in (o, record s { world = w })

  abbrev pub keep : String → List ℕ → Methods.Act EgressFault (EgressState W) EgressResult
  keep url content =
      modify (λ s. record s { fetched = s.fetched ++ url ∷ [] })
      >> pure (record { url = url; content = content })

  abbrev pub give_up : String → EgressFault → Methods.Act EgressFault (EgressState W) EgressResult
  give_up url _ = modify (block url) >> throw (egress_error url)

  abbrev pub on_allows : Option Bool → String → Methods.Act EgressFault (EgressState W) EgressResult
  on_allows none url = throw (value_error url)
  on_allows (some false) url = modify (block url) >> throw (egress_denied url)
  on_allows (some true) url = try_else (opened url) (keep url) (give_up url)

  unfoldable pub fetch : String → Methods.Act EgressFault (EgressState W) EgressResult
  unfolding allows
  fetch url = on_allows (allows url) url
