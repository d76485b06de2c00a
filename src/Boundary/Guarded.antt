-- ===== src/Boundary/Guarded.antt =====
-- What the egress broker lets through, and what a sequence of fetches leaves.
use ai_system_canonical.Prelude.{
  ℕ, ◌≡◌, ◌+◌, refl, ◌↔◌, String, Bool, true, Option, none, some, List, [], ◌∷◌, map, length, All,
  arith,
}
use ai_system_canonical.Prelude.Text.{codes, lower}
use ai_system_canonical.Prelude.Act.{Outcome}
use ai_system_canonical.Boundary.Egress.{
  EgressFault, EgressState, normalised, on_host, allows, fetch,
}
use ai_system_canonical.Boundary.Listed.{
  IsAllowed, is_listed-Covers, Covers-is_listed, normalised-IsEntry, IsEntry-normalised,
  Covers-is_cons,
}

pub if_allowed : Option Bool → String → List String → List String
if_allowed (some true) url urls = url ∷ urls
if_allowed _ url urls = urls

pub one_if_none : Option Bool → ℕ
one_if_none none = 1
one_if_none (some _) = 0

module _ {W : Type 0} (allowlist : List String) (hostname : String → Option String)
    (opener : String → W → Outcome EgressFault (List ℕ) × W) where
  on_host-IsAllowed :
      (url : String) (o : Option String)
      → hostname url ≡ o
      → on_host allowlist hostname opener o ≡ some true
      → IsAllowed allowlist hostname url
  on_host-IsAllowed url none e h = absurd (ground arith)
  on_host-IsAllowed url (some x) e h =
      let (a, there, c) =
        is_listed-Covers (map lower (codes x)) (normalised allowlist) (ground arith) in
      (x, a, e, normalised-IsEntry allowlist a there, c)

  -- A URL is allowed exactly if the host that `urlparse` finds in it, in lower case, is an entry of the
  -- allowlist or ends in a dot and an entry, where the entries are those that are not blank, without the
  -- space around them and in lower case.
  pub allows-IsAllowed :
      (url : String)
      → (allows allowlist hostname opener url ≡ some true) ↔ IsAllowed allowlist hostname url
  unfolding allows
  allows-IsAllowed url = (on_host-IsAllowed url (hostname url) refl, from)
    where
      from :
          IsAllowed allowlist hostname url
          → on_host allowlist hostname opener (hostname url) ≡ some true
      from (h, a, e, entry, c) =
          rw
            (
              e,
              Covers-is_cons allowlist a (map lower (codes h)) entry c,
              Covers-is_listed (map lower (codes h)) a (normalised allowlist)
                  (IsEntry-normalised allowlist a entry) c,
            )
            refl

  -- the fetches of a task, one after the other, whether they return or raise
  unfoldable pub fetch_all : List String → EgressState W → EgressState W
  fetch_all [] s = s
  fetch_all (url ∷ urls) s = fetch_all urls (fetch allowlist hostname opener url s).1

  -- the world after calls for these URLs alone, in their order
  unfoldable pub reached : List String → W → W
  reached [] w = w
  reached (url ∷ urls) w = reached urls (opener url w).1

  -- the URLs that are allowed, and the number of those that cannot be parsed
  unfoldable pub permitted : List String → List String
  permitted [] = []
  permitted (url ∷ urls) = if_allowed (allows allowlist hostname opener url) url (permitted urls)

  unfoldable pub malformed : List String → ℕ
  malformed [] = 0
  malformed (url ∷ urls) = one_if_none (allows allowlist hostname opener url) + malformed urls

  -- What a sequence of fetches leaves of the broker.
  pub record IsFenced (urls : List String) (s s' : EgressState W) : Type 0 where
    pub reaches : s'.world ≡ reached (permitted urls) s.world
    pub only_allowed : All (IsAllowed allowlist hostname) s'.fetched
    pub accounted :
        length s'.fetched + length s'.blocked + malformed urls
        ≡ length s.fetched + length s.blocked + length urls

  start : (s : EgressState W) → All (IsAllowed allowlist hostname) s.fetched → IsFenced [] s s
  unfolding reached permitted malformed
  start s h = record { reaches = refl; only_allowed = h; accounted = omega arith }
