-- ===== src/Tools/Parse.antt =====
-- nexus/app/llm/parse.py: the first balanced object in a model's reply. `json.loads` is a parameter of
-- its callers.
use ai_system_canonical.Prelude.{
  ℕ, suc, ◌-◌, String, Bool, false, Option, none, some, List, [], ◌∷◌, map, drop, ◌==◌,
  if◌then◌else◌,
}
use ai_system_canonical.Prelude.Text.{codes, is_prefix_of, strip, drop_space, lower}

-- the backtick
abbrev tick : ℕ
tick = 0x60

abbrev fence : List ℕ
fence = tick ∷ tick ∷ tick ∷ []

-- what stands before the next fence
unfoldable pub up_to_fence : List ℕ → List ℕ
unfolding is_prefix_of
up_to_fence [] = []
up_to_fence (c ∷ cs) =
    let rest = up_to_fence cs in if is_prefix_of fence (c ∷ cs) then [] else c ∷ rest

abbrev without_tag : List ℕ → List ℕ
without_tag s =
    if is_prefix_of (codes "json") (map lower (drop_space s)) then drop 4 (drop_space s) else s

-- the text, taken out of its fence
unfoldable pub unfenced : List ℕ → List ℕ
unfolding is_prefix_of up_to_fence strip drop_space lower
unfenced s = if is_prefix_of fence s then strip (without_tag (up_to_fence (drop 3 s))) else s

-- s[s.find("{"):], and `none` where there is none
unfoldable pub from_brace : List ℕ → Option (List ℕ)
from_brace [] = none
from_brace (c ∷ cs) = let rest = from_brace cs in if c == b'{' then some (c ∷ cs) else rest

abbrev pub before : ℕ → Option (List ℕ) → Option (List ℕ)
before c none = none
before c (some out) = some (c ∷ out)

-- How the scan stands: in a text or not, and after an escape.
pub data Mode : Type 0 where
  plain quoted escaped : Mode

abbrev pub next_mode : Mode → ℕ → Mode
next_mode plain c = if c == b'"' then quoted else plain
next_mode quoted c = if c == 92 then escaped else if c == b'"' then plain else quoted
next_mode escaped c = quoted

abbrev pub next_depth : Mode → ℕ → ℕ → ℕ
next_depth plain c depth = if c == b'{' then suc depth else if c == b'}' then depth - 1 else depth
next_depth _ c depth = depth

-- the closing brace that brings the depth to 0
abbrev pub closes : Mode → ℕ → ℕ → Bool
closes plain c depth = if c == b'}' then depth == 1 else false
closes _ c depth = false

-- the loop over the characters: what it takes up to the closing brace
unfoldable pub scan : Mode → ℕ → List ℕ → Option (List ℕ)
scan mode depth [] = none
scan mode depth (c ∷ cs) =
    let rest = before c (scan (next_mode mode c) (next_depth mode c depth) cs) in
    if closes mode c depth then some (c ∷ []) else rest

-- the text that `parse_json_object` hands to `json.loads`; `none`: it raises ValueError
unfoldable pub json_object : String → Option (List ℕ)
unfolding unfenced from_brace scan strip
json_object reply = elim (from_brace (unfenced (strip (codes reply)))) [
  | none ↦ none
  | some s ↦ scan plain 0 s
]
