-- ===== src/Experience/Signature.antt =====
-- nexus/app/services/experience/signature.py: which recorded situations match the one at hand.
use ai_system_canonical.Prelude.{
  ℕ, String, Bool, List, [], ◌∷◌, ◌||◌, ◌&&◌, not, length, drop, is_cons, leb, if◌then◌else◌,
}
use ai_system_canonical.Prelude.Text.{codes, codes_eq, is_prefix_of, split_on, mem_codes}

-- raw.split(",") as a set, and the empty set for "-"
unfoldable pub tags_of : List ℕ → List (List ℕ)
unfolding codes_eq split_on
tags_of raw = if codes_eq raw (codes "-") then [] else split_on b',' raw

-- a later part that starts with "tags=" replaces an earlier one
unfoldable pub tags_in : List (List ℕ) → List (List ℕ) → List (List ℕ)
unfolding is_prefix_of tags_of
tags_in tags [] = tags
tags_in tags (p ∷ ps) =
    tags_in (if is_prefix_of (codes "tags=") p then tags_of (drop 5 p) else tags) ps

abbrev pub class_of : List (List ℕ) → List ℕ
class_of [] = []
class_of (c ∷ _) = c

-- `_parse`: the class, and the tags
unfoldable pub parse : String → List ℕ × List (List ℕ)
unfolding split_on tags_in
parse sig = let parts = split_on b'|' (codes sig) in (class_of parts, tags_in [] (drop 1 parts))

-- ta & tb
unfoldable pub common : List (List ℕ) → List (List ℕ) → List (List ℕ)
unfolding mem_codes
common [] tb = []
common (t ∷ ta) tb =
    if mem_codes t tb && not (mem_codes t ta) then t ∷ common ta tb else common ta tb

abbrev pub overlap : List (List ℕ) → List (List ℕ) → Bool
overlap ta tb = not (is_cons ta) || not (is_cons tb) || leb 1 (length (common ta tb))

-- `signatures_match`, at its `min_tag_overlap` of 1
unfoldable pub signatures_match : String → String → Bool
unfolding parse common codes_eq
signatures_match a b = codes_eq (parse a).0 (parse b).0 && overlap (parse a).1 (parse b).1
