-- ===== src/Tests/Stores.antt =====
-- The theorems on the artifact store at concrete inputs.
use ai_system_canonical.Prelude.{
  ◌≡◌, refl, eq_iff, ℕ, String, Option, none, some, List, [], ◌∷◌, true, false, length,
}
use ai_system_canonical.Prelude.Act.{returns}
use ai_system_canonical.Artifacts.{
  ArtifactStore, Version, Upload, Blob, find_version, content, put, shortened,
}
use ai_system_canonical.Artifacts.Valid.{IsValid}
use ai_system_canonical.Artifacts.Content.{put-content}
use ai_system_canonical.Artifacts.Kept.{puts, archives, perform_all, perform_all-content}
use ai_system_canonical.Artifacts.Chain.{Ends, chain, chain-Ends}

-- a hash that tells an empty content from others
abbrev hash : List ℕ → String
hash [] = "0"
hash (_ ∷ _) = "1"

abbrev first : Version
first = record {
  id = "a1";
  logical_key = "answer";
  kind = "document";
  sha = "1";
  task_id = "t";
  parent_id = none;
  trust = "workspace";
  truncated = false;
  archived = false;
  ts = 1;
}

abbrev store : ArtifactStore
store = record {
  blobs = record { sha = "1"; bytes = 2; content = 104 ∷ 105 ∷ [] } ∷ [];
  versions = first ∷ [];
}

store-IsValid : IsValid hash store
unfolding ai_system_canonical.Artifacts.has_id ai_system_canonical.Artifacts.find_blob
store-IsValid = record { unique = (refl, tt); named = (refl, tt); stored = (refl, tt) }

abbrev upload : Upload
upload = record {
  kind = "document";
  raw = [];
  task_id = "t";
  logical_key = "answer";
  parent_id = none;
  trust = "workspace";
  new_id = "a2";
  now = 2;
}

abbrev second : Version
second = record first { id = "a2"; sha = "0"; parent_id = some "a1"; ts = 2 }

upload-returns : (put hash upload store).0 ≡ returns second
unfolding put ai_system_canonical.Prelude.Act.◌>>=◌ ai_system_canonical.Prelude.Act.modify
    ai_system_canonical.Prelude.Act.gets ai_system_canonical.Prelude.Act.on_option
    ai_system_canonical.Artifacts.find_same shortened ai_system_canonical.Artifacts.has_id
    ai_system_canonical.Prelude.Act.pure ai_system_canonical.Artifacts.parent_of
    ai_system_canonical.Artifacts.latest_for
upload-returns = refl

one_is_not_zero : ◌≡◌ {A = String} "1" "0" → ⊥
one_is_not_zero e = let t : false ≡ true = (eq_iff "1" "0").1 e in cc

differs : hash (104 ∷ 105 ∷ []) ≡ hash (shortened upload) → (104 ∷ 105 ∷ []) ≡ shortened upload
unfolding shortened
differs e = absurd (one_is_not_zero e)

put-content_example : content "a2" (put hash upload store).1 ≡ some (shortened upload)
put-content_example =
    put-content hash upload store second store-IsValid (differs, tt) upload-returns

reads_first : content "a1" store ≡ some (104 ∷ 105 ∷ [])
unfolding content find_version ai_system_canonical.Artifacts.find_blob
reads_first = refl

perform_all-content_example :
    IsValid hash (perform_all hash (puts upload ∷ archives 9 ∷ []) store)
    × (content "a1" (perform_all hash (puts upload ∷ archives 9 ∷ []) store)
        ≡ some (104 ∷ 105 ∷ []))
perform_all-content_example =
    perform_all-content hash (puts upload ∷ archives 9 ∷ []) store "a1" (104 ∷ 105 ∷ [])
      store-IsValid reads_first

-- two versions that name one another as parents
abbrev circle : List Version
circle = record first { parent_id = some "a2" } ∷ second ∷ []

chain-Ends_example : Ends circle (find_version "a2" circle) (length circle) (chain "a2" circle)
chain-Ends_example = chain-Ends "a2" circle
