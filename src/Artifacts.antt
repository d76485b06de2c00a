-- ===== src/Artifacts.antt =====
-- nexus/app/services/artifacts: content-addressed blobs, and the versions that name them.
pub mod Chain
pub mod Valid
pub mod Content
pub mod Kept
use ai_system_canonical.Prelude.{
  ℕ, String, Bool, true, false, Option, none, some, List, [], ◌∷◌, ◌++◌, ◌&&◌, not, any, map, ltb,
  length, take, str_eq, last?, is_some, if◌then◌else◌,
}
use ai_system_canonical.Prelude.Text.{is_empty}
use ai_system_canonical.Prelude.Act as Methods
use ai_system_canonical.Prelude.Act.{pure, throw, modify, gets, on_option, ◌>>=◌, ◌>>◌}

-- the table's IntegrityError on a repeated id, and the attribute error on a row that is not found
pub data ArtifactError : Type 0 where
  integrity_error : String → ArtifactError
  no_artifact : ArtifactError

-- a row of `blob`
pub record Blob : Type 0 where
  pub sha : String
  pub bytes : ℕ
  pub content : List ℕ

-- a row of `version`, and `ArtifactRef` less its byte count and `meta`
pub record Version : Type 0 where
  pub id : String
  pub logical_key : String
  pub kind : String
  pub sha : String
  pub task_id : String
  pub parent_id : Option String
  pub trust : String
  pub truncated : Bool
  pub archived : Bool
  pub ts : ℕ

pub record ArtifactStore : Type 0 where
  pub blobs : List Blob
  pub versions : List Version

abbrev pub Act : Type 0 → Type 0
Act A = Methods.Act ArtifactError ArtifactStore A

-- `MAX_ARTIFACT_BYTES`
abbrev pub max_artifact_bytes : ℕ
max_artifact_bytes = 2097152

-- What `put` is called with, its content encoded, and the id and the time that it draws.
pub record Upload : Type 0 where
  pub kind : String
  pub raw : List ℕ
  pub task_id : String
  pub logical_key : String
  pub parent_id : Option String
  pub trust : String
  pub new_id : String
  pub now : ℕ

-- SELECT … FROM blob WHERE sha=?
unfoldable pub find_blob : String → List Blob → Option Blob
find_blob sha [] = none
find_blob sha (b ∷ bs) = if str_eq b.sha sha then some b else find_blob sha bs

-- INSERT OR IGNORE INTO blob
unfoldable pub keep_blob : Blob → List Blob → List Blob
keep_blob b bs = if is_some (find_blob b.sha bs) then bs else bs ++ b ∷ []

-- SELECT … FROM version WHERE id=?
unfoldable pub find_version : String → List Version → Option Version
find_version id [] = none
find_version id (v ∷ vs) = if str_eq v.id id then some v else find_version id vs

-- SELECT … WHERE logical_key=? ORDER BY seq
unfoldable pub with_key : String → List Version → List Version
with_key key [] = []
with_key key (v ∷ vs) =
    let rest = with_key key vs in if str_eq v.logical_key key then v ∷ rest else rest

-- `latest_for`
unfoldable pub latest_for : String → List Version → Option Version
unfolding with_key
latest_for key vs = last? (with_key key vs)

-- the version that a second `put` of the same content finds
unfoldable pub find_same : String → String → String → List Version → Option Version
find_same key sha task [] = none
find_same key sha task (v ∷ vs) =
    if str_eq v.logical_key key && str_eq v.sha sha && str_eq v.task_id task
    then some v
    else find_same key sha task vs

unfoldable pub has_id : String → List Version → Bool
has_id id vs = any (λ (v : Version). str_eq v.id id) vs

abbrev pub id_of : Option Version → Option String
id_of none = none
id_of (some v) = some v.id

-- a given parent, or the latest version of the key
unfoldable pub parent_of : Upload → List Version → Option String
parent_of u vs = elim u.parent_id [
  | some p ↦ some p
  | none ↦ if is_empty u.logical_key then none else id_of (latest_for u.logical_key vs)
]

-- `get`
unfoldable pub get : String → Act Version
get id = gets (λ (s : ArtifactStore). find_version id s.versions) >>= λ o.
    on_option o (throw no_artifact) pure

abbrev pub insert_version : Version → Act (Unit {0})
insert_version v s =
    if has_id v.id s.versions
    then throw (integrity_error v.id) s
    else modify (λ t. record t { versions = t.versions ++ v ∷ [] }) s

-- the content, cut at the limit
unfoldable pub shortened : Upload → List ℕ
shortened u = if ltb max_artifact_bytes (length u.raw) then take max_artifact_bytes u.raw else u.raw

module _ (sha256 : List ℕ → String) where
  abbrev pub blob_of : Upload → Blob
  blob_of u = record {
    sha = sha256 (shortened u);
    bytes = length (shortened u);
    content = shortened u;
  }

  abbrev pub version_of : Upload → List Version → Version
  version_of u vs = record {
    id = u.new_id;
    logical_key = u.logical_key;
    kind = u.kind;
    sha = sha256 (shortened u);
    task_id = u.task_id;
    parent_id = parent_of u vs;
    trust = u.trust;
    truncated = ltb max_artifact_bytes (length u.raw);
    archived = false;
    ts = u.now;
  }

  -- `put`
  unfoldable pub put : Upload → Act Version
  put u = do
    modify (λ (s : ArtifactStore). record s { blobs = keep_blob (blob_of u) s.blobs })
    vs ← gets (λ (s : ArtifactStore). s.versions)
    on_option (find_same u.logical_key (sha256 (shortened u)) u.task_id vs)
        (do insert_version (version_of u vs); pure (version_of u vs)) (λ v. get v.id)

-- `content`: the blob that a version is joined with
unfoldable pub content : String → ArtifactStore → Option (List ℕ)
content id s = elim (find_version id s.versions) [
  | none ↦ none
  | some v ↦ elim (find_blob v.sha s.blobs) [ none ↦ none | some b ↦ some b.content ]
]

abbrev pub archive : ℕ → Version → Version
archive ts v = if ltb v.ts ts && not v.archived then record v { archived = true } else v

-- `archive_before`, less the count of the rows that it marked
unfoldable pub archive_before : ℕ → ArtifactStore → ArtifactStore
archive_before ts s = record s { versions = map (archive ts) s.versions }

-- `active`
unfoldable pub active : List Version → List Version
active [] = []
active (v ∷ vs) = let rest = active vs in if v.archived then rest else v ∷ rest
