-- ===== src/Memory.antt =====
-- nexus/app/services/memory/store.py: rows of memory, their versions and what supersedes them.
pub mod Laws
pub mod Kept
pub mod Performance
pub mod Restart
use Prim.Native.String.{◌++◌ as ◌<>◌}
use ai_system_canonical.Prelude.{
  ℕ, String, Bool, true, false, Option, none, some, List, [], ◌∷◌, ◌++◌, ◌+◌, ◌&&◌, ◌||◌, ◌==◌, not,
  any, map, last?, length, str_eq, is_some, if◌then◌else◌,
}
use ai_system_canonical.Prelude.Act as Methods
use ai_system_canonical.Prelude.Act.{pure, throw, modify, gets, ◌>>=◌, ◌>>◌}
use ai_system_canonical.Prelude.Floats.{Floats}

-- the table's IntegrityError on a repeated id
pub data MemoryError : Type 0 where
  integrity_error : String → MemoryError

pub data MemoryTier : Type 0 where
  working project experience system : MemoryTier

-- A number for each tier, to compare tiers by.
abbrev pub index : MemoryTier → ℕ
index working = 0
index project = 1
index experience = 2
index system = 3

abbrev pub in_tier : Option MemoryTier → MemoryTier → Bool
in_tier none t = true
in_tier (some tier) t = index t == index tier

module _ (N : Floats) where
  open N use {Float, of_nat, sub, lt}

  pub record MemoryRecord : Type 0 where
    pub id : String
    pub task_id : String
    pub tier : MemoryTier
    pub kind : String
    pub content : String
    pub scope : String
    pub trust : String
    pub version : ℕ
    pub ts : Float
    pub superseded_by : Option String

  -- the rows, by `seq`
  abbrev pub Table : Type 0
  Table = List MemoryRecord

  abbrev pub Act : Type 0 → Type 0
  Act A = Methods.Act MemoryError Table A

  unfoldable pub has_id : String → Table → Bool
  has_id id rows = any (λ (m : MemoryRecord). str_eq m.id id) rows

  -- `put`
  unfoldable pub put : MemoryRecord → Act MemoryRecord
  unfolding has_id
  put m rows =
      if has_id m.id rows
      then throw (integrity_error m.id) rows
      else (modify (λ (rs : Table). rs ++ m ∷ []) >> pure m) rows

  -- `_version_of`
  unfoldable pub version_of : String → Table → ℕ
  version_of id [] = 0
  version_of id (m ∷ rows) = if str_eq m.id id then m.version else version_of id rows

  -- SET superseded_by=? WHERE id=?
  abbrev pub marked : String → String → MemoryRecord → MemoryRecord
  marked old_id new_id m =
      if str_eq m.id old_id then record m { superseded_by = some new_id } else m

  -- `supersede`
  unfoldable pub supersede : String → MemoryRecord → Act MemoryRecord
  unfolding put version_of
  supersede old_id new = do
    version ← gets (λ (rows : Table). version_of old_id rows + 1)
    m ← put (record new { version = version })
    modify (map (marked old_id m.id))
    pure m

  -- the conditions of `all`
  abbrev pub is_selected : Option MemoryTier → Bool → MemoryRecord → Bool
  is_selected tier superseded m =
      in_tier tier m.tier && (superseded || not (is_some m.superseded_by))

  -- `all`
  unfoldable pub all : Option MemoryTier → Bool → Table → List MemoryRecord
  all tier superseded [] = []
  all tier superseded (m ∷ rows) =
      let rest = all tier superseded rows in
      if is_selected tier superseded m then m ∷ rest else rest

  abbrev pub stale_max_age_s : Float
  stale_max_age_s = of_nat 15552000

  abbrev pub is_stale : Float → MemoryRecord → Bool
  is_stale now m = is_some m.superseded_by && lt m.ts (sub now stale_max_age_s)

  unfoldable pub without_stale : Float → Table → Table
  without_stale now [] = []
  without_stale now (m ∷ rows) =
      let rest = without_stale now rows in if is_stale now m then rest else m ∷ rest

  unfoldable pub count_stale : Float → Table → ℕ
  count_stale now [] = 0
  count_stale now (m ∷ rows) =
      let rest = count_stale now rows in if is_stale now m then rest + 1 else rest

  -- `drop_stale_experience_pointers`, at a given or a read time
  unfoldable pub drop_stale_experience_pointers : Float → Act ℕ
  drop_stale_experience_pointers now = do
    n ← gets (count_stale now)
    modify (without_stale now)
    pure n

  -- f"{role}:{task_class}"
  abbrev pub scope_of : String → String → String
  scope_of role task_class = role <> ":" <> task_class

  -- The row of `record_role_perf`, with the id and the time that it draws, and the text of its payload.
  abbrev pub role_perf : String → String → String → String → Float → MemoryRecord
  role_perf role task_class payload new_id now = record {
    id = new_id;
    task_id = "";
    tier = system;
    kind = "role_perf";
    content = payload;
    scope = scope_of role task_class;
    trust = "workspace";
    version = 1;
    ts = now;
    superseded_by = none;
  }

  -- `record_role_perf`
  unfoldable pub record_role_perf : String → String → String → String → Float → Act MemoryRecord
  unfolding put
  record_role_perf role task_class payload new_id now =
      put (role_perf role task_class payload new_id now)

  unfoldable pub of_role : String → String → Table → List MemoryRecord
  of_role role task_class [] = []
  of_role role task_class (m ∷ rows) =
      let rest = of_role role task_class rows in
      if str_eq m.kind "role_perf" && str_eq m.scope (scope_of role task_class)
      then m ∷ rest
      else rest

  abbrev pub content_of : Option MemoryRecord → Option String
  content_of none = none
  content_of (some m) = some m.content

  -- `latest_role_perf`, before `json.loads`
  unfoldable pub latest_role_perf : String → String → Table → Option String
  unfolding all of_role
  latest_role_perf role task_class rows =
      content_of (last? (of_role role task_class (all (some system) false rows)))
