-- ===== src/Artifacts/Valid.antt =====
-- The store's invariant: ids are unique, each blob is named by its hash, and each version has its blob.
use ai_system_canonical.Prelude.{
  ℕ, ◌≡◌, refl, ◌∙◌, String, true, false, some, List, [], ◌∷◌, ◌++◌, ◌||◌, All, map, arith, is_some,
  eq_iff, Bool-cases, inl, inr,
}
use ai_system_canonical.Artifacts.{
  ArtifactStore, Blob, Version, find_blob, keep_blob, has_id, archive,
}

abbrev pub IsUnique : List Version → Type 0
IsUnique [] = Unit
IsUnique (v ∷ vs) = (has_id v.id vs ≡ false) × IsUnique vs

abbrev pub HasBlob : List Blob → Version → Type 0
HasBlob bs v = is_some (find_blob v.sha bs) ≡ true

module _ (sha256 : List ℕ → String) where
  abbrev pub IsNamed : Blob → Type 0
  IsNamed b = b.sha ≡ sha256 b.content

  pub record IsValid (s : ArtifactStore) : Type 0 where
    pub unique : IsUnique s.versions
    pub named : All IsNamed s.blobs
    pub stored : All (HasBlob s.blobs) s.versions

keep_blob-grows :
    (sha : String) (b : Blob) (bs : List Blob)
    → is_some (find_blob sha bs) ≡ true
    → is_some (find_blob sha (bs ++ b ∷ [])) ≡ true
unfolding find_blob
keep_blob-grows sha b [] h = cc
keep_blob-grows sha b (c ∷ bs) h = ground (arith, keep_blob-grows sha b bs)

appended-found :
    (b : Blob) (bs : List Blob)
    → is_some (find_blob b.sha bs) ≡ false
    → find_blob b.sha (bs ++ b ∷ []) ≡ some b
unfolding find_blob
appended-found b [] h = ground (arith, eq_iff b.sha b.sha)
appended-found b (c ∷ bs) h = ground (arith, appended-found b bs)

-- a blob that is there stays, and the kept one is there
pub keep_blob_mono :
    (sha : String) (b : Blob) (bs : List Blob)
    → is_some (find_blob sha bs) ≡ true
    → is_some (find_blob sha (keep_blob b bs)) ≡ true
unfolding keep_blob
keep_blob_mono sha b bs h = ground (arith, keep_blob-grows sha b bs)

pub keep_blob-found :
    (b : Blob) (bs : List Blob) → is_some (find_blob b.sha (keep_blob b bs)) ≡ true
unfolding keep_blob
keep_blob-found b bs = ground (arith, appended-found b bs)

pub HasBlob-mono :
    (b : Blob) (bs : List Blob) (vs : List Version)
    → All (HasBlob bs) vs
    → All (HasBlob (keep_blob b bs)) vs
HasBlob-mono b bs [] h = tt
HasBlob-mono b bs (v ∷ vs) h = (keep_blob_mono v.sha b bs h.0, HasBlob-mono b bs vs h.1)

pub All-snoc {ℓ κ} :
    {A : Type ℓ} (P : A → Type κ) (xs : List A) (x : A) → All P xs → P x → All P (xs ++ x ∷ [])
All-snoc P [] x h p = (p, tt)
All-snoc P (y ∷ xs) x h p = (h.0, All-snoc P xs x h.1 p)

pub keep_blob-IsNamed :
    (sha256 : List ℕ → String) (b : Blob) (bs : List Blob)
    → IsNamed sha256 b
    → All (IsNamed sha256) bs
    → All (IsNamed sha256) (keep_blob b bs)
unfolding keep_blob
keep_blob-IsNamed sha256 b bs n h = elim (Bool-cases (is_some (find_blob b.sha bs))) [
  | inl old ↦ rw old h
  | inr new ↦ rw new (All-snoc (IsNamed sha256) bs b h n)
]

has_id-append : (j : String) (s t : List Version) → has_id j (s ++ t) ≡ (has_id j s || has_id j t)
unfolding has_id
has_id-append j [] t = refl
has_id-append j (v ∷ s) t = ground (arith, has_id-append j s t)

pub append-IsUnique :
    (s : List Version) (v : Version) → has_id v.id s ≡ false → IsUnique s → IsUnique (s ++ v ∷ [])
unfolding has_id
append-IsUnique [] v h u = (refl, tt)
append-IsUnique (w ∷ s) v h u = (
  ground (arith, has_id-append w.id s (v ∷ []), eq_iff w.id v.id, eq_iff v.id w.id),
  append-IsUnique s v (ground arith) u.1,
)

has_id-archive :
    (ts : ℕ) (j : String) (vs : List Version) → has_id j (map (archive ts) vs) ≡ has_id j vs
unfolding has_id
has_id-archive ts j [] = refl
has_id-archive ts j (v ∷ vs) = ground (arith, has_id-archive ts j vs)

pub archive-IsUnique : (ts : ℕ) (vs : List Version) → IsUnique vs → IsUnique (map (archive ts) vs)
archive-IsUnique ts [] u = tt
archive-IsUnique ts (v ∷ vs) u =
    let same : (archive ts v).id ≡ v.id = ground arith in
    (rw same (has_id-archive ts v.id vs ∙ u.0), archive-IsUnique ts vs u.1)

pub archive-HasBlob :
    (ts : ℕ) (bs : List Blob) (vs : List Version)
    → All (HasBlob bs) vs
    → All (HasBlob bs) (map (archive ts) vs)
archive-HasBlob ts bs [] h = tt
archive-HasBlob ts bs (v ∷ vs) h =
    let same : (archive ts v).sha ≡ v.sha = ground arith in
    (rw same h.0, archive-HasBlob ts bs vs h.1)
