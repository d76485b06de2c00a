-- ===== src/Artifacts/Content.antt =====
-- What `put` stores can be read back, and nothing that is stored is lost.
use ai_system_canonical.Prelude.{
  ℕ, ◌≡◌, refl, sym, ap, ◌∙◌, String, Bool, true, false, Option, none, some, List, [], ◌∷◌, ◌++◌,
  All, arith, is_some, str_eq, eq_iff, Bool-cases, inl, inr,
}
use ai_system_canonical.Prelude.Act.{
  Outcome, returns, throws, pure, throw, modify, gets, on_option, ◌>>=◌, ◌>>◌,
}
use ai_system_canonical.Artifacts.{
  ArtifactError, ArtifactStore, Blob, Version, Upload, find_blob, keep_blob, find_version,
  find_same, has_id, get, insert_version, shortened, blob_of, version_of, put, content,
  integrity_error,
}
use ai_system_canonical.Artifacts.Valid.{
  IsValid, IsNamed, IsUnique, keep_blob-found, keep_blob-IsNamed,
}

abbrev failed : ArtifactError → Outcome ArtifactError Version
failed x = throws x

returns-inj :
    (a b : Version) → ◌≡◌ {A = Outcome ArtifactError Version} (returns a) (returns b) → a ≡ b
returns-inj a b h = cc

module _ (sha256 : List ℕ → String) where
  -- No stored content has the hash of these bytes but the bytes themselves.
  abbrev pub NoCollision : List ℕ → List Blob → Type 0
  NoCollision raw bs = All (λ (b : Blob). sha256 b.content ≡ sha256 raw → b.content ≡ raw) bs

  find_blob-content :
      (raw : List ℕ) (sha : String) (bs : List Blob)
      → sha ≡ sha256 raw
      → All (IsNamed sha256) bs
      → NoCollision raw bs
      → is_some (find_blob sha bs) ≡ true
      → (b : Blob) × (find_blob sha bs ≡ some b) × (b.content ≡ raw)
  unfolding find_blob
  find_blob-content raw sha [] e n c h = cc
  find_blob-content raw sha (b ∷ bs) e n c h = elim (Bool-cases (str_eq b.sha sha)) [
    | inl here ↦ (b, rw here refl, c.0 (sym n.0 ∙ (eq_iff b.sha sha).0 here ∙ e))
    | inr later ↦
        let (d, f, g) = find_blob-content raw sha bs e n.1 c.1 (ground arith) in (d, rw later f, g)
  ]

  NoCollision-keep :
      (u : Upload) (bs : List Blob)
      → NoCollision (shortened u) bs
      → NoCollision (shortened u) (keep_blob (blob_of sha256 u) bs)
  unfolding keep_blob
  NoCollision-keep u bs c = elim (Bool-cases (is_some (find_blob (blob_of sha256 u).sha bs))) [
    | inl old ↦ rw old c
    | inr new ↦ rw new (appended bs c)
  ]
    where
      appended :
          (cs : List Blob)
          → NoCollision (shortened u) cs
          → NoCollision (shortened u) (cs ++ blob_of sha256 u ∷ [])
      appended [] h = (λ _. refl, tt)
      appended (b ∷ cs) h = (h.0, appended cs h.1)

  -- the blob of an upload is there, with its content
  kept-content :
      (u : Upload) (s : ArtifactStore)
      → IsValid sha256 s
      → NoCollision (shortened u) s.blobs
      → (b : Blob) × (find_blob (blob_of sha256 u).sha (keep_blob (blob_of sha256 u) s.blobs)
          ≡ some b)
        × (b.content ≡ shortened u)
  kept-content u s v c =
      find_blob-content (shortened u) (blob_of sha256 u).sha (keep_blob (blob_of sha256 u) s.blobs)
        refl (keep_blob-IsNamed sha256 (blob_of sha256 u) s.blobs refl v.named)
        (NoCollision-keep u s.blobs c) (keep_blob-found (blob_of sha256 u) s.blobs)

  find_version-append :
      (v : Version) (vs : List Version)
      → has_id v.id vs ≡ false
      → find_version v.id (vs ++ v ∷ []) ≡ some v
  unfolding find_version has_id
  find_version-append v [] h = ground (arith, eq_iff v.id v.id)
  find_version-append v (w ∷ vs) h = ground (arith, find_version-append v vs)

  find_same-sha :
      (key sha task : String) (vs : List Version) (v : Version)
      → find_same key sha task vs ≡ some v
      → v.sha ≡ sha
  unfolding find_same
  find_same-sha key sha task [] v h = cc
  find_same-sha key sha task (w ∷ vs) v h =
      ground (arith, eq_iff w.sha sha, find_same-sha key sha task vs v)

  find_same-has_id :
      (key sha task : String) (vs : List Version) (v : Version)
      → find_same key sha task vs ≡ some v
      → has_id v.id vs ≡ true
  unfolding find_same has_id
  find_same-has_id key sha task [] v h = cc
  find_same-has_id key sha task (w ∷ vs) v h =
      ground (arith, eq_iff w.id v.id, eq_iff v.id v.id, find_same-has_id key sha task vs v)

  find_same-found :
      (key sha task : String) (vs : List Version) (v : Version)
      → IsUnique vs
      → find_same key sha task vs ≡ some v
      → find_version v.id vs ≡ some v
  unfolding find_same find_version
  find_same-found key sha task [] v u h = cc
  find_same-found key sha task (w ∷ vs) v u h = ground (
    arith,
    eq_iff w.id v.id,
    eq_iff v.id v.id,
    find_same-has_id key sha task vs v,
    find_same-found key sha task vs v u.1,
  )

  -- what is read of an id is the content of the blob that its version names
  read_back :
      (id : String) (s : ArtifactStore) (v : Version) (b : Blob)
      → find_version id s.versions ≡ some v
      → find_blob v.sha s.blobs ≡ some b
      → content id s ≡ some b.content
  unfolding content
  read_back id s v b e f = ground arith

  inserted :
      (s1 : ArtifactStore) (v ref : Version) (b : Blob) (t : Bool)
      → has_id v.id s1.versions ≡ t
      → find_blob v.sha s1.blobs ≡ some b
      → ((insert_version v >> pure v) s1).0 ≡ returns ref
      → content ref.id ((insert_version v >> pure v) s1).1 ≡ some b.content
  unfolding ◌>>=◌ throw modify pure
  inserted s1 v ref b true h f r =
      let never : failed (integrity_error v.id) ≡ returns ref = rw h at r in cc
  inserted s1 v ref b false h f r =
      let it : v ≡ ref = returns-inj v ref (rw h at r) in
      let s2 : ArtifactStore = record s1 { versions = s1.versions ++ v ∷ [] } in
      let back = read_back v.id s2 v b (find_version-append v s1.versions h) f in rw (h, ← it) back

  got :
      (s1 : ArtifactStore) (v : Version)
      → find_version v.id s1.versions ≡ some v
      → get v.id s1 ≡ (returns v, s1)
  unfolding get gets ◌>>=◌ on_option pure
  got s1 v e = rw e

  stored :
      (u : Upload) (s1 : ArtifactStore) (b : Blob) (o : Option Version) (ref : Version)
      → IsUnique s1.versions
      → find_blob (blob_of sha256 u).sha s1.blobs ≡ some b
      → find_same u.logical_key (sha256 (shortened u)) u.task_id s1.versions ≡ o
      → let m =
          on_option o
            (insert_version (version_of sha256 u s1.versions)
              >> pure (version_of sha256 u s1.versions))
            (λ v. get v.id) in
        (m s1).0 ≡ returns ref → content ref.id (m s1).1 ≡ some b.content
  unfolding on_option
  stored u s1 b none ref q f e r = inserted s1 (version_of sha256 u s1.versions) ref b _ refl f r
  stored u s1 b (some v) ref q f e r =
      let there =
        find_same-found u.logical_key (sha256 (shortened u)) u.task_id s1.versions v q e in
      let same : v ≡ ref = returns-inj v ref (rw (got s1 v there) at r) in
      rw (got s1 v there, ← same)
        (read_back v.id s1 v b there
          (rw (find_same-sha u.logical_key (sha256 (shortened u)) u.task_id s1.versions v e) f))

  -- What `put` returns names a version whose content reads back as the bytes that were put, cut at the
  -- limit: from a valid store, where no stored content has their hash but is another, both for a new
  -- version and for one that the store already had.
  pub put-content :
      (u : Upload) (s : ArtifactStore) (ref : Version)
      → IsValid sha256 s
      → NoCollision (shortened u) s.blobs
      → (put sha256 u s).0 ≡ returns ref
      → content ref.id (put sha256 u s).1 ≡ some (shortened u)
  unfolding put modify gets ◌>>=◌
  put-content u s ref v c r =
      let (b, f, e) = kept-content u s v c in
      stored u (record s { blobs = keep_blob (blob_of sha256 u) s.blobs }) b _ ref v.unique f refl r
      ∙ ap some e
