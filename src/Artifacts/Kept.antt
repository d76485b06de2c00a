-- ===== src/Artifacts/Kept.antt =====
-- Whatever is written, what was readable stays readable.
use ai_system_canonical.Prelude.{
  ℕ, ◌≡◌, refl, String, Bool, true, false, Option, none, some, List, [], ◌∷◌, ◌++◌, map, arith,
  is_some, Bool-cases, inl, inr,
}
use ai_system_canonical.Prelude.Act.{pure, throw, modify, gets, on_option, ◌>>=◌, ◌>>◌}
use ai_system_canonical.Artifacts.{
  ArtifactStore, Blob, Version, Upload, find_blob, keep_blob, find_version, has_id, get,
  insert_version, blob_of, put, content, archive, archive_before, no_artifact,
}
use ai_system_canonical.Artifacts.Valid.{
  IsValid, HasBlob, keep_blob-IsNamed, keep_blob-found, HasBlob-mono, append-IsUnique,
  archive-IsUnique, archive-HasBlob, All-snoc,
}

-- The store's methods that write.
pub data Operation : Type 0 where
  puts : Upload → Operation
  archives : ℕ → Operation

-- The id names a version whose blob has this content.
pub record Reads (id : String) (raw : List ℕ) (s : ArtifactStore) : Type 0 where
  pub version : Version
  pub blob : Blob
  pub has_version : find_version id s.versions ≡ some version
  pub has_blob : find_blob version.sha s.blobs ≡ some blob
  pub has_content : blob.content ≡ raw

content-Reads :
    (id : String) (raw : List ℕ) (s : ArtifactStore) → content id s ≡ some raw → Reads id raw s
unfolding content
content-Reads id raw s h = found (find_version id s.versions) refl
  where
    blob_found :
        (v : Version) (o : Option Blob)
        → find_version id s.versions ≡ some v
        → find_blob v.sha s.blobs ≡ o
        → Reads id raw s
    blob_found v none e f = absurd (ground arith)
    blob_found v (some b) e f = record {
      version = v;
      blob = b;
      has_version = e;
      has_blob = f;
      has_content = ground arith;
    }

    found : (o : Option Version) → find_version id s.versions ≡ o → Reads id raw s
    found none e = absurd (ground arith)
    found (some v) e = blob_found v (find_blob v.sha s.blobs) e refl

Reads-content :
    (id : String) (raw : List ℕ) (s : ArtifactStore) → Reads id raw s → content id s ≡ some raw
unfolding content
Reads-content id raw s r = ground arith

find_blob-longer :
    (sha : String) (b c : Blob) (bs : List Blob)
    → find_blob sha bs ≡ some c
    → find_blob sha (bs ++ b ∷ []) ≡ some c
unfolding find_blob
find_blob-longer sha b c [] h = cc
find_blob-longer sha b c (d ∷ bs) h = ground (arith, find_blob-longer sha b c bs)

find_blob-keep :
    (sha : String) (b c : Blob) (bs : List Blob)
    → find_blob sha bs ≡ some c
    → find_blob sha (keep_blob b bs) ≡ some c
unfolding keep_blob
find_blob-keep sha b c bs h = elim (Bool-cases (is_some (find_blob b.sha bs))) [
  | inl old ↦ rw old h
  | inr new ↦ rw new (find_blob-longer sha b c bs h)
]

find_version-longer :
    (id : String) (v w : Version) (vs : List Version)
    → find_version id vs ≡ some w
    → find_version id (vs ++ v ∷ []) ≡ some w
unfolding find_version
find_version-longer id v w [] h = cc
find_version-longer id v w (x ∷ vs) h = ground (arith, find_version-longer id v w vs)

find_version-archive :
    (ts : ℕ) (id : String) (vs : List Version) (w : Version)
    → find_version id vs ≡ some w
    → find_version id (map (archive ts) vs) ≡ some (archive ts w)
unfolding find_version
find_version-archive ts id [] w h = cc
find_version-archive ts id (x ∷ vs) w h = ground (arith, find_version-archive ts id vs w)

archive-sha : (ts : ℕ) (v : Version) → (archive ts v).sha ≡ v.sha
archive-sha ts v = ground arith

module _ (sha256 : List ℕ → String) where
  -- the store after a call
  unfoldable pub perform : Operation → ArtifactStore → ArtifactStore
  perform (puts u) s = (put sha256 u s).1
  perform (archives ts) s = archive_before ts s

  unfoldable pub perform_all : List Operation → ArtifactStore → ArtifactStore
  perform_all [] s = s
  perform_all (o ∷ os) s = perform_all os (perform o s)

  module _ (id : String) (raw : List ℕ) where
    -- a valid store that reads this content under the id
    abbrev Good : ArtifactStore → Type 0
    Good s = IsValid sha256 s × Reads id raw s

    kept :
        (u : Upload) (s : ArtifactStore)
        → Good s
        → Good (record s { blobs = keep_blob (blob_of sha256 u) s.blobs })
    kept u s (v, r) = (
      record {
        unique = v.unique;
        named = keep_blob-IsNamed sha256 (blob_of sha256 u) s.blobs refl v.named;
        stored = HasBlob-mono (blob_of sha256 u) s.blobs s.versions v.stored;
      },
      record {
        version = r.version;
        blob = r.blob;
        has_version = r.has_version;
        has_blob = find_blob-keep r.version.sha (blob_of sha256 u) r.blob s.blobs r.has_blob;
        has_content = r.has_content;
      },
    )

    inserted :
        (t : Bool) (w : Version) (s : ArtifactStore)
        → has_id w.id s.versions ≡ t
        → HasBlob s.blobs w
        → Good s
        → Good ((insert_version w >> pure w) s).1
    unfolding ◌>>=◌ throw modify pure
    inserted true w s h b g = rw h g
    inserted false w s h b (v, r) = rw h (
      record {
        unique = append-IsUnique s.versions w h v.unique;
        named = v.named;
        stored = All-snoc (HasBlob s.blobs) s.versions w v.stored b;
      },
      record {
        version = r.version;
        blob = r.blob;
        has_version = find_version-longer id w r.version s.versions r.has_version;
        has_blob = r.has_blob;
        has_content = r.has_content;
      },
    )

    got :
        (o : Option Version) (s : ArtifactStore) → ((on_option o (throw no_artifact) pure) s).1 ≡ s
    unfolding on_option throw pure
    got none s = refl
    got (some w) s = refl

    get_keeps : (j : String) (s : ArtifactStore) → Good s → Good (get j s).1
    unfolding get gets ◌>>=◌
    get_keeps j s g = rw (got (find_version j s.versions) s) g

    chosen :
        (o : Option Version) (w : Version) (s : ArtifactStore)
        → HasBlob s.blobs w
        → Good s
        → Good (on_option o (insert_version w >> pure w) (λ v. get v.id) s).1
    unfolding on_option
    chosen none w s b g = inserted _ w s refl b g
    chosen (some v) w s b g = get_keeps v.id s g

    perform_keeps : (o : Operation) (s : ArtifactStore) → Good s → Good (perform o s)
    unfolding perform put archive_before modify gets ◌>>=◌
    perform_keeps (puts u) s g =
        chosen _ _ _ (keep_blob-found (blob_of sha256 u) s.blobs) (kept u s g)
    perform_keeps (archives ts) s (v, r) = (
      record {
        unique = archive-IsUnique ts s.versions v.unique;
        named = v.named;
        stored = archive-HasBlob ts s.blobs s.versions v.stored;
      },
      record {
        version = archive ts r.version;
        blob = r.blob;
        has_version = find_version-archive ts id s.versions r.version r.has_version;
        has_blob = rw (archive-sha ts r.version) r.has_blob;
        has_content = r.has_content;
      },
    )

    perform_all_keeps : (os : List Operation) (s : ArtifactStore) → Good s → Good (perform_all os s)
    unfolding perform_all
    perform_all_keeps [] s g = g
    perform_all_keeps (o ∷ os) s g = perform_all_keeps os (perform o s) (perform_keeps o s g)

  -- Whatever is put and archived afterwards, a content that a valid store reads under an id is read
  -- under it, and the store stays valid: ids are unique, each blob is named by its hash, and each version
  -- has its blob.
  pub perform_all-content :
      (os : List Operation) (s : ArtifactStore) (id : String) (raw : List ℕ)
      → IsValid sha256 s
      → content id s ≡ some raw
      → IsValid sha256 (perform_all os s) × (content id (perform_all os s) ≡ some raw)
  perform_all-content os s id raw v h =
      let (v', r) = perform_all_keeps id raw os s (v, content-Reads id raw s h) in
      (v', Reads-content id raw _ r)
