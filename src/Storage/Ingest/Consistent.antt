-- ===== src/Storage/Ingest/Consistent.antt =====
-- The artifacts and their search entries, through the collections of crates/amcp-storage/src/lib.rs.
use agent_memory_control_pla.Prelude.{
  ℕ, ◌+◌, ◌≤◌, String, ◌≡◌, ◌≢◌, refl, sym, ◌∙◌, ap, inl, inr, Bool, true, false, not, Option, none,
  some, List, [], ◌∷◌, ◌++◌, arith, any, ◌=ₜ◌, eq_iff, if◌then◌else◌, length, if_true, keep,
  Bool-cases, length-keep_append,
}
use agent_memory_control_pla.Domain.Records.{ArtifactRecord}
use agent_memory_control_pla.Storage.Catalog.{ArtifactRow, SearchRow, has_artifact_id, is_version}
use agent_memory_control_pla.Storage.Ingest.{
  put_search, is_entry, entry_of, update_artifact, refresh, row_of, find,
}
use agent_memory_control_pla.Storage.Ingest.Artifact.{version_of}

abbrev pub count : {A : Type 0} → (A → Bool) → List A → ℕ
count p xs = length (keep p xs)

-- No id and no version stands twice, and each artifact has one search entry, which nothing else has.
pub record IsConsistent (artifacts : List ArtifactRow) (search : List SearchRow) : Type 0 where
  pub ids : (artifact_id : String) → count (has_artifact_id artifact_id) artifacts ≤ 1
  pub entries :
      (artifact_id : String)
      → count (is_entry artifact_id) search ≡ count (has_artifact_id artifact_id) artifacts
  pub versions :
      (host_id provider_id native_id source_hash : String)
      → count (is_version host_id provider_id native_id source_hash) artifacts ≤ 1

some_injective : {x y : ArtifactRow} → ◌≡◌ {A = Option ArtifactRow} (some x) (some y) → x ≡ y
some_injective h = cc

pub find_counted :
    (p : ArtifactRow → Bool) (rows : List ArtifactRow) (row : ArtifactRow)
    → find p rows ≡ some row
    → 1 ≤ count (has_artifact_id row.artifact_id) rows
find_counted p [] row h = absurd (ground arith)
find_counted p (x ∷ rows) row h = elim (Bool-cases (p x)) [
  | inl here ↦
      let same = some_injective (sym (if_true (some x) (find p rows) here) ∙ h) in
      ground (arith, ap (λ r. r.artifact_id) same, eq_iff x.artifact_id row.artifact_id)
  | inr there ↦ ground (arith, there, find_counted p rows row)
]

pub find-none :
    (p : ArtifactRow → Bool) (rows : List ArtifactRow) → find p rows ≡ none → count p rows ≡ 0
find-none p [] h = refl
find-none p (x ∷ rows) h = ground (arith, find-none p rows)

pub any_none : {A : Type 0} (p : A → Bool) (xs : List A) → any p xs ≡ false → count p xs ≡ 0
any_none p [] h = refl
any_none p (x ∷ xs) h = ground (arith, any_none p xs)

count_out :
    (artifact_id : String) (rows : List SearchRow) (x : String)
    → count (is_entry x) (keep (λ row. not (is_entry artifact_id row)) rows)
      ≡ (if artifact_id =ₜ x then 0 else count (is_entry x) rows)
count_out artifact_id [] x = ground arith
count_out artifact_id (row ∷ rows) x = ground (
  arith,
  count_out artifact_id rows x,
  eq_iff artifact_id x,
  eq_iff row.artifact_id x,
  eq_iff row.artifact_id artifact_id,
)

count-put_search :
    (artifact_id : String) (a : ArtifactRecord) (rows : List SearchRow) (x : String)
    → count (is_entry x) (put_search artifact_id a rows)
      ≡ (if artifact_id =ₜ x then 1 else count (is_entry x) rows)
unfolding put_search
count-put_search artifact_id a rows x =
    let others = keep (λ row. not (is_entry artifact_id row)) search in
    ground (
      arith,
      length-keep_append (is_entry x) others (entry_of artifact_id a ∷ []),
      count_out artifact_id rows x,
    )

-- The update of a row keeps what the keys read.
count-update_artifact :
    (q : ArtifactRow → Bool) (a : ArtifactRecord) (artifact_id : String) (rows : List ArtifactRow)
    → ((row : ArtifactRow) → q (refresh a row) ≡ q row)
    → count q (update_artifact a artifact_id rows) ≡ count q rows
count-update_artifact q a artifact_id [] h = refl
count-update_artifact q a artifact_id (row ∷ rows) h =
    ground (arith, h row, count-update_artifact q a artifact_id rows h)

-- The search entry of an id that has one artifact.
entry_matches :
    (artifact_id : String) (a : ArtifactRecord) (artifacts : List ArtifactRow)
    (rows : List SearchRow) (x : String)
    → count (has_artifact_id artifact_id) artifacts ≡ 1
    → ((artifact_id ≢ x) → count (is_entry x) rows ≡ count (has_artifact_id x) artifacts)
    → count (is_entry x) (put_search artifact_id a rows) ≡ count (has_artifact_id x) artifacts
entry_matches artifact_id a artifacts rows x one others = elim (Bool-cases (artifact_id =ₜ x)) [
  | inl same ↦
      let e : artifact_id ≡ x = (eq_iff artifact_id x).0 same in
      count-put_search artifact_id a rows x
      ∙ rw same (sym one ∙ ap (λ y. count (has_artifact_id y) artifacts) e)
  | inr other ↦
      count-put_search artifact_id a rows x
      ∙ rw other (others (λ e. ground (arith, other, e, eq_iff artifact_id x)))
]

pub updated-IsConsistent :
    (a : ArtifactRecord) (artifact_id : String) (artifacts : List ArtifactRow)
    (rows : List SearchRow)
    → 1 ≤ count (has_artifact_id artifact_id) artifacts
    → IsConsistent artifacts rows
    → IsConsistent (update_artifact a artifact_id artifacts) (put_search artifact_id a rows)
unfolding refresh
updated-IsConsistent a artifact_id artifacts rows there h =
    let updated = update_artifact a artifact_id artifacts in
    let ids : (x : String)
        → count (has_artifact_id x) updated ≡ count (has_artifact_id x) artifacts =
      λ x. count-update_artifact (has_artifact_id x) a artifact_id artifacts (λ row. refl) in
    record {
      ids = λ x. omega (arith, ids x, h.ids x);
      entries = λ x.
          entry_matches artifact_id a updated rows x
            (omega (arith, ids artifact_id, h.ids artifact_id)) (λ e. h.entries x ∙ sym (ids x));
      versions = λ host_id provider_id native_id source_hash. omega (
        arith,
        h.versions host_id provider_id native_id source_hash,
        count-update_artifact (is_version host_id provider_id native_id source_hash) a artifact_id
            artifacts (λ row. refl),
      );
    }

count-append_one :
    (q : ArtifactRow → Bool) (artifacts : List ArtifactRow) (row : ArtifactRow)
    → count q (artifacts ++ row ∷ []) ≡ count q artifacts + (if q row then 1 else 0)
count-append_one q artifacts row = ground (arith, length-keep_append q artifacts (row ∷ []))

-- A version that is not found is not counted, however it is named.
missing_version :
    (a : ArtifactRecord) (artifacts : List ArtifactRow)
    (host_id provider_id native_id source_hash : String)
    → count (version_of a) artifacts ≡ 0
    → is_version host_id provider_id native_id source_hash (row_of a) ≡ true
    → count (is_version host_id provider_id native_id source_hash) artifacts ≡ 0
unfolding row_of
missing_version a artifacts host_id provider_id native_id source_hash missing h =
    let e₁ : a.host_id ≡ host_id = (eq_iff a.host_id host_id).0 (ground (arith, h)) in
    let e₂ : a.provider_id ≡ provider_id =
      (eq_iff a.provider_id provider_id).0 (ground (arith, h)) in
    let e₃ : a.native_id ≡ native_id = (eq_iff a.native_id native_id).0 (ground (arith, h)) in
    let e₄ : a.observation.source_hash ≡ source_hash =
      (eq_iff a.observation.source_hash source_hash).0 (ground (arith, h)) in
    rw (sym e₁, sym e₂, sym e₃, sym e₄) missing

pub inserted-IsConsistent :
    (a : ArtifactRecord) (artifacts : List ArtifactRow) (rows : List SearchRow)
    → count (version_of a) artifacts ≡ 0
    → count (has_artifact_id a.artifact_id) artifacts ≡ 0
    → IsConsistent artifacts rows
    → IsConsistent (artifacts ++ row_of a ∷ []) (put_search a.artifact_id a rows)
unfolding row_of
inserted-IsConsistent a artifacts rows missing fresh h =
    let id = a.artifact_id in
    let appended = artifacts ++ row_of a ∷ [] in
    let ids : (x : String)
        → count (has_artifact_id x) appended
          ≡ count (has_artifact_id x) artifacts + (if id =ₜ x then 1 else 0) =
      λ x. count-append_one (has_artifact_id x) artifacts (row_of a) in
    let none_of : (x : String) → (id =ₜ x) ≡ true → count (has_artifact_id x) artifacts ≡ 0 =
      λ x same.
        ap (λ y. count (has_artifact_id y) artifacts) (sym ((eq_iff id x).0 same)) ∙ fresh in
    record {
      ids = λ x. ground (arith, ids x, h.ids x, none_of x);
      entries = λ x.
          entry_matches id a appended rows x (ground (arith, ids id, fresh, eq_iff id id))
            (λ e. ground (arith, e, ids x, h.entries x, eq_iff id x));
      versions = λ host_id provider_id native_id source_hash. ground (
        arith,
        count-append_one (is_version host_id provider_id native_id source_hash) artifacts
            (row_of a),
        h.versions host_id provider_id native_id source_hash,
        missing_version a artifacts host_id provider_id native_id source_hash missing,
      );
    }
