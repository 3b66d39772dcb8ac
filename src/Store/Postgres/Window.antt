-- ===== src/Store/Postgres/Window.antt =====
-- The first row of each partition of `ListLatestFlagVersions` on SQLite: what it lists of a flag.
use mathlib.Core.Path.{subst}
use false_flag_demo.Base.{
  true, false, ◌≡◌, refl, sym, ap, ◌∙◌, Option, none, some, List, [], ◌∷◌, arith, ltb, ◌==◌, first,
  select, some-injective, order_by, insert_by, head, if◌then◌else◌, Bool-cases, inl, inr, exists,
}
use false_flag_demo.Store.{Uuid, Flag, FlagVersion, LatestFlagVersion, Db}
use false_flag_demo.Store.Lookups.{latest_row, latest_rows, list_flag_versions}
use false_flag_demo.Store.Postgres.Lookups.{has_id}
use false_flag_demo.Store.Queries.{of_flag}
use false_flag_demo.Store.Reachable.{IsDistinct, same_flag_id}
use false_flag_demo.Store.Selects.{descending, version_of}
use false_flag_demo.Store.Postgres.Ordered.{row_of}

-- The versions of one flag, by the same rule.
abbrev pub newer : FlagVersion → Option FlagVersion → Option FlagVersion
newer v none = some v
newer v (some w) = if ltb v.version w.version then some w else some v

head-insert_by :
    (v : FlagVersion) (vs : List FlagVersion)
    → head (insert_by (descending version_of) v vs) ≡ newer v (head vs)
unfolding insert_by
head-insert_by v [] = refl
head-insert_by v (w ∷ vs) = ground arith

unfoldable pub newest_of : Uuid → List FlagVersion → Option FlagVersion
newest_of flag [] = none
newest_of flag (v ∷ vs) =
    let rest = newest_of flag vs in if v.flag_id == flag then newer v rest else rest

head-order_by :
    (flag : Uuid) (vs : List FlagVersion)
    → head (order_by (descending version_of) (select (of_flag flag) vs)) ≡ newest_of flag vs
unfolding order_by select newest_of
head-order_by flag [] = refl
head-order_by flag (v ∷ vs) = elim (Bool-cases (v.flag_id == flag)) [
  | inl hit ↦ rw (hit, sym (head-order_by flag vs)) (head-insert_by v _)
  | inr miss ↦ rw miss (head-order_by flag vs)
]

-- The row of a version, where its flag is the given project's.
abbrev pub row_in : Uuid → Option Flag → Option FlagVersion → Option LatestFlagVersion
row_in project none v = none
row_in project (some f) none = none
row_in project (some f) (some v) = if f.project_id == project then some (latest_row f v) else none

pub row_in-other :
    (project : Uuid) (f : Flag) (v w : Option FlagVersion)
    → (f.project_id == project) ≡ false
    → row_in project (some f) v ≡ row_in project (some f) w
row_in-other project f none none h = refl
row_in-other project f none (some w) h = rw h refl
row_in-other project f (some v) none h = rw h refl
row_in-other project f (some v) (some w) h = rw h refl

newer-flag :
    (flag : Uuid) (w : FlagVersion) (newest : Option FlagVersion) (v : FlagVersion)
    → w.flag_id ≡ flag
    → ((u : FlagVersion) → newest ≡ some u → u.flag_id ≡ flag)
    → newer w newest ≡ some v
    → v.flag_id ≡ flag
newer-flag flag w none v h others e = sym (ap (λ x. x.flag_id) (some-injective e)) ∙ h
newer-flag flag w (some u) v h others e = elim (Bool-cases (ltb w.version u.version)) [
  | inl newer ↦ sym (ap (λ x. x.flag_id) (some-injective (rw newer at e))) ∙ others u refl
  | inr older ↦ sym (ap (λ x. x.flag_id) (some-injective (rw older at e))) ∙ h
]

newest_of-flag :
    (flag : Uuid) (vs : List FlagVersion) (v : FlagVersion)
    → newest_of flag vs ≡ some v
    → v.flag_id ≡ flag
unfolding newest_of
newest_of-flag flag [] v e = cc
newest_of-flag flag (w ∷ vs) v e = elim (Bool-cases (w.flag_id == flag)) [
  | inl hit ↦
      newer-flag flag w (newest_of flag vs) v (ground arith) (newest_of-flag flag vs) (rw hit at e)
  | inr miss ↦ newest_of-flag flag vs v (rw miss at e)
]

-- What SQLite lists of a flag.
first_missing :
    (f : Flag) (flags : List Flag)
    → exists (same_flag_id f) flags ≡ false
    → first (has_id f.id) flags ≡ none
unfolding exists first
first_missing f [] h = refl
first_missing f (g ∷ flags) h = ground (arith, first_missing f flags)

abbrev with_first : Flag → List LatestFlagVersion → Option FlagVersion → List LatestFlagVersion
with_first f rest none = rest
with_first f rest (some v) = latest_row f v ∷ rest

with_first-head :
    (f : Flag) (rest : List LatestFlagVersion) (vs : List FlagVersion)
    → (elim vs [ [] ↦ rest | v ∷ _ ↦ latest_row f v ∷ rest ]) ≡ with_first f rest (head vs)
with_first-head f rest [] = refl
with_first-head f rest (v ∷ vs) = refl

module _ (project flag : Uuid) (f : Flag) (rest : List LatestFlagVersion) where
  first-with_first-hit :
      (newest : Option FlagVersion)
      → (f.project_id == project) ≡ true
      → ((v : FlagVersion) → newest ≡ some v → v.flag_id ≡ flag)
      → first (row_of flag) rest ≡ none
      → first (row_of flag) (with_first f rest newest) ≡ row_in project (some f) newest
  unfolding first
  first-with_first-hit none ours own gone = gone
  first-with_first-hit (some v) ours own gone =
      let here = own v refl in
      let same : (v.flag_id == flag) ≡ true = ground arith in rw (ours, same) refl

  first-with_first-miss :
      (newest : Option FlagVersion)
      → ((v : FlagVersion) → newest ≡ some v → (v.flag_id == flag) ≡ false)
      → first (row_of flag) (with_first f rest newest) ≡ first (row_of flag) rest
  unfolding first
  first-with_first-miss none own = refl
  first-with_first-miss (some v) own = rw (own v refl) refl

module _ (project : Uuid) (db : Db) (f : Flag) (flags : List Flag) where
  listed_first :
      (flag : Uuid)
      → first (row_of flag) (elim (list_flag_versions f.id db) [
        | [] ↦ latest_rows project db flags
        | v ∷ _ ↦ latest_row f v ∷ latest_rows project db flags
      ])
        ≡ first
            (row_of flag)
            (with_first f (latest_rows project db flags) (newest_of f.id db.flag_versions))
  unfolding list_flag_versions
  listed_first flag =
      let rest = latest_rows project db flags in
      ap (first (row_of flag)) (
        with_first-head f rest (list_flag_versions f.id db)
        ∙ ap (with_first f rest) (head-order_by f.id db.flag_versions))

  first-latest_rows-hit :
      first (row_of f.id) (latest_rows project db flags) ≡ none
      → first (row_of f.id) (latest_rows project db (f ∷ flags))
        ≡ row_in project (some f) (newest_of f.id db.flag_versions)
  unfolding latest_rows
  first-latest_rows-hit gone =
      let rest = latest_rows project db flags in
      let newest = newest_of f.id db.flag_versions in
      elim (Bool-cases (f.project_id == project)) [
        | inl ours ↦ rw ours (
            listed_first f.id
            ∙ first-with_first-hit project f.id f rest newest ours
                (newest_of-flag f.id db.flag_versions) gone)
        | inr other ↦ rw other (gone ∙ row_in-other project f none newest other)
      ]

  first-latest_rows-miss :
      (flag : Uuid)
      → (f.id == flag) ≡ false
      → first (row_of flag) (latest_rows project db (f ∷ flags))
        ≡ first (row_of flag) (latest_rows project db flags)
  unfolding latest_rows
  first-latest_rows-miss flag h =
      let rest = latest_rows project db flags in
      let newest = newest_of f.id db.flag_versions in
      elim (Bool-cases (f.project_id == project)) [
        | inl ours ↦ rw ours (
            listed_first flag
            ∙ first-with_first-miss project flag f rest newest
                (λ v e. rw (newest_of-flag f.id db.flag_versions v e) h))
        | inr other ↦ rw other refl
      ]

pub first-latest_rows :
    (project flag : Uuid) (db : Db) (flags : List Flag)
    → IsDistinct same_flag_id flags
    → first (row_of flag) (latest_rows project db flags)
      ≡ row_in project (first (has_id flag) flags) (newest_of flag db.flag_versions)
unfolding latest_rows first
first-latest_rows project flag db [] d = refl
first-latest_rows project flag db (f ∷ flags) (d, ds) = elim (Bool-cases (f.id == flag)) [
  | inl hit ↦
      let same : f.id ≡ flag = ground arith in
      let gone =
        first-latest_rows project f.id db flags ds
        ∙ ap (λ o. row_in project o (newest_of f.id db.flag_versions)) (first_missing f flags d) in
      rw hit (
        subst
          (λ id.
            first (row_of id) (latest_rows project db (f ∷ flags))
            ≡ row_in project (some f) (newest_of id db.flag_versions))
          same (first-latest_rows-hit project db f flags gone))
  | inr miss ↦ rw miss (
      first-latest_rows-miss project db f flags flag miss
      ∙ first-latest_rows project flag db flags ds)
]
