-- ===== src/Store/Postgres/Ordered.antt =====
-- `ORDER BY` and `DISTINCT ON` of `ListLatestFlagVersions`: what they list of a flag.
use false_flag_demo.Base.{
  ◌≤◌, ◌<◌, Bool, false, ◌≡◌, refl, ◌∙◌, Option, none, some, List, [], ◌∷◌, arith, ltb, ◌==◌, All,
  first, order_by, insert_by, if◌then◌else◌, ltb→lt, Bool-cases, inl, inr,
}
use false_flag_demo.Store.{Uuid, LatestFlagVersion}
use false_flag_demo.Store.Postgres.Lookups.{row_before, distinct_after, distinct_on}

abbrev pub row_of : Uuid → LatestFlagVersion → Bool
row_of flag r = r.flag_id == flag

-- The later of a row and what is known to be the latest, the row where they are alike.
abbrev pub later : LatestFlagVersion → Option LatestFlagVersion → Option LatestFlagVersion
later r none = some r
later r (some s) = if ltb r.version s.version then some s else some r

-- The rows of no smaller flag follow.
abbrev pub IsSorted : List LatestFlagVersion → Type 0
IsSorted [] = Unit
IsSorted (r ∷ rows) = All (λ (s : LatestFlagVersion). r.flag_id ≤ s.flag_id) rows × IsSorted rows

first-distinct_after :
    (flag other : Uuid) (rows : List LatestFlagVersion)
    → (other == flag) ≡ false
    → first (row_of flag) (distinct_after other rows) ≡ first (row_of flag) rows
unfolding distinct_after first
first-distinct_after flag other [] h = refl
first-distinct_after flag other (r ∷ rows) h = elim (Bool-cases (r.flag_id == flag)) [
  | inl hit ↦ ground arith
  | inr miss ↦ ground (arith, first-distinct_after flag r.flag_id rows miss)
]

first_above :
    (flag low : Uuid) (rows : List LatestFlagVersion)
    → flag < low
    → All (λ (s : LatestFlagVersion). low ≤ s.flag_id) rows
    → first (row_of flag) rows ≡ none
unfolding first
first_above flag low [] h above = refl
first_above flag low (r ∷ rows) h (least, above) = ground (arith, first_above flag low rows h above)

first-insert_by-hit :
    (flag : Uuid) (r : LatestFlagVersion) (rows : List LatestFlagVersion)
    → r.flag_id ≡ flag
    → IsSorted rows
    → first (row_of flag) (insert_by row_before r rows) ≡ later r (first (row_of flag) rows)
unfolding first insert_by
first-insert_by-hit flag r [] h sorted = ground arith
first-insert_by-hit flag r (s ∷ rows) h (above, sorted) = elim (Bool-cases (ltb flag s.flag_id)) [
  | inl behind ↦
      ground (arith, first_above flag s.flag_id rows (ltb→lt flag s.flag_id behind) above)
  | inr ahead ↦ ground (arith, first-insert_by-hit flag r rows h sorted)
]

first-insert_by-miss :
    (flag : Uuid) (r : LatestFlagVersion) (rows : List LatestFlagVersion)
    → (r.flag_id == flag) ≡ false
    → first (row_of flag) (insert_by row_before r rows) ≡ first (row_of flag) rows
unfolding first insert_by
first-insert_by-miss flag r [] h = ground arith
first-insert_by-miss flag r (s ∷ rows) h = ground (arith, first-insert_by-miss flag r rows h)

All-above :
    (low least : Uuid) (rows : List LatestFlagVersion)
    → low ≤ least
    → All (λ (s : LatestFlagVersion). least ≤ s.flag_id) rows
    → All (λ (s : LatestFlagVersion). low ≤ s.flag_id) rows
All-above low least [] h above = tt
All-above low least (s ∷ rows) h (k, above) = (omega arith, All-above low least rows h above)

All-insert_by {κ} :
    (P : LatestFlagVersion → Type κ) (r : LatestFlagVersion) (rows : List LatestFlagVersion)
    → P r
    → All P rows
    → All P (insert_by row_before r rows)
unfolding insert_by
All-insert_by P r [] h hs = (h, tt)
All-insert_by P r (s ∷ rows) h (k, hs) = elim (Bool-cases (row_before s r)) [
  | inl sooner ↦ rw sooner (k, All-insert_by P r rows h hs)
  | inr after ↦ rw after (h, (k, hs))
]

insert_by-IsSorted :
    (r : LatestFlagVersion) (rows : List LatestFlagVersion)
    → IsSorted rows
    → IsSorted (insert_by row_before r rows)
unfolding insert_by
insert_by-IsSorted r [] sorted = (tt, tt)
insert_by-IsSorted r (s ∷ rows) (above, sorted) = elim (Bool-cases (row_before s r)) [
  | inl sooner ↦ rw sooner (
    All-insert_by (λ x. s.flag_id ≤ x.flag_id) r rows (ground arith) above,
    insert_by-IsSorted r rows sorted,
  )
  | inr after ↦
      let least : r.flag_id ≤ s.flag_id = ground arith in
      rw after ((least, All-above r.flag_id s.flag_id rows least above), (above, sorted))
]

pub order_by-IsSorted : (rows : List LatestFlagVersion) → IsSorted (order_by row_before rows)
unfolding order_by
order_by-IsSorted [] = tt
order_by-IsSorted (r ∷ rows) = insert_by-IsSorted r _ (order_by-IsSorted rows)

-- The latest row of a flag, among rows in any order.
unfoldable pub latest_of : Uuid → List LatestFlagVersion → Option LatestFlagVersion
latest_of flag [] = none
latest_of flag (r ∷ rows) =
    let rest = latest_of flag rows in if r.flag_id == flag then later r rest else rest

pub first-order_by :
    (flag : Uuid) (rows : List LatestFlagVersion)
    → first (row_of flag) (order_by row_before rows) ≡ latest_of flag rows
unfolding order_by first latest_of
first-order_by flag [] = refl
first-order_by flag (r ∷ rows) =
    let sorted = order_by-IsSorted rows in
    let ih = first-order_by flag rows in
    elim (Bool-cases (r.flag_id == flag)) [
      | inl hit ↦
          let same : r.flag_id ≡ flag = ground arith in
          first-insert_by-hit flag r (order_by row_before rows) same sorted ∙ rw (hit, ih) refl
      | inr miss ↦ first-insert_by-miss flag r (order_by row_before rows) miss ∙ rw (miss, ih) refl
    ]

-- What Postgres lists of a flag.
pub first-distinct_on :
    (flag : Uuid) (rows : List LatestFlagVersion)
    → first (row_of flag) (distinct_on rows) ≡ first (row_of flag) rows
unfolding distinct_on first
first-distinct_on flag [] = refl
first-distinct_on flag (r ∷ rows) = elim (Bool-cases (r.flag_id == flag)) [
  | inl hit ↦ rw hit refl
  | inr miss ↦ rw (first-distinct_after flag r.flag_id rows miss) refl
]

-- No two rows are of one flag, and they are listed by its id.
abbrev pub IsIncreasing : List LatestFlagVersion → Type 0
IsIncreasing [] = Unit
IsIncreasing (r ∷ rows) =
    All (λ (s : LatestFlagVersion). r.flag_id < s.flag_id) rows × IsIncreasing rows

All-beyond :
    (low least : Uuid) (rows : List LatestFlagVersion)
    → low ≤ least
    → All (λ (s : LatestFlagVersion). least < s.flag_id) rows
    → All (λ (s : LatestFlagVersion). low < s.flag_id) rows
All-beyond low least [] h above = tt
All-beyond low least (s ∷ rows) h (k, above) = (omega arith, All-beyond low least rows h above)

distinct_after-IsIncreasing :
    (other : Uuid) (rows : List LatestFlagVersion)
    → All (λ (s : LatestFlagVersion). other ≤ s.flag_id) rows
    → IsSorted rows
    → All (λ (s : LatestFlagVersion). other < s.flag_id) (distinct_after other rows)
      × IsIncreasing (distinct_after other rows)
unfolding distinct_after
distinct_after-IsIncreasing other [] low sorted = (tt, tt)
distinct_after-IsIncreasing other (r ∷ rows) (least, low) (above, sorted) =
    let (beyond, increasing) = distinct_after-IsIncreasing r.flag_id rows above sorted in
    elim (Bool-cases (r.flag_id == other)) [
      | inl hit ↦
          let least : other ≤ r.flag_id = ground arith in
          rw hit (All-beyond other r.flag_id _ least beyond, increasing)
      | inr miss ↦
          let less : other < r.flag_id = ground arith in
          rw miss ((less, All-beyond other r.flag_id _ least beyond), (beyond, increasing))
    ]

pub distinct_on-IsIncreasing :
    (rows : List LatestFlagVersion) → IsSorted rows → IsIncreasing (distinct_on rows)
unfolding distinct_on
distinct_on-IsIncreasing [] sorted = tt
distinct_on-IsIncreasing (r ∷ rows) (above, sorted) =
    distinct_after-IsIncreasing r.flag_id rows above sorted
