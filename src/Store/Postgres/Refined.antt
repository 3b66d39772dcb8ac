-- ===== src/Store/Postgres/Refined.antt =====
-- The Postgres backend against SQLite's: a transaction that it commits is one that SQLite takes.
use text.Mathlib.Text.{◌==◌ as str_eq}
use false_flag_demo.Base.{
  ℕ, ◌<◌, String, Bool, true, false, Option, some, ◌≡◌, refl, ◌∙◌, ap, List, [], ◌∷◌, arith, All,
  Option-cases, inl, inr,
}
use false_flag_demo.Base.Result.{ok, >>=-eq-ok, ok-injective}
use false_flag_demo.Store.{
  Flag, FlagVersion, AuditEvent, Segment, Snapshot, AppendAuditParams, CreateFlagParams,
  PublishFlagVersionParams, CreateSegmentParams, UpdateSegmentParams, CompileSnapshotParams, Db,
  Fresh,
}
use false_flag_demo.Store.Queries as Sqlite
use false_flag_demo.Store.Queries.{Sql}
use false_flag_demo.Store.Postgres.Queries as Pg
use false_flag_demo.Store.Postgres.Tx as PgTx
use false_flag_demo.Store.Tx as SqliteTx
use false_flag_demo.Store.Tx.{Attempt}
use false_flag_demo.Values.{RawMessage}

pub constrained-eq-ok :
    {A : Type 0} (guards : List (Bool × String)) (row a : A) (db db' : Db)
    → Pg.constrained guards row db ≡ ok (a, db')
    → (a ≡ row) × (db' ≡ db) × All (λ g. g.0 ≡ false) guards
unfolding Pg.constrained
constrained-eq-ok [] row a db db' e = (cc, cc, tt)
constrained-eq-ok ((true, code) ∷ rest) row a db db' e = cc
constrained-eq-ok ((false, code) ∷ rest) row a db db' e =
    let (same, there, clear) = constrained-eq-ok rest row a db db' e in (same, there, (refl, clear))

constrained_clear :
    {A : Type 0} (guards : List (Bool × ℕ)) (row : A) (db : Db)
    → All (λ g. g.0 ≡ false) guards
    → Sqlite.constrained guards row db ≡ ok (row, db)
unfolding Sqlite.constrained
constrained_clear [] row db clear = refl
constrained_clear ((b, code) ∷ rest) row db (h, clear) = rw h (constrained_clear rest row db clear)

-- A write under the same constraints, whatever the engine reports of a violation.
pub constrained_alike :
    {A : Type 0} (guards : List (Bool × String)) (others : List (Bool × ℕ)) (row a : A)
    (db db' : Db)
    → (All (λ g. g.0 ≡ false) guards → All (λ g. g.0 ≡ false) others)
    → Pg.constrained guards row db ≡ ok (a, db')
    → Sqlite.constrained others row db ≡ ok (a, db')
constrained_alike guards others row a db db' alike e =
    let (same, there, clear) = constrained-eq-ok guards row a db db' e in
    rw (same, there) (constrained_clear others row db (alike clear))

int4-eq-ok : (n m : ℕ) → Pg.int4 n ≡ ok m → (m ≡ n) × (n < 2147483648)
unfolding Pg.int4
int4-eq-ok n m e = ground arith

module _ (jsonb : RawMessage → Option RawMessage)
    (written : (raw kept : RawMessage) → jsonb raw ≡ some kept → str_eq kept "" ≡ false) (f : Fresh)
    (db db' : Db) where
  -- SQLite keeps what a `jsonb` column keeps as it is.
  stored-raw_message :
      (raw kept : RawMessage) → Pg.stored jsonb raw ≡ ok kept → SqliteTx.raw_message kept ≡ kept
  stored-raw_message raw kept e = elim (Option-cases (jsonb raw)) [
    | inl refused ↦ cc
    | inr (m, took) ↦
        let same : m ≡ kept = ok-injective (rw (took, Pg.stored) at e) in
        rw (written raw kept (took ∙ ap some same)) refl
  ]

  pub create_flag-eq-ok :
      (p : CreateFlagParams) (x : Flag)
      → PgTx.create_flag jsonb f p db ≡ ok (x, db')
      → (q : CreateFlagParams) × (SqliteTx.create_flag f q db ≡ ok (x, db'))
  unfolding PgTx.create_flag Pg.insert_flag SqliteTx.create_flag Sqlite.insert_flag
  create_flag-eq-ok p x e =
      let (kept, took, e₁) = >>=-eq-ok (Pg.stored jsonb p.default_value) _ e in
      (
        record p { default_value = kept },
        rw (stored-raw_message _ kept took) (constrained_alike _ _ _ x _ db' (λ c. c) e₁),
      )

  pub create_segment-eq-ok :
      (p : CreateSegmentParams) (x : Segment)
      → PgTx.create_segment jsonb f p db ≡ ok (x, db')
      → (q : CreateSegmentParams) × (SqliteTx.create_segment f q db ≡ ok (x, db'))
  unfolding PgTx.create_segment Pg.insert_segment SqliteTx.create_segment Sqlite.insert_segment
  create_segment-eq-ok p x e =
      let (kept, took, e₁) = >>=-eq-ok (Pg.stored jsonb p.predicate) _ e in
      (
        record p { predicate = kept },
        rw (stored-raw_message _ kept took) (constrained_alike _ _ _ x _ db' (λ c. c) e₁),
      )

  pub update_segment-eq-ok :
      (p : UpdateSegmentParams) (x : Segment)
      → PgTx.update_segment jsonb f p db ≡ ok (x, db')
      → (q : UpdateSegmentParams) × (SqliteTx.update_segment f q db ≡ ok (x, db'))
  unfolding PgTx.update_segment Pg.update_segment SqliteTx.update_segment
  update_segment-eq-ok p x e =
      let (kept, took, e₁) = >>=-eq-ok (Pg.stored jsonb p.predicate) _ e in
      (record p { predicate = kept }, rw (stored-raw_message _ kept took) e₁)

  pub append_audit-eq-ok :
      (p : AppendAuditParams) (x : AuditEvent)
      → PgTx.append_audit jsonb f p db ≡ ok (x, db')
      → (q : AppendAuditParams) × (SqliteTx.append_audit f q db ≡ ok (x, db'))
  unfolding PgTx.append_audit Pg.insert_audit_event SqliteTx.append_audit Sqlite.insert_audit_event
  append_audit-eq-ok p x e =
      let (kept, took, e₁) = >>=-eq-ok (Pg.stored jsonb (PgTx.audit_insert_params p).payload) _ e in
      (
        record p { payload = kept },
        rw (stored-raw_message _ kept took) (constrained_alike _ _ _ x _ db' (λ c. c) e₁),
      )

  pub publish_flag_version-eq-ok :
      (p : PublishFlagVersionParams) (x : FlagVersion)
      → PgTx.publish_flag_version jsonb f p db ≡ ok (x, db')
      → (q : PublishFlagVersionParams) × (q.flag_id ≡ p.flag_id)
        × (SqliteTx.publish_flag_version f q db ≡ ok (x, db'))
        × (Sqlite.next_flag_version p.flag_id db < 2147483648)
  unfolding PgTx.publish_flag_version Pg.next_flag_version Pg.insert_flag_version
      SqliteTx.publish_flag_version Sqlite.insert_flag_version
  publish_flag_version-eq-ok p x e =
      let (n, numbered, e₁) = >>=-eq-ok (Pg.int4 (Sqlite.next_flag_version p.flag_id db)) _ e in
      let (same, bound) = int4-eq-ok (Sqlite.next_flag_version p.flag_id db) n numbered in
      let (source, took, e₂) = >>=-eq-ok (Pg.stored jsonb p.source) _ e₁ in
      let (compiled, took', e₃) = >>=-eq-ok (Pg.stored jsonb p.compiled) _ e₂ in
      (
        record p { source = source; compiled = compiled },
        refl,
        rw (stored-raw_message _ source took, stored-raw_message _ compiled took')
            (constrained_alike _ _ _ x _ db' (λ c. c) (rw same at e₃)),
        bound,
      )

  pub compile_snapshot-eq-ok :
      (p : CompileSnapshotParams) (x : Snapshot)
      → PgTx.compile_snapshot jsonb f p db ≡ ok (x, db')
      → (q : CompileSnapshotParams) × (q.project_id ≡ p.project_id)
        × (SqliteTx.compile_snapshot f q db ≡ ok (x, db'))
        × (Sqlite.next_snapshot_version p.project_id db < 2147483648)
  unfolding PgTx.compile_snapshot Pg.next_snapshot_version Pg.insert_snapshot
      SqliteTx.compile_snapshot Sqlite.insert_snapshot
  compile_snapshot-eq-ok p x e =
      let (n, numbered, e₁) =
        >>=-eq-ok (Pg.int4 (Sqlite.next_snapshot_version p.project_id db)) _ e in
      let (same, bound) = int4-eq-ok (Sqlite.next_snapshot_version p.project_id db) n numbered in
      let (kept, took, e₂) = >>=-eq-ok (Pg.stored jsonb p.compiled) _ e₁ in
      (
        record p { compiled = kept },
        refl,
        rw (stored-raw_message _ kept took)
            (constrained_alike _ _ _ x _ db' (λ c. c) (rw same at e₂)),
        bound,
      )
