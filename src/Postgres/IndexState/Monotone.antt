-- ===== src/Postgres/IndexState/Monotone.antt =====
-- The checkpoint of a fact never goes back.
use plk_memory.Base.{
  refl, [], ◌∷◌, string_eq, List, ℕ, ◌≡◌, nat_eq, Bool, true, false, arith, ltb, eq_iff, some, none,
  Option, String, if◌then◌else◌, ◌≤◌, ◌==◌, ◌&&◌, Bool-cases, inl, max, inr, sym, ==_refl,
  Option-cases,
}
use plk_memory.Domain.{IndexEntry}
use plk_memory.Postgres.Schema.{ProjectionRow, Db}
use plk_memory.Postgres.Session.{◌>>=◌}
use plk_memory.Ports.{ok}
use plk_memory.Postgres.Tables.{first_where, update_where}
use plk_memory.Postgres.IndexState.{projection_key, row_of, upsert_row, put_if_newer, overwrite}

abbrev pub version_in : Option ProjectionRow → ℕ
version_in none = 0
version_in (some r) = r.indexed_version

-- The version that the index has of a fact; 0 where it has none.
unfoldable pub indexed : String → ℕ → String → Db → ℕ
unfolding first_where
indexed backend org fact_id db =
    version_in (first_where (projection_key backend org fact_id) db.projections)

found_after :
    (backend : String) (org : ℕ) (fact_id : String) (new : ProjectionRow)
    (rows : List ProjectionRow)
    → new.backend ≡ backend
    → version_in (
        first_where
          (projection_key backend org fact_id)
          (update_where (projection_key backend new.organization_id new.fact_id) (λ r. new) rows))
      ≡ (if projection_key backend org fact_id new
          then version_in (elim (first_where (projection_key backend org fact_id) rows) [
            | none ↦ none
            | some r ↦ some new
          ])
          else version_in (first_where (projection_key backend org fact_id) rows))
unfolding first_where update_where
found_after backend org fact_id new [] e = ground arith
found_after backend org fact_id new (r ∷ rs) e = ground (
  arith,
  e,
  found_after backend org fact_id new rs e,
  eq_iff new.fact_id fact_id,
  eq_iff r.fact_id new.fact_id,
  eq_iff r.fact_id fact_id,
  eq_iff r.backend backend,
  eq_iff new.backend backend,
)

-- What `put_if_newer` does with an entry of version `v` where the index has version `have`.
pub record IsPut (backend : String) (e : IndexEntry) (db : Db) (written : Bool) (db' : Db)
    : Type 0 where
  -- it tells whether the entry was newer
  pub told : written ≡ ltb (indexed backend e.organization_id e.fact_id db) e.indexed_revision
  -- afterwards the index has the newer version of that fact, and of every other what it had
  pub newer :
      (org : ℕ) (fact_id : String)
      → indexed backend org fact_id db' ≡ (
          if e.organization_id == org && e.fact_id == fact_id
          then max (indexed backend org fact_id db) e.indexed_revision
          else indexed backend org fact_id db)
  -- no other table is written
  pub only : db' ≡ record db { projections = db'.projections }

module _ (backend : String) (e : IndexEntry) (ev : ℕ) (db : Db)
    (positive : 1 ≤ e.indexed_revision) where
  abbrev new : ProjectionRow
  new = row_of backend e ev

  abbrev before : Option ProjectionRow
  before = first_where (projection_key backend e.organization_id e.fact_id) db.projections

  inserted :
      before ≡ none → IsPut backend e db true (record db { projections = new ∷ db.projections })
  unfolding indexed first_where
  inserted free = record {
    told = rw free (ground arith);
    newer = λ org fact_id. elim (Bool-cases (e.organization_id == org && e.fact_id == fact_id)) [
      | inl same ↦
          let o : e.organization_id ≡ org = ground arith in
          let f : e.fact_id ≡ fact_id = ground (arith, eq_iff e.fact_id fact_id) in
          let fr : first_where (projection_key backend org fact_id) db.projections ≡ none =
            rw (o, f) at free in
          ground (arith, fr, ==_refl backend)
      | inr other ↦ ground arith
    ];
    only = refl;
  }

  overwritten :
      (old : ProjectionRow)
      → before ≡ some old
      → ltb old.indexed_version e.indexed_revision ≡ true
      → IsPut backend e db true (record db {
        projections =
            update_where
              (projection_key backend e.organization_id e.fact_id)
              (λ r. new)
              db.projections;
      })
  unfolding indexed first_where update_where
  overwritten old there less = record {
    told = rw there (sym less);
    newer = λ org fact_id. elim (Bool-cases (e.organization_id == org && e.fact_id == fact_id)) [
      | inl same ↦
          let o : e.organization_id ≡ org = ground arith in
          let f : e.fact_id ≡ fact_id = ground (arith, eq_iff e.fact_id fact_id) in
          let th : first_where (projection_key backend org fact_id) db.projections ≡ some old =
            rw (o, f) at there in
          ground
            (arith, th, ==_refl backend, found_after backend org fact_id new db.projections refl)
      | inr other ↦
          ground (arith, ==_refl backend, found_after backend org fact_id new db.projections refl)
    ];
    only = refl;
  }

  unchanged :
      (old : ProjectionRow)
      → before ≡ some old
      → ltb old.indexed_version e.indexed_revision ≡ false
      → IsPut backend e db false db
  unfolding indexed first_where
  unchanged old there less = record {
    told = rw there (sym less);
    newer = λ org fact_id. elim (Bool-cases (e.organization_id == org && e.fact_id == fact_id)) [
      | inl same ↦
          let o : e.organization_id ≡ org = ground arith in
          let f : e.fact_id ≡ fact_id = ground (arith, eq_iff e.fact_id fact_id) in
          let th : first_where (projection_key backend org fact_id) db.projections ≡ some old =
            rw (o, f) at there in
          ground (arith, th)
      | inr other ↦ ground arith
    ];
    only = refl;
  }

  -- With an event and a positive version `put_if_newer` returns, and of every fact the index then
  -- has a version that is not smaller: the entry's, if that is the newer one of its fact.
  pub put_if_newer-IsPut :
      e.last_event_id ≡ some ev
      → (written : Bool) × (db' : Db) × (put_if_newer backend e db ≡ ok (written, db'))
        × IsPut backend e db written db'
  unfolding put_if_newer upsert_row overwrite ◌>>=◌
  put_if_newer-IsPut has = elim (Option-cases before) [
    | inl free ↦ (true, _, rw (has, free) refl, inserted free)
    | inr (old, there) ↦ elim (Bool-cases (ltb old.indexed_version e.indexed_revision)) [
      | inl less ↦ (true, _, rw (has, there, less) refl, overwritten old there less)
      | inr less ↦ (false, db, rw (has, there, less) refl, unchanged old there less)
    ]
  ]
