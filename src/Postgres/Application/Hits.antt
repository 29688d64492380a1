-- ===== src/Postgres/Application/Hits.antt =====
-- postgres/application.py: the hits that the loop over the candidates collects.
use plk_memory.Base.{
  ◌≡◌, refl, ℕ, String, Bool, true, Option, none, some, List, [], ◌∷◌, arith, eq_iff, All,
  Option-cases, max, length, ◌≤◌, inl, inr, ◌+◌, Bool-cases, subst, ◌<◌, sym, ap, leb, string_eq,
}
use plk_memory.Domain.{FactRecord, IndexCandidate}
use plk_memory.Postgres.Repository.Queries.{record_by_id, pick}
use plk_memory.Postgres.Application.{by_id, SearchHit, search_hit, shown, collect}

record_by_id-id :
    (fact_id : String) (rs : List FactRecord) (r : FactRecord)
    → record_by_id fact_id rs ≡ some r
    → r.id ≡ fact_id
unfolding record_by_id
record_by_id-id fact_id [] r h = absurd (cc h)
record_by_id-id fact_id (x ∷ xs) r h =
    ground (arith, record_by_id-id fact_id xs r, eq_iff x.id fact_id, eq_iff r.id fact_id)

-- The record is the one that the id finds among all.
abbrev pub IsOf : List FactRecord → FactRecord → Type 0
IsOf rs r = record_by_id r.id rs ≡ some r

pub pick-IsOf : (ids : List String) (rs : List FactRecord) → All (IsOf rs) (pick ids rs)
unfolding pick
pick-IsOf [] rs = tt
pick-IsOf (i ∷ is) rs = elim (Option-cases (record_by_id i rs)) [
  | inl gone ↦ rw (gone, All) (pick-IsOf is rs)
  | inr (r, there) ↦
      rw (there, All)
        (
          subst (λ k. record_by_id k rs ≡ some r) (sym (record_by_id-id i rs r there)) there,
          pick-IsOf is rs,
        )
]

pub by_id-All :
    (P : FactRecord → Type 0) (fact_id : String) (rs : List FactRecord) (r : FactRecord)
    → All P rs
    → by_id fact_id rs ≡ some r
    → P r
unfolding by_id
by_id-All P fact_id [] r all h = absurd (cc h)
by_id-All P fact_id (x ∷ xs) r all h = elim (Option-cases (by_id fact_id xs)) [
  | inr (y, later) ↦
      let same : y ≡ r = ground (arith, later) in
      subst P same (by_id-All P fact_id xs y all.1 later)
  | inl last ↦ let same : x ≡ r = ground (arith, last) in subst P same all.0
]

shown-inv :
    (test : FactRecord → Bool) (o : Option FactRecord) (r : FactRecord)
    → shown test o ≡ some r
    → (o ≡ some r) × (test r ≡ true)
shown-inv test none r h = absurd (cc h)
shown-inv test (some x) r h = elim (Bool-cases (test x)) [
  | inl yes_shown ↦
      let same : x ≡ r = ground arith in (ap some same, subst (λ y. test y ≡ true) same yes_shown)
  | inr hidden ↦ absurd (ground arith)
]

module _ {Score : Type 0} (test : FactRecord → Bool) where
  -- The hit shows a record that passes the test.
  pub record IsFrom (P : FactRecord → Type 0) (hit : SearchHit Score) : Type 0 where
    pub r : FactRecord
    pub holds : P r
    pub passes : test r ≡ true
    pub shows : hit ≡ search_hit r hit.score

module _ {Score : Type 0} (test : FactRecord → Bool) (records : List FactRecord) (limit : ℕ) where
  pub collect-IsFrom :
      (P : FactRecord → Type 0) (count : ℕ) (cs : List (IndexCandidate Score))
      → All P records
      → All (IsFrom test P) (collect test records limit count cs)
  unfolding collect
  collect-IsFrom P count [] all = tt
  collect-IsFrom P count (c ∷ cs) all = elim (Option-cases (shown test (by_id c.fact_id records))) [
    | inl hidden ↦ rw (hidden, All) (collect-IsFrom P count cs all)
    | inr (r, seen) ↦
        let (there, passes) = shown-inv test (by_id c.fact_id records) r seen in
        let first : IsFrom test P (search_hit r c.score) = record {
          r = r;
          holds = by_id-All P c.fact_id records r all there;
          passes = passes;
          shows = refl;
        } in
        elim (Bool-cases (leb limit (count + 1))) [
          | inl full ↦ rw (seen, full, All) (first, tt)
          | inr more ↦ rw (seen, more, All) (first, collect-IsFrom P (count + 1) cs all)
        ]
  ]

  pub length-collect :
      (count : ℕ) (cs : List (IndexCandidate Score))
      → count < max limit 1
      → count + length (collect test records limit count cs) ≤ max limit 1
  unfolding collect
  length-collect count [] h = omega (arith, h)
  length-collect count (c ∷ cs) h = elim (Option-cases (shown test (by_id c.fact_id records))) [
    | inl hidden ↦ rw (hidden, length) (length-collect count cs h)
    | inr (r, seen) ↦ elim (Bool-cases (leb limit (count + 1))) [
      | inl full ↦ rw (seen, full, length) (omega (arith, h))
      | inr more ↦
          let below : count + 1 < max limit 1 = ground arith in
          let rest = length-collect (count + 1) cs below in
          rw (seen, more, length) (omega (arith, rest))
    ]
  ]
