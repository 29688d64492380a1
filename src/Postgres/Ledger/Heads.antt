-- ===== src/Postgres/Ledger/Heads.antt =====
-- The heads and their versions after one of them is updated.
use plk_memory.Base.{
  ℕ, ◌+◌, String, Bool, true, false, ◌&&◌, Option, none, some, List, [], ◌∷◌, ◌≡◌, refl, ◌==◌, inl,
  inr, nat_eq, string_eq, if◌then◌else◌, arith, eq_iff, Bool-cases, ◌∙◌,
}
use plk_memory.Postgres.Schema.{FactRow}
use plk_memory.Postgres.Tables.{count_where, update_where, fact_key, find_fact}
use plk_memory.Postgres.Tables.Laws.{
  UniqueFacts, updated, first_where-update_where, count_where-find_fact, fact_key-eq,
  first_where-holds,
}
use plk_memory.Postgres.Ledger.{head_version}
use plk_memory.Postgres.Ledger.Versions.{head_version-some}

abbrev pub at_version : ℕ → String → ℕ → FactRow → Bool
at_version org fact_id n r = fact_key org fact_id r && r.current_version == n

-- An UPDATE that leaves the key alone and sets the version to n + 1.
pub record Advances (n : ℕ) (set : FactRow → FactRow) : Type 0 where
  pub keeps_org : (r : FactRow) → (set r).organization_id ≡ r.organization_id
  pub keeps_fact : (r : FactRow) → (set r).fact_id ≡ r.fact_id
  pub sets_version : (r : FactRow) → (set r).current_version ≡ n + 1

module _ (org : ℕ) (fact_id : String) (n : ℕ) (set : FactRow → FactRow) (adv : Advances n set) where
  set-fact_key : (o : ℕ) (f : String) (r : FactRow) → fact_key o f (set r) ≡ fact_key o f r
  set-fact_key o f r = rw (adv.keeps_org r, adv.keeps_fact r)

  find_fact-update :
      (o : ℕ) (f : String) (facts : List FactRow)
      → find_fact o f (update_where (at_version org fact_id n) set facts)
        ≡ updated (at_version org fact_id n) set (find_fact o f facts)
  unfolding find_fact
  find_fact-update o f facts =
      first_where-update_where (fact_key o f) (at_version org fact_id n) set (set-fact_key o f)
        facts

  keeps_none :
      (r : FactRow) (o : Option FactRow)
      → o ≡ none
      → updated (at_version org fact_id n) set o ≡ none
  keeps_none r o e = rw e

  pub UniqueFacts-update :
      (facts : List FactRow)
      → UniqueFacts facts
      → UniqueFacts (update_where (at_version org fact_id n) set facts)
  unfolding update_where
  UniqueFacts-update [] u = tt
  UniqueFacts-update (r ∷ rs) u = (head ((at_version org fact_id n) r), UniqueFacts-update rs u.1)
    where
      gone :
          find_fact r.organization_id r.fact_id (update_where (at_version org fact_id n) set rs)
          ≡ none
      gone = rw (find_fact-update, u.0)

      head :
          (b : Bool)
          → find_fact
              (if b then set r else r).organization_id
              (if b then set r else r).fact_id
              (update_where (at_version org fact_id n) set rs)
            ≡ none
      head true = rw (adv.keeps_org r, adv.keeps_fact r) gone
      head false = gone

  module _ (facts : List FactRow) (u : UniqueFacts facts)
      (one : count_where (at_version org fact_id n) facts ≡ 1) where
    found : (r : FactRow) × (find_fact org fact_id facts ≡ some r) × (r.current_version == n ≡ true)
    found = count_where-find_fact org fact_id (λ r. r.current_version == n) facts u one

    pub head_version-before : head_version org fact_id facts ≡ n
    head_version-before =
        let (r, e, v) = found in ground (arith, head_version-some org fact_id facts r)

    head_version-other :
        (o : ℕ) (f : String) (x : Option FactRow)
        → find_fact o f facts ≡ x
        → org == o && fact_id == f ≡ false
        → updated (at_version org fact_id n) set x ≡ x
    unfolding find_fact
    head_version-other o f none e miss = refl
    head_version-other o f (some r) e miss =
        let k : fact_key o f r ≡ true = first_where-holds (fact_key o f) facts r e in
        let (eo, ef) = fact_key-eq o f r k in
        ground (arith, eo, ef, eq_iff r.fact_id fact_id, eq_iff fact_id f)

    head_version-moved :
        head_version org fact_id (update_where (at_version org fact_id n) set facts) ≡ n + 1
    head_version-moved =
        let (r, e, v) = found in
        let k : fact_key org fact_id r ≡ true =
          first_where-holds (fact_key org fact_id) facts r (unfold find_fact in e) in
        head_version-some org fact_id _ (set r) (rw (find_fact-update org fact_id facts, e, k, v))
        ∙ adv.sets_version r

    pub find_fact-kept :
        (o : ℕ) (f : String)
        → org == o && fact_id == f ≡ false
        → find_fact o f (update_where (at_version org fact_id n) set facts) ≡ find_fact o f facts
    find_fact-kept o f miss =
        find_fact-update o f facts ∙ head_version-other o f (find_fact o f facts) refl miss

    head_version-kept :
        (o : ℕ) (f : String)
        → org == o && fact_id == f ≡ false
        → head_version o f (update_where (at_version org fact_id n) set facts)
          ≡ head_version o f facts
    unfolding head_version
    head_version-kept o f miss = rw (find_fact-kept o f miss, head_version)

    pub head_version-after :
        (o : ℕ) (f : String)
        → head_version o f (update_where (at_version org fact_id n) set facts)
          ≡ (if org == o && fact_id == f then n + 1 else head_version o f facts)
    head_version-after o f = elim (Bool-cases (org == o && fact_id == f)) [
      | inl same ↦
          let eo : org ≡ o = ground arith in
          let ef : fact_id ≡ f = ground (arith, eq_iff fact_id f) in
          rw same (rw (← eo, ← ef) head_version-moved)
      | inr miss ↦ rw miss (head_version-kept o f miss)
    ]
