-- ===== src/Postgres/Telemetry/Grounded.antt =====
-- The facts that a decision says it used.
use plk_memory.Base.{
  String, Bool, true, false, some, List, [], ◌∷◌, ◌≡◌, refl, ◌∙◌, ap, sym, subst, arith, eq_iff,
  inl, inr, ◌==◌, string_eq, ◌⊎◌, elem, any_of, All, map, ◌<◌, Option, Bool-cases,
}
use plk_memory.Ports.{Error, ok, bind_ok, or_raise, raise_if}
use plk_memory.Telemetry.{DecisionCommand, FactReference}
use plk_memory.Dict.{Dict, find, put}
use plk_memory.Dict.Laws.{find-put, find-put_same}
use mathlib.Core.List.{Memᴰ}
use plk_memory.Postgres.Telemetry.{
  External, Log, Recorded, SearchEvent, DecisionEvent, telemetry_error,
}
use plk_memory.Postgres.Telemetry.Decisions.{
  record_decision, decision_row, check_decision, check_traces, rows_of, refs_by_id, index_refs,
  used_refs, is_foreign, has_no_hits,
}
use plk_memory.Postgres.Telemetry.Decided.{
  insert_decision_report_lem, record_decision_cases, replay_decision_report_ok,
}

-- The reference was returned by one of the searches, which the client made and which had hits.
abbrev pub IsReturned : String → List String → Dict SearchEvent → FactReference → Type 0
IsReturned client ids searches ref =
    (id : String) × (row : SearchEvent) × (elem id ids ≡ true)
    × (find id searches ≡ some row)
    × Memᴰ ref row.fact_refs
    × (row.client ≡ client)
    × (row.outcome ≡ "ok")
    × (0 < row.hits)

-- A row found for one of the ids
abbrev IsFound : List String → Dict SearchEvent → SearchEvent → Type 0
IsFound ids searches row = (id : String) × (elem id ids ≡ true) × (find id searches ≡ some row)

raise_if_ok : (test : Bool) (e : Error) {done : Unit {0}} → raise_if test e ≡ ok done → test ≡ false
raise_if_ok true e h = absurd (cc h)
raise_if_ok false e h = refl

or_raise_ok {ℓ} :
    {V : Type ℓ} (o : Option V) (r : V) → or_raise o telemetry_error ≡ ok r → o ≡ some r
or_raise_ok o r h = ground arith

first_or_later :
    (id : String) (ids : List String) (searches : Dict SearchEvent) (r : SearchEvent)
    (rs : List SearchEvent) (row : SearchEvent)
    → find id searches ≡ some r
    → (Memᴰ row rs → IsFound ids searches row)
    → Memᴰ row (r ∷ rs)
    → IsFound (id ∷ ids) searches row
first_or_later id ids searches r rs row f later (Memᴰ.head e) =
    (id, ground (arith, eq_iff id id), rw e f)
first_or_later id ids searches r rs row f later (Memᴰ.tail m) =
    let (id', among, f') = later m in (id', ground (arith, among), f')

rows_of-IsFound :
    (ids : List String) (searches : Dict SearchEvent) (rows : List SearchEvent)
    → rows_of ids searches ≡ ok rows
    → (row : SearchEvent) → Memᴰ row rows
    → IsFound ids searches row
unfolding rows_of
rows_of-IsFound [] searches rows h row m =
    let none_left : rows ≡ [] = ground arith in elim (subst (λ z. Memᴰ row z) none_left m) [ ]
rows_of-IsFound (id ∷ ids) searches rows h row m =
    let (r, first, rest) = bind_ok (or_raise (find id searches) telemetry_error) _ rows h in
    let (rs, second, last) = bind_ok (rows_of ids searches) (λ rs. ok (r ∷ rs)) rows rest in
    let e : rows ≡ r ∷ rs = ground arith in
    first_or_later id ids searches r rs row (or_raise_ok (find id searches) r first)
      (rows_of-IsFound ids searches rs second row) (subst (λ z. Memᴰ row z) e m)

any_of-none :
    (test : SearchEvent → Bool) (rows : List SearchEvent) (row : SearchEvent)
    → any_of test rows ≡ false
    → Memᴰ row rows
    → test row ≡ false
any_of-none test [] row h m = elim m [ ]
any_of-none test (x ∷ rows) row h (Memᴰ.head e) =
    let here : test x ≡ false = ground arith in rw e here
any_of-none test (x ∷ rows) row h (Memᴰ.tail m) = any_of-none test rows row (ground arith) m

index_refs-Mem :
    (refs : List FactReference) (index : Dict FactReference) (key : String) (ref : FactReference)
    → find key (index_refs refs index) ≡ some ref
    → ((ref.fact_id ≡ key) × Memᴰ ref refs) ⊎ (find key index ≡ some ref)
index_refs-Mem [] index key ref h = inr h
index_refs-Mem (r ∷ refs) index key ref h =
    elim (index_refs-Mem refs (put r.fact_id r index) key ref h) [
      | inl (e, m) ↦ inl (e, Memᴰ.tail m)
      | inr f ↦ elim (Bool-cases (r.fact_id == key)) [
        | inl hit ↦
            let e : r ≡ ref = ground (arith, hit, find-put key r.fact_id r index) in
            let k : r.fact_id ≡ key = ground (arith, eq_iff r.fact_id key) in
            inl (subst (λ z. z.fact_id ≡ key) e k, Memᴰ.head (sym e))
        | inr miss ↦ inr (ground (arith, miss, find-put key r.fact_id r index))
      ]
    ]

refs_by_id-Mem :
    (rows : List SearchEvent) (index : Dict FactReference) (key : String) (ref : FactReference)
    → find key (refs_by_id rows index) ≡ some ref
    → ((ref.fact_id ≡ key) × ((row : SearchEvent) × Memᴰ row rows × Memᴰ ref row.fact_refs))
      ⊎ (find key index ≡ some ref)
unfolding refs_by_id
refs_by_id-Mem [] index key ref h = inr h
refs_by_id-Mem (r ∷ rows) index key ref h =
    elim (refs_by_id-Mem rows (index_refs r.fact_refs index) key ref h) [
      | inl (e, (row, m, n)) ↦ inl (e, (row, Memᴰ.tail m, n))
      | inr f ↦ elim (index_refs-Mem r.fact_refs index key ref f) [
        | inl (e, n) ↦ inl (e, (r, Memᴰ.head refl, n))
        | inr g ↦ inr g
      ]
    ]

-- The references of the used facts, one by one.
used_refs_lem :
    (P : FactReference → Type 0) (ids : List String) (index : Dict FactReference)
    (refs : List FactReference)
    → ((key : String) (ref : FactReference)
        → find key index ≡ some ref
        → (ref.fact_id ≡ key) × P ref)
    → used_refs ids index ≡ ok refs
    → (map (λ ref. ref.fact_id) refs ≡ ids) × All P refs
unfolding used_refs
used_refs_lem P [] index refs each h = let e : refs ≡ [] = ground arith in rw e (refl, tt)
used_refs_lem P (id ∷ ids) index refs each h =
    let (r, first, rest) = bind_ok (or_raise (find id index) telemetry_error) _ refs h in
    let (rs, second, last) = bind_ok (used_refs ids index) (λ rs. ok (r ∷ rs)) refs rest in
    let e : refs ≡ r ∷ rs = ground arith in
    let (here, p) = each id r (or_raise_ok (find id index) r first) in
    let (later, ps) = used_refs_lem P ids index rs each second in rw e (cc (here, later), (p, ps))

returned :
    (client : String) (ids : List String) (searches : Dict SearchEvent) (rows : List SearchEvent)
    → rows_of ids searches ≡ ok rows
    → any_of (is_foreign client) rows ≡ false
    → any_of has_no_hits rows ≡ false
    → (key : String) (ref : FactReference) → find key (refs_by_id rows []) ≡ some ref
    → (ref.fact_id ≡ key) × IsReturned client ids searches ref
unfolding find
returned client ids searches rows found own fruitful key ref f =
    elim (refs_by_id-Mem rows [] key ref f) [
      | inl (e, (row, m, n)) ↦
          let (id, among, at) = rows_of-IsFound ids searches rows found row m in
          let mine = any_of-none (is_foreign client) rows row own m in
          let full = any_of-none has_no_hits rows row fruitful m in
          (
            e,
            (
              id,
              row,
              among,
              at,
              n,
              ground (arith, mine, eq_iff row.client client),
              ground (arith, full, eq_iff row.outcome "ok"),
              ground (arith, full),
            ),
          )
      | inr nothing ↦ absurd (cc nothing)
    ]

module _ (ext : External) (client : String) (c : DecisionCommand) where
  check_decision-IsReturned :
      (seen : Log) (refs : List FactReference)
      → check_decision ext client c seen ≡ ok refs
      → (map (λ ref. ref.fact_id) refs ≡ c.used_fact_ids)
        × All (IsReturned client c.search_ids seen.searches) refs
  unfolding check_decision
  check_decision-IsReturned seen refs h =
      let (rows, found, h₁) = bind_ok (rows_of c.search_ids seen.searches) _ (refs) h in
      let (_, own, h₂) =
        bind_ok (raise_if (any_of (is_foreign client) rows) telemetry_error) _ refs h₁ in
      let (_, traced, h₃) = bind_ok (check_traces client c.trace_id rows seen) _ refs h₂ in
      let (_, fruitful, h₄) =
        bind_ok (raise_if (any_of has_no_hits rows) telemetry_error) _ refs h₃ in
      let (_, unresolved, h₅) =
        bind_ok _ (λ _. used_refs c.used_fact_ids (refs_by_id rows [])) refs h₄ in
      used_refs_lem (IsReturned client c.search_ids seen.searches) c.used_fact_ids
        (refs_by_id rows []) refs
        (returned client c.search_ids seen.searches rows found (raise_if_ok _ telemetry_error own)
          (raise_if_ok _ telemetry_error fruitful))
        h₅

  -- A decision that is new has been recorded with a reference for each fact it used, in their
  -- order, and each of them was returned by one of the decision's searches, which the same client
  -- had made, whose outcome is ok and which had hits.
  pub record_decision-IsReturned :
      (seen db db' : Log) (answer : Recorded)
      → record_decision ext client c seen db ≡ ok (answer, db')
      → answer.replayed ≡ false
      → (row : DecisionEvent) × (find c.decision_id db'.decisions ≡ some row)
        × (map (λ ref. ref.fact_id) row.used_fact_refs ≡ c.used_fact_ids)
        × All (IsReturned client c.search_ids seen.searches) row.used_fact_refs
  record_decision-IsReturned seen db db' answer h new =
      elim (record_decision_cases ext client c seen db db' answer h) [
        | inl (inl now, e) ↦
            absurd (cc (new, (replay_decision_report_ok ext client c seen answer now).1))
        | inl (inr now, e) ↦
            absurd (cc (new, (replay_decision_report_ok ext client c db answer now).1))
        | inr (refs, checked, inserted) ↦
            let (_, _, made, _) =
              insert_decision_report_lem ext client c refs db db' answer inserted in
            let row = decision_row ext client c refs in
            (
              row,
              ap (find c.decision_id) made ∙ find-put_same c.decision_id row db.decisions,
              (check_decision-IsReturned seen refs checked).0,
              (check_decision-IsReturned seen refs checked).1,
            )
      ]
