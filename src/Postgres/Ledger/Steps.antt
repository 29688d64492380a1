-- ===== src/Postgres/Ledger/Steps.antt =====
-- The two ways in which a fact moves on: it is created at version 1, or its head goes from one
-- version to the next. In both a revision and an event are added with the new version.
use plk_memory.Base.{
  ℕ, ◌+◌, String, Bool, true, false, ◌&&◌, none, List, [], ◌∷◌, ◌≡◌, refl, ◌==◌, All, inl, inr,
  nat_eq, string_eq, if◌then◌else◌, arith, eq_iff, Bool-cases, ==_refl, subst, ◌≤◌,
}
use plk_memory.Postgres.Schema.{FactRow, RevisionRow, OutboxRow, ApprovalRow, Db}
use plk_memory.Postgres.Tables.{find_fact, count_where, update_where, find_revision, revision_key}
use plk_memory.Postgres.Ledger.Versions.{head_version-some}
use plk_memory.Postgres.Tables.Laws.{UniqueFacts}
use plk_memory.Postgres.Ledger.{head_version, in_range, Pins, Pinned, IsConsistent, IsPinnedRequest}

-- A new revision hides none that a head leads to.
Pinned-grow :
    (new : RevisionRow) (h : FactRow) (revisions : List RevisionRow)
    → find_revision new.organization_id new.revision_id revisions ≡ none
    → Pinned revisions h
    → Pinned (new ∷ revisions) h
unfolding find_revision
Pinned-grow new h revisions free pins =
    elim (Bool-cases (revision_key h.organization_id h.current_revision_id new)) [
      | inl hit ↦ absurd (subst (Pins h) (gone hit) pins)
      | inr miss ↦ rw miss pins
    ]
  where
    gone :
        revision_key h.organization_id h.current_revision_id new ≡ true
        → find_revision h.organization_id h.current_revision_id revisions ≡ none
    gone hit =
        let o : new.organization_id ≡ h.organization_id = ground arith in
        let i : new.revision_id ≡ h.current_revision_id = ground arith in rw (← o, ← i) free

pub All-Pinned-grow :
    (new : RevisionRow) (revisions : List RevisionRow) (facts : List FactRow)
    → find_revision new.organization_id new.revision_id revisions ≡ none
    → All (Pinned revisions) facts
    → All (Pinned (new ∷ revisions)) facts
All-Pinned-grow new revisions [] free pins = tt
All-Pinned-grow new revisions (h ∷ hs) free pins =
    (Pinned-grow new h revisions free pins.0, All-Pinned-grow new revisions hs free pins.1)

pub All-Pinned-update :
    (revisions : List RevisionRow) (test : FactRow → Bool) (f : FactRow → FactRow)
    (facts : List FactRow)
    → All (λ h. test h ≡ true → Pinned revisions (f h)) facts
    → All (Pinned revisions) facts
    → All (Pinned revisions) (update_where test f facts)
unfolding update_where
All-Pinned-update revisions test f [] moved pins = tt
All-Pinned-update revisions test f (h ∷ hs) moved pins =
    (one (test h) refl, All-Pinned-update revisions test f hs moved.1 pins.1)
  where
    one : (b : Bool) → test h ≡ b → Pinned revisions (if b then f h else h)
    one true e = moved.0 e
    one false e = pins.0

in_range-next : (v n : ℕ) → in_range v (n + 1) ≡ (if (n + 1) == v then 1 else 0) + in_range v n
in_range-next v n = ground arith

-- One more row with version n + 1 for one fact, seen from the versions of any fact.
one_more :
    (same_org same_fact : Bool) (v n hv c : ℕ)
    → (same_org && same_fact ≡ true → hv ≡ n)
    → c ≡ in_range v hv
    → (if same_org && same_fact && (n + 1) == v then 1 else 0) + c
      ≡ in_range v (if same_org && same_fact then n + 1 else hv)
one_more true true v n hv c at h = ground (arith, at refl, in_range-next v n)
one_more true false v n hv c at h = omega arith
one_more false same_fact v n hv c at h = omega arith

-- The rows that a step adds carry the fact's id and the next version.
pub record Announces (org : ℕ) (fact_id : String) (n : ℕ) (r : RevisionRow) (e : OutboxRow)
    : Type 0 where
  pub r_org : r.organization_id ≡ org
  pub r_fact : r.fact_id ≡ fact_id
  pub r_version : r.version ≡ n + 1
  pub e_org : e.organization_id ≡ org
  pub e_fact : e.aggregate_id ≡ fact_id
  pub e_version : e.aggregate_version ≡ n + 1

module _ (org : ℕ) (fact_id : String) (n : ℕ) (r : RevisionRow) (e : OutboxRow)
    (adds : Announces org fact_id n r e) (db : Db) (c : IsConsistent db) (facts : List FactRow)
    (before : head_version org fact_id db.facts ≡ n)
    (after : (o : ℕ) (f : String)
      → head_version o f facts
        ≡ (if org == o && fact_id == f then n + 1 else head_version o f db.facts))
    (others : (o : ℕ) (f : String)
      → org == o && fact_id == f ≡ false
      → find_fact o f facts ≡ find_fact o f db.facts)
    (uniq : UniqueFacts facts) (pins : All (Pinned (r ∷ db.revisions)) facts) where
  stays : (o : ℕ) (f : String) → org == o && fact_id == f ≡ true → head_version o f db.facts ≡ n
  stays o f same =
      let eo : org ≡ o = ground arith in
      let ef : fact_id ≡ f = ground (arith, eq_iff fact_id f) in rw (← eo, ← ef) before

  head_version-next : head_version org fact_id facts ≡ n + 1
  head_version-next = rw (after org fact_id, ==_refl org, ==_refl fact_id) refl

  -- A request on the fact that moved is now behind it, and any other is as it was.
  request-stays : (a : ApprovalRow) → IsPinnedRequest db.facts a → IsPinnedRequest facts a
  request-stays a p = elim (Bool-cases (org == a.organization_id && fact_id == a.fact_id)) [
    | inl same ↦
        let eo : org ≡ a.organization_id = ground arith in
        let ef : fact_id ≡ a.fact_id = ground (arith, eq_iff fact_id a.fact_id) in behind eo ef
    | inr other ↦ apart other
  ]
    where
      behind : org ≡ a.organization_id → fact_id ≡ a.fact_id → IsPinnedRequest facts a
      behind eo ef =
          let old : a.source_version ≤ n = rw (← before) (rw (← eo, ← ef) at p.reached) in
          let now : head_version a.organization_id a.fact_id facts ≡ n + 1 =
            rw (← eo, ← ef) head_version-next in
          record {
            reached = omega (arith, old, now);
            was_active =
                λ h e v. absurd (omega (arith, old, now, v, head_version-some _ _ facts h e));
          }

      apart : org == a.organization_id && fact_id == a.fact_id ≡ false → IsPinnedRequest facts a
      apart other = record {
        reached = rw (after a.organization_id a.fact_id, other) p.reached;
        was_active = λ h e v. p.was_active h (rw (others a.organization_id a.fact_id other) at e) v;
      }

  requests-stay :
      (rows : List ApprovalRow)
      → All (IsPinnedRequest db.facts) rows
      → All (IsPinnedRequest facts) rows
  requests-stay [] h = tt
  requests-stay (a ∷ rest) h = (request-stays a h.0, requests-stay rest h.1)

  pub step-IsConsistent :
      IsConsistent
        (record db { facts = facts; revisions = r ∷ db.revisions; outbox = e ∷ db.outbox })
  unfolding count_where
  step-IsConsistent = record {
    unique = uniq;
    recorded = λ o f v.
        rw (after o f, adds.r_org, adds.r_fact, adds.r_version)
          (one_more (org == o) (fact_id == f) v n _ _ (stays o f) (c.recorded o f v));
    announced = λ o f v.
        rw (after o f, adds.e_org, adds.e_fact, adds.e_version)
          (one_more (org == o) (fact_id == f) v n _ _ (stays o f) (c.announced o f v));
    pinned = pins;
    requests = requests-stay db.approvals c.requests;
  }
