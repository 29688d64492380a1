-- ===== src/Postgres/Application/Search.antt =====
-- What a search returns: current facts of the caller's organization, whatever the index says.
use plk_memory.Base.{
  ◌≡◌, refl, ℕ, String, Bool, true, false, Option, some, List, [], arith, All, max, length, ◌≤◌,
  elem, map, subst, ap, sym, string_eq, ◌∙◌, All-from, min, ◌⊎◌, ◌*◌, ◌==◌,
}
use plk_memory.Domain.{QueryScope, FactFilters, FactRecord, IndexCandidate, FactKind, FactStatus}
use plk_memory.Ports.{
  Result, ok, err, ◌>>=◌, raise_if, fact_missing, fact_already_exists, revision_conflict,
  idempotency_conflict, policy_violation, value_error, validation_error, runtime_error,
  integrity_error,
}
use plk_memory.Postgres.Schema.{Db}
use plk_memory.Postgres.Session.{◌>>=◌ as tx_bind, transaction}
use plk_memory.Postgres.Tables.Laws.{UniqueFacts}
use plk_memory.Postgres.Repository.Queries.{current, record_by_id, pick, get_many}
use plk_memory.Postgres.Ledger.{head_version}
use plk_memory.Postgres.Ledger.Reading.{record_by_id-head_version}
use plk_memory.Postgres.Application.{
  distinct, visible, SearchHit, SearchResponse, found, rejected, degraded, collect, respond,
  parse_kind, parse_status, tool_search,
}
use plk_memory.Postgres.Application.Hits.{IsOf, pick-IsOf, IsFrom, collect-IsFrom, length-collect}
use plk_memory.Postgres.Application.Visible.{
  parse_status-some, status_kept, namespace_kept, parse_status_lem, kind_asked, status_name,
  kind_name, visible-parts,
}

-- The hit shows the current record of a fact of the caller's organization that the query asks for.
pub record IsCurrentHit {Score : Type 0} (scope : QueryScope) (namespaces : List String)
    (kind_text : Option String) (status_text : String) (db : Db) (hit : SearchHit Score)
    : Type 0 where
  pub r : FactRecord
  pub there : record_by_id r.id (current scope.organization_id db.revisions db.facts) ≡ some r
  pub own : r.organization_id ≡ scope.organization_id
  pub newest : r.revision ≡ head_version scope.organization_id r.id db.facts
  pub asked_status : status_text ≡ status_name r.status
  pub asked_kind : (text : String) → kind_text ≡ some text → text ≡ kind_name r.payload.kind
  pub asked_namespace : (namespaces ≡ []) ⊎ (elem r.payload.namespace namespaces ≡ true)
  -- nothing comes out of quarantine unless it is asked for by name
  pub unquarantined :
      r.payload.namespace ≡ "plk.quarantine" → elem "plk.quarantine" namespaces ≡ true
  pub shows : hit ≡ record {
    fact_id = r.id;
    statement = r.payload.statement;
    namespace = r.payload.namespace;
    kind = r.payload.kind;
    status = r.status;
    fact_text = r.payload.statement;
    created_at = r.created_at;
    revision = r.revision;
    score = hit.score;
  }

module _ {Score : Type 0} (P : List (SearchHit Score) → Type 0) where
  abbrev OfResult : Result (List (SearchHit Score)) → Type 0
  OfResult (ok hits) = P hits
  OfResult (err e) = Unit

  abbrev pub OfResponse : SearchResponse Score → Type 0
  OfResponse (found hits) = P hits
  OfResponse (rejected e) = Unit
  OfResponse (degraded e) = Unit

  respond-OfResponse : (r : Result (List (SearchHit Score))) → OfResult r → OfResponse (respond r)
  unfolding respond
  respond-OfResponse (ok hits) h = h
  respond-OfResponse (err (fact_missing i)) h = tt
  respond-OfResponse (err (fact_already_exists i)) h = tt
  respond-OfResponse (err (revision_conflict i e a)) h = tt
  respond-OfResponse (err (idempotency_conflict k)) h = tt
  respond-OfResponse (err (policy_violation m)) h = tt
  respond-OfResponse (err (value_error m)) h = tt
  respond-OfResponse (err (validation_error m)) h = tt
  respond-OfResponse (err (runtime_error m)) h = tt
  respond-OfResponse (err (integrity_error m)) h = tt

  bind-OfResult :
      {A : Type 0} (m : Result A) (f : A → Result (List (SearchHit Score)))
      → ((a : A) → m ≡ ok a → OfResult (f a))
      → OfResult (m >>= f)
  bind-OfResult (ok a) f h = h a refl
  bind-OfResult (err e) f h = tt

get_many-ok :
    (scope : QueryScope) (ids : List String) (db : Db)
    → (transaction (get_many scope ids) db).0
      ≡ ok (pick ids (current scope.organization_id db.revisions db.facts))
unfolding get_many tx_bind
get_many-ok scope ids db = refl

abbrev records_of : QueryScope → Db → List FactRecord
records_of scope db = current scope.organization_id db.revisions db.facts

module _ {Score : Type 0} (scope : QueryScope) (namespaces : List String)
    (kind_text : Option String) (status_text : String) (limit : ℕ) (db : Db)
    (unique : UniqueFacts db.facts) where
  current_hit :
      (kind : Option FactKind) (status : Option FactStatus) (hit : SearchHit Score)
      → parse_kind kind_text ≡ ok kind
      → parse_status status_text ≡ ok status
      → IsFrom
          (visible namespaces kind status (elem "plk.quarantine" namespaces))
          (IsOf (records_of scope db))
          hit
      → IsCurrentHit scope namespaces kind_text status_text db hit
  current_hit kind status hit k s h =
      let (own, same, newest) =
        record_by_id-head_version scope.organization_id h.r.id db.revisions db.facts h.r unique
          h.holds in
      let (ms, mk, mn, q) = visible-parts namespaces kind status _ h.r h.passes in
      let (st, is_some) = parse_status-some status_text status s in
      let e : h.r.status ≡ st = status_kept status st h.r is_some ms in
      record {
        r = h.r;
        there = h.holds;
        own = own;
        newest = newest;
        asked_status = parse_status_lem status_text h.r.status (rw e (s ∙ ap ok is_some));
        asked_kind = λ text e'. kind_asked kind text h.r (sym (ap parse_kind e') ∙ k) mk;
        asked_namespace = namespace_kept namespaces h.r mn;
        unquarantined = q;
        shows = h.shows;
      }

  abbrev pub Sound : List (SearchHit Score) → Type 0
  Sound hits =
      (length hits ≤ max limit 1)
      × All (IsCurrentHit scope namespaces kind_text status_text db) hits

  abbrev ids_of : List (IndexCandidate Score) → List String
  ids_of cs = distinct [] (map (λ (c : IndexCandidate Score). c.fact_id) cs)

  collect-Sound :
      (kind : Option FactKind) (status : Option FactStatus) (ids : List String)
      (cs : List (IndexCandidate Score))
      → parse_kind kind_text ≡ ok kind
      → parse_status status_text ≡ ok status
      → Sound (
          collect
            (visible namespaces kind status (elem "plk.quarantine" namespaces))
            (pick ids (records_of scope db))
            limit
            0
            cs)
  collect-Sound kind status ids cs k s = (
    ground (
      arith,
      length-collect (visible namespaces kind status (elem "plk.quarantine" namespaces))
          (pick ids (records_of scope db)) limit 0 cs,
    ),
    All-from _ _ _ (λ hit h. current_hit kind status hit k s h)
        (collect-IsFrom (visible namespaces kind status (elem "plk.quarantine" namespaces))
          (pick ids (records_of scope db)) limit (IsOf (records_of scope db)) 0 cs
          (pick-IsOf ids (records_of scope db))),
  )

  abbrev collected :
      Option FactKind
      → Option FactStatus
      → List (IndexCandidate Score)
      → List FactRecord
      → Result (List (SearchHit Score))
  collected kind status cs rs =
      ok (collect (visible namespaces kind status (elem "plk.quarantine" namespaces)) rs limit 0 cs)

  abbrev reread :
      Option FactKind
      → Option FactStatus
      → List (IndexCandidate Score)
      → Result (List (SearchHit Score))
  reread kind status cs =
      (transaction (get_many scope (ids_of cs)) db).0 >>= collected kind status cs

  reread-Sound :
      (kind : Option FactKind) (status : Option FactStatus) (cs : List (IndexCandidate Score))
      → parse_kind kind_text ≡ ok kind
      → parse_status status_text ≡ ok status
      → OfResult Sound (reread kind status cs)
  reread-Sound kind status cs k s =
      bind-OfResult Sound (transaction (get_many scope (ids_of cs)) db).0 (collected kind status cs)
        (λ rs g.
          let same : pick (ids_of cs) (records_of scope db) ≡ rs =
            cc (g, get_many-ok scope (ids_of cs) db) in
          subst
            (λ rs. Sound (
              collect (visible namespaces kind status (elem "plk.quarantine" namespaces)) rs limit 0
                cs))
            same (collect-Sound kind status (ids_of cs) cs k s))

  -- Where facts have one head each, whatever the index answers or raises, the search tool
  -- returns at most `limit` hits (one, where `limit` is 0), and each shows the current record of a
  -- fact of the caller's organization, at its current version, in the namespaces (where any
  -- were named), with the status and the kind that were asked for, and out of quarantine only if
  -- that namespace was asked for by name.
  pub tool_search-IsCurrentHit :
      (ready : Bool)
      (search_index : QueryScope → String → FactFilters → Result (List (IndexCandidate Score)))
      (query : String)
      → OfResponse Sound
          (tool_search ready search_index scope query namespaces kind_text status_text limit db)
  unfolding tool_search
  tool_search-IsCurrentHit false search_index query = tt
  tool_search-IsCurrentHit true search_index query = respond-OfResponse Sound _ (
      bind-OfResult Sound (parse_kind kind_text) _ (λ kind k.
        bind-OfResult Sound (parse_status status_text) _ (λ status s.
          bind-OfResult Sound (raise_if (query == "") (validation_error "query"))
            (λ _. search_index scope query (filters kind status) >>= reread kind status)
            (λ _ _.
              bind-OfResult Sound (search_index scope query (filters kind status))
                (reread kind status) (λ cs _. reread-Sound kind status cs k s)))))
    where
      filters : Option FactKind → Option FactStatus → FactFilters
      filters kind status = record {
        namespaces = namespaces;
        kind = kind;
        status = status;
        limit = min (max (limit * 5) 50) 1000;
      }
