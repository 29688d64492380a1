-- ===== src/Postgres/Application/Visible.antt =====
-- postgres/application.py: what `_visible` and the filters let through.
use plk_memory.Domain.{status_beq_iff, kind_beq_iff}
use plk_memory.Base.{
  ◌≡◌, refl, ◌∙◌, ap, sym, String, Bool, true, Option, none, some, List, [], ◌∷◌, arith, inl, inr,
  ◌⊎◌, elem, eq_iff, string_eq,
}
use plk_memory.Domain.{FactRecord, FactKind, FactStatus, active, philosophy, logic, knowhow}
use plk_memory.Ports.{ok}
use plk_memory.Postgres.Repository.Queries.{matches_status, matches_kind, matches_namespaces}
use plk_memory.Postgres.Application.{visible, parse_status, parse_kind}

pub parse_status-some :
    (text : String) (status : Option FactStatus)
    → parse_status text ≡ ok status
    → (s : FactStatus) × (status ≡ some s)
unfolding parse_status
parse_status-some text none h = absurd (ground arith)
parse_status-some text (some s) h = (s, refl)

pub status_kept :
    (status : Option FactStatus) (s : FactStatus) (r : FactRecord)
    → status ≡ some s
    → matches_status status r ≡ true
    → r.status ≡ s
status_kept none s r e m = absurd (cc e)
status_kept (some t) s r e m =
    let same : t ≡ s = cc e in ground (arith, same, status_beq_iff r.status t)

pub kind_kept :
    (kind : Option FactKind) (k : FactKind) (r : FactRecord)
    → kind ≡ some k
    → matches_kind kind r ≡ true
    → r.payload.kind ≡ k
kind_kept none k r e m = absurd (cc e)
kind_kept (some t) k r e m =
    let same : t ≡ k = cc e in ground (arith, same, kind_beq_iff r.payload.kind t)

pub namespace_kept :
    (namespaces : List String) (r : FactRecord)
    → matches_namespaces namespaces r ≡ true
    → (namespaces ≡ []) ⊎ (elem r.payload.namespace namespaces ≡ true)
namespace_kept [] r m = inl refl
namespace_kept (n ∷ ns) r m = inr m

pub visible-parts :
    (namespaces : List String) (kind : Option FactKind) (status : Option FactStatus) (allow : Bool)
    (r : FactRecord)
    → visible namespaces kind status allow r ≡ true
    → (matches_status status r ≡ true)
      × (matches_kind kind r ≡ true)
      × (matches_namespaces namespaces r ≡ true)
      × (r.payload.namespace ≡ "plk.quarantine" → allow ≡ true)
unfolding visible
visible-parts namespaces kind status allow r h = (
  ground arith,
  ground arith,
  ground arith,
  λ q. ground (arith, eq_iff r.payload.namespace "plk.quarantine"),
)

abbrev pub status_name : FactStatus → String
status_name active = "active"
status_name FactStatus.invalidated = "invalidated"

abbrev pub kind_name : FactKind → String
kind_name philosophy = "philosophy"
kind_name logic = "logic"
kind_name knowhow = "knowhow"

pub parse_status_lem :
    (text : String) (s : FactStatus) → parse_status text ≡ ok (some s) → text ≡ status_name s
unfolding parse_status
parse_status_lem text active h = ground (arith, eq_iff text "active", eq_iff text "invalidated")
parse_status_lem text FactStatus.invalidated h =
    ground (arith, eq_iff text "active", eq_iff text "invalidated")

parse_kind_lem :
    (text : String) (kind : Option FactKind)
    → parse_kind (some text) ≡ ok kind
    → (k : FactKind) × (kind ≡ some k) × (text ≡ kind_name k)
unfolding parse_kind
parse_kind_lem text none h = absurd (ground arith)
parse_kind_lem text (some philosophy) h =
    (philosophy, refl, ground (arith, eq_iff text "philosophy"))
parse_kind_lem text (some logic) h = (logic, refl, ground (arith, eq_iff text "logic"))
parse_kind_lem text (some knowhow) h = (knowhow, refl, ground (arith, eq_iff text "knowhow"))

pub kind_asked :
    (kind : Option FactKind) (text : String) (r : FactRecord)
    → parse_kind (some text) ≡ ok kind
    → matches_kind kind r ≡ true
    → text ≡ kind_name r.payload.kind
kind_asked kind text r k mk =
    let (j, is_some, e) = parse_kind_lem text kind k in
    e ∙ ap kind_name (sym (kind_kept kind j r is_some mk))
