-- ===== src/Telemetry.antt =====
-- telemetry.py: what an agent reports on its searches, decisions and actions, and the checks that
-- a report passes before it is recorded: a ValueError of theirs leaves pydantic as a
-- ValidationError. pydantic's limits on the length of a text are left out.
use plk_memory.Base.{
  ℕ, String, Bool, true, false, Option, none, some, List, [], ◌∷◌, elem, not, ◌&&◌, ◌||◌, string_eq,
}
use plk_memory.Ports.{Result, raise_if, ◌>>◌, validation_error}

-- `no_effect` is the literal `none`.
pub data DecisionEffect : Type 0 where
  changed_action prevented_error confirmed no_effect : DecisionEffect

pub data NoUseReason : Type 0 where
  irrelevant already_known stale conflict insufficient : NoUseReason

pub data PlkRequirement : Type 0 where
  required optional not_required : PlkRequirement

pub data NoSearchReason : Type 0 where
  not_applicable fresh_primary_source no_decision service_unavailable : NoSearchReason

pub data ActionPhase : Type 0 where
  attempted completed : ActionPhase

pub data ActionOutcome : Type 0 where
  pending succeeded failed blocked cancelled : ActionOutcome

pub data SideEffect : Type 0 where
  read local_write external_write destructive : SideEffect

pub record FactReference : Type 0 where
  pub fact_id : String
  pub revision : Option ℕ
  pub content_hash : Option String

pub record IntentCommand : Type 0 where
  pub trace_id : String
  pub operation_type : String
  pub intent : String
  pub target : Option String
  pub side_effect : SideEffect
  pub plk_requirement : PlkRequirement
  pub no_search_reason : Option NoSearchReason

pub record ActionCommand : Type 0 where
  pub event_id : String
  pub action_id : String
  pub trace_id : String
  pub phase : ActionPhase
  pub action_type : String
  pub tool_name : Option String
  pub target : Option String
  pub side_effect : SideEffect
  pub outcome : ActionOutcome
  pub decision_id : Option String
  pub error_category : Option String

pub record DecisionCommand : Type 0 where
  pub decision_id : String
  pub search_ids : List String
  pub used_fact_ids : List String
  pub effect : DecisionEffect
  pub no_use_reason : Option NoUseReason
  pub trace_id : Option String

abbrev pub is_external : SideEffect → Bool
is_external external_write = true
is_external destructive = true
is_external _ = false

abbrev pub is_required : PlkRequirement → Bool
is_required required = true
is_required _ = false

abbrev pub is_pending_outcome : ActionOutcome → Bool
is_pending_outcome pending = true
is_pending_outcome _ = false

abbrev pub is_failed : ActionOutcome → Bool
is_failed failed = true
is_failed _ = false

abbrev pub has_some {ℓ} : {A : Type ℓ} → Option A → Bool
has_some none = false
has_some (some _) = true

abbrev pub has_any {ℓ} : {A : Type ℓ} → List A → Bool
has_any [] = false
has_any (_ ∷ _) = true

-- An element stands twice: `len(set(values)) != len(values)`.
abbrev pub repeats : List String → Bool
repeats [] = false
repeats (x ∷ xs) = elem x xs || repeats xs

-- `validate_requirement`
unfoldable pub validate_requirement : IntentCommand → Result (Unit {0})
validate_requirement c =
    raise_if (is_external c.side_effect && not (is_required c.plk_requirement))
      (validation_error "")
    >> elim c.plk_requirement [
      | not_required ↦ raise_if (not (has_some c.no_search_reason)) (validation_error "")
      | _ ↦ raise_if (has_some c.no_search_reason) (validation_error "")
    ]

-- `validate_phase`
unfoldable pub validate_phase : ActionCommand → Result (Unit {0})
validate_phase c =
    elim c.phase [
      | attempted ↦ raise_if (not (is_pending_outcome c.outcome)) (validation_error "")
      | completed ↦ raise_if (is_pending_outcome c.outcome) (validation_error "")
    ]
    >> raise_if (not (is_failed c.outcome) && has_some c.error_category) (validation_error "")

-- `validate_decision`
unfoldable pub validate_decision : DecisionCommand → Result (Unit {0})
validate_decision c =
    raise_if (repeats c.search_ids) (validation_error "")
    >> (raise_if (repeats c.used_fact_ids) (validation_error "") >> elim c.effect [
      | no_effect ↦
          raise_if (has_any c.used_fact_ids) (validation_error "")
          >> raise_if (not (has_some c.no_use_reason)) (validation_error "")
      | _ ↦
          raise_if (not (has_any c.used_fact_ids)) (validation_error "")
          >> raise_if (has_some c.no_use_reason) (validation_error "")
    ])
