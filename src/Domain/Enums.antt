-- ===== src/Domain/Enums.antt =====
-- domain.py: the literal types, with equality tests by instances.
use plk_memory.Base.{◌≡◌, ◌↔◌, Bool, true, false, arith, Eq}

pub data FactKind : Type 0 where
  philosophy logic knowhow : FactKind

pub data FactStatus : Type 0 where
  active invalidated : FactStatus

pub data SourceType : Type 0 where
  user agent external_untrusted : SourceType

pub data ApprovalStatus : Type 0 where
  pending approved rejected stale cancelled : ApprovalStatus

pub data ActorType : Type 0 where
  human agent service : ActorType

pub data ChangeOperation : Type 0 where
  created updated invalidated promoted : ChangeOperation

abbrev pub kind_beq : FactKind → FactKind → Bool
kind_beq philosophy philosophy = true
kind_beq logic logic = true
kind_beq knowhow knowhow = true
kind_beq _ _ = false

pub kind_beq_iff : (a b : FactKind) → (kind_beq a b ≡ true) ↔ (a ≡ b)
kind_beq_iff a b = ground arith

instance abbrev pub kind_eq : Eq FactKind
kind_eq = record { same = kind_beq; same_iff = kind_beq_iff }

abbrev pub status_beq : FactStatus → FactStatus → Bool
status_beq active active = true
status_beq invalidated invalidated = true
status_beq _ _ = false

pub status_beq_iff : (a b : FactStatus) → (status_beq a b ≡ true) ↔ (a ≡ b)
status_beq_iff a b = ground arith

instance abbrev pub status_eq : Eq FactStatus
status_eq = record { same = status_beq; same_iff = status_beq_iff }

abbrev pub source_type_beq : SourceType → SourceType → Bool
source_type_beq user user = true
source_type_beq SourceType.agent SourceType.agent = true
source_type_beq external_untrusted external_untrusted = true
source_type_beq _ _ = false

pub source_type_beq_iff : (a b : SourceType) → (source_type_beq a b ≡ true) ↔ (a ≡ b)
source_type_beq_iff a b = ground arith

instance abbrev pub source_type_eq : Eq SourceType
source_type_eq = record { same = source_type_beq; same_iff = source_type_beq_iff }

abbrev pub operation_beq : ChangeOperation → ChangeOperation → Bool
operation_beq created created = true
operation_beq updated updated = true
operation_beq ChangeOperation.invalidated ChangeOperation.invalidated = true
operation_beq promoted promoted = true
operation_beq _ _ = false

pub operation_beq_iff : (a b : ChangeOperation) → (operation_beq a b ≡ true) ↔ (a ≡ b)
operation_beq_iff a b = ground arith

instance abbrev pub operation_eq : Eq ChangeOperation
operation_eq = record { same = operation_beq; same_iff = operation_beq_iff }

abbrev pub approval_beq : ApprovalStatus → ApprovalStatus → Bool
approval_beq pending pending = true
approval_beq approved approved = true
approval_beq rejected rejected = true
approval_beq stale stale = true
approval_beq cancelled cancelled = true
approval_beq _ _ = false

pub approval_beq_iff : (a b : ApprovalStatus) → (approval_beq a b ≡ true) ↔ (a ≡ b)
approval_beq_iff a b = ground arith

instance abbrev pub approval_eq : Eq ApprovalStatus
approval_eq = record { same = approval_beq; same_iff = approval_beq_iff }
