-- ===== src/Postgres/Repository/Validate.antt =====
-- postgres/repository.py: `_validate_create`, the policy that a new fact passes first.
pub mod Policy
use plk_memory.Base.{String, Bool, not, ◌&&◌, List, [], ◌∷◌, ◌++◌, ◌==◌, elem, ltb, string_eq}
use plk_memory.Base.Text.{char_count}
use plk_memory.Domain.{
  ActorContext, CreateFact, FactPayload, philosophy, user, external_untrusted, kind_eq,
  source_type_eq,
}
use plk_memory.Ports.{Result, raise_if, policy_violation, validation_error, value_error, ◌>>◌}
use plk_memory.Postgres.External.{External}

abbrev pub is_empty : List String → Bool
is_empty [] = Bool.true
is_empty (_ ∷ _) = Bool.false

scan_all : External → List String → List String
scan_all ext [] = []
scan_all ext (t ∷ ts) = ext.scan_text t Bool.true ++ scan_all ext ts

-- The findings in the serialized payload, and in each authored text with the entropy checks.
unfoldable pub secret_findings : External → FactPayload → List String
unfolding scan_all
secret_findings ext p =
    ext.scan_text (ext.payload_json p) Bool.false
    ++ scan_all ext (p.statement ∷ p.why ∷ p.how_to_apply ∷ p.body ∷ p.tags)

unfoldable pub validate_create : External → ActorContext → CreateFact → Result (Unit {0})
validate_create ext actor command = do
  let payload = command.payload
  raise_if (not (elem "writer" actor.roles)) (policy_violation "fact creation requires writer role")
  raise_if (payload.kind == philosophy && not (elem "philosophy:write" actor.roles))
      (policy_violation "philosophy requires philosophy:write")
  raise_if (payload.source_type == user && not (elem "human-authored:write" actor.roles))
      (policy_violation "source_type=user requires human-authored:write")
  raise_if (payload.namespace == "plk.shared" && not (elem "shared:write" actor.roles))
      (policy_violation "plk.shared requires shared:write")
  raise_if
      (payload.source_type == external_untrusted && not (payload.namespace == "plk.quarantine"))
      (policy_violation "external-untrusted facts must use plk.quarantine")
  raise_if (not (ext.valid_fact actor command)) (validation_error "Fact")
  raise_if (ltb 2000 (char_count payload.body))
      (value_error "body must not exceed 2,000 characters")
  raise_if (not (is_empty (secret_findings ext payload))) (policy_violation "secret detected")
