-- ===== src/Postgres/Repository/Validate/Policy.antt =====
-- postgres/repository.py: the policy of `_validate_create`, as a predicate.
use plk_memory.Base.{
  ◌≡◌, refl, ◌≤◌, ◌↔◌, String, Bool, true, false, not, ◌&&◌, ◌==◌, List, [], ◌∷◌, elem, ltb, arith,
  eq_iff, string_eq,
}
use plk_memory.Base.Text.{char_count}
use plk_memory.Domain.{
  ActorContext, CreateFact, philosophy, user, external_untrusted, kind_eq, source_type_eq,
  kind_beq_iff, source_type_beq_iff,
}
use plk_memory.Ports.{
  Result, ok, Error, raise_if, policy_violation, validation_error, value_error, ◌>>◌,
}
use plk_memory.Postgres.External.{External}
use plk_memory.Postgres.Repository.Validate.{is_empty, secret_findings, validate_create}

-- The actor may create the fact.
pub record IsAllowed (ext : External) (actor : ActorContext) (command : CreateFact) : Type 0 where
  pub writes : elem "writer" actor.roles ≡ true
  pub philosophizes : command.payload.kind ≡ philosophy → elem "philosophy:write" actor.roles ≡ true
  pub speaks_for_user :
      command.payload.source_type ≡ user → elem "human-authored:write" actor.roles ≡ true
  pub shares : command.payload.namespace ≡ "plk.shared" → elem "shared:write" actor.roles ≡ true
  pub quarantines :
      command.payload.source_type ≡ external_untrusted
      → command.payload.namespace ≡ "plk.quarantine"
  pub valid : ext.valid_fact actor command ≡ true
  pub short : char_count command.payload.body ≤ 2000
  pub clean : secret_findings ext command.payload ≡ []

-- `if test: raise error` before more of the same.
passed :
    (test : Bool) (e : Error) (rest : Result (Unit {0}))
    → (raise_if test e >> rest) ≡ ok tt
    → (test ≡ false) × (rest ≡ ok tt)
passed true e rest h = absurd (cc h)
passed false e rest h = (refl, h)

empty-nil : (xs : List String) → not (is_empty xs) ≡ false → xs ≡ []
empty-nil [] h = refl
empty-nil (x ∷ xs) h = absurd (cc h)

last_passed : (test : Bool) (e : Error) → raise_if test e ≡ ok tt → test ≡ false
last_passed true e h = absurd (cc h)
last_passed false e h = refl

module _ (ext : External) (actor : ActorContext) (command : CreateFact) where
  -- The tests, in order.
  abbrev unwriting : Bool
  unwriting = not (elem "writer" actor.roles)

  abbrev unphilosophical : Bool
  unphilosophical = command.payload.kind == philosophy && not (elem "philosophy:write" actor.roles)

  abbrev impersonating : Bool
  impersonating =
      command.payload.source_type == user && not (elem "human-authored:write" actor.roles)

  abbrev oversharing : Bool
  oversharing = command.payload.namespace == "plk.shared" && not (elem "shared:write" actor.roles)

  abbrev untrusted : Bool
  untrusted =
      command.payload.source_type == external_untrusted
      && not (command.payload.namespace == "plk.quarantine")

  abbrev invalid : Bool
  invalid = not (ext.valid_fact actor command)

  abbrev long : Bool
  long = ltb 2000 (char_count command.payload.body)

  abbrev leaking : Bool
  leaking = not (is_empty (secret_findings ext command.payload))

  validate_create_sound : validate_create ext actor command ≡ ok tt → IsAllowed ext actor command
  unfolding validate_create
  validate_create_sound h =
      let (t1, r1) = passed unwriting (policy_violation "fact creation requires writer role") _ h in
      let (t2, r2) =
        passed unphilosophical (policy_violation "philosophy requires philosophy:write") _ r1 in
      let (t3, r3) =
        passed impersonating (policy_violation "source_type=user requires human-authored:write") _
          r2 in
      let (t4, r4) =
        passed oversharing (policy_violation "plk.shared requires shared:write") _ r3 in
      let (t5, r5) =
        passed untrusted (policy_violation "external-untrusted facts must use plk.quarantine") _
          r4 in
      let (t6, r6) = passed invalid (validation_error "Fact") _ r5 in
      let (t7, r7) = passed long (value_error "body must not exceed 2,000 characters") _ r6 in
      let t8 = last_passed leaking (policy_violation "secret detected") r7 in
      record {
        writes = ground (arith, t1);
        philosophizes = λ e. ground (arith, t2, e);
        speaks_for_user = λ e. ground (arith, t3, e);
        shares = λ e. ground (arith, t4, eq_iff command.payload.namespace "plk.shared", e);
        quarantines = λ e. ground (arith, t5, eq_iff command.payload.namespace "plk.quarantine", e);
        valid = ground (arith, t6);
        short = ground (arith, t7);
        clean = empty-nil _ t8;
      }

  validate_create_complete : IsAllowed ext actor command → validate_create ext actor command ≡ ok tt
  unfolding validate_create
  validate_create_complete a =
      let t1 : unwriting ≡ false = ground (arith, a.writes) in
      let t2 : unphilosophical ≡ false =
        ground (arith, a.philosophizes, kind_beq_iff command.payload.kind philosophy) in
      let t3 : impersonating ≡ false =
        ground (arith, a.speaks_for_user, source_type_beq_iff command.payload.source_type user) in
      let t4 : oversharing ≡ false =
        ground (arith, a.shares, eq_iff command.payload.namespace "plk.shared") in
      let t5 : untrusted ≡ false = ground (
        arith,
        a.quarantines,
        source_type_beq_iff command.payload.source_type external_untrusted,
        eq_iff command.payload.namespace "plk.quarantine",
      ) in
      let t6 : invalid ≡ false = ground (arith, a.valid) in
      let t7 : long ≡ false = ground (arith, a.short) in
      rw (t1, t2, t3, t4, t5, t6, t7, a.clean) refl

  -- `_validate_create` passes a command just if the actor may write, and write what the command
  -- asks for, an untrusted source stays in quarantine, the body is short enough, the fact is valid,
  -- and the scanner of secrets finds nothing.
  pub validate_create-IsAllowed :
      (validate_create ext actor command ≡ ok tt) ↔ IsAllowed ext actor command
  validate_create-IsAllowed = (validate_create_sound, validate_create_complete)
