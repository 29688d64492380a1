-- ===== src/Promotions/States.antt =====
-- promotions.py: where the transitions of a request lead.
use plk_memory.Base.{
  ◌≡◌, refl, ℕ, ◌≤◌, ◌+◌, String, true, List, [], ◌∷◌, length, arith, inl, inr, Bool-cases, subst,
}
use plk_memory.Ports.{ok}
use plk_memory.Promotions.{
  PromotionState, proposed, approved, rejected, applied, PromotionRequest, is_allowed, transition,
  run,
}

-- How many transitions can follow.
abbrev pub remaining : PromotionState → ℕ
remaining proposed = 2
remaining approved = 1
remaining rejected = 0
remaining applied = 0

allowed_remaining : (s t : PromotionState) → is_allowed s t ≡ true → remaining t + 1 ≤ remaining s
unfolding is_allowed
allowed_remaining proposed proposed h = absurd (cc h)
allowed_remaining proposed approved h = omega arith
allowed_remaining proposed rejected h = omega arith
allowed_remaining proposed applied h = omega arith
allowed_remaining approved proposed h = absurd (cc h)
allowed_remaining approved approved h = absurd (cc h)
allowed_remaining approved rejected h = omega arith
allowed_remaining approved applied h = omega arith
allowed_remaining rejected t h = absurd (cc h)
allowed_remaining applied t h = absurd (cc h)

-- The request after a run: the same request, no further from its end than the run is long.
pub record IsLater (pr pr' : PromotionRequest) (steps : ℕ) : Type 0 where
  pub same_id : pr'.id ≡ pr.id
  pub same_fact : pr'.fact_id ≡ pr.fact_id
  pub same_branch : pr'.branch ≡ pr.branch
  pub nearer : remaining pr'.state + steps ≤ remaining pr.state

-- A run of transitions that succeeds leaves the identity of the request alone, and takes at least
-- one of the two transitions that a request can make for each of its steps: so it has at most two
-- steps, and none from a rejected or an applied request.
pub run-IsLater :
    (pr pr' : PromotionRequest) (steps : List (String × PromotionState))
    → run pr steps ≡ ok pr'
    → IsLater pr pr' (length steps)
unfolding run transition
run-IsLater pr pr' [] h =
    let same : pr ≡ pr' = cc h in
    subst (λ (p : PromotionRequest). IsLater pr p 0) same
      (record { same_id = refl; same_fact = refl; same_branch = refl; nearer = omega arith })
run-IsLater pr pr' ((now, s) ∷ rest) h = elim (Bool-cases (is_allowed pr.state s)) [
  | inr refused ↦ absurd (cc (rw refused at h))
  | inl allowed ↦
      let l = run-IsLater (record pr { state = s; updated_at = now }) pr' rest (rw allowed at h) in
      record {
        same_id = l.same_id;
        same_fact = l.same_fact;
        same_branch = l.same_branch;
        nearer = omega (arith, l.nearer, allowed_remaining pr.state s allowed);
      }
]
