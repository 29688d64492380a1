-- ===== src/Sync/Targets.antt =====
-- The targets of a sync: what is among them, and that planning leaves the dead letters.
use plk_memory.Base.{
  ℕ, String, Bool, true, false, Option, ap, subst, any_of, none, some, List, [], ◌∷◌, ◌≡◌, refl,
  ◌∙◌, arith, eq_iff, Bool-cases, inl, inr, elem, ◌==◌, ◌||◌, string_eq, sort_by, insert_sorted,
}
use plk_memory.Dict.{Dict, find}
use plk_memory.Sync.{
  and_then, World, SyncState, Attempt, done, raised, DiffEntry, delete_by_id, add_target,
  add_targets, keys, plan_entry, plan_diff, plan_from, plan_targets, renamed, removed, written,
}

pub elem-add_targets :
    (x : String) (paths targets : List String)
    → elem x (add_targets paths targets) ≡ elem x targets || elem x paths
unfolding add_targets add_target
elem-add_targets x [] targets = ground arith
elem-add_targets x (p ∷ paths) targets = ground (
  arith,
  elem-add_targets x paths (add_target p targets),
  elem-add_targets x paths targets,
  elem-add_targets x paths (p ∷ targets),
  eq_iff x p,
)

elem-insert_sorted :
    (before : String → String → Bool) (x r : String) (xs : List String)
    → elem x (insert_sorted before r xs) ≡ (x == r) || elem x xs
unfolding insert_sorted
elem-insert_sorted before x r [] = refl
elem-insert_sorted before x r (y ∷ ys) = ground (arith, elem-insert_sorted before x r ys)

pub elem-sort_by :
    (before : String → String → Bool) (x : String) (xs : List String)
    → elem x (sort_by before xs) ≡ elem x xs
unfolding sort_by
elem-sort_by before x [] = refl
elem-sort_by before x (y ∷ ys) =
    ground (arith, elem-insert_sorted before x y (sort_by before ys), elem-sort_by before x ys)

pub find-keys : (x : String) (d : Dict String) → elem x (keys d) ≡ false → find x d ≡ none
unfolding find
find-keys x [] h = refl
find-keys x ((k, v) ∷ rest) h = ground (arith, find-keys x rest, eq_iff x k, eq_iff k x)

and_then-done {ℓ κ} :
    {A : Type ℓ} {B : Type κ} (a : Attempt A) (f : A → Attempt B) (b : B)
    → and_then a f ≡ done b
    → (x : A) × (a ≡ done x) × (f x ≡ done b)
and_then-done (done x) f b h = (x, refl, h)
and_then-done (raised e) f b h = absurd (cc h)

-- The path is new at the head: the diff has it as added or changed, or as the new name of another.
abbrev pub is_new_path : String → DiffEntry → Bool
is_new_path path (renamed old new) = path == new
is_new_path path (removed gone) = false
is_new_path path (written changed) = path == changed

elem-add_target :
    (x path : String) (targets : List String)
    → elem x (add_target path targets) ≡ elem x targets || (x == path)
unfolding add_target
elem-add_target x path targets = ground (arith, eq_iff x path)

same_plan :
    (targets targets' : List String) (state state' : SyncState) (n n' : ℕ)
    → ◌≡◌ {A = Attempt (List String × SyncState × ℕ)}
        (done (targets, state, n))
        (done (targets', state', n'))
    → (state'.dead_letters ≡ state.dead_letters) × (targets' ≡ targets)
same_plan targets targets' state state' n n' h = (ground arith, ground arith)

module _ (world : World) where
  delete_by_id-letters :
      (id : Option String) (state next : SyncState) (was : Bool)
      → delete_by_id world id state ≡ done (was, next)
      → next.dead_letters ≡ state.dead_letters
  unfolding delete_by_id
  delete_by_id-letters none state next was h = ground arith
  delete_by_id-letters (some id) state next was h = ground arith

  plan_entry-letters :
      (last : String) (entry : DiffEntry) (targets : List String) (state : SyncState) (n : ℕ)
      (targets' : List String) (state' : SyncState) (n' : ℕ)
      → plan_entry world last entry (targets, state, n) ≡ done (targets', state', n')
      → state'.dead_letters ≡ state.dead_letters
  unfolding plan_entry
  plan_entry-letters last (renamed old new) targets state n targets' state' n' h =
      let ((was, next), e, rest) =
        and_then-done (delete_by_id world (world.id_at last old) state) _ (targets', state', n')
          h in
      (same_plan _ targets' next state' _ n' rest).0
      ∙ delete_by_id-letters (world.id_at last old) state next was e
  plan_entry-letters last (removed path) targets state n targets' state' n' h =
      let ((was, next), e, rest) =
        and_then-done (delete_by_id world (world.id_at last path) state) _ (targets', state', n')
          h in
      (same_plan _ targets' next state' _ n' rest).0
      ∙ delete_by_id-letters (world.id_at last path) state next was e
  plan_entry-letters last (written path) targets state n targets' state' n' h =
      (same_plan _ targets' state state' n n' h).0

  plan_diff-letters :
      (last : String) (entries : List DiffEntry) (targets : List String) (state : SyncState) (n : ℕ)
      (targets' : List String) (state' : SyncState) (n' : ℕ)
      → plan_diff world last entries (targets, state, n) ≡ done (targets', state', n')
      → state'.dead_letters ≡ state.dead_letters
  unfolding plan_diff
  plan_diff-letters last [] targets state n targets' state' n' h =
      (same_plan targets targets' state state' n n' h).0
  plan_diff-letters last (entry ∷ entries) targets state n targets' state' n' h =
      let ((targets₁, state₁, n₁), e, rest) =
        and_then-done (plan_entry world last entry (targets, state, n))
          (plan_diff world last entries) (targets', state', n') h in
      plan_diff-letters last entries targets₁ state₁ n₁ targets' state' n' rest
      ∙ plan_entry-letters last entry targets state n targets₁ state₁ n₁ e

  plan_entry-elem :
      (last : String) (entry : DiffEntry) (targets : List String) (state : SyncState) (n : ℕ)
      (targets' : List String) (state' : SyncState) (n' : ℕ) (x : String)
      → plan_entry world last entry (targets, state, n) ≡ done (targets', state', n')
      → elem x targets' ≡ elem x targets || is_new_path x entry
  unfolding plan_entry
  plan_entry-elem last (renamed old new) targets state n targets' state' n' x h =
      let ((was, next), e, rest) =
        and_then-done (delete_by_id world (world.id_at last old) state) _ (targets', state', n')
          h in
      ap (elem x) (same_plan (add_target new targets) targets' next state' n n' rest).1
      ∙ elem-add_target x new targets
  plan_entry-elem last (removed path) targets state n targets' state' n' x h =
      let ((was, next), e, rest) =
        and_then-done (delete_by_id world (world.id_at last path) state) _ (targets', state', n')
          h in
      ap (elem x) (same_plan targets targets' next state' _ n' rest).1 ∙ ground arith
  plan_entry-elem last (written path) targets state n targets' state' n' x h =
      ap (elem x) (same_plan (add_target path targets) targets' state state' n n' h).1
      ∙ elem-add_target x path targets

  plan_diff-elem :
      (last : String) (entries : List DiffEntry) (targets : List String) (state : SyncState) (n : ℕ)
      (targets' : List String) (state' : SyncState) (n' : ℕ) (x : String)
      → plan_diff world last entries (targets, state, n) ≡ done (targets', state', n')
      → elem x targets' ≡ elem x targets || any_of (is_new_path x) entries
  unfolding plan_diff
  plan_diff-elem last [] targets state n targets' state' n' x h =
      ap (elem x) (same_plan targets targets' state state' n n' h).1 ∙ ground arith
  plan_diff-elem last (entry ∷ entries) targets state n targets' state' n' x h =
      let ((targets₁, state₁, n₁), e, rest) =
        and_then-done (plan_entry world last entry (targets, state, n))
          (plan_diff world last entries) (targets', state', n') h in
      ground (
        arith,
        plan_diff-elem last entries targets₁ state₁ n₁ targets' state' n' x rest,
        plan_entry-elem last entry targets state n targets₁ state₁ n₁ x e,
      )

  -- The path is to be tried: at first every listed file, and then what the diff has as new.
  abbrev pub IsPlanned : Option String → String → Type 0
  IsPlanned none path = elem path world.list_posts ≡ true
  IsPlanned (some last) path =
      ((last == world.head) ≡ false)
      × ((entries : List DiffEntry) × (world.diff last ≡ done entries)
          × (any_of (is_new_path path) entries ≡ true))

  plan_from_lem :
      (old : Option String) (state : SyncState) (targets : List String) (state' : SyncState) (n : ℕ)
      → plan_from world old state ≡ done (targets, state', n)
      → (state'.dead_letters ≡ state.dead_letters)
        × ((path : String) → IsPlanned old path → elem path targets ≡ true)
  unfolding plan_from
  plan_from_lem none state targets state' n h =
      let (same, all) = same_plan (add_targets world.list_posts []) targets state state' 0 n h in
      (
        same,
        λ path listed.
            ap (elem path) all ∙ ground (arith, listed, elem-add_targets path world.list_posts []),
      )
  plan_from_lem (some last) state targets state' n h = elim (Bool-cases (last == world.head)) [
    | inl current ↦ (
      (same_plan [] targets state state' 0 n (rw (plan_from, current) at h)).0,
      λ path (behind, _). absurd (cc (current, behind)),
    )
    | inr behind ↦
        let (entries, e, rest) =
          and_then-done (world.diff last) (λ entries. plan_diff world last entries ([], state, 0))
            (targets, state', n) (rw (plan_from, behind) at h) in
        (
          plan_diff-letters last entries [] state 0 targets state' n rest,
          λ path (_, (entries', e', new)).
              let same : entries' ≡ entries = cc (e, e') in
              plan_diff-elem last entries [] state 0 targets state' n path rest
              ∙ subst (λ z. any_of (is_new_path path) z ≡ true) same new,
        )
  ]

  pub plan_targets_lem :
      (state : SyncState) (targets : List String) (state' : SyncState) (n : ℕ)
      → plan_targets world state ≡ done (targets, state', n)
      → (state'.dead_letters ≡ state.dead_letters)
        × ((path : String) → IsPlanned state.last_ingested_commit path → elem path targets ≡ true)
  unfolding plan_targets
  plan_targets_lem state targets state' n h =
      plan_from_lem state.last_ingested_commit state targets state' n h
