-- ===== src/Sync/Settling.antt =====
-- What a sync leaves as dead letters.
use plk_memory.Base.{
  ℕ, String, true, false, none, some, List, ◌≡◌, sym, subst, ◌∙◌, arith, Bool-cases, inl, inr, ◌⊎◌,
  elem, string_eq,
}
use plk_memory.Dict.{Dict, find, UniqueKeys}
use plk_memory.Sync.{
  World, SyncState, done, add_targets, keys, plan_targets, all_targets, sync_paths,
}
use plk_memory.Sync.Engine.{Engine, SyncResult, sync_store_locked}
use plk_memory.Sync.Letters.{Fails, Settled, Attempt-cases, sync_paths_lem}
use plk_memory.Sync.Targets.{elem-add_targets, elem-sort_by, find-keys, plan_targets_lem, IsPlanned}

module _ (world : World) where
  -- A path that was a dead letter; any listed file when nothing has been ingested, and otherwise
  -- what the diff to the head has as added, changed, or the new name of a file
  abbrev pub IsDue : String → SyncState → Type 0
  IsDue path state =
      (elem path (keys state.dead_letters) ≡ true) ⊎ IsPlanned world state.last_ingested_commit path

  due_target :
      (path : String) (state state' : SyncState) (targets : List String) (n : ℕ)
      → plan_targets world state ≡ done (targets, state', n)
      → IsDue path state
      → elem path (all_targets world targets state') ≡ true
  unfolding all_targets
  due_target path state state' targets n h due =
      let (same, all) = plan_targets_lem world state targets state' n h in
      let e = elem-sort_by world.before path (add_targets (keys state'.dead_letters) targets) in
      elim due [
        | inl letter ↦
            ground
              (arith, e, elem-add_targets path (keys state'.dead_letters) targets, same, letter)
        | inr new ↦
            ground
              (arith, e, elem-add_targets path (keys state'.dead_letters) targets, all path new)
      ]

  only_targets :
      (path : String) (state : SyncState) (targets : List String)
      → elem path (all_targets world targets state) ≡ false
      → find path state.dead_letters ≡ none
  unfolding all_targets
  only_targets path state targets h = find-keys path state.dead_letters (
      ground (
        arith,
        elem-sort_by world.before path (add_targets (keys state.dead_letters) targets),
        elem-add_targets path (keys state.dead_letters) targets,
      ))

  -- What is known of a path once the targets have been tried
  abbrev pub Known : SyncState → Dict String → String → Type 0
  Known old letters path =
      ((find path letters ≡ none)
        ⊎ ((e : String) × (find path letters ≡ some e) × Fails world path e))
      × (IsDue path old → Settled world path (find path letters))

  Settled-Known :
      (old : SyncState) (letters : Dict String) (path : String)
      → Settled world path (find path letters)
      → Known old letters path
  Settled-Known old letters path (inl (free, passes)) = (inl free, λ _. inl (free, passes))
  Settled-Known old letters path (inr failed) = (inr failed, λ _. inr failed)

  tried :
      (old state : SyncState) (targets : List String) (n : ℕ) (path : String)
      → plan_targets world old ≡ done (targets, state, n)
      → UniqueKeys state.dead_letters
      → Known old
          (sync_paths world (all_targets world targets state) (state, 0)).0.dead_letters
          path
  tried old state targets n path planned u =
      let paths = all_targets world targets state in
      let after = (sync_paths world paths (state, 0)).0.dead_letters in
      let (later, rest) = (sync_paths_lem world paths state 0 u).1 path in
      elim (Bool-cases (elem path paths)) [
        | inl target ↦ Settled-Known old after path (later target)
        | inr other ↦ (
          inl (rest other ∙ only_targets path state targets other),
          λ due. absurd (cc (other, due_target path old state targets n planned due)),
        )
      ]

  -- A sync that is not degraded ingests the head and saves what it answers as dead letters: each
  -- names a file that is there and that could not be read or indexed; and every path that was due
  -- (an earlier dead letter; at first every listed file; later every path that the diff to the head
  -- has as added, changed, or the new name of a file) has been tried, and is a dead letter just if
  -- it failed.
  pub sync_store_locked-Settled :
      (engine engine' : Engine) (result : SyncResult)
      → UniqueKeys engine.stored.dead_letters
      → sync_store_locked world engine ≡ (done result, engine')
      → result.degraded ≡ none
      → (engine'.stored.last_ingested_commit ≡ some world.head)
        × (result.dead_letters ≡ engine'.stored.dead_letters)
        × UniqueKeys engine'.stored.dead_letters
        × ((path : String) → Known engine.stored engine'.stored.dead_letters path)
  unfolding sync_store_locked
  sync_store_locked-Settled engine engine' result u h fine = elim (Bool-cases world.ready) [
    | inr unready ↦ absurd (cc (fine, rw unready at h))
    | inl ready ↦ elim (Attempt-cases (plan_targets world engine.stored)) [
      | inr (e, failed) ↦ absurd (cc (rw (ready, failed) at h))
      | inl ((targets, state, deleted), planned) ↦
          let same = (plan_targets_lem world engine.stored targets state deleted planned).0 in
          let u' : UniqueKeys state.dead_letters = subst UniqueKeys (sym same) u in
          let after =
            (sync_paths world (all_targets world targets state) (state, 0)).0.dead_letters in
          let h' = rw (ready, planned) at h in
          let e : engine'.stored.dead_letters ≡ after = ground (arith, h') in
          (
            ground (arith, h'),
            ground (arith, h'),
            subst UniqueKeys (sym e)
                (sync_paths_lem world (all_targets world targets state) state 0 u').0,
            λ path.
                subst (λ z. Known engine.stored z path) (sym e)
                  (tried engine.stored state targets deleted path planned u'),
          )
    ]
  ]
