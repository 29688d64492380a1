-- ===== src/Sync/Letters.antt =====
-- What a path's turn in a sync does to the dead letters.
use plk_memory.Base.{
  ℕ, String, Bool, true, false, Option, none, some, List, [], ◌∷◌, ◌≡◌, refl, ap, sym, subst, ◌∙◌,
  arith, eq_iff, Bool-cases, inl, inr, ◌⊎◌, elem, ◌==◌, ◌||◌, string_eq,
}
use plk_memory.Dict.{Dict, find, put, remove, UniqueKeys}
use plk_memory.Dict.Laws.{find-put, find-remove, put-UniqueKeys, remove-UniqueKeys}
use plk_memory.Sync.{World, SyncState, FactIndexEntry, Attempt, done, raised, sync_path, sync_paths}

pub Attempt-cases {ℓ} :
    {A : Type ℓ} (a : Attempt A) → ((x : A) × (a ≡ done x)) ⊎ ((e : String) × (a ≡ raised e))
Attempt-cases (done x) = inl (x, refl)
Attempt-cases (raised e) = inr (e, refl)

id_of_cases :
    (a : Attempt (Option String))
    → ((a ≡ done none) ⊎ ((fid : String) × (a ≡ done (some fid)))) ⊎ ((e : String) × (a ≡ raised e))
id_of_cases (done none) = inl (inl refl)
id_of_cases (done (some fid)) = inl (inr (fid, refl))
id_of_cases (raised e) = inr (e, refl)

module _ (world : World) where
  -- The file is there, and reading its id or indexing it raises `e`.
  abbrev pub Fails : String → String → Type 0
  Fails path e =
      (world.exists path ≡ true)
      × ((world.id_of path ≡ raised e)
          ⊎ ((fid : String) × (old : Option FactIndexEntry) × (world.id_of path ≡ done (some fid))
              × (world.upsert_fact path old ≡ raised e)))

  -- There is nothing to index, or the index has taken it.
  abbrev pub Passes : String → Type 0
  Passes path =
      (world.exists path ≡ false)
      ⊎ ((world.id_of path ≡ done none)
          ⊎ ((fid : String) × (old : Option FactIndexEntry) × (entry : FactIndexEntry)
              × (world.id_of path ≡ done (some fid))
              × (world.upsert_fact path old ≡ done entry)))

  -- What is known of a path with this dead letter, once it has been tried
  abbrev pub Settled : String → Option String → Type 0
  Settled path letter =
      ((letter ≡ none) × Passes path) ⊎ ((e : String) × (letter ≡ some e) × Fails path e)

  sync_path_cases :
      (path : String) (state : SyncState) (n : ℕ)
      → (((sync_path world path (state, n)).0.dead_letters ≡ remove path state.dead_letters)
          × Passes path)
        ⊎ ((e : String) × ((sync_path world path (state, n)).0.dead_letters
              ≡ put path e state.dead_letters)
            × Fails path e)
  unfolding sync_path
  sync_path_cases path state n = elim (Bool-cases (world.exists path)) [
    | inr missing ↦ inl (rw missing refl, inl missing)
    | inl there ↦ elim (id_of_cases (world.id_of path)) [
      | inr (e, bad) ↦ inr (e, rw (there, bad) refl, (there, inl bad))
      | inl (inl plain) ↦ inl (rw (there, plain) refl, inr (inl plain))
      | inl (inr (fid, named)) ↦
          elim (Attempt-cases (world.upsert_fact path (find fid state.facts))) [
            | inl (entry, taken) ↦ inl (
              rw (there, named, taken) refl,
              inr (inr (fid, find fid state.facts, entry, named, taken)),
            )
            | inr (e, bad) ↦ inr (
              e,
              rw (there, named, bad) refl,
              (there, inr (fid, find fid state.facts, named, bad)),
            )
          ]
    ]
  ]

  -- After its turn a path is settled, and no other path's letter has changed.
  sync_path_lem :
      (path : String) (state : SyncState) (n : ℕ)
      → UniqueKeys state.dead_letters
      → UniqueKeys (sync_path world path (state, n)).0.dead_letters
        × Settled path (find path (sync_path world path (state, n)).0.dead_letters)
        × ((x : String)
            → (path == x) ≡ false
            → find x (sync_path world path (state, n)).0.dead_letters ≡ find x state.dead_letters)
  sync_path_lem path state n u = elim (sync_path_cases path state n) [
    | inl (gone, passes) ↦ (
      subst UniqueKeys (sym gone) (remove-UniqueKeys path state.dead_letters u),
      inl (
        ap (find path) gone
            ∙ ground (arith, find-remove path path state.dead_letters u, eq_iff path path),
        passes,
      ),
      λ x other. ap (find x) gone ∙ ground (arith, other, find-remove x path state.dead_letters u),
    )
    | inr (e, set, fails) ↦ (
      subst UniqueKeys (sym set) (put-UniqueKeys path e state.dead_letters u),
      inr (
        e,
        ap (find path) set
            ∙ ground (arith, find-put path path e state.dead_letters, eq_iff path path),
        fails,
      ),
      λ x other. ap (find x) set ∙ ground (arith, other, find-put x path e state.dead_letters),
    )
  ]

  one_more :
      (path x : String) (among : Bool) (before mid after : Dict String)
      → Settled path (find path mid)
      → ((path == x) ≡ false → find x mid ≡ find x before)
      → (among ≡ true → Settled x (find x after)) × (among ≡ false → find x after ≡ find x mid)
      → ((x == path) || among ≡ true → Settled x (find x after))
        × ((x == path) || among ≡ false → find x after ≡ find x before)
  one_more path x true before mid after settled others (later, rest) =
      (λ _. later refl, λ h. ground (arith, h))
  one_more path x false before mid after settled others (later, rest) = (
    λ h.
        let e : path ≡ x = ground (arith, eq_iff x path) in
        subst (Settled x) (sym (rest refl)) (subst (λ z. Settled z (find z mid)) e settled),
    λ h. rest refl ∙ others (ground (arith, eq_iff x path, eq_iff path x)),
  )

  pub sync_paths_lem :
      (paths : List String) (state : SyncState) (n : ℕ)
      → UniqueKeys state.dead_letters
      → UniqueKeys (sync_paths world paths (state, n)).0.dead_letters
        × ((x : String)
            → (elem x paths ≡ true
                → Settled x (find x (sync_paths world paths (state, n)).0.dead_letters))
              × (elem x paths ≡ false
                  → find x (sync_paths world paths (state, n)).0.dead_letters
                    ≡ find x state.dead_letters))
  unfolding sync_paths
  sync_paths_lem [] state n u = (u, λ x. (λ h. absurd (cc h), λ _. refl))
  sync_paths_lem (path ∷ paths) state n u =
      let next = sync_path world path (state, n) in
      let (u', settled, others) = sync_path_lem path state n u in
      let (last, later) = sync_paths_lem paths next.0 next.1 u' in
      (
        last,
        λ x.
            one_more path x (elem x paths) state.dead_letters next.0.dead_letters
              (sync_paths world paths next).0.dead_letters settled (others x) (later x),
      )
