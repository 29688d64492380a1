-- ===== src/Workflow/Corpus/Holding.antt =====
-- workflow_evaluation.py: which facts the files of the corpus hold, and that `facts_of` finds them.
use plk_memory.Base.{
  String, true, false, Option, some, List, [], ◌∷◌, ◌++◌, ◌≡◌, ◌≢◌, ◌↔◌, ◌∙◌, refl, ap, sym, arith,
  eq_iff, All, ◌==◌, string_eq, if◌then◌else◌, inl, inr, ◌⊎◌, Bool-cases,
}
use plk_memory.Dict.{Dict, find, put}
use plk_memory.Dict.Laws.{find-put, find-put_same, find-put_other}
use plk_memory.Workflow.Corpus.{
  CorpusFile, Metadata, absent, other_value, text, not_a_fact, put_fact, text_of, status_of,
  facts_of,
}

-- A status in the front matter, which is "active" where there is none
abbrev pub IsStatus : Metadata → String → Type 0
IsStatus value status = (value ≡ text status) ⊎ ((value ≡ absent) × (status ≡ "active"))

-- The file holds the fact with this id: it is none of the two documents, and has the id and a
-- status.
abbrev pub Holds : String → String → CorpusFile → Type 0
Holds id status file =
    (file.name ≢ "CONVENTIONS.md")
    × (file.name ≢ "README.md")
    × (file.id ≡ text id)
    × IsStatus file.status status

abbrev pub HoldsNot : String → CorpusFile → Type 0
HoldsNot id file = (status : String) → ¬ Holds id status file

-- The last of the files that holds the fact has this status and this hash.
abbrev pub IsLast : List CorpusFile → String → String → String → Type 0
IsLast files id status hash =
    (before : List CorpusFile) × (file : CorpusFile) × (later : List CorpusFile) × (files
      ≡ before ++ file ∷ later)
    × Holds id status file
    × (file.content_hash ≡ hash)
    × All (HoldsNot id) later

documents :
    (name : String) → (not_a_fact name ≡ false) ↔ ((name ≢ "CONVENTIONS.md") × (name ≢ "README.md"))
documents name = (
  λ h. (
    λ e. ground (arith, h, e, eq_iff name "CONVENTIONS.md"),
    λ e. ground (arith, h, e, eq_iff name "README.md"),
  ),
  λ h. ground (arith, h.0, h.1, eq_iff name "CONVENTIONS.md", eq_iff name "README.md"),
)

same_pair :
    (a b a' b' : String)
    → ◌≡◌ {A = Option (String × String)} (some (a, b)) (some (a', b'))
    → (a ≡ a') × (b ≡ b')
same_pair a b a' b' e = (cc e, cc e)

put_hit :
    (i key status hash status' hash' : String) (known : Dict (String × String))
    → (i == key) ≡ true
    → find key (put i (status, hash) known) ≡ some (status', hash')
    → (status ≡ status') × (hash ≡ hash')
put_hit i key status hash status' hash' known hit h =
    same_pair status hash status' hash'
      (ground (arith, hit, h, find-put key i (status, hash) known))

put_fact_lem :
    (id value : Metadata) (hash₀ : String) (known : Dict (String × String))
    (key status hash : String)
    → find key (put_fact (text_of id) (status_of value) hash₀ known) ≡ some (status, hash)
    → ((id ≡ text key) × IsStatus value status × (hash₀ ≡ hash))
      ⊎ (((s : String) → id ≡ text key → ¬ IsStatus value s)
          × (find key known ≡ some (status, hash)))
put_fact_lem absent value hash₀ known key status hash h = inr (λ s e. absurd (cc e), h)
put_fact_lem other_value value hash₀ known key status hash h = inr (λ s e. absurd (cc e), h)
put_fact_lem (text i) other_value hash₀ known key status hash h =
    inr (λ s e k. elim k [ inl t ↦ absurd (cc t) | inr (t, a) ↦ absurd (cc t) ], h)
put_fact_lem (text i) absent hash₀ known key status hash h = elim (Bool-cases (i == key)) [
  | inl hit ↦
      let (same, hashed) = put_hit i key "active" hash₀ status hash known hit h in
      inl (ap text (ground (arith, hit, eq_iff i key)), inr (refl, sym same), hashed)
  | inr miss ↦ inr (
    λ s e. absurd (ground (arith, e, miss, eq_iff i key)),
    ground (arith, miss, find-put key i ("active", hash₀) known),
  )
]
put_fact_lem (text i) (text st) hash₀ known key status hash h = elim (Bool-cases (i == key)) [
  | inl hit ↦
      let (same, hashed) = put_hit i key st hash₀ status hash known hit h in
      inl (ap text (ground (arith, hit, eq_iff i key)), inl (ap text same), hashed)
  | inr miss ↦ inr (
    λ s e. absurd (ground (arith, e, miss, eq_iff i key)),
    ground (arith, miss, find-put key i (st, hash₀) known),
  )
]

put_fact_hit :
    (value : Metadata) (hash : String) (known : Dict (String × String)) (key status : String)
    → IsStatus value status
    → find key (put_fact (some key) (status_of value) hash known) ≡ some (status, hash)
put_fact_hit absent hash known key status (inl e) = absurd (cc e)
put_fact_hit absent hash known key status (inr (_, e)) =
    find-put_same key ("active", hash) known ∙ ap (λ z. some (z, hash)) (sym e)
put_fact_hit other_value hash known key status (inl e) = absurd (cc e)
put_fact_hit other_value hash known key status (inr (e, _)) = absurd (cc e)
put_fact_hit (text st) hash known key status (inl e) =
    let same : st ≡ status = cc e in
    find-put_same key (st, hash) known ∙ ap (λ z. some (z, hash)) same
put_fact_hit (text st) hash known key status (inr (e, _)) = absurd (cc e)

put_fact_miss :
    (id value : Metadata) (hash : String) (known : Dict (String × String)) (key : String)
    → ((s : String) → id ≡ text key → ¬ IsStatus value s)
    → find key (put_fact (text_of id) (status_of value) hash known) ≡ find key known
put_fact_miss absent value hash known key unheld = refl
put_fact_miss other_value value hash known key unheld = refl
put_fact_miss (text i) other_value hash known key unheld = refl
put_fact_miss (text i) absent hash known key unheld = elim (Bool-cases (i == key)) [
  | inl hit ↦
      let e : i ≡ key = ground (arith, hit, eq_iff i key) in
      absurd (unheld "active" (ap text e) (inr (refl, refl)))
  | inr miss ↦ find-put_other key i ("active", hash) known miss
]
put_fact_miss (text i) (text st) hash known key unheld = elim (Bool-cases (i == key)) [
  | inl hit ↦
      let e : i ≡ key = ground (arith, hit, eq_iff i key) in
      absurd (unheld st (ap text e) (inl refl))
  | inr miss ↦ find-put_other key i (st, hash) known miss
]

-- A file's turn in `facts_of`
abbrev turn : CorpusFile → Dict (String × String) → Dict (String × String)
turn file known =
    if not_a_fact file.name
    then known
    else put_fact (text_of file.id) (status_of file.status) file.content_hash known

turn_lem :
    (file : CorpusFile) (known : Dict (String × String)) (key status hash : String)
    → find key (turn file known) ≡ some (status, hash)
    → (Holds key status file × (file.content_hash ≡ hash))
      ⊎ (HoldsNot key file × (find key known ≡ some (status, hash)))
turn_lem file known key status hash h = elim (Bool-cases (not_a_fact file.name)) [
  | inl document ↦
      inr
        (λ s (a, b, _, _). absurd (cc (document, (documents file.name).1 (a, b))), rw document at h)
  | inr plain ↦
      elim (put_fact_lem file.id file.status file.content_hash known key status hash
        (rw plain at h)) [
          | inl (e, st, hashed) ↦
              let (a, b) = (documents file.name).0 plain in inl ((a, b, e, st), hashed)
          | inr (unheld, found) ↦ inr (λ s (_, _, e, st). unheld s e st, found)
        ]
]

turn_hit :
    (file : CorpusFile) (known : Dict (String × String)) (key status hash : String)
    → Holds key status file
    → file.content_hash ≡ hash
    → find key (turn file known) ≡ some (status, hash)
turn_hit file known key status hash (a, b, e, st) hashed =
    let plain = (documents file.name).1 (a, b) in
    let put_here = put_fact_hit file.status file.content_hash known key status st in
    rw plain (rw e (rw put_here (ap (λ z. some (status, z)) hashed)))

turn_miss :
    (file : CorpusFile) (known : Dict (String × String)) (key : String)
    → HoldsNot key file
    → find key (turn file known) ≡ find key known
turn_miss file known key unheld = elim (Bool-cases (not_a_fact file.name)) [
  | inl document ↦ rw document refl
  | inr plain ↦
      let (a, b) = (documents file.name).0 plain in
      rw plain (
        put_fact_miss file.id file.status file.content_hash known key
          (λ s e st. unheld s (a, b, e, st)))
]

facts_of_lem :
    (files : List CorpusFile) (known : Dict (String × String)) (key status hash : String)
    → find key (facts_of files known) ≡ some (status, hash)
    → IsLast files key status hash
      ⊎ (All (HoldsNot key) files × (find key known ≡ some (status, hash)))
unfolding facts_of
facts_of_lem [] known key status hash h = inr (tt, h)
facts_of_lem (file ∷ rest) known key status hash h =
    elim (facts_of_lem rest (turn file known) key status hash h) [
      | inl (before, last, later, e, holds, hashed, none_later) ↦
          inl (file ∷ before, last, later, ap (λ z. file ∷ z) e, holds, hashed, none_later)
      | inr (none_later, found) ↦ elim (turn_lem file known key status hash found) [
        | inl (holds, hashed) ↦ inl ([], file, rest, refl, holds, hashed, none_later)
        | inr (unheld, k) ↦ inr ((unheld, none_later), k)
      ]
    ]

facts_of_kept :
    (files : List CorpusFile) (known : Dict (String × String)) (key : String)
    → All (HoldsNot key) files
    → find key (facts_of files known) ≡ find key known
unfolding facts_of
facts_of_kept [] known key h = refl
facts_of_kept (file ∷ rest) known key (unheld, h) =
    facts_of_kept rest (turn file known) key h ∙ turn_miss file known key unheld

facts_of_last :
    (before : List CorpusFile) (file : CorpusFile) (later : List CorpusFile)
    (known : Dict (String × String)) (key status hash : String)
    → Holds key status file
    → file.content_hash ≡ hash
    → All (HoldsNot key) later
    → find key (facts_of (before ++ file ∷ later) known) ≡ some (status, hash)
unfolding facts_of
facts_of_last [] file later known key status hash holds hashed none_later =
    facts_of_kept later (turn file known) key none_later
    ∙ turn_hit file known key status hash holds hashed
facts_of_last (x ∷ before) file later known key status hash holds hashed none_later =
    facts_of_last before file later (turn x known) key status hash holds hashed none_later

pub find-facts_of :
    (files : List CorpusFile) (key status hash : String)
    → (find key (facts_of files []) ≡ some (status, hash)) ↔ IsLast files key status hash
unfolding find
find-facts_of files key status hash = (
  λ h. elim (facts_of_lem files [] key status hash h) [
    | inl last ↦ last
    | inr (_, nothing) ↦ absurd (cc nothing)
  ],
  λ (before, file, later, e, holds, hashed, none_later).
      ap (λ z. find key (facts_of z [])) e
      ∙ facts_of_last before file later [] key status hash holds hashed none_later,
)
