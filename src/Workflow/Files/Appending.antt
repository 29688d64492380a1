-- ===== src/Workflow/Files/Appending.antt =====
-- workflow_evaluation.py: what `append_review` writes, `read_reviews` reads.
use plk_memory.Base.{
  String, true, false, Option, none, some, List, [], ◌∷◌, ◌++◌, ◌≡◌, refl, sym, ap, ◌∙◌, subst,
  arith, eq_iff, inl, inr, ◌==◌, string_eq, Bool-cases,
}
use plk_memory.Base.Text.{strip, char_count, has_space, is_space, strip-has_space}
use plk_memory.Ports.{Result, ok, Result-cases}
use plk_memory.Workflow.{WorkflowReview, WorkflowSuite}
use plk_memory.Workflow.Reviews.{validate_review, validate_review_against_suite}
use plk_memory.Workflow.Store.{
  External, Settings, File, zero_hash, all_hex, reviewer_verifier, validate_attestation,
  model_validate_json, parse_reviews, open_review_store,
}
use plk_memory.Workflow.History.{validate_review_history, validate_from}
use plk_memory.Workflow.Lines.{
  splitlines, text_append, has_break, ends_line, splitlines-line, splitlines-append,
  ends_line-append, ends_line-line,
}
use plk_memory.Workflow.Files.{
  line_of, check_all, read_lines, read_reviews, append_to, append_review,
}

all_hex-has_space : (s : String) → all_hex s ≡ true → has_space s ≡ false
unfolding all_hex has_space is_space
all_hex-has_space String.[] h = refl
all_hex-has_space (String.◌∷◌ c s) h = ground (arith, all_hex-has_space s)

filled : (s : String) → char_count s ≡ 64 → (s == "") ≡ false
unfolding char_count
filled s h = elim (Bool-cases (s == "")) [
  | inl empty ↦
      let e : s ≡ "" = ground (arith, eq_iff s "") in
      absurd (omega (arith, subst (λ z. char_count z ≡ 64) e h))
  | inr full ↦ full
]

check_all-append {ℓ} :
    {A : Type ℓ} (check : A → Result (Unit {0})) (xs : List A) (x : A)
    → check_all check xs ≡ ok tt
    → check x ≡ ok tt
    → check_all check (xs ++ x ∷ []) ≡ ok tt
unfolding check_all
check_all-append check [] x h k = rw k refl
check_all-append check (y ∷ xs) x h k = ground (arith, check_all-append check xs x)

check_all-from {ℓ} :
    {A : Type ℓ} (check check' : A → Result (Unit {0})) (xs : List A)
    → ((x : A) → check x ≡ ok tt → check' x ≡ ok tt)
    → check_all check xs ≡ ok tt
    → check_all check' xs ≡ ok tt
unfolding check_all
check_all-from check check' [] each h = refl
check_all-from check check' (y ∷ xs) each h =
    ground (arith, check_all-from check check' xs each, each y)

-- The settings once the trusted head is the hash of a review.
abbrev pub with_head : Settings → String → Settings
with_head settings head = record settings { workflow_review_trusted_head = head }

-- A text as the pattern of `record_hash` has it.
abbrev pub IsHash : String → Type 0
IsHash hash = (char_count hash ≡ 64) × (all_hex hash ≡ true)

module _ (ext : External) where
  -- pydantic reads the text that it has written, which is not blank and has no character that ends a
  -- line for `splitlines`, and the review is valid.
  pub record IsPrinted (review : WorkflowReview) : Type 0 where
    pub reads : ext.fields_of (ext.model_dump_json review) ≡ some review
    pub visible : (strip (ext.model_dump_json review) == "") ≡ false
    pub valid : validate_review review ≡ ok tt
    pub one_line : has_break (ext.model_dump_json review) ≡ false
    pub hash : IsHash review.record_hash

  parse_reviews-append :
      (lines : List String) (reviews : List WorkflowReview) (review : WorkflowReview)
      → IsPrinted review
      → parse_reviews ext lines ≡ ok reviews
      → parse_reviews ext (lines ++ ext.model_dump_json review ∷ []) ≡ ok (reviews ++ review ∷ [])
  unfolding parse_reviews model_validate_json
  parse_reviews-append [] reviews review p h =
      let empty : [] ≡ reviews = cc h in
      subst (λ z. parse_reviews ext (ext.model_dump_json review ∷ []) ≡ ok (z ++ review ∷ [])) empty
        (rw (p.visible, p.reads, p.valid) refl)
  parse_reviews-append (line ∷ lines) reviews review p h = elim (Bool-cases (strip line == "")) [
    | inl blank ↦ rw blank (parse_reviews-append lines reviews review p (rw blank at h))
    | inr full ↦ elim (Result-cases (model_validate_json ext line)) [
      | inl (r, one) ↦ elim (Result-cases (parse_reviews ext lines)) [
        | inl (rest, more) ↦
            let parts : r ∷ rest ≡ reviews = cc (rw (full, one, more) at h) in
            let later = parse_reviews-append lines rest review p more in
            rw (full, one, later) (ap (λ z. ok (z ++ review ∷ [])) parts)
        | inr (e, more) ↦ absurd (cc (rw (full, one, more) at h))
      ]
      | inr (e, one) ↦ absurd (cc (rw (full, one) at h))
    ]
  ]

  parsed_after :
      (text : String) (reviews : List WorkflowReview) (review : WorkflowReview)
      → IsPrinted review
      → ends_line text ≡ true
      → parse_reviews ext (splitlines text) ≡ ok reviews
      → parse_reviews ext (splitlines (text_append text (line_of ext review)))
        ≡ ok (reviews ++ review ∷ [])
  parsed_after text reviews review p ended h =
      let json = ext.model_dump_json review in
      let split =
        splitlines-append text (line_of ext review) ended
        ∙ ap (λ z. splitlines text ++ z) (splitlines-line json p.one_line) in
      ap (parse_reviews ext) split ∙ parse_reviews-append (splitlines text) reviews review p h

  verifier-with_head :
      (settings : Settings) (hash : String) {id head : String} {key : ext.PublicKey}
      → IsHash hash
      → reviewer_verifier ext settings ≡ ok (id, key, head)
      → reviewer_verifier ext (with_head settings hash) ≡ ok (id, key, hash)
  unfolding reviewer_verifier char_count
  verifier-with_head settings hash {id} {head} {key} (long, hex) h =
      let plain : strip hash ≡ hash = strip-has_space hash (all_hex-has_space hash hex) in
      rw plain (ground (arith, filled hash long, long, hex))

  attestation-with_head :
      (settings settings' : Settings) {id head head' : String} {key : ext.PublicKey}
      → reviewer_verifier ext settings ≡ ok (id, key, head)
      → reviewer_verifier ext settings' ≡ ok (id, key, head')
      → (r : WorkflowReview) → validate_attestation ext settings r ≡ ok tt
      → validate_attestation ext settings' r ≡ ok tt
  unfolding validate_attestation
  attestation-with_head settings settings' v v' r h = rw v' (rw v at h)

  record Appended (settings : Settings) (suite : WorkflowSuite) (head : String)
      (review : WorkflowReview) (file new : File) (existing : List WorkflowReview) : Type 0 where
    parsed : parse_reviews ext (splitlines file.text) ≡ ok existing
    attested : check_all (validate_attestation ext settings) existing ≡ ok tt
    chained : validate_review_history existing head ≡ ok tt
    extended : validate_review_history (existing ++ review ∷ []) review.record_hash ≡ ok tt
    suited : check_all (λ old. validate_review_against_suite old suite) existing ≡ ok tt
    written : new ≡ record file { text = text_append file.text (line_of ext review) }

  append_to-Appended :
      (settings : Settings) (suite : WorkflowSuite) (head : String) (review : WorkflowReview)
      (file new : File)
      → append_to ext settings suite head review file ≡ ok new
      → (existing : List WorkflowReview) × Appended settings suite head review file new existing
  unfolding append_to
  append_to-Appended settings suite head review file new h =
      elim (Result-cases (parse_reviews ext (splitlines file.text))) [
        | inl (existing, parsed) ↦ (existing, ground (arith, parsed))
        | inr (e, failed) ↦ absurd (cc (rw failed at h))
      ]

  read_lines-passed :
      (settings : Settings) (suite : WorkflowSuite) (head : String) (file : File)
      (reviews : List WorkflowReview)
      → parse_reviews ext (splitlines file.text) ≡ ok reviews
      → check_all (validate_attestation ext settings) reviews ≡ ok tt
      → validate_review_history reviews head ≡ ok tt
      → check_all (λ old. validate_review_against_suite old suite) reviews ≡ ok tt
      → read_lines ext settings (some suite) head (some file) ≡ ok reviews
  unfolding read_lines
  read_lines-passed settings suite head file reviews parsed attested chained suited =
      rw (parsed, attested, chained, suited) refl

  opened_file :
      (path : Option File) (file : File)
      → open_review_store true path ≡ ok (some file)
      → (file.opens ≡ true) × (file.is_regular ≡ true) × (file.mode ≡ 384)
  unfolding open_review_store
  opened_file none file h = ground arith
  opened_file (some old) file h = ground arith

  -- A file that opens for writing opens for reading, before and after it is written.
  reopened :
      (path : Option File) (file : File) (text : String)
      → open_review_store true path ≡ ok (some file)
      → open_review_store false (some (record file { text = text }))
        ≡ ok (some (record file { text = text }))
  unfolding open_review_store
  reopened path file text h =
      let opens : file.opens ≡ true = (opened_file path file h).0 in
      let regular : file.is_regular ≡ true = (opened_file path file h).1 in
      let private_mode : file.mode ≡ 384 = (opened_file path file h).2 in
      rw (opens, regular, private_mode) refl

  read_before :
      (settings : Settings) (suite : WorkflowSuite) (head : String) (path : Option File)
      (file : File) (existing : List WorkflowReview)
      → open_review_store true path ≡ ok (some file)
      → read_lines ext settings (some suite) head (some file) ≡ ok existing
      → (opened : Option File) × (open_review_store false path ≡ ok opened)
        × (read_lines ext settings (some suite) head opened ≡ ok existing)
  unfolding open_review_store read_lines parse_reviews check_all validate_review_history
      validate_from
  read_before settings suite head none file existing h k =
      let empty : file.text ≡ "" = ground arith in
      (none, refl, ground (arith, rw empty at k, eq_iff head zero_hash, eq_iff zero_hash head))
  read_before settings suite head (some old) file existing h k =
      let same : file.text ≡ old.text = ground arith in (some old, ground arith, rw same at k)

  read_reviews-steps :
      (settings : Settings) (suite : Option WorkflowSuite) (path opened : Option File)
      (reviews : List WorkflowReview) {id head : String} {key : ext.PublicKey}
      → reviewer_verifier ext settings ≡ ok (id, key, head)
      → open_review_store false path ≡ ok opened
      → read_lines ext settings suite head opened ≡ ok reviews
      → read_reviews ext settings suite path ≡ ok reviews
  unfolding read_reviews
  read_reviews-steps settings suite path opened reviews v o r = rw (v, o) r

  read_after :
      (settings : Settings) (suite : WorkflowSuite) (review : WorkflowReview) (path : Option File)
      (file new : File) (existing : List WorkflowReview) {id head : String} {key : ext.PublicKey}
      → IsPrinted review
      → ends_line file.text ≡ true
      → reviewer_verifier ext settings ≡ ok (id, key, head)
      → open_review_store true path ≡ ok (some file)
      → validate_attestation ext settings review ≡ ok tt
      → validate_review_against_suite review suite ≡ ok tt
      → Appended settings suite head review file new existing
      → read_reviews ext (with_head settings review.record_hash) (some suite) (some new)
        ≡ ok (existing ++ review ∷ [])
  read_after settings suite review path file new existing p ended v opened signed suits a =
      let settings' = with_head settings review.record_hash in
      let v' = verifier-with_head settings review.record_hash p.hash v in
      let text = text_append file.text (line_of ext review) in
      subst (λ z. read_reviews ext settings' (some suite) (some z) ≡ ok (existing ++ review ∷ []))
        (sym a.written)
        (read_reviews-steps settings' (some suite) (some (record file { text = text }))
          (some (record file { text = text })) (existing ++ review ∷ []) v'
          (reopened path file text opened)
          (read_lines-passed settings' suite review.record_hash (record file { text = text })
            (existing ++ review ∷ []) (parsed_after file.text existing review p ended a.parsed)
            (check_all-append (validate_attestation ext settings') existing review
              (check_all-from _ _ existing (attestation-with_head settings settings' v v')
                a.attested)
              (attestation-with_head settings settings' v v' review signed))
            a.extended
            (check_all-append (λ old. validate_review_against_suite old suite) existing review
              a.suited suits)))

  abbrev pub stored_text : Option File → String
  stored_text none = ""
  stored_text (some file) = file.text

  opened_text :
      (path : Option File) (file : File)
      → open_review_store true path ≡ ok (some file)
      → file.text ≡ stored_text path
  unfolding open_review_store
  opened_text none file h = ground arith
  opened_text (some old) file h = ground arith

  -- A review that `append_review` accepts is in the file from then on: before it the file could be
  -- read, and with the review's hash as the new trusted head, the new file is read as what stood
  -- in it before and the review; and its last line is ended. This needs that the last line of the
  -- file was ended, if it had a text; that pydantic reads the text it has written for the review,
  -- which is not blank and has no character at which `splitlines` splits; and that the review is
  -- valid by itself, with 64 hexadecimal digits for its hash.
  pub append_review-read :
      (settings : Settings) (suite : WorkflowSuite) (review : WorkflowReview) (path : Option File)
      (new : File)
      → IsPrinted review
      → ends_line (stored_text path) ≡ true
      → append_review ext settings suite review path ≡ ok new
      → (existing : List WorkflowReview) × (read_reviews ext settings (some suite) path
          ≡ ok existing)
        × (read_reviews ext (with_head settings review.record_hash) (some suite) (some new)
            ≡ ok (existing ++ review ∷ []))
        × (ends_line new.text ≡ true)
  unfolding append_review read_reviews
  append_review-read settings suite review path new p closed h =
      elim (Result-cases (reviewer_verifier ext settings)) [
        | inl ((id, key, head), v) ↦ elim (Result-cases (open_review_store true path)) [
          | inl (some file, opened) ↦
              let suits : validate_review_against_suite review suite ≡ ok tt = ground arith in
              let signed : validate_attestation ext settings review ≡ ok tt = ground arith in
              let appended : append_to ext settings suite head review file ≡ ok new =
                rw (suits, signed, v, opened) at h in
              let (existing, a) = append_to-Appended settings suite head review file new appended in
              let (before, opens, reads) =
                read_before settings suite head path file existing opened (
                  read_lines-passed settings suite head file existing a.parsed a.attested a.chained
                    a.suited) in
              let ended : ends_line file.text ≡ true =
                ap ends_line (opened_text path file opened) ∙ closed in
              (
                existing,
                read_reviews-steps settings (some suite) path before existing v opens reads,
                read_after settings suite review path file new existing p ended v opened signed
                    suits a,
                ap (λ z. ends_line z.text) a.written
                    ∙ ends_line-append file.text (line_of ext review) ended
                        (ends_line-line (ext.model_dump_json review)),
              )
          | inl (none, opened) ↦ absurd (ground (arith, v, opened))
          | inr (e, failed) ↦ absurd (ground (arith, v, failed))
        ]
        | inr (e, failed) ↦ absurd (ground (arith, failed))
      ]
