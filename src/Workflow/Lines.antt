-- ===== src/Workflow/Lines.antt =====
-- Python's `str.splitlines` on the text of a file. A text that has been read has no carriage return:
-- the handle has made line feeds of them.
use Prim.Native.Char.{Char, code}
use plk_memory.Base.{
  ℕ, String, Bool, true, false, ◌||◌, List, [], ◌∷◌, ◌++◌, ◌≡◌, refl, ap, sym, subst, ◌∙◌,
  Bool-cases, inl, inr, arith, leb, ◌==◌, nat_eq, if◌then◌else◌, ◌&&◌,
}

abbrev pub newline : String
newline = "\n"

-- `s + t`
abbrev pub text_append : String → String → String
text_append String.[] t = t
text_append (String.◌∷◌ c s) t = String.◌∷◌ c (text_append s t)

-- The characters at which `splitlines` splits.
unfoldable pub is_break : ℕ → Bool
is_break c =
    (leb 10 c && leb c 13)
    || (leb 28 c && leb c 30)
    || (c == 0x85)
    || (c == 0x2028)
    || (c == 0x2029)

abbrev push_char : Char → List String → List String
push_char c [] = String.◌∷◌ c String.[] ∷ []
push_char c (line ∷ lines) = String.◌∷◌ c line ∷ lines

-- The lines with a character in front of them
abbrev next_line : Char → List String → List String
next_line c lines = if is_break (code c) then String.[] ∷ lines else push_char c lines

unfoldable pub splitlines : String → List String
unfolding is_break
splitlines String.[] = []
splitlines (String.◌∷◌ c s) = next_line c (splitlines s)

unfoldable pub has_break : String → Bool
unfolding is_break
has_break String.[] = false
has_break (String.◌∷◌ c s) = let rest = has_break s in is_break (code c) || rest

-- The text is empty, or its last line is ended.
unfoldable pub ends_line : String → Bool
unfolding is_break
ends_line String.[] = true
ends_line (String.◌∷◌ c String.[]) = is_break (code c)
ends_line (String.◌∷◌ c (String.◌∷◌ d s)) = ends_line (String.◌∷◌ d s)

two_lines : splitlines "a\nb\n" ≡ ("a" ∷ "b" ∷ [])
unfolding splitlines is_break
two_lines = refl

pub splitlines-line :
    (line : String) → has_break line ≡ false → splitlines (text_append line newline) ≡ line ∷ []
unfolding splitlines has_break
splitlines-line String.[] h = refl
splitlines-line (String.◌∷◌ c s) h =
    let plain : is_break (code c) ≡ false = ground (arith, h) in
    rw plain (ap (push_char c) (splitlines-line s (ground (arith, h))))

some_line :
    (c : Char) (xs : List String)
    → (line : String) × (lines : List String) × (next_line c xs ≡ line ∷ lines)
some_line c xs = elim (Bool-cases (is_break (code c))) [
  | inl ends ↦ (String.[], xs, rw ends refl)
  | inr plain ↦ pushed xs plain
]
  where
    pushed :
        (xs : List String)
        → is_break (code c) ≡ false
        → (line : String) × (lines : List String) × (next_line c xs ≡ line ∷ lines)
    pushed [] plain = (String.◌∷◌ c String.[], [], rw plain refl)
    pushed (x ∷ xs) plain = (String.◌∷◌ c x, xs, rw plain refl)

next_line-append :
    (c : Char) (line : String) (lines more : List String)
    → next_line c (line ∷ lines ++ more) ≡ next_line c (line ∷ lines) ++ more
next_line-append c line lines more = elim (Bool-cases (is_break (code c))) [
  | inl ends ↦ rw ends refl
  | inr plain ↦ rw plain refl
]

pub splitlines-append :
    (s t : String)
    → ends_line s ≡ true
    → splitlines (text_append s t) ≡ splitlines s ++ splitlines t
unfolding splitlines ends_line
splitlines-append String.[] t h = refl
splitlines-append (String.◌∷◌ c String.[]) t h = rw h refl
splitlines-append (String.◌∷◌ c (String.◌∷◌ d s)) t h =
    let (line, lines, e) = some_line d (splitlines s) in
    ap (next_line c) (splitlines-append (String.◌∷◌ d s) t h)
    ∙ subst (λ z. next_line c (z ++ splitlines t) ≡ next_line c z ++ splitlines t) (sym e)
        (next_line-append c line lines (splitlines t))

pub ends_line-append :
    (s t : String) → ends_line s ≡ true → ends_line t ≡ true → ends_line (text_append s t) ≡ true
unfolding ends_line
ends_line-append String.[] t h k = k
ends_line-append (String.◌∷◌ c String.[]) String.[] h k = h
ends_line-append (String.◌∷◌ c String.[]) (String.◌∷◌ d t) h k = k
ends_line-append (String.◌∷◌ c (String.◌∷◌ d s)) t h k = ends_line-append (String.◌∷◌ d s) t h k

pub ends_line-line : (line : String) → ends_line (text_append line newline) ≡ true
unfolding ends_line
ends_line-line String.[] = refl
ends_line-line (String.◌∷◌ c String.[]) = refl
ends_line-line (String.◌∷◌ c (String.◌∷◌ d s)) = ends_line-line (String.◌∷◌ d s)
