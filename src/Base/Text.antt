-- ===== src/Base/Text.antt =====
-- Python's `str.strip`, `len` and `str.startswith`, as the source uses them.
use Prim.Native.Nat.{ℕ, zero, suc}
use Prim.Native.Char.{Char, code}
use Prim.Native.String.{String}
use mathlib.Core.Path.{◌∙◌, ◌≡◌, refl, ap}
use mathlib.Core.Bool.{Bool, ◌&&◌, ◌||◌, false}
use native.Mathlib.Omega.{arith}
use plk_memory.Base.Tests.{leb, nat_beq, if◌then◌else◌}

-- `len(s)` counts code points.
unfoldable pub char_count : String → ℕ
char_count String.[] = 0
char_count (String.◌∷◌ c s) = suc (char_count s)

-- `str.isspace` of one code point: the characters that `str.strip` removes.
unfoldable pub is_space : ℕ → Bool
is_space c =
    (leb 9 c && leb c 13)
    || (leb 28 c && leb c 32)
    || nat_beq c 0x85
    || nat_beq c 0xA0
    || nat_beq c 0x1680
    || (leb 0x2000 c && leb c 0x200A)
    || nat_beq c 0x2028
    || nat_beq c 0x2029
    || nat_beq c 0x202F
    || nat_beq c 0x205F
    || nat_beq c 0x3000

lstrip : String → String
lstrip String.[] = String.[]
lstrip (String.◌∷◌ c s) = let rest = lstrip s in if is_space (code c) then rest else String.◌∷◌ c s

abbrev push_unless_blank : Char → String → String
push_unless_blank c String.[] = if is_space (code c) then String.[] else String.◌∷◌ c String.[]
push_unless_blank c (String.◌∷◌ d s) = String.◌∷◌ c (String.◌∷◌ d s)

rstrip : String → String
rstrip String.[] = String.[]
rstrip (String.◌∷◌ c s) = push_unless_blank c (rstrip s)

-- `s.strip()`
unfoldable pub strip : String → String
unfolding lstrip rstrip is_space
strip s = rstrip (lstrip s)

strip_both_ends : strip "  a b \n" ≡ "a b"
unfolding strip
strip_both_ends = refl

count_word : char_count "税務 ok" ≡ 5
unfolding char_count
count_word = refl

-- `s[:n]`
unfoldable pub first_chars : ℕ → String → String
first_chars zero s = String.[]
first_chars (suc n) String.[] = String.[]
first_chars (suc n) (String.◌∷◌ c s) = String.◌∷◌ c (first_chars n s)

unfoldable pub has_space : String → Bool
has_space String.[] = false
has_space (String.◌∷◌ c s) = let rest = has_space s in is_space (code c) || rest

lstrip-has_space : (s : String) → has_space s ≡ false → lstrip s ≡ s
unfolding lstrip has_space
lstrip-has_space String.[] h = refl
lstrip-has_space (String.◌∷◌ c s) h = ground arith

rstrip-has_space : (s : String) → has_space s ≡ false → rstrip s ≡ s
unfolding rstrip has_space
rstrip-has_space String.[] h = refl
rstrip-has_space (String.◌∷◌ c String.[]) h = ground arith
rstrip-has_space (String.◌∷◌ c (String.◌∷◌ d s)) h =
    ap (push_unless_blank c) (rstrip-has_space (String.◌∷◌ d s) (ground arith))

-- A text without spaces is not stripped.
pub strip-has_space : (s : String) → has_space s ≡ false → strip s ≡ s
unfolding strip
strip-has_space s h = ap rstrip (lstrip-has_space s h) ∙ rstrip-has_space s h
