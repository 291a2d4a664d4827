-- ===== src/Text.antt =====
-- What the source uses of Python's `str`: `lower`, `partition(" ")`, `split`, `strip`, `startswith`
-- and the truth of a text. `lower` is that of ASCII, in which HTTP header names are written.
use Prim.Native.Char.{Char, code}
use Prim.Native.String.{[], ◌∷◌, char_at, ◌++◌ as append}
use text.Mathlib.TextLemmas.{cons-append}
use openagent_control.Prelude.{
  ap, ℕ, zero, suc, ◌/◌, ◌%◌, ltb, not, ◌-◌, String, ◌≡◌, refl, Bool, true, false, ◌&&◌, ◌||◌, leb,
  eqb, if◌then◌else◌,
}

infixr 65 ◌<>◌
-- Concatenation, and so the pieces of an f-string.
abbrev pub ◌<>◌ : String → String → String
s <> t = append s t

-- `bool(s)`
abbrev pub is_truthy : String → Bool
is_truthy [] = false
is_truthy (c ∷ s) = true

is_upper : Char → Bool
is_upper c = leb 65 (code c) && leb (code c) 90

lower_char : Char → Char
unfolding is_upper
lower_char c = if is_upper c then char_at "abcdefghijklmnopqrstuvwxyz" (code c - 65) else c

unfoldable pub lower : String → String
unfolding lower_char
lower [] = []
lower (c ∷ s) = lower_char c ∷ lower s

-- `s.partition(" ")`, without the separator
unfoldable pub partition : String → String × String
partition [] = ([], [])
partition (c ∷ s) =
    let (head, tail) = partition s in if eqb (code c) 32 then ([], s) else (c ∷ head, tail)

-- The ASCII part of `str.isspace`.
unfoldable pub is_space : Char → Bool
is_space c =
    eqb (code c) 32 || (leb 9 (code c) && leb (code c) 13) || (leb 28 (code c) && leb (code c) 31)

-- `bool(s.strip())`
unfoldable pub is_blank : String → Bool
unfolding is_space
is_blank [] = true
is_blank (c ∷ s) = is_space c && is_blank s

-- `s.rstrip()` for the characters of a test
unfoldable pub strip_end : (Char → Bool) → String → String
strip_end test [] = []
strip_end test (c ∷ s) =
    let rest = strip_end test s in if test c && not (is_truthy rest) then [] else c ∷ rest

unfoldable pub strip_start : (Char → Bool) → String → String
strip_start test [] = []
strip_start test (c ∷ s) = let rest = strip_start test s in if test c then rest else c ∷ s

-- `s.strip()`
unfoldable pub strip : String → String
unfolding strip_start strip_end is_space
strip s = strip_end is_space (strip_start is_space s)

-- `s[:n]`
unfoldable pub take : ℕ → String → String
take zero s = []
take (suc n) [] = []
take (suc n) (c ∷ s) = c ∷ take n s

-- The decimal digits of a number; the fuel bounds their count, and n + 1 is enough for n.
unfoldable decimal_from : ℕ → ℕ → String
decimal_from zero n = []
decimal_from (suc fuel) n =
    let shorter = decimal_from fuel (n / 10) in
    let digit = char_at "0123456789" (n % 10) ∷ [] in if ltb n 10 then digit else shorter <> digit

unfoldable pub decimal : ℕ → String
unfolding decimal_from
decimal n = decimal_from (suc n) n

-- A text with a nonempty start is nonempty.
pub is_truthy-append : (s t : String) → is_truthy s ≡ true → is_truthy (s <> t) ≡ true
is_truthy-append [] t h = cc
is_truthy-append (c ∷ s) t h = ap is_truthy (cons-append c s t)

lower_header : lower "X-Subject-Token" ≡ "x-subject-token"
unfolding lower
lower_header = refl

partition_bearer : partition "Bearer a b" ≡ ("Bearer", "a b")
unfolding partition
partition_bearer = refl

strip_text : strip " a b\n" ≡ "a b"
unfolding strip
strip_text = refl

decimal_status : decimal 502 ≡ "502"
unfolding decimal
decimal_status = refl

blank_text : is_blank "  " ≡ true
unfolding is_blank
blank_text = refl
