-- ===== src/Caching/Keys.antt =====
-- When two exchanges share a key of the cache.
use Prim.Native.Char.{Char, code}
use Prim.Native.String.{[] as nothing, ◌∷◌ as char_cons, char_at}
use text.Mathlib.TextLemmas.{
  nil-append, cons-append, append_cancel_left, head-eq_of_cons-eq, tail-eq_of_cons-eq,
}
use openagent_control.Prelude.{
  String, ◌≡◌, refl, subst, sym, ◌∙◌, Bool, true, false, ◌||◌, eqb, arith,
}
use openagent_control.Text.{◌<>◌}

abbrev pub has_colon : String → Bool
has_colon nothing = false
has_colon (char_cons c s) = eqb (code c) 58 || has_colon s

-- A text that starts with a colon is no text without one, with a colon after it.
colon-cons :
    (c : Char) (t a b : String)
    → "" <> (":" <> a) ≡ char_cons c t <> (":" <> b)
    → has_colon (char_cons c t) ≡ true
colon-cons c t a b e =
    let heads : char_at ":" 0 ≡ c = head-eq_of_cons-eq (
      sym (cons-append (char_at ":" 0) "" a)
      ∙ sym (nil-append (":" <> a))
      ∙ e
      ∙ cons-append c t (":" <> b)) in
    subst (λ d. has_colon (char_cons d t) ≡ true) heads refl

-- The first colon of a text parts it in one way.
pub colon_parts :
    (s t a b : String)
    → has_colon s ≡ false
    → has_colon t ≡ false
    → s <> (":" <> a) ≡ t <> (":" <> b)
    → (s ≡ t) × (a ≡ b)
colon_parts nothing nothing a b h k e =
    (refl, append_cancel_left ":" a b (sym (nil-append (":" <> a)) ∙ e ∙ nil-append (":" <> b)))
colon_parts nothing (char_cons c t) a b h k e = cc (colon-cons c t a b e)
colon_parts (char_cons c s) nothing a b h k e = cc (colon-cons c s b a (sym e))
colon_parts (char_cons c s) (char_cons d t) a b h k e =
    let whole = sym (cons-append c s (":" <> a)) ∙ e ∙ cons-append d t (":" <> b) in
    let (same, rest) =
      colon_parts s t a b (ground arith) (ground arith) (tail-eq_of_cons-eq whole) in
    (cc (head-eq_of_cons-eq whole, same), rest)
