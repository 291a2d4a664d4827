-- ===== src/Ledger/Hex.antt =====
-- `bytes.hex` and `bytes.fromhex`, the texts of signatures.
use Prim.Native.Char.{Char, code}
use mathlib.Core.Path.{ap₂}
use openagent_control.Prelude.{
  ℕ, zero, suc, ◌/◌, ◌%◌, ◌<◌, String, ◌≡◌, refl, ap, ◌∙◌, Bool, true, false, not, ◌&&◌, none, some,
  [], ◌∷◌, arith, Bool-cases, inl, inr, eqb, All, if◌then◌else◌,
}
use openagent_control.Ledger.Encoding.{
  Bytes, hex_digit, digit_value, pair_value, is_ascii_space, join_digits, hex, fromhex, add_byte,
}

reads_back : ℕ → Bool
reads_back n =
    elim (digit_value (code (hex_digit n))) [ none ↦ false | some m ↦ eqb m n ]
    && not (is_ascii_space (hex_digit n))

every_digit : ℕ → Bool
unfolding reads_back
every_digit zero = true
every_digit (suc digit) = if reads_back digit then every_digit digit else false

every_digit_holds : every_digit 16 ≡ true
unfolding every_digit reads_back digit_value hex_digit is_ascii_space
every_digit_holds = refl

every_digit-reads_back :
    (bound digit : ℕ) → digit < bound → every_digit bound ≡ true → reads_back digit ≡ true
unfolding every_digit
every_digit-reads_back zero digit less h = absurd (omega arith)
every_digit-reads_back (suc bound) digit less h = elim (Bool-cases (eqb digit bound)) [
  | inl same ↦ ground arith
  | inr other ↦ ground (arith, every_digit-reads_back bound digit)
]

digit_value-hex_digit :
    (n : ℕ)
    → n < 16
    → (digit_value (code (hex_digit n)) ≡ some n) × (is_ascii_space (hex_digit n) ≡ false)
unfolding reads_back
digit_value-hex_digit n h = ground (arith, every_digit-reads_back 16 n h every_digit_holds)

pair_value-hex_digit :
    (b : ℕ) → b < 256 → pair_value (hex_digit (b / 16)) (hex_digit (b % 16)) ≡ some b
unfolding pair_value
pair_value-hex_digit b h =
    let (high, _) = digit_value-hex_digit (b / 16) (omega arith) in
    let (low, _) = digit_value-hex_digit (b % 16) (omega arith) in
    ap₂ join_digits high low ∙ ap some (omega arith)

fromhex_pair :
    (c d : Char) (s : String)
    → is_ascii_space c ≡ false
    → fromhex (String.◌∷◌ c (String.◌∷◌ d s)) ≡ add_byte (pair_value c d) (fromhex s)
unfolding fromhex
fromhex_pair c d s h = rw h refl

-- Any bytes are read back from their hexadecimal text.
pub fromhex-hex : (bs : Bytes) → All (λ b. b < 256) bs → fromhex (hex bs) ≡ some bs
unfolding fromhex hex
fromhex-hex [] h = refl
fromhex-hex (b ∷ bs) h =
    let (_, solid) = digit_value-hex_digit (b / 16) (omega (arith, h.0)) in
    cc (
      fromhex_pair (hex_digit (b / 16)) (hex_digit (b % 16)) (hex bs) solid,
      pair_value-hex_digit b h.0,
      fromhex-hex bs h.1,
    )
