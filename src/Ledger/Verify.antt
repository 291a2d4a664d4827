-- ===== src/Ledger/Verify.antt =====
-- The loop of `verify_chain` against the relation between a row and the hash that it follows.
use openagent_control.Prelude.{
  ℕ, suc, ◌+◌, String, ◌≡◌, ◌≢◌, refl, ap, ◌∙◌, ◌⊎◌, Bool, true, false, not, some, List, [], ◌∷◌,
  ◌++◌, ◌==◌, eq_iff, arith, length, if◌then◌else◌,
}
use openagent_control.Exec.{Result, ok, bind-eq-ok}
use openagent_control.Models.{ExecutionReceipt}
use openagent_control.Ledger.Encoding.{Bytes, fromhex}
use openagent_control.Ledger.Chain.{Crypto, ReceiptRow, unsigned_bytes, link}
use openagent_control.Ledger.Query.{
  to_domain, ChainVerificationResult, broken, intact, parse_hex, verify_rows,
}

parse_hex_ok : (s : String) (b : Bytes) → fromhex s ≡ some b → parse_hex s ≡ ok b
parse_hex_ok s b h = rw (h, parse_hex) refl

parse_hex-eq-ok : (s : String) (b : Bytes) → parse_hex s ≡ ok b → fromhex s ≡ some b
parse_hex-eq-ok s b h = ground arith

to_domain_id :
    (row : ReceiptRow) (receipt : ExecutionReceipt)
    → to_domain row ≡ ok receipt
    → receipt.sequence_id ≡ row.sequence_id
unfolding to_domain
to_domain_id row receipt h = ground arith

-- The tests of the loop, when its result is "valid".
linked :
    (a b : String) (id : String × ℕ) (rest : Result ChainVerificationResult) (m : ℕ)
    → (if not (a == b) then ok (broken id.1 id.0) else rest) ≡ ok (intact m)
    → (a ≡ b) × (rest ≡ ok (intact m))
linked a b id rest m h = ground (arith, eq_iff a b)

accepted :
    (test : Bool) (id : String × ℕ) (rest : Result ChainVerificationResult) (m : ℕ)
    → (if test then rest else ok (broken id.1 id.0)) ≡ ok (intact m)
    → (test ≡ true) × (rest ≡ ok (intact m))
accepted true id rest m h = (refl, h)
accepted false id rest m h = cc

module _ (c : Crypto) where
  -- A row that may follow `previous`: it is well formed, it carries that hash, and its signature is
  -- one of the public key on the rest of the row. `next` is the hash that must follow.
  abbrev pub Follows : String → ReceiptRow → String → Type 0
  Follows previous row next =
      (receipt : ExecutionReceipt) × (signature : Bytes) × (to_domain row ≡ ok receipt)
      × (receipt.previous_hash ≡ previous)
      × (fromhex row.signature ≡ some signature)
      × (c.verify signature (unsigned_bytes c receipt) ≡ true)
      × (link c receipt signature ≡ next)

  -- Rows in which each follows the one before.
  abbrev pub IsChained : String → List ReceiptRow → String → Type 0
  IsChained previous [] last = previous ≡ last
  IsChained previous (row ∷ rows) last =
      (next : String) × Follows previous row next × IsChained next rows last

  verify_row :
      (row : ReceiptRow) (rows : List ReceiptRow) (previous next : String) (n : ℕ)
      → Follows previous row next
      → verify_rows c (row ∷ rows) previous n ≡ verify_rows c rows next (suc n)
  unfolding verify_rows
  verify_row row rows previous next n (receipt, signature, dom, prev, sig, ver, lnk) =
      rw
        (
          dom,
          (eq_iff receipt.previous_hash previous).1 prev,
          (parse_hex_ok row.signature signature sig),
          ver,
          lnk,
        )
        refl

  -- After a chained run of rows the loop goes on with what is left.
  pub verify_rows-append :
      (rows rest : List ReceiptRow) (previous last : String) (n : ℕ)
      → IsChained previous rows last
      → verify_rows c (rows ++ rest) previous n ≡ verify_rows c rest last (n + length rows)
  verify_rows-append [] rest previous last n h = rw h (ap (verify_rows c rest last) (omega arith))
  verify_rows-append (row ∷ rows) rest previous last n (next, f, h) =
      verify_row row (rows ++ rest) previous next n f
      ∙ verify_rows-append rows rest next last (suc n) h
      ∙ ap (verify_rows c rest last) (omega arith)

  -- What `verify_chain` must say of rows that break after `checked` good ones.
  abbrev pub Breaks : String → ReceiptRow → Type 0
  Breaks previous row =
      (receipt : ExecutionReceipt) × (signature : Bytes) × (to_domain row ≡ ok receipt)
      × ((receipt.previous_hash ≢ previous)
          ⊎ ((fromhex row.signature ≡ some signature)
              × (c.verify signature (unsigned_bytes c receipt) ≡ false)))

  pub verify_broken :
      (row : ReceiptRow) (rows : List ReceiptRow) (previous : String) (n : ℕ)
      → Breaks previous row
      → verify_rows c (row ∷ rows) previous n ≡ ok (broken n row.sequence_id)
  unfolding verify_rows
  verify_broken row rows previous n (receipt, signature, dom, why) = ground (
    arith,
    eq_iff receipt.previous_hash previous,
    to_domain_id row receipt dom,
    parse_hex_ok row.signature signature,
  )

  -- The verdict "valid" with a count is the relation, with the number of rows.
  pub valid-IsChained :
      (rows : List ReceiptRow) (previous : String) (n m : ℕ)
      → verify_rows c rows previous n ≡ ok (intact m)
      → (last : String) × IsChained previous rows last × (m ≡ n + length rows)
  unfolding verify_rows
  valid-IsChained [] previous n m h = (previous, refl, ground arith)
  valid-IsChained (row ∷ rows) previous n m h =
      let (receipt, dom, k) = bind-eq-ok (to_domain row) _ h in
      let (same, l) = linked receipt.previous_hash previous (receipt.sequence_id, n) _ m k in
      let (signature, sig, v) = bind-eq-ok (parse_hex row.signature) _ l in
      let (ver, r) =
        accepted (c.verify signature (unsigned_bytes c receipt)) (receipt.sequence_id, n) _ m v in
      let (last, chained, count) = valid-IsChained rows (link c receipt signature) (suc n) m r in
      (
        last,
        (
          link c receipt signature,
          (receipt, signature, dom, same, parse_hex-eq-ok row.signature signature sig, ver, refl),
          chained,
        ),
        omega (arith, count),
      )
