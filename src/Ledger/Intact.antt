-- ===== src/Ledger/Intact.antt =====
-- The chain as a whole, and what `verify_chain` (adapters/ledger/postgres_query.py) decides of it.
use openagent_control.Prelude.{
  ℕ, ◌+◌, String, ◌≡◌, refl, ap, sym, ◌∙◌, ◌↔◌, some, List, [], ◌∷◌, ◌++◌, arith, length,
  append-nil, subst,
}
use openagent_control.Exec.{ok}
use openagent_control.Ledger.Chain.{Crypto, genesis_hash, ReceiptRow, Database}
use openagent_control.Ledger.Query.{broken, intact, verify_rows, verify_chain}
use openagent_control.Ledger.Verify.{
  Follows, IsChained, Breaks, verify_rows-append, verify_broken, valid-IsChained,
}

module _ (c : Crypto) where
  -- `verify_chain` returns valid with a count exactly when each receipt, from the genesis hash on, is
  -- well formed, carries the hash of the one before and has a signature that the public key accepts, and
  -- the count is the number of receipts.
  pub verify_chain_iff :
      (db : Database) (n : ℕ)
      → (verify_chain c db ≡ ok (intact n))
        ↔ (((last : String) × IsChained c genesis_hash db.receipts last) × (n ≡ length db.receipts))
  unfolding verify_chain verify_rows
  verify_chain_iff db n = (
    λ h.
        let (last, chained, count) = valid-IsChained c db.receipts genesis_hash 0 n h in
        ((last, chained), omega (arith, count)),
    λ ((last, chained), count).
        ap (λ rows. verify_rows c rows genesis_hash 0) (sym (append-nil db.receipts))
        ∙ verify_rows-append c db.receipts [] genesis_hash last 0 chained
        ∙ ap (λ k. ok (intact k)) (omega (arith, count)),
  )

  -- If a chained run of rows is followed by a well-formed row with another previous hash, or with a
  -- signature in hexadecimal that the public key rejects, `verify_chain` returns invalid with that row's
  -- identifier and the number of rows before it.
  pub verify_chain-broken :
      (db : Database) (good rest : List ReceiptRow) (row : ReceiptRow) (last : String)
      → db.receipts ≡ good ++ (row ∷ rest)
      → IsChained c genesis_hash good last
      → Breaks c last row
      → verify_chain c db ≡ ok (broken (length good) row.sequence_id)
  unfolding verify_chain
  verify_chain-broken db good rest row last e h b =
      ap (λ rows. verify_rows c rows genesis_hash 0) e
      ∙ verify_rows-append c good (row ∷ rest) genesis_hash last 0 h
      ∙ verify_broken c row rest last (0 + length good) b
      ∙ ap (λ k. ok (broken k row.sequence_id)) (omega arith)

  -- The chain head is the hash that the next receipt must carry.
  abbrev pub IsIntact : Database → Type 0
  IsIntact db =
      (last : String) × (db.chain_state ≡ some last) × IsChained c genesis_hash db.receipts last

  pub IsChained-append :
      (rows : List ReceiptRow) (row : ReceiptRow) (previous last next : String)
      → IsChained c previous rows last
      → Follows c last row next
      → IsChained c previous (rows ++ row ∷ []) next
  IsChained-append [] row previous last next h f =
      (next, subst (λ q. Follows c q row next) (sym h) f, refl)
  IsChained-append (r ∷ rows) row previous last next (n, g, h) f =
      (n, g, IsChained-append rows row n last next h f)
