-- ===== src/Ledger/Writers.antt =====
-- `record` of adapters/ledger/postgres.py and ed25519_chain.py against the chain that the reader checks.
use openagent_control.Prelude.{
  ℕ, suc, ◌+◌, String, ◌≡◌, refl, ap, sym, ◌∙◌, ◌⊎◌, false, some, List, [], ◌∷◌, ◌++◌, arith,
  length, length-append, Bool-cases, inl, inr,
}
use openagent_control.Exec.{Error, uncaught, Result, ok, err, Result-cases}
use openagent_control.Models.{Instant, Decision, allow, deny, decision_value, ExecutionReceipt}
use openagent_control.Ledger.Encoding.{Bytes, hex}
use openagent_control.Ledger.Hex.{fromhex-hex}
use openagent_control.Ledger.Documents.{dump_receipt}
use openagent_control.Ledger.Chain.{
  Crypto, IsSound, genesis_hash, Stamp, ReceiptRow, Database, migrated, Entry, has_id,
  unsigned_bytes, link, draft, to_row, record_receipt, record_in_memory,
}
use openagent_control.Ledger.Query.{instant_of, decision_of, to_domain, intact, verify_chain}
use openagent_control.Ledger.Verify.{Follows}
use openagent_control.Ledger.Intact.{IsIntact, IsChained-append, verify_chain_iff}

decision_of-value : (d : Decision) → decision_of (decision_value d) ≡ ok d
unfolding decision_of
decision_of-value allow = refl
decision_of-value deny = refl

module _ (c : Crypto) (stored : Instant → Stamp)
    (kept : (t : Instant) → instant_of (stored t) ≡ t) where
  -- The database after a receipt was written.
  abbrev pub extended : Entry → Database → String → Bytes → Database
  extended e db previous signature = record {
    receipts = db.receipts ++ to_row c stored (draft c e previous) signature ∷ [];
    chain_state = some (link c (draft c e previous) signature);
  }

  abbrev pub signed : Entry → String → Bytes → ExecutionReceipt
  signed e previous signature = record (draft c e previous) { signature = some (hex signature) }

  to_row-read :
      (e : Entry) (previous : String) (signature : Bytes)
      → to_domain (to_row c stored (draft c e previous) signature)
        ≡ ok (signed e previous signature)
  unfolding to_domain to_row draft
  to_row-read e previous signature = rw (decision_of-value e.decision.decision, kept e.now) refl

  -- What `record` does from a chain head: it raises and changes nothing, or it extends the chain.
  pub record_receipt-cases :
      (e : Entry) (db : Database) (previous : String)
      → db.chain_state ≡ some previous
      → ((x : Error) × (record_receipt c stored e db ≡ (err x, db)))
        ⊎ ((signature : Bytes) × (c.sign (unsigned_bytes c (draft c e previous)) ≡ ok signature)
            × (record_receipt c stored e db
                ≡ (ok (signed e previous signature), extended e db previous signature)))
  unfolding record_receipt draft
  record_receipt-cases e db previous head =
      elim (Result-cases (c.sign (unsigned_bytes c (draft c e previous)))) [
        | inl (signature, h) ↦ elim (Bool-cases (has_id e.sequence_id db.receipts)) [
          | inl used ↦ inl (uncaught "IntegrityError", simp (head, record_receipt, h, used) refl)
          | inr fresh ↦ inr (signature, h, simp (head, record_receipt, h, fresh) refl)
        ]
        | inr (x, h) ↦ inl (x, simp (head, record_receipt, h) refl)
      ]

  -- If the backend keeps the instant of a timestamp, a receipt that `PostgresLedger.record` returns from
  -- a chain head is the one that the reader makes of the row that the call added at the end of the table.
  pub record_receipt-read :
      (e : Entry) (db : Database) (previous : String) (receipt : ExecutionReceipt)
      → db.chain_state ≡ some previous
      → (record_receipt c stored e db).0 ≡ ok receipt
      → (row : ReceiptRow) × ((record_receipt c stored e db).1.receipts ≡ db.receipts ++ row ∷ [])
        × (to_domain row ≡ ok receipt)
  record_receipt-read e db previous receipt head r =
      elim (record_receipt-cases e db previous head) [
        | inl (x, h) ↦ absurd (ground (arith, r, h))
        | inr (signature, s, h) ↦ (
          to_row c stored (draft c e previous) signature,
          ap (λ o. o.1.receipts) h,
          to_row-read e previous signature ∙ sym (ap (λ o. o.0) h) ∙ r,
        )
      ]

module _ (c : Crypto) (sound : IsSound c) (stored : Instant → Stamp)
    (kept : (t : Instant) → instant_of (stored t) ≡ t) where
  to_row-Follows :
      (e : Entry) (previous : String) (signature : Bytes)
      → c.sign (unsigned_bytes c (draft c e previous)) ≡ ok signature
      → Follows c previous
          (to_row c stored (draft c e previous) signature)
          (link c (draft c e previous) signature)
  unfolding to_domain to_row draft dump_receipt
  to_row-Follows e previous signature h = (
    signed c stored kept e previous signature,
    signature,
    to_row-read c stored kept e previous signature,
    refl,
    fromhex-hex signature (sound.bytes _ signature h),
    sound.accepts _ signature h,
    refl,
  )

  -- If the public key accepts the signer's signatures and the backend keeps the instant of a timestamp,
  -- `PostgresLedger.record` keeps the chain intact whether it returns or raises: the receipts are linked
  -- from the genesis hash on, and the chain head is the hash that the next one must carry.
  pub record_receipt-IsIntact :
      (e : Entry) (db : Database) → IsIntact c db → IsIntact c (record_receipt c stored e db).1
  record_receipt-IsIntact e db (last, head, chained) =
      elim (record_receipt-cases c stored kept e db last head) [
        | inl (x, h) ↦ rw h (last, head, chained)
        | inr (signature, s, h) ↦ rw h (
          _,
          refl,
          IsChained-append c db.receipts _ genesis_hash last _ chained
              (to_row-Follows e last signature s),
        )
      ]

-- What the in-memory ledger leaves behind: the receipt that it returns, and its `_previous_hash`.
abbrev pub returned : Result (ExecutionReceipt × String) → Result ExecutionReceipt
returned (err x) = err x
returned (ok (receipt, next)) = ok receipt

abbrev pub head_after : String → Result (ExecutionReceipt × String) → String
head_after previous (err x) = previous
head_after previous (ok (receipt, next)) = next

module _ (c : Crypto) (stored : Instant → Stamp) where
  -- From the same chain head and with an identifier that no stored receipt has, the Postgres ledger and
  -- the in-memory ledger return the same receipt or raise the same error, and their heads agree
  -- afterwards.
  pub record_receipt-refines :
      (e : Entry) (db : Database) (previous : String)
      → db.chain_state ≡ some previous
      → has_id e.sequence_id db.receipts ≡ false
      → ((record_receipt c stored e db).0 ≡ returned (record_in_memory c e previous))
        × ((record_receipt c stored e db).1.chain_state
            ≡ some (head_after previous (record_in_memory c e previous)))
  unfolding record_receipt record_in_memory draft
  record_receipt-refines e db previous head fresh =
      elim (Result-cases (c.sign (unsigned_bytes c (draft c e previous)))) [
        | inl (signature, h) ↦ (
          simp (head, record_receipt, record_in_memory, h, fresh) refl,
          simp (head, record_receipt, record_in_memory, h, fresh) refl,
        )
        | inr (x, h) ↦ (
          simp (head, record_receipt, record_in_memory, h) refl,
          simp (head, record_receipt, record_in_memory, h) refl,
        )
      ]

  -- `record`, called for one entry after the other: what the calls returned, and the tables after them.
  unfoldable pub record_all : List Entry → Database → List (Result ExecutionReceipt) × Database
  record_all [] db = ([], db)
  record_all (e ∷ es) db =
      let (result, next) = record_receipt c stored e db in
      let (results, last) = record_all es next in (result ∷ results, last)

-- How many of the calls returned a receipt.
abbrev pub written : List (Result ExecutionReceipt) → ℕ
written [] = 0
written (ok receipt ∷ results) = suc (written results)
written (err x ∷ results) = written results

module _ (c : Crypto) (sound : IsSound c) (stored : Instant → Stamp)
    (kept : (t : Instant) → instant_of (stored t) ≡ t) where
  record_receipt-count :
      (e : Entry) (db : Database) (previous : String)
      → db.chain_state ≡ some previous
      → (results : List (Result ExecutionReceipt))
      → length (record_receipt c stored e db).1.receipts + written results
        ≡ length db.receipts + written ((record_receipt c stored e db).0 ∷ results)
  record_receipt-count e db previous head results =
      elim (record_receipt-cases c stored kept e db previous head) [
        | inl (x, h) ↦ rw h refl
        | inr (signature, s, h) ↦ rw h (omega (arith, length-append db.receipts (_ ∷ [])))
      ]

  record_all-IsIntact :
      (es : List Entry) (db : Database)
      → IsIntact c db
      → IsIntact c (record_all c stored es db).1
        × (length (record_all c stored es db).1.receipts
            ≡ length db.receipts + written (record_all c stored es db).0)
  unfolding record_all
  record_all-IsIntact [] db h = (h, omega arith)
  record_all-IsIntact (e ∷ es) db h =
      let (whole, count) =
        record_all-IsIntact es (record_receipt c stored e db).1
          (record_receipt-IsIntact c sound stored kept e db h) in
      (
        whole,
        count
            ∙ record_receipt-count e db h.0 h.1
                (record_all c stored es (record_receipt c stored e db).1).0,
      )

  -- If the public key accepts the signer's signatures and the backend keeps the instant of a timestamp,
  -- then after any sequence of `PostgresLedger.record` calls on the migrated tables, of which any may
  -- have raised, `verify_chain` returns valid and counts exactly the receipts that were returned.
  pub verify_chain-record_all :
      (es : List Entry)
      → verify_chain c (record_all c stored es migrated).1
        ≡ ok (intact (written (record_all c stored es migrated).0))
  verify_chain-record_all es =
      let ((last, head, chained), count) =
        record_all-IsIntact es migrated (genesis_hash, refl, refl) in
      (verify_chain_iff c _ _).1 ((last, chained), omega (arith, count))
