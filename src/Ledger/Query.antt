-- ===== src/Ledger/Query.antt =====
-- The reader of the chain: `PostgresReceiptQuery`.
use openagent_control.Prelude.{
  ℕ, suc, String, Bool, true, false, not, Option, none, some, List, [], ◌∷◌, ◌==◌, if◌then◌else◌,
}
use openagent_control.Exec.{Result, ok, err, uncaught, bind}
use openagent_control.Models.{Instant, Decision, allow, deny, ExecutionReceipt}
use openagent_control.Ledger.Encoding.{Bytes, fromhex}
use openagent_control.Ledger.Chain.{
  Crypto, genesis_hash, Stamp, aware, naive, ReceiptRow, Database, unsigned_bytes, link,
}

-- A naive timestamp is read as UTC.
abbrev pub instant_of : Stamp → Instant
instant_of (aware t) = t
instant_of (naive t) = t

-- `Decision(row.decision)`
unfoldable pub decision_of : String → Result Decision
decision_of value =
    if value == "ALLOW"
    then ok allow
    else if value == "DENY"
    then ok deny
    else err (uncaught "ValueError: not a valid Decision")

-- `_to_domain`
unfoldable pub to_domain : ReceiptRow → Result ExecutionReceipt
unfolding decision_of
to_domain row = bind (decision_of row.decision) λ decision. ok (record {
  sequence_id = row.sequence_id;
  timestamp = instant_of row.timestamp;
  spiffe_id = row.spiffe_id;
  decision = decision;
  reason = row.reason;
  payload_hash = row.payload_hash;
  previous_hash = row.previous_hash;
  signature = some row.signature;
  enforced = row.enforced;
})

pub record ChainVerificationResult : Type 0 where
  pub valid : Bool
  pub receipts_checked : ℕ
  pub first_broken_sequence_id : Option String

abbrev pub broken : ℕ → String → ChainVerificationResult
broken checked id = record {
  valid = false;
  receipts_checked = checked;
  first_broken_sequence_id = some id;
}

abbrev pub intact : ℕ → ChainVerificationResult
intact checked = record {
  valid = true;
  receipts_checked = checked;
  first_broken_sequence_id = none;
}

-- `bytes.fromhex`, which raises on what is no hexadecimal text.
abbrev pub parse_hex : String → Result Bytes
parse_hex s = elim (fromhex s) [
  | none ↦ err (uncaught "ValueError: non-hexadecimal number")
  | some b ↦ ok b
]

module _ (c : Crypto) where
  -- The loop of `verify_chain`, over `expected_previous_hash` and `checked`.
  unfoldable pub verify_rows : List ReceiptRow → String → ℕ → Result ChainVerificationResult
  verify_rows [] expected checked = ok (intact checked)
  verify_rows (row ∷ rows) expected checked = bind (to_domain row) λ receipt.
      if not (receipt.previous_hash == expected)
      then ok (broken checked receipt.sequence_id)
      else bind (parse_hex row.signature) λ signature.
        if c.verify signature (unsigned_bytes c receipt)
        then verify_rows rows (link c receipt signature) (suc checked)
        else ok (broken checked receipt.sequence_id)

  unfoldable pub verify_chain : Database → Result ChainVerificationResult
  verify_chain db = verify_rows db.receipts genesis_hash 0
