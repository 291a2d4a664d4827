-- ===== src/Ledger/Chain.antt =====
-- The writers of the chain: `PostgresLedger.record` and `Ed25519ChainLedger.record`. SHA-256, Ed25519
-- and the signer's key (in this process or in Vault) are not the repository's code: they are the
-- fields of `Crypto`. `uuid4()` and `now()` come in as arguments.
use openagent_control.Prelude.{
  String, ◌≡◌, Bool, true, false, Option, none, some, List, [], ◌∷◌, ◌++◌, All, ◌==◌, if◌then◌else◌,
  ◌<◌,
}
use openagent_control.Exec.{Result, ok, err, uncaught, bind}
use openagent_control.Models.{
  Instant, AgentIdentity, ToolCallRequest, decision_value, PolicyDecision, ExecutionReceipt,
}
use openagent_control.Ledger.Encoding.{Bytes, hex, canonical_json}
use openagent_control.Ledger.Documents.{dump_call, dump_receipt}

pub record Crypto : Type 0 where
  pub sha256 : Bytes → Bytes
  -- `Signer.sign`, which may fail where the key is remote
  pub sign : Bytes → Result Bytes
  -- `Ed25519PublicKey.verify` on a signature and a message: false where it raises
  pub verify : Bytes → Bytes → Bool
  -- pydantic's text of an instant in UTC
  pub iso : Instant → String

-- What the code relies on: a signature is made of bytes, and the public key accepts it.
pub record IsSound (c : Crypto) : Type 0 where
  pub accepts : (m s : Bytes) → c.sign m ≡ ok s → c.verify s m ≡ true
  pub bytes : (m s : Bytes) → c.sign m ≡ ok s → All (λ b. b < 256) s

-- `"0" * 64`
abbrev pub genesis_hash : String
genesis_hash = "0000000000000000000000000000000000000000000000000000000000000000"

-- A timestamp column as a backend returns it: SQLite drops the time zone, Postgres keeps it.
pub data Stamp : Type 0 where
  aware naive : Instant → Stamp

pub record ReceiptRow : Type 0 where
  pub sequence_id : String
  pub timestamp : Stamp
  pub spiffe_id : String
  pub decision : String
  pub reason : String
  pub payload_hash : String
  pub previous_hash : String
  pub signature : String
  pub enforced : Bool

-- The tables of the ledger: the receipts in the order of their ids, and the singleton chain head.
pub record Database : Type 0 where
  pub receipts : List ReceiptRow
  pub chain_state : Option String

-- The state after the migrations.
abbrev pub migrated : Database
migrated = record { receipts = []; chain_state = some genesis_hash }

-- The arguments of `record`, with the identifier and the time that it draws.
pub record Entry : Type 0 where
  pub agent : AgentIdentity
  pub request : ToolCallRequest
  pub decision : PolicyDecision
  pub enforced : Bool
  pub sequence_id : String
  pub now : Instant

abbrev pub has_id : String → List ReceiptRow → Bool
has_id id [] = false
has_id id (row ∷ rows) = if row.sequence_id == id then true else has_id id rows

module _ (c : Crypto) where
  abbrev pub hexdigest : Bytes → String
  hexdigest data_bytes = hex (c.sha256 data_bytes)

  abbrev pub unsigned_bytes : ExecutionReceipt → Bytes
  unsigned_bytes receipt = canonical_json (dump_receipt c.iso receipt)

  -- The receipt of both ledgers before it is signed.
  unfoldable pub draft : Entry → String → ExecutionReceipt
  draft e previous = record {
    sequence_id = e.sequence_id;
    timestamp = e.now;
    spiffe_id = e.agent.spiffe_id;
    decision = e.decision.decision;
    reason = e.decision.reason;
    payload_hash = hexdigest (canonical_json (dump_call c.iso e.request));
    previous_hash = previous;
    signature = none;
    enforced = e.enforced;
  }

  -- The hash that the next receipt carries.
  abbrev pub link : ExecutionReceipt → Bytes → String
  link receipt signature = hexdigest (unsigned_bytes receipt ++ signature)

  -- `Ed25519ChainLedger.record`, on `_previous_hash`; the lock makes the block one step.
  unfoldable pub record_in_memory : Entry → String → Result (ExecutionReceipt × String)
  unfolding draft
  record_in_memory e previous =
      let receipt = draft e previous in
      bind (c.sign (unsigned_bytes receipt)) λ signature.
        ok (record receipt { signature = some (hex signature) }, link receipt signature)

  unfoldable pub to_row : (Instant → Stamp) → ExecutionReceipt → Bytes → ReceiptRow
  to_row stored receipt signature = record {
    sequence_id = receipt.sequence_id;
    timestamp = stored receipt.timestamp;
    spiffe_id = receipt.spiffe_id;
    decision = decision_value receipt.decision;
    reason = receipt.reason;
    payload_hash = receipt.payload_hash;
    previous_hash = receipt.previous_hash;
    signature = hex signature;
    enforced = receipt.enforced;
  }

  -- The transaction of `PostgresLedger.record` behind its row lock. `stored` is what the backend
  -- gives back for a timestamp. A raise rolls everything back.
  unfoldable pub record_receipt :
      (Instant → Stamp) → Entry → Database → Result ExecutionReceipt × Database
  unfolding draft to_row
  record_receipt stored e db = elim db.chain_state [
    | none ↦ (err (uncaught "NoResultFound"), db)
    | some previous ↦
        (let receipt = draft e previous in
          elim (c.sign (unsigned_bytes receipt)) [
            | err x ↦ (err x, db)
            | ok signature ↦
                if has_id receipt.sequence_id db.receipts
                then (err (uncaught "IntegrityError"), db)
                else (
                  ok (record receipt { signature = some (hex signature) }),
                  record {
                    receipts = db.receipts ++ to_row stored receipt signature ∷ [];
                    chain_state = some (link receipt signature);
                  },
                )
          ])
  ]
