-- ===== src/Ledger/Tests.antt =====
-- The ledger at concrete keys: a digest that keeps the bytes, and a signer with one signature.
use openagent_control.Prelude.{
  ◌≡◌, refl, subst, String, Bool, true, false, none, some, [], ◌∷◌, ◌++◌, All, eqb, length, arith,
  inl, ◌↔◌, ◌<◌,
}
use openagent_control.Exec.{ok, err, uncaught}
use openagent_control.Json.{end}
use openagent_control.Models.{AgentIdentity, allow, ToolCallRequest}
use openagent_control.Ledger.Encoding.{
  Bytes, hex_digit, digit_value, pair_value, is_ascii_space, hex, fromhex,
}
use openagent_control.Ledger.Hex.{fromhex-hex}
use openagent_control.Ledger.Chain.{
  Crypto, IsSound, genesis_hash, naive, ReceiptRow, Database, migrated, Entry, draft,
  record_receipt, record_in_memory, to_row,
}
use openagent_control.Ledger.Query.{to_domain, broken, intact, verify_rows, verify_chain}
use openagent_control.Ledger.Intact.{IsIntact, verify_chain_iff, verify_chain-broken}
use openagent_control.Ledger.Verify.{IsChained}
use openagent_control.Ledger.Writers.{
  record_receipt-read, record_receipt-IsIntact, record_receipt-refines, record_all, written,
  verify_chain-record_all, returned, head_after,
}

-- What the hexadecimal texts below are computed with.
unfoldable hex_reading : Unit {0}
unfolding hex_digit digit_value pair_value is_ascii_space hex fromhex
hex_reading = tt

abbrev is_seven : Bytes → Bool
is_seven [] = false
is_seven (b ∷ []) = eqb b 7
is_seven (b ∷ c ∷ bs) = false

abbrev keys : Crypto
keys = record {
  sha256 = λ m. 10 ∷ 11 ∷ [];
  sign = λ m. ok (7 ∷ []);
  verify = λ s m. is_seven s;
  iso = λ t. "2026-01-01T00:00:00Z";
}

one_signature : (s : Bytes) → ok (7 ∷ []) ≡ ok s → 7 ∷ [] ≡ s
one_signature s h = cc

keys-IsSound : IsSound keys
keys-IsSound = record {
  accepts = λ m s h. subst (λ t. is_seven t ≡ true) (one_signature s h) refl;
  bytes = λ m s h. subst (All (λ b. b < 256)) (one_signature s h) (omega arith, _);
}

abbrev bot : AgentIdentity
bot = record { spiffe_id = "spiffe://corp/bot"; human_sponsor = some "idp#alice"; client_id = none }

abbrev call : ToolCallRequest
call = record {
  method = "tools/call";
  tool_name = some "read_query";
  arguments = end;
  agent = bot;
  registration = none;
  subject = none;
  request_id = none;
}

abbrev entry : String → Entry
entry id = record {
  agent = bot;
  request = call;
  decision = record { decision = allow; reason = "ok" };
  enforced = true;
  sequence_id = id;
  now = 5;
}

abbrev two : Database
two = (record_all keys naive (entry "a" ∷ entry "a" ∷ entry "b" ∷ []) migrated).1

verify_chain-record_all_example :
    verify_chain keys (record_all keys naive (entry "a" ∷ entry "a" ∷ entry "b" ∷ []) migrated).1
    ≡ ok (
        intact
          (written (record_all keys naive (entry "a" ∷ entry "a" ∷ entry "b" ∷ []) migrated).0))
verify_chain-record_all_example =
    verify_chain-record_all keys keys-IsSound naive (λ t. refl)
      (entry "a" ∷ entry "a" ∷ entry "b" ∷ [])

two_written :
    written (record_all keys naive (entry "a" ∷ entry "a" ∷ entry "b" ∷ []) migrated).0 ≡ 2
unfolding record_all record_receipt draft to_row
two_written = refl

-- One receipt written, and a second row that was moved to its place from elsewhere.
abbrev first : ReceiptRow
first = to_row keys naive (draft keys (entry "a") genesis_hash) (7 ∷ [])

abbrev moved : ReceiptRow
moved = to_row keys naive (draft keys (entry "b") genesis_hash) (7 ∷ [])

abbrev tampered : Database
tampered = record { receipts = first ∷ moved ∷ []; chain_state = some "0a0b" }

abbrev single : Database
single = record { receipts = first ∷ []; chain_state = some "0a0b" }

verify_chain-broken_example : verify_chain keys tampered ≡ ok (broken 1 "b")
unfolding to_row draft to_domain hex_reading
verify_chain-broken_example =
    verify_chain-broken keys tampered (first ∷ []) [] moved "0a0b" refl
      (_, (_, 7 ∷ [], refl, refl, refl, refl, refl), refl) (_, 7 ∷ [], refl, inl (λ h. cc))

verify_chain_iff_example : (verify_chain keys single ≡ ok (intact 1)) ↔ (
    ((last : String) × IsChained keys genesis_hash single.receipts last)
    × (1 ≡ length single.receipts))
verify_chain_iff_example = verify_chain_iff keys single 1

record_receipt-IsIntact_example : IsIntact keys (record_receipt keys naive (entry "a") migrated).1
record_receipt-IsIntact_example =
    record_receipt-IsIntact keys keys-IsSound naive (λ t. refl) (entry "a") migrated
      (genesis_hash, refl, refl)

record_receipt-read_example :
    (row : ReceiptRow) × ((record_receipt keys naive (entry "a") migrated).1.receipts
      ≡ [] ++ row ∷ [])
    × (to_domain row ≡ ok (record (draft keys (entry "a") genesis_hash) { signature = some "07" }))
unfolding record_receipt hex_reading
record_receipt-read_example =
    record_receipt-read keys naive (λ t. refl) (entry "a") migrated genesis_hash
      (record (draft keys (entry "a") genesis_hash) { signature = some "07" }) refl refl

record_receipt-refines_example :
    ((record_receipt keys naive (entry "a") migrated).0
      ≡ returned (record_in_memory keys (entry "a") genesis_hash))
    × ((record_receipt keys naive (entry "a") migrated).1.chain_state
        ≡ some (head_after genesis_hash (record_in_memory keys (entry "a") genesis_hash)))
record_receipt-refines_example =
    record_receipt-refines keys naive (entry "a") migrated genesis_hash refl refl

fromhex-hex_example : fromhex (hex (0 ∷ 255 ∷ [])) ≡ some (0 ∷ 255 ∷ [])
fromhex-hex_example = fromhex-hex (0 ∷ 255 ∷ []) (omega arith, (omega arith, _))

-- A signature that is no hexadecimal text makes the reader raise; it does not report the row.
abbrev scribbled : Database
scribbled = record {
  receipts = record first { signature = "not hex" } ∷ [];
  chain_state = some "0a0b";
}

verify_chain_raises :
    verify_chain keys scribbled ≡ err (uncaught "ValueError: non-hexadecimal number")
unfolding verify_chain verify_rows to_row draft to_domain hex_reading
verify_chain_raises = refl

-- A chain whose tail was cut off is still reported valid: the chain head is not compared.
abbrev cut : Database
cut = record two { receipts = first ∷ [] }

cut_is_valid : verify_chain keys cut ≡ ok (intact 1)
unfolding verify_chain verify_rows to_row draft to_domain hex_reading
cut_is_valid = refl
