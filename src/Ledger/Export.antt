-- ===== src/Ledger/Export.antt =====
-- `StdoutAuditExporter.export` (adapters/audit_export/stdout.py): the line that it logs. The logger is a
-- parameter.
use openagent_control.Prelude.{String, ◌++◌}
use openagent_control.Json.{Fields, field, str}
use openagent_control.Exec.{ok, Exec}
use openagent_control.Models.{Instant, ExecutionReceipt}
use openagent_control.Ledger.Encoding.{Bytes, codes, canonical_json}
use openagent_control.Ledger.Documents.{or_null, dump_receipt}

module _ (iso : Instant → String) where
  -- `receipt.model_dump(mode="json")`; its keys are sorted when it is written.
  unfoldable pub dump_signed : ExecutionReceipt → Fields
  unfolding dump_receipt
  dump_signed r = field "signature" (or_null str r.signature) (dump_receipt iso r)

  unfoldable pub audit_line : ExecutionReceipt → Bytes
  unfolding dump_signed
  audit_line r = codes "audit_receipt " ++ canonical_json (dump_signed r)

  unfoldable pub export : {E : Type 0} → (Bytes → E → E) → ExecutionReceipt → Exec E (Unit {0})
  unfolding audit_line
  export log receipt w = (ok tt, log (audit_line receipt) w)
