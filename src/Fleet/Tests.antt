-- ===== src/Fleet/Tests.antt =====
-- The fleet reports at an empty ledger and at concrete names.
use openagent_control.Prelude.{◌≤◌, String, refl, false, none, some, List, [], ◌∷◌, length}
use openagent_control.Models.{deny}
use openagent_control.Ledger.Chain.{naive, ReceiptRow, Database}
use openagent_control.Ledger.Query.{to_domain, decision_of}
use openagent_control.Ledger.Search.{search, is_selected, read_rows, Accepted, search-Accepted}
use openagent_control.Fleet.Counter.{
  counter, count_all, count_one, most_common, sort_counts, insert_count, total, most_common-counter,
}
use openagent_control.Fleet.Report.{
  FleetActivity, recent, report, fleet_activity, IsConsistent, fleet_activity-IsConsistent,
}
use openagent_control.Models.{ExecutionReceipt}

unfoldable report_run : Unit {0}
unfolding count_all count_one most_common sort_counts insert_count report fleet_activity search
    is_selected read_rows to_domain decision_of
report_run = tt

abbrev row : String → String → ReceiptRow
row id decision = record {
  sequence_id = id;
  timestamp = naive 5;
  spiffe_id = "spiffe://corp/bot";
  decision = decision;
  reason = "why";
  payload_hash = "";
  previous_hash = "";
  signature = "";
  enforced = false;
}

abbrev ledger : Database
ledger = record { receipts = row "a" "ALLOW" ∷ row "b" "DENY" ∷ []; chain_state = none }

abbrev receipt_b : ExecutionReceipt
receipt_b = record {
  sequence_id = "b";
  timestamp = 5;
  spiffe_id = "spiffe://corp/bot";
  decision = deny;
  reason = "why";
  payload_hash = "";
  previous_hash = "";
  signature = some "";
  enforced = false;
}

search-Accepted_example :
    (length (receipt_b ∷ []) ≤ 1) × (Accepted (recent none 1) receipt_b × Unit {0})
unfolding report_run
search-Accepted_example = search-Accepted (recent none 1) ledger (receipt_b ∷ []) refl

abbrev activity : FleetActivity
activity = record {
  window_hours = 1;
  total_calls = 2;
  calls_by_agent = ("spiffe://corp/bot", 2) ∷ [];
  denials_by_agent = ("spiffe://corp/bot", 1) ∷ [];
  denials_by_reason = ("why", 1) ∷ [];
  shadowed_denials = 1;
  truncated = false;
}

fleet_activity-IsConsistent_example : IsConsistent 50 activity
unfolding report_run
fleet_activity-IsConsistent_example = fleet_activity-IsConsistent 9 1 50 ledger activity refl

abbrev keys : List String
keys = "a" ∷ "b" ∷ "a" ∷ []

most_common-counter_example :
    (length (most_common 1 (counter keys)) ≤ 1)
    × (total (most_common 1 (counter keys)) ≤ length keys)
most_common-counter_example = most_common-counter 1 keys
