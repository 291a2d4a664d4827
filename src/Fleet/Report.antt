-- ===== src/Fleet/Report.antt =====
-- `fleet_summary` and `fleet_activity`. An instant is in microseconds.
use openagent_control.Prelude.{
  ℕ, suc, ◌*◌, ◌-◌, ◌≤◌, String, ◌≡◌, refl, ap, subst, ◌↔◌, Bool, true, false, not, Option, none,
  some, List, [], ◌∷◌, map, arith, leb, length, keep,
}
use openagent_control.Dict.{Dict}
use openagent_control.Json.{Json}
use openagent_control.Exec.{Result, ok, bind, bind-eq-ok}
use openagent_control.Models.{Instant, allow, deny, decision_value, status_value, ExecutionReceipt}
use openagent_control.Ledger.Chain.{Database}
use openagent_control.Ledger.Search.{Filter, search, search-Accepted}
use openagent_control.Registry.Tables.{Tables}
use openagent_control.Registry.Directory.{list_agents}
use openagent_control.Fleet.Counter.{counter, most_common, total, most_common-counter}

pub record FleetSummary : Type 0 where
  pub agents_by_status : Dict ℕ
  pub receipts_last_24h_by_decision : Dict ℕ
  pub last_receipt_timestamp : Option Instant

pub record FleetActivity : Type 0 where
  pub window_hours : ℕ
  pub total_calls : ℕ
  pub calls_by_agent : Dict ℕ
  pub denials_by_agent : Dict ℕ
  pub denials_by_reason : Dict ℕ
  pub shadowed_denials : ℕ
  pub truncated : Bool

-- `search` with nothing but a start and a limit.
abbrev pub recent : Option Instant → ℕ → Filter
recent since limit = record {
  spiffe_id = none;
  decision = none;
  enforced = none;
  since = since;
  until = none;
  limit = limit;
  offset = 0;
}

-- `timedelta(hours=hours)`
abbrev pub hours_long : ℕ → ℕ
hours_long hours = hours * 3600000000

abbrev newest : List ExecutionReceipt → Option Instant
newest [] = none
newest (r ∷ rs) = some r.timestamp

unfoldable pub fleet_summary :
    (Json → Option Bool) → Instant → Tables → Database → Result FleetSummary
fleet_summary bool_of now tables db = bind (list_agents bool_of none tables) λ agents.
    bind (search (recent (some (now - hours_long 24)) 1000) db) λ receipts.
      bind (search (recent none 1) db) λ latest. ok (record {
        agents_by_status = counter (map (λ a. status_value a.status) agents);
        receipts_last_24h_by_decision = counter (map (λ r. decision_value r.decision) receipts);
        last_receipt_timestamp = newest latest;
      })

abbrev is_denial : ExecutionReceipt → Bool
is_denial r = elim r.decision [ allow ↦ false | deny ↦ true ]

-- The report on the receipts of a search.
unfoldable pub report : ℕ → ℕ → List ExecutionReceipt → FleetActivity
report hours limit receipts =
    let denials = keep is_denial receipts in
    record {
      window_hours = hours;
      total_calls = length receipts;
      calls_by_agent = most_common 20 (counter (map (λ r. r.spiffe_id) receipts));
      denials_by_agent = most_common 20 (counter (map (λ r. r.spiffe_id) denials));
      denials_by_reason = most_common 20 (counter (map (λ r. r.reason) denials));
      shadowed_denials = length (keep (λ r. not r.enforced) denials);
      truncated = leb limit (length receipts);
    }

unfoldable pub fleet_activity : Instant → ℕ → ℕ → Database → Result FleetActivity
unfolding report
fleet_activity now hours limit db =
    bind (search (recent (some (now - hours_long hours)) limit) db)
      λ receipts. ok (report hours limit receipts)

length-keep :
    (p : ExecutionReceipt → Bool) (rs : List ExecutionReceipt) → length (keep p rs) ≤ length rs
length-keep p [] = omega arith
length-keep p (r ∷ rs) = ground (arith, length-keep p rs)

length-map :
    (f : ExecutionReceipt → String) (rs : List ExecutionReceipt) → length (map f rs) ≡ length rs
length-map f [] = refl
length-map f (r ∷ rs) = ap suc (length-map f rs)

-- How the numbers of a report hang together.
abbrev pub IsConsistent : ℕ → FleetActivity → Type 0
IsConsistent limit a =
    (a.total_calls ≤ limit)
    × ((a.truncated ≡ true) ↔ (a.total_calls ≡ limit))
    × (total a.calls_by_agent ≤ a.total_calls)
    × (total a.denials_by_agent ≤ a.total_calls)
    × (total a.denials_by_reason ≤ a.total_calls)
    × (a.shadowed_denials ≤ a.total_calls)

report-IsConsistent :
    (hours limit : ℕ) (receipts : List ExecutionReceipt)
    → length receipts ≤ limit
    → IsConsistent limit (report hours limit receipts)
unfolding report
report-IsConsistent hours limit receipts h =
    let denials = keep is_denial receipts in
    let fewer = length-keep is_denial receipts in
    let by_agent = most_common-counter 20 (map (λ r. r.spiffe_id) receipts) in
    let denied = most_common-counter 20 (map (λ r. r.spiffe_id) denials) in
    let reasons = most_common-counter 20 (map (λ r. r.reason) denials) in
    (
      h,
      (λ t. ground (arith, h, t), λ t. ground (arith, t)),
      omega (arith, by_agent.1, length-map (λ r. r.spiffe_id) receipts),
      omega (arith, denied.1, length-map (λ r. r.spiffe_id) denials, fewer),
      omega (arith, reasons.1, length-map (λ r. r.reason) denials, fewer),
      omega (arith, fewer, length-keep (λ r. not r.enforced) denials),
    )

-- Of a report that `fleet_activity` returns: it counts at most as many calls as the limit, it is marked
-- as truncated exactly when it counts as many, and the calls and the denials that it shows by agent and
-- by reason, and the shadowed denials, are each no more than the calls.
pub fleet_activity-IsConsistent :
    (now : Instant) (hours limit : ℕ) (db : Database) (a : FleetActivity)
    → fleet_activity now hours limit db ≡ ok a
    → IsConsistent limit a
unfolding fleet_activity report
fleet_activity-IsConsistent now hours limit db a h =
    let (receipts, found, k) =
      bind-eq-ok (search (recent (some (now - hours_long hours)) limit) db) _ h in
    let bound = search-Accepted (recent (some (now - hours_long hours)) limit) db receipts found in
    let chosen : report hours limit receipts ≡ a = cc k in
    subst (IsConsistent limit) chosen (report-IsConsistent hours limit receipts bound.0)
