-- ===== src/Registry/Rows.antt =====
-- The table of agents as a map from identifiers to rows.
use openagent_control.Prelude.{
  String, ◌≡◌, refl, none, some, List, [], ◌∷◌, ◌++◌, ◌==◌, eq_iff, arith, if◌then◌else◌,
}
use openagent_control.Registry.Tables.{AgentRow, find_row, write_row}

pub find_row-append :
    (id : String) (rows : List AgentRow) (new : AgentRow)
    → find_row new.spiffe_id rows ≡ none
    → find_row id (rows ++ new ∷ []) ≡ (if new.spiffe_id == id then some new else find_row id rows)
unfolding find_row
find_row-append id [] new h = refl
find_row-append id (row ∷ rows) new h = ground (
  arith,
  find_row-append id rows new,
  eq_iff row.spiffe_id new.spiffe_id,
  eq_iff row.spiffe_id id,
  eq_iff new.spiffe_id id,
)

pub find_row-write_row :
    (key id : String) (rows : List AgentRow) (old new : AgentRow)
    → new.spiffe_id ≡ key
    → find_row key rows ≡ some old
    → find_row id (write_row key new rows) ≡ (if key == id then some new else find_row id rows)
unfolding find_row write_row
find_row-write_row key id [] old new k h = cc
find_row-write_row key id (row ∷ rows) old new k h = ground (
  arith,
  find_row-write_row key id rows old new k,
  eq_iff row.spiffe_id key,
  eq_iff row.spiffe_id id,
  eq_iff key id,
  eq_iff new.spiffe_id id,
)

-- The row that is found has the key that was asked for.
pub find_row_key :
    (id : String) (rows : List AgentRow) (row : AgentRow)
    → find_row id rows ≡ some row
    → row.spiffe_id ≡ id
unfolding find_row
find_row_key id [] row h = cc
find_row_key id (r ∷ rows) row h = ground (arith, find_row_key id rows row, eq_iff r.spiffe_id id)
