-- ===== src/Ledger/Search.antt =====
-- `PostgresReceiptQuery.search` and `get`. A column compares as the instant that it holds; the rows
-- stand in the order of their ids, and a search reads them from the newest.
use mathlib.Core.List.{reverse}
use openagent_control.Prelude.{
  ℕ, zero, suc, ◌≤◌, String, ◌≡◌, refl, ap, sym, ◌∙◌, Bool, true, false, ◌&&◌, Option, none, some,
  List, [], ◌∷◌, ◌==◌, eq_iff, subst, arith, leb, length, keep, All, if◌then◌else◌, Bool-cases, inl,
  inr,
}
use openagent_control.Exec.{Result, ok, bind, bind-eq-ok}
use openagent_control.Models.{Instant, Decision, allow, deny, decision_value, ExecutionReceipt}
use openagent_control.Ledger.Chain.{ReceiptRow, Database}
use openagent_control.Ledger.Query.{instant_of, decision_of, to_domain}

-- The arguments of `search`.
pub record Filter : Type 0 where
  pub spiffe_id : Option String
  pub decision : Option Decision
  pub enforced : Option Bool
  pub since : Option Instant
  pub until : Option Instant
  pub limit : ℕ
  pub offset : ℕ

-- A `where` clause that is added only for an argument that is not None.
abbrev pub holds {ℓ} : {A : Type ℓ} → (A → Bool) → Option A → Bool
holds test none = true
holds test (some a) = test a

abbrev same : Bool → Bool → Bool
same true b = b
same false true = false
same false false = true

unfoldable pub is_selected : Filter → ReceiptRow → Bool
is_selected f row =
    holds (λ id. row.spiffe_id == id) f.spiffe_id
    && holds (λ d. row.decision == decision_value d) f.decision
    && holds (λ b. same row.enforced b) f.enforced
    && holds (λ t. leb t (instant_of row.timestamp)) f.since
    && holds (λ t. leb (instant_of row.timestamp) t) f.until

abbrev pub drop : ℕ → List ReceiptRow → List ReceiptRow
drop zero rows = rows
drop (suc n) [] = []
drop (suc n) (row ∷ rows) = drop n rows

abbrev pub take : ℕ → List ReceiptRow → List ReceiptRow
take zero rows = []
take (suc n) [] = []
take (suc n) (row ∷ rows) = row ∷ take n rows

unfoldable pub read_rows : List ReceiptRow → Result (List ExecutionReceipt)
read_rows [] = ok []
read_rows (row ∷ rows) =
    bind (to_domain row) λ receipt. bind (read_rows rows) λ receipts. ok (receipt ∷ receipts)

unfoldable pub search : Filter → Database → Result (List ExecutionReceipt)
unfolding is_selected read_rows
search f db = read_rows (take f.limit (drop f.offset (keep (is_selected f) (reverse db.receipts))))

unfoldable pub find_receipt : String → List ReceiptRow → Option ReceiptRow
find_receipt id [] = none
find_receipt id (row ∷ rows) = if row.sequence_id == id then some row else find_receipt id rows

unfoldable pub get_receipt : String → Database → Result (Option ExecutionReceipt)
unfolding find_receipt
get_receipt id db = elim (find_receipt id db.receipts) [
  | none ↦ ok none
  | some row ↦ bind (to_domain row) λ receipt. ok (some receipt)
]

-- What the filter asks of a receipt.
abbrev Meets {ℓ} : {A : Type ℓ} → (A → Type 0) → Option A → Type 0
Meets P none = Unit
Meets P (some a) = P a

abbrev pub Accepted : Filter → ExecutionReceipt → Type 0
Accepted f r =
    Meets (λ id. r.spiffe_id ≡ id) f.spiffe_id
    × Meets (λ d. r.decision ≡ d) f.decision
    × Meets (λ b. r.enforced ≡ b) f.enforced
    × Meets (λ t. t ≤ r.timestamp) f.since
    × Meets (λ t. r.timestamp ≤ t) f.until

decision_read :
    (s : String) (d d' : Decision) → decision_of s ≡ ok d → s ≡ decision_value d' → d ≡ d'
unfolding decision_of
decision_read s d allow h e = let k = rw e at h in sym (cc k)
decision_read s d deny h e = let k = rw e at h in sym (cc k)

same_sound : (a b : Bool) → same a b ≡ true → a ≡ b
same_sound true b h = sym h
same_sound false true h = cc
same_sound false false h = refl

Meets-holds {ℓ} :
    {A : Type ℓ} (P : A → Type 0) (test : A → Bool)
    → ((a : A) → test a ≡ true → P a)
    → (o : Option A) → holds test o ≡ true
    → Meets P o
Meets-holds P test sound none h = _
Meets-holds P test sound (some a) h = sound a h

-- The receipt of a row, field by field.
to_domain_fields :
    (row : ReceiptRow) (r : ExecutionReceipt)
    → to_domain row ≡ ok r
    → (decision_of row.decision ≡ ok r.decision)
      × (row.spiffe_id ≡ r.spiffe_id)
      × (row.enforced ≡ r.enforced)
      × (instant_of row.timestamp ≡ r.timestamp)
unfolding to_domain
to_domain_fields row r h =
    let (d, e, k) = bind-eq-ok (decision_of row.decision) _ h in
    (e ∙ ap ok (ground (arith, k)), ground (arith, k), ground (arith, k), ground (arith, k))

split_and : (a b : Bool) → (a && b) ≡ true → (a ≡ true) × (b ≡ true)
split_and true b h = (refl, h)
split_and false b h = cc

selected-Accepted :
    (f : Filter) (row : ReceiptRow) (r : ExecutionReceipt)
    → is_selected f row ≡ true
    → to_domain row ≡ ok r
    → Accepted f r
unfolding is_selected
selected-Accepted f row r h read =
    let (dec, id, enf, at) = to_domain_fields row r read in
    let (first_four, u) = split_and _ _ h in
    let (first_three, s) = split_and _ _ first_four in
    let (first_two, b) = split_and _ _ first_three in
    let (h1, d) = split_and _ _ first_two in
    (
      Meets-holds (λ x. r.spiffe_id ≡ x) (λ x. row.spiffe_id == x)
          (λ x q. sym id ∙ (eq_iff row.spiffe_id x).0 q) f.spiffe_id h1,
      Meets-holds (λ x. r.decision ≡ x) (λ x. row.decision == decision_value x)
          (λ x q.
            decision_read row.decision r.decision x dec
              ((eq_iff row.decision (decision_value x)).0 q))
          f.decision d,
      Meets-holds (λ x. r.enforced ≡ x) (λ x. same row.enforced x)
          (λ x q. sym enf ∙ same_sound row.enforced x q) f.enforced b,
      Meets-holds (λ t. t ≤ r.timestamp) (λ t. leb t (instant_of row.timestamp))
          (λ x q. ground (arith, at, q)) f.since s,
      Meets-holds (λ t. r.timestamp ≤ t) (λ t. leb (instant_of row.timestamp) t)
          (λ x q. ground (arith, at, q)) f.until u,
    )

All-keep :
    (f : Filter) (rows : List ReceiptRow)
    → All (λ row. is_selected f row ≡ true) (keep (is_selected f) rows)
All-keep f [] = _
All-keep f (row ∷ rows) = elim (Bool-cases (is_selected f row)) [
  | inl e ↦ rw e (e, All-keep f rows)
  | inr e ↦ rw e (All-keep f rows)
]

All-drop :
    (P : ReceiptRow → Type 0) (n : ℕ) (rows : List ReceiptRow) → All P rows → All P (drop n rows)
All-drop P zero rows h = h
All-drop P (suc n) [] h = h
All-drop P (suc n) (row ∷ rows) h = All-drop P n rows h.1

All-take :
    (P : ReceiptRow → Type 0) (n : ℕ) (rows : List ReceiptRow) → All P rows → All P (take n rows)
All-take P zero rows h = _
All-take P (suc n) [] h = h
All-take P (suc n) (row ∷ rows) h = (h.0, All-take P n rows h.1)

length-take : (n : ℕ) (rows : List ReceiptRow) → length (take n rows) ≤ n
length-take zero rows = omega arith
length-take (suc n) [] = omega arith
length-take (suc n) (row ∷ rows) = omega (arith, length-take n rows)

read_rows_ok :
    (f : Filter) (rows : List ReceiptRow) (rs : List ExecutionReceipt)
    → All (λ row. is_selected f row ≡ true) rows
    → read_rows rows ≡ ok rs
    → (length rs ≡ length rows) × All (Accepted f) rs
unfolding read_rows
read_rows_ok f [] rs h e =
    let none_read : [] ≡ rs = cc e in
    subst (λ xs. (length xs ≡ 0) × All (Accepted f) xs) none_read (refl, _)
read_rows_ok f (row ∷ rows) rs h e =
    let (receipt, r, k) = bind-eq-ok (to_domain row) _ e in
    let (receipts, t, l) = bind-eq-ok (read_rows rows) _ k in
    let (size, all) = read_rows_ok f rows receipts h.1 t in
    let both : receipt ∷ receipts ≡ rs = cc l in
    subst (λ xs. (length xs ≡ suc (length rows)) × All (Accepted f) xs) both
      (ap suc size, (selected-Accepted f row receipt h.0 r, all))

-- A search that returns gives at most as many receipts as its limit, and each meets every argument of
-- the filter that is given.
pub search-Accepted :
    (f : Filter) (db : Database) (rs : List ExecutionReceipt)
    → search f db ≡ ok rs
    → (length rs ≤ f.limit) × All (Accepted f) rs
unfolding search
search-Accepted f db rs e =
    let kept = keep (is_selected f) (reverse db.receipts) in
    let (size, all) =
      read_rows_ok f (take f.limit (drop f.offset kept)) rs
        (All-take (λ row. is_selected f row ≡ true) f.limit _
          (All-drop (λ row. is_selected f row ≡ true) f.offset kept
            (All-keep f (reverse db.receipts))))
        e in
    (omega (arith, size, length-take f.limit (drop f.offset kept)), all)
