-- ===== src/Ledger/Balance.antt =====
-- `calculate_balance` as a plain sum over the entries, and what a saved transaction adds to it.
use mathlib.Core.Path.{ap₂}
use payment_ledger_api.Common.{
  ℕ, ◌+◌, ◌*◌, ◌≡◌, refl, Bool, true, ◌&&◌, ◌||◌, List, [], ◌∷◌, map, filter, sum_where,
  sum_where-append, sum_where-filter, sum_where-map, ◌∙◌, leb, arith, ◌==◌, nat_eq, if◌then◌else◌,
}
use payment_ledger_api.Common.Int.{sub_ℕ}
use payment_ledger_api.Model.{
  Uuid, Date, Direction, direction_eq, TransactionStatus, status_eq, Entry, Transaction,
}
use payment_ledger_api.Db.{Db}
use payment_ledger_api.Repositories.Accounts.{joined, counts, side_total, calculate_balance}

-- How often the join meets a row of this id that counts on the date: once or not at all.
abbrev pub is_live : Date → Uuid → Transaction → Bool
is_live as_of id t =
    t.id == id
    && leb t.transaction_date as_of
    && (t.status == TransactionStatus.posted || t.status == TransactionStatus.voided)

abbrev pub live : Date → List Transaction → Uuid → ℕ
live as_of ts id = sum_where (is_live as_of id) (λ t. 1) ts

abbrev pub is_on : Uuid → Direction → Entry → Bool
is_on account_id side e = e.account_id == account_id && e.direction == side

abbrev pub account_sum : Uuid → Date → Direction → List Transaction → List Entry → ℕ
account_sum account_id as_of side ts es =
    sum_where (is_on account_id side) (λ e. e.amount * live as_of ts e.transaction_id) es

-- One more row in the join: it counts if all its tests pass.
count_one :
    (i a l s d : Bool) (m n k : ℕ)
    → m ≡ (if a && d then n * k else 0)
    → (if i && ((a && l && s) && d) then n + m else m)
      ≡ (if a && d then n * (if i && l && s then 1 + k else k) else 0)
count_one true true true true true m n k h = omega arith
count_one _ _ _ _ _ m n k h = ground arith

module _ (account_id : Uuid) (as_of : Date) (side : Direction) where
  abbrev selected : Entry × Transaction → Bool
  selected r = counts account_id as_of r && r.0.direction == side

  one_join :
      (e : Entry) (ts : List Transaction)
      → sum_where selected
          (λ r. r.0.amount)
          (map (λ t. (e, t)) (filter (λ t. t.id == e.transaction_id) ts))
        ≡ (if is_on account_id side e then e.amount * live as_of ts e.transaction_id else 0)
  one_join e ts =
      sum_where-map selected (λ r. r.0.amount) (λ t. (e, t))
        (filter (λ t. t.id == e.transaction_id) ts)
      ∙ sum_where-filter (λ t. selected (e, t)) (λ t. e.amount) (λ t. t.id == e.transaction_id) ts
      ∙ counted ts
    where
      counted :
          (us : List Transaction)
          → sum_where (λ t. t.id == e.transaction_id && selected (e, t)) (λ t. e.amount) us
            ≡ (if is_on account_id side e then e.amount * live as_of us e.transaction_id else 0)
      counted [] = ground arith
      counted (u ∷ us) =
          count_one (u.id == e.transaction_id) (e.account_id == account_id)
            (leb u.transaction_date as_of)
            (u.status == TransactionStatus.posted || u.status == TransactionStatus.voided)
            (e.direction == side)
            (sum_where (λ t. t.id == e.transaction_id && selected (e, t)) (λ t. e.amount) us)
            e.amount (live as_of us e.transaction_id) (counted us)

  joined-sum :
      (es : List Entry) (ts : List Transaction)
      → sum_where selected (λ r. r.0.amount) (joined es ts)
        ≡ account_sum account_id as_of side ts es
  joined-sum [] ts = refl
  joined-sum (e ∷ es) ts =
      sum_where-append selected (λ r. r.0.amount)
        (map (λ t. (e, t)) (filter (λ t. t.id == e.transaction_id) ts)) (joined es ts)
      ∙ ground (arith, one_join e ts, joined-sum es ts)

  pub side_total-joined :
      (es : List Entry) (ts : List Transaction)
      → side_total side (filter (counts account_id as_of) (joined es ts))
        ≡ account_sum account_id as_of side ts es
  side_total-joined es ts =
      sum_where-filter (λ r. r.0.direction == side) (λ r. r.0.amount) (counts account_id as_of)
        (joined es ts)
      ∙ joined-sum es ts

pub calculate_balance-eq :
    (account_id : Uuid) (as_of : Date) (db : Db)
    → calculate_balance account_id as_of db
      ≡ sub_ℕ
          (account_sum account_id as_of Direction.debit db.transactions db.entries)
          (account_sum account_id as_of Direction.credit db.transactions db.entries)
unfolding calculate_balance
calculate_balance-eq account_id as_of db =
    ap₂ sub_ℕ (side_total-joined account_id as_of Direction.debit db.entries db.transactions)
      (side_total-joined account_id as_of Direction.credit db.entries db.transactions)
