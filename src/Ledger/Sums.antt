-- ===== src/Ledger/Sums.antt =====
-- The sums of a transaction's two sides, through the steps that make its rows.
use payment_ledger_api.Common.{
  ℕ, ◌+◌, ◌≡◌, refl, List, [], ◌∷◌, ◌++◌, map, filter, sum_where, sum_where-append, arith, ◌==◌,
  nat_eq, if◌then◌else◌,
}
use payment_ledger_api.Model.{Uuid, Direction, direction_eq, Entry}
use payment_ledger_api.Db.{on_side, side_sum}
use payment_ledger_api.Repositories.Transactions.{NewEntry}
use payment_ledger_api.Repositories.Transactions.Save.{rows}
use payment_ledger_api.Services.Transactions.{opposite, reversal_entry}

abbrev pub new_sum : Direction → List NewEntry → ℕ
new_sum side news = sum_where (λ e. e.direction == side) (λ e. e.amount) news

pub side_sum-append :
    (side : Direction) (id : Uuid) (es fs : List Entry)
    → side_sum side id (es ++ fs) ≡ side_sum side id es + side_sum side id fs
side_sum-append side id es fs = sum_where-append (on_side side id) (λ e. e.amount) es fs

pub side_sum-rows :
    (side : Direction) (id tid : Uuid) (uuid4 : ℕ → Uuid) (n : ℕ) (news : List NewEntry)
    → side_sum side id (rows uuid4 n tid news) ≡ (if tid == id then new_sum side news else 0)
side_sum-rows side id tid uuid4 n [] = ground arith
side_sum-rows side id tid uuid4 n (new ∷ news) =
    ground (arith, side_sum-rows side id tid uuid4 (n + 1) news)

-- The entries of a reversal sum up, side by side, to the opposite sides of the original.
pub new_sum-reversal :
    (side : Direction) (id : Uuid) (es : List Entry)
    → new_sum side (map reversal_entry (filter (λ e. e.transaction_id == id) es))
      ≡ side_sum (opposite side) id es
new_sum-reversal side id [] = refl
new_sum-reversal side id (e ∷ es) = ground (arith, new_sum-reversal side id es)
