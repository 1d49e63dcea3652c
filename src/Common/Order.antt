-- ===== src/Common/Order.antt =====
-- `ORDER BY` and paging of a query: a stable insertion sort by a Boolean `before`, which says that
-- the first row may stand in front of the second.
use payment_ledger_api.Common.Tests.{if◌then◌else◌}
use payment_ledger_api.Common.Lists.{take, drop}
use Prim.Native.Nat.{ℕ}
use mathlib.Core.Bool.{Bool}
use mathlib.Core.List.{List, [], ◌∷◌}

module _ {ℓ} {A : Type ℓ} (before : A → A → Bool) where
  abbrev pub insert_by : A → List A → List A
  insert_by x [] = x ∷ []
  insert_by x (y ∷ ys) = if before x y then x ∷ y ∷ ys else y ∷ insert_by x ys

  abbrev pub order_by : List A → List A
  order_by [] = []
  order_by (x ∷ xs) = insert_by x (order_by xs)

-- `.offset(offset).limit(limit)`
abbrev pub page {ℓ} : {A : Type ℓ} → (limit offset : ℕ) → List A → List A
page limit offset rows = take limit (drop offset rows)
