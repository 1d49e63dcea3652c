-- ===== src/Repositories/Currencies/Latest.antt =====
-- `find_exchange_rate` against its description: the latest rate that is in force on a date.
use payment_ledger_api.Common.{
  ℕ, ◌≤◌, ◌≡◌, refl, ap, ◌∙◌, Bool, true, false, none, some, List, [], ◌∷◌, filter, All, take,
  order_by, insert_by, leb, arith, nat_eq, Bool-cases, ◌⊎◌, inl, inr,
}
use payment_ledger_api.Model.{Uuid, Date, ExchangeRate}
use payment_ledger_api.Errors.{ok}
use payment_ledger_api.Db.{Db}
use payment_ledger_api.Repositories.{scalar_one_or_none}
use payment_ledger_api.Repositories.Currencies.{applies, later_first, find_exchange_rate}

abbrev pub IsIn : ExchangeRate → List ExchangeRate → Type 0
IsIn x [] = ⊥
IsIn x (y ∷ ys) = (x ≡ y) ⊎ IsIn x ys

-- `x` is a rate of the list, and no rate of it is later.
record IsLatest (x : ExchangeRate) (xs : List ExchangeRate) : Type 0 where
  member : IsIn x xs
  latest : All (λ y. y.effective_date ≤ x.effective_date) xs

List-cases :
    (xs : List ExchangeRate)
    → (xs ≡ []) ⊎ ((y : ExchangeRate) × (ys : List ExchangeRate) × (xs ≡ y ∷ ys))
List-cases [] = inl refl
List-cases (y ∷ ys) = inr (y, ys, refl)

insert_by-not_nil :
    (x : ExchangeRate) (ys : List ExchangeRate) → insert_by later_first x ys ≡ [] → ⊥
insert_by-not_nil x [] h = cc
insert_by-not_nil x (y ∷ ys) h = ground arith

order_by-nil : (xs : List ExchangeRate) → order_by later_first xs ≡ [] → xs ≡ []
order_by-nil [] h = refl
order_by-nil (x ∷ xs) h = absurd (insert_by-not_nil x (order_by later_first xs) h)

All-later :
    (a b : ExchangeRate) (xs : List ExchangeRate)
    → a.effective_date ≤ b.effective_date
    → All (λ y. y.effective_date ≤ a.effective_date) xs
    → All (λ y. y.effective_date ≤ b.effective_date) xs
All-later a b [] h k = tt
All-later a b (x ∷ xs) h k = (omega (arith, h, k.0), All-later a b xs h k.1)

head_same : {x y : ExchangeRate} {xs ys : List ExchangeRate} → x ∷ xs ≡ y ∷ ys → y ≡ x
head_same h = cc

insert-before :
    (r y : ExchangeRate) (ys : List ExchangeRate) {x : ExchangeRate} {rest : List ExchangeRate}
    → leb y.effective_date r.effective_date ≡ true
    → insert_by later_first r (y ∷ ys) ≡ x ∷ rest
    → x ≡ r
insert-before r y ys later h = head_same (rw later at h)

insert-behind :
    (r y : ExchangeRate) (ys : List ExchangeRate) {x : ExchangeRate} {rest : List ExchangeRate}
    → leb y.effective_date r.effective_date ≡ false
    → insert_by later_first r (y ∷ ys) ≡ x ∷ rest
    → x ≡ y
insert-behind r y ys earlier h = head_same (rw earlier at h)

only-IsLatest : (r : ExchangeRate) → IsLatest r (r ∷ [])
only-IsLatest r = record { member = inl refl; latest = (omega arith, tt) }

-- The first row of the ordered list is the latest.
order_by-IsLatest :
    (xs : List ExchangeRate) {x : ExchangeRate} {rest : List ExchangeRate}
    → order_by later_first xs ≡ x ∷ rest
    → IsLatest x xs
order_by-IsLatest [] h = cc
order_by-IsLatest (r ∷ rs) {x} h = elim (List-cases (order_by later_first rs)) [
  | inl none_left ↦
      (let same : x ≡ r = head_same (rw none_left at h) in
        rw (order_by-nil rs none_left, same) (only-IsLatest r))
  | inr (y, ys, p) ↦
      (let ih = order_by-IsLatest rs p in
        let h' = rw p at h in
        elim (Bool-cases (leb y.effective_date r.effective_date)) [
          | inl later ↦
              (let d : y.effective_date ≤ r.effective_date = ground (arith, later) in
                rw (insert-before r y ys later h') (record {
                  member = inl refl;
                  latest = (omega arith, All-later y r rs d ih.latest);
                }))
          | inr earlier ↦
              (let d : r.effective_date ≤ y.effective_date = ground (arith, earlier) in
                rw (insert-behind r y ys earlier h')
                  (record { member = inr ih.member; latest = (d, ih.latest) }))
        ])
]

IsIn-filter :
    (p : ExchangeRate → Bool) (x : ExchangeRate) (xs : List ExchangeRate)
    → IsIn x (filter p xs)
    → IsIn x xs × (p x ≡ true)
IsIn-filter p x [] h = absurd h
IsIn-filter p x (y ∷ ys) h = elim (Bool-cases (p y)) [
  | inl hit ↦ from (rw hit at h) hit (IsIn-filter p x ys)
  | inr miss ↦ (let more = IsIn-filter p x ys (rw miss at h) in (inr more.0, more.1))
]
  where
    from :
        IsIn x (y ∷ filter p ys)
        → p y ≡ true
        → (IsIn x (filter p ys) → IsIn x ys × (p x ≡ true))
        → IsIn x (y ∷ ys) × (p x ≡ true)
    from (inl same) hit ih = (inl same, ap p same ∙ hit)
    from (inr more) hit ih = let rest = ih more in (inr rest.0, rest.1)

All-filter :
    (p : ExchangeRate → Bool) (n : ℕ) (xs : List ExchangeRate)
    → All (λ y. y.effective_date ≤ n) (filter p xs)
    → All (λ y. p y ≡ true → y.effective_date ≤ n) xs
All-filter p n [] h = tt
All-filter p n (y ∷ ys) h = elim (Bool-cases (p y)) [
  | inl hit ↦ (let h' = rw hit at h in (λ _. h'.0, All-filter p n ys h'.1))
  | inr miss ↦ (λ hit. cc, All-filter p n ys (rw miss at h))
]

-- What the query is meant to find: a rate of the table for the pair, in force on the date, and none
-- that is in force is later.
pub record IsInForce (from_id to_id : Uuid) (on : Date) (db : Db) (x : ExchangeRate) : Type 0 where
  pub stored : IsIn x db.exchange_rates
  pub fits : applies from_id to_id on x ≡ true
  pub latest :
      All
        (λ y. applies from_id to_id on y ≡ true → y.effective_date ≤ x.effective_date)
        db.exchange_rates

module _ (from_id to_id : Uuid) (on : Date) (db : Db) where
  -- The query never raises. What it finds is a rate of the table for the pair that is in force on
  -- the date, and no later one is; and it finds nothing only if no rate is in force.
  pub find_exchange_rate-IsInForce :
      ((x : ExchangeRate) × (find_exchange_rate from_id to_id on db ≡ ok (some x))
        × IsInForce from_id to_id on db x)
      ⊎ ((find_exchange_rate from_id to_id on db ≡ ok none)
          × (filter (applies from_id to_id on) db.exchange_rates ≡ []))
  unfolding find_exchange_rate scalar_one_or_none
  find_exchange_rate-IsInForce =
      let found = filter (applies from_id to_id on) db.exchange_rates in
      elim (List-cases (order_by later_first found)) [
        | inl nothing ↦
            inr (ap (λ l. scalar_one_or_none (take 1 l)) nothing, order_by-nil found nothing)
        | inr (x, rest, p) ↦
            (let best = order_by-IsLatest found p in
              let member = IsIn-filter (applies from_id to_id on) x db.exchange_rates best.member in
              inl (
                x,
                ap (λ l. scalar_one_or_none (take 1 l)) p,
                record {
                  stored = member.0;
                  fits = member.1;
                  latest =
                      All-filter (applies from_id to_id on) x.effective_date db.exchange_rates
                        best.latest;
                },
              ))
      ]
