-- ===== src/Repositories/Ledger/Pages.antt =====
-- A reader of the ledger that asks for one page after the other.
use payment_ledger_api.Common.{
  leb→le, le→leb, ◌↔◌, ◌&&◌, nat_beq_iff, string_eq, none, some, nat_eq, ℕ, zero, suc, ◌+◌, ◌*◌,
  ◌≤◌, ◌≡◌, refl, ap, ◌∙◌, Bool, true, false, Option, String, List, [], ◌++◌, filter, length,
  order_by, page, pages, pages-drop, IsSameMultiset, order_by-IsSameMultiset, order_by-IsChain,
  length-order_by,
}
use payment_ledger_api.Model.{Uuid, Date, Entry, Transaction}
use payment_ledger_api.Db.{Db}
use payment_ledger_api.Repositories.Accounts.{joined}
use payment_ledger_api.Repositories.Currencies.{optional}
use payment_ledger_api.Repositories.Ledger.{entry_matches, list_entries}
use payment_ledger_api.Repositories.Ledger.Order.{
  ledger_order, newest_first-total, AreOfDistinctEntries, IsInOrder, IsInOrder-intro,
  order_by-AreOfDistinctEntries,
}

abbrev pub IfGiven : {A : Type 0} → Option A → (A → Type 0) → Type 0
IfGiven none P = Unit
IfGiven (some a) P = P a

and_iff :
    {P Q : Type 0} (a b : Bool) → ((a ≡ true) ↔ P) → ((b ≡ true) ↔ Q) → ((a && b) ≡ true) ↔ (P × Q)
and_iff true b f g = (λ h. (f.0 refl, g.0 h), λ p. g.1 p.1)
and_iff false b f g = (λ h. cc, λ p. f.1 p.0)

optional_iff :
    {A : Type 0} {test : A → Bool} {P : A → Type 0} (o : Option A)
    → ((a : A) → (test a ≡ true) ↔ P a)
    → (optional o test ≡ true) ↔ IfGiven o P
optional_iff none h = (λ k. tt, λ u. refl)
optional_iff (some a) h = h a

-- What the filters ask for: each that is given holds.
abbrev pub IsAsked :
    (from_date to_date : Option Date) → Option Uuid → Option String → Entry × Transaction → Type 0
IsAsked from_date to_date account_id currency_code (e, t) =
    ((IfGiven from_date (λ d. d ≤ t.transaction_date)
        × IfGiven to_date (λ d. t.transaction_date ≤ d))
      × IfGiven account_id (λ i. e.account_id ≡ i))
    × IfGiven currency_code (λ c. e.currency ≡ c)

entry_matches_iff :
    (from_date to_date : Option Date) (account_id : Option Uuid) (currency_code : Option String)
    (r : Entry × Transaction)
    → (entry_matches from_date to_date account_id currency_code r ≡ true)
      ↔ IsAsked from_date to_date account_id currency_code r
entry_matches_iff from_date to_date account_id currency_code (e, t) =
    let from =
      optional_iff from_date (λ d. (leb→le d t.transaction_date, le→leb d t.transaction_date)) in
    let until =
      optional_iff to_date (λ d. (leb→le t.transaction_date d, le→leb t.transaction_date d)) in
    let account = optional_iff account_id (λ i. nat_beq_iff e.account_id i) in
    let currency = optional_iff currency_code (λ c. string_eq.equals_iff e.currency c) in
    and_iff _ _ (and_iff _ _ (and_iff _ _ from until) account) currency

module _ (from_date to_date : Option Date) (account_id : Option Uuid)
    (currency_code : Option String) (limit : ℕ) (db : Db) where
  abbrev pub read_pages : ℕ → (offset : ℕ) → List (Entry × Transaction)
  read_pages zero offset = []
  read_pages (suc n) offset =
      list_entries from_date to_date account_id currency_code limit offset db
      ++ read_pages n (offset + limit)

  abbrev pub matching : List (Entry × Transaction)
  matching =
      filter (entry_matches from_date to_date account_id currency_code)
        (joined db.entries db.transactions)

  read_pages-pages :
      (n offset : ℕ) → read_pages n offset ≡ pages limit n offset (order_by ledger_order matching)
  unfolding list_entries
  read_pages-pages zero offset = refl
  read_pages-pages (suc n) offset =
      ap (λ l. page limit offset (order_by ledger_order matching) ++ l)
        (read_pages-pages n (offset + limit))

  -- A row matches if each filter that is given holds of it. A reader who asks for enough pages of the
  -- ledger, on tables that do not change and in which no two matching rows are of one entry, gets each
  -- row that matches exactly as often as it does, and in an order without ties: by the date, the latest first, then by the time of posting,
  -- NULL and then the latest first, and then by the id.
  pub list_entries-pages :
      (n : ℕ)
      → length matching ≤ n * limit
      → AreOfDistinctEntries matching
      → ((r : Entry × Transaction)
          → (entry_matches from_date to_date account_id currency_code r ≡ true)
            ↔ IsAsked from_date to_date account_id currency_code r)
        × IsSameMultiset (read_pages n 0) matching
        × IsInOrder (read_pages n 0)
  list_entries-pages n h distinct =
      let all = order_by ledger_order matching in
      let enough : length all ≤ n * limit = rw (length-order_by ledger_order matching) h in
      let same = read_pages-pages n 0 ∙ pages-drop limit n 0 all enough in
      let ordered =
        IsInOrder-intro all
          (order_by-IsChain ledger_order (λ r q. newest_first-total r.1 q.1 r.0.id q.0.id) matching)
          (order_by-AreOfDistinctEntries matching distinct) in
      (
        entry_matches_iff from_date to_date account_id currency_code,
        rw same (order_by-IsSameMultiset ledger_order matching),
        rw same ordered,
      )
