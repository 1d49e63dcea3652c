-- ===== src/Ledger/Effect.antt =====
-- What saving a transaction adds to the balance of each account on each date.
use mathlib.Core.Path.{ap₂}
use payment_ledger_api.Common.{
  ℕ, ◌+◌, ◌*◌, ◌≡◌, refl, ap, sym, ◌∙◌, Bool, true, false, ◌&&◌, List, [], ◌∷◌, ◌++◌, filter, any,
  All, sum_where, sum_where-append, leb, arith, ◌==◌, nat_eq, nat_beq_refl, nat_beq_iff, Bool-cases,
  inl, inr, if◌then◌else◌,
}
use payment_ledger_api.Common.Int.{ℤ, pos, sub_ℕ, ◌+ℤ◌, sub_ℕ-add}
use payment_ledger_api.Model.{
  Uuid, Date, Direction, direction_eq, TransactionStatus, status_eq, Entry, Transaction,
}
use payment_ledger_api.Session.{Session}
use payment_ledger_api.Repositories.Accounts.{calculate_balance}
use payment_ledger_api.Repositories.Transactions.{NewTransaction, NewEntry, Loaded, transaction_row}
use payment_ledger_api.Repositories.Transactions.Save.{Saved, rows}
use payment_ledger_api.Ledger.{IsLedger, IsLinked}
use payment_ledger_api.Ledger.Balance.{is_live, live, is_on, account_sum, calculate_balance-eq}

-- The sum of one side of an account in some entries.
abbrev pub own_sum : Uuid → Direction → List Entry → ℕ
own_sum account_id side es = sum_where (is_on account_id side) (λ e. e.amount) es

-- What a transaction by itself does to the balance of an account on a date.
abbrev pub own_balance : Uuid → Date → Loaded → ℤ
own_balance account_id as_of t =
    if leb t.transaction_date as_of
    then sub_ℕ (own_sum account_id Direction.debit t.entries)
        (own_sum account_id Direction.credit t.entries)
    else pos 0

-- No entry of the ledger belongs to a transaction that is not there.
unused_ne :
    (id : Uuid) (ts : List Transaction) (e : Entry)
    → any (λ r. r.id == id) ts ≡ false
    → IsLinked ts e
    → (id == e.transaction_id) ≡ false
unused_ne id ts e new h = elim (Bool-cases (id == e.transaction_id)) [
  | inl same ↦
      cc (new, h, ap (λ i. any (λ r. r.id == i) ts) ((nat_beq_iff id e.transaction_id).0 same))
  | inr differ ↦ differ
]

pub unused_ne' :
    (id : Uuid) (ts : List Transaction) (e : Entry)
    → any (λ r. r.id == id) ts ≡ false
    → IsLinked ts e
    → (e.transaction_id == id) ≡ false
unused_ne' id ts e new h = ground (arith, unused_ne id ts e new h)

live-unused :
    (as_of : Date) (id : Uuid) (ts : List Transaction)
    → any (λ r. r.id == id) ts ≡ false
    → live as_of ts id ≡ 0
live-unused as_of id [] h = refl
live-unused as_of id (t ∷ ts) h = ground (arith, live-unused as_of id ts)

live-append :
    (as_of : Date) (id : Uuid) (ts : List Transaction) (t : Transaction)
    → live as_of (ts ++ t ∷ []) id ≡ live as_of ts id + (if is_live as_of id t then 1 else 0)
live-append as_of id ts t = sum_where-append (is_live as_of id) (λ t. 1) ts (t ∷ []) ∙ ground arith

module _ (account_id : Uuid) (as_of : Date) (side : Direction) where
  account_sum-old :
      (ts : List Transaction) (t : Transaction) (es : List Entry)
      → any (λ r. r.id == t.id) ts ≡ false
      → All (IsLinked ts) es
      → account_sum account_id as_of side (ts ++ t ∷ []) es
        ≡ account_sum account_id as_of side ts es
  account_sum-old ts t [] new h = refl
  account_sum-old ts t (e ∷ es) new h = ground (
    arith,
    live-append as_of e.transaction_id ts t,
    unused_ne t.id ts e new h.0,
    account_sum-old ts t es new h.1,
  )

  account_sum-rows :
      (uuid4 : ℕ → Uuid) (n : ℕ) (id : Uuid) (ts : List Transaction) (news : List NewEntry)
      → account_sum account_id as_of side ts (rows uuid4 n id news)
        ≡ own_sum account_id side (rows uuid4 n id news) * live as_of ts id
  account_sum-rows uuid4 n id ts [] = omega arith
  account_sum-rows uuid4 n id ts (new ∷ news) =
      elim (Bool-cases (new.account_id == account_id && new.direction == side)) [
        | inl hit ↦ rw hit (omega (arith, account_sum-rows uuid4 (n + 1) id ts news))
        | inr miss ↦ rw miss (account_sum-rows uuid4 (n + 1) id ts news)
      ]

  account_sum-append :
      (ts : List Transaction) (es fs : List Entry)
      → account_sum account_id as_of side ts (es ++ fs)
        ≡ account_sum account_id as_of side ts es + account_sum account_id as_of side ts fs
  account_sum-append ts es fs =
      sum_where-append (is_on account_id side) (λ e. e.amount * live as_of ts e.transaction_id) es
        fs

-- The entries that are loaded back are the rows that went in.
filter-rows :
    (uuid4 : ℕ → Uuid) (n : ℕ) (id : Uuid) (news : List NewEntry)
    → filter (λ e. e.transaction_id == id) (rows uuid4 n id news) ≡ rows uuid4 n id news
filter-rows uuid4 n id [] = refl
filter-rows uuid4 n id (new ∷ news) =
    ground (arith, nat_beq_refl id, filter-rows uuid4 (n + 1) id news)

filter-unused :
    (id : Uuid) (ts : List Transaction) (es fs : List Entry)
    → any (λ r. r.id == id) ts ≡ false
    → All (IsLinked ts) es
    → filter (λ e. e.transaction_id == id) (es ++ fs) ≡ filter (λ e. e.transaction_id == id) fs
filter-unused id ts [] fs new h = refl
filter-unused id ts (e ∷ es) fs new h =
    rw (unused_ne' id ts e new h.0) (filter-unused id ts es fs new h.1)

live-new :
    (as_of : Date) (ts : List Transaction) (t : Transaction)
    → any (λ r. r.id == t.id) ts ≡ false
    → t.status ≡ TransactionStatus.posted
    → live as_of (ts ++ t ∷ []) t.id ≡ (if leb t.transaction_date as_of then 1 else 0)
live-new as_of ts t new effective =
    live-append as_of t.id ts t ∙ ground (arith, live-unused as_of t.id ts new, nat_beq_refl t.id)

mul-if : (b : Bool) (n : ℕ) → n * (if b then 1 else 0) ≡ (if b then n else 0)
mul-if true n = omega arith
mul-if false n = omega arith

sub_ℕ-if :
    (b : Bool) (m n : ℕ)
    → (if b then sub_ℕ m n else pos 0) ≡ sub_ℕ (if b then m else 0) (if b then n else 0)
sub_ℕ-if true m n = refl
sub_ℕ-if false m n = refl

module _ (new : NewTransaction) (news : List NewEntry) (s : Session) {loaded : Loaded}
    {s' : Session} (saved : Saved new news s loaded s') (inv : IsLedger s.db) where
  pub loaded-rows : loaded.entries ≡ rows s.uuid4 (s.draws + 1) (s.uuid4 s.draws) news
  loaded-rows =
      let id = s.uuid4 s.draws in
      let es = rows s.uuid4 (s.draws + 1) id news in
      saved.loaded_entries
      ∙ ap (λ (w : Session). filter (λ e. e.transaction_id == id) w.db.entries) saved.after
      ∙ filter-unused id s.db.transactions s.db.entries es saved.unused inv.linked
      ∙ filter-rows s.uuid4 (s.draws + 1) id news

  -- Each side of an account grows by the transaction's own sum, if that counts on the date.
  side_total-save :
      (account_id : Uuid) (as_of : Date) (side : Direction)
      → new.status ≡ TransactionStatus.posted
      → account_sum account_id as_of side s'.db.transactions s'.db.entries
        ≡ account_sum account_id as_of side s.db.transactions s.db.entries
          + (if leb new.transaction_date as_of then own_sum account_id side loaded.entries else 0)
  side_total-save account_id as_of side effective =
      let id = s.uuid4 s.draws in
      let t = transaction_row id s.started new in
      let ts = s.db.transactions in
      let es = rows s.uuid4 (s.draws + 1) id news in
      rw (saved.after, loaded-rows)
        (account_sum-append account_id as_of side (ts ++ t ∷ []) s.db.entries es
          ∙ ap₂ ◌+◌
              (account_sum-old account_id as_of side ts t s.db.entries saved.unused inv.linked)
              (account_sum-rows account_id as_of side s.uuid4 (s.draws + 1) id (ts ++ t ∷ []) news
                ∙ ap (λ k. own_sum account_id side es * k)
                    (live-new as_of ts t saved.unused effective)
                ∙ mul-if (leb new.transaction_date as_of) (own_sum account_id side es)))

  -- The balance of every account on every date changes by what the transaction itself moves.
  pub calculate_balance-save :
      (account_id : Uuid) (as_of : Date)
      → new.status ≡ TransactionStatus.posted
      → calculate_balance account_id as_of s'.db
        ≡ calculate_balance account_id as_of s.db +ℤ own_balance account_id as_of loaded
  calculate_balance-save account_id as_of effective =
      let total : Direction → Session → ℕ =
        λ side w. account_sum account_id as_of side w.db.transactions w.db.entries in
      let own : Direction → ℕ = λ side. own_sum account_id side loaded.entries in
      let counted = leb new.transaction_date as_of in
      calculate_balance-eq account_id as_of s'.db
      ∙ ap₂ sub_ℕ (side_total-save account_id as_of Direction.debit effective)
          (side_total-save account_id as_of Direction.credit effective)
      ∙ sym (
          ap₂ ◌+ℤ◌ (calculate_balance-eq account_id as_of s.db) (
            ap
              (λ (t : Transaction).
                if leb t.transaction_date as_of
                then sub_ℕ (own Direction.debit) (own Direction.credit)
                else pos 0)
              saved.header
            ∙ sub_ℕ-if counted (own Direction.debit) (own Direction.credit))
          ∙ sub_ℕ-add (total Direction.debit s) (total Direction.credit s)
              (if counted then own Direction.debit else 0)
              (if counted then own Direction.credit else 0))
