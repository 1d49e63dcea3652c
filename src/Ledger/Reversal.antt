-- ===== src/Ledger/Reversal.antt =====
-- A void takes back exactly what its original did to each balance, on each date.
use mathlib.Core.Path.{ap₂, subst}
use payment_ledger_api.Common.{
  ℕ, ◌+◌, ◌≡◌, refl, ap, sym, ◌∙◌, Bool, true, false, Option, some, List, [], ◌∷◌, map, leb, arith,
  nat_eq, if◌then◌else◌,
}
use payment_ledger_api.Common.Int.{
  pos, pos_part, neg_part, sub_ℕ, ◌+ℤ◌, sub_ℕ-eq, sub_ℕ-add, int_laws,
}
use payment_ledger_api.Model.{Uuid, Date, Direction, direction_eq, status_eq, Entry, Transaction}
use payment_ledger_api.Errors.{Result, ok}
use payment_ledger_api.Schemas.{TransactionCreate}
use payment_ledger_api.Session.{Session}
use payment_ledger_api.Repositories.Accounts.{calculate_balance}
use payment_ledger_api.Repositories.Transactions.{Loaded, void_row, find_by_id_with_entries}
use payment_ledger_api.Repositories.Transactions.Save.{rows, save-find}
use payment_ledger_api.Services.Transactions.{
  create_transaction, void_transaction, opposite, reversal_entry, reversal_of,
}
use payment_ledger_api.Services.Transactions.Create.{create_transaction-ok, posted_header}
use payment_ledger_api.Services.Transactions.Void.{void_transaction-ok, with_status}
use payment_ledger_api.Ledger.{IsLedger}
use payment_ledger_api.Ledger.Balance.{live, account_sum, calculate_balance-eq}
use payment_ledger_api.Ledger.Effect.{own_sum, own_balance, loaded-rows, calculate_balance-save}
use payment_ledger_api.Ledger.Requests.{with_status-IsLedger, create_transaction-IsLedger}

-- VOIDED counts as POSTED does.
live-void_row :
    (as_of : Date) (id j : Uuid) (ts : List Transaction)
    → live as_of (map (void_row id) ts) j ≡ live as_of ts j
live-void_row as_of id j [] = refl
live-void_row as_of id j (t ∷ ts) = ground (arith, live-void_row as_of id j ts)

account_sum-void_row :
    (account_id : Uuid) (as_of : Date) (side : Direction) (id : Uuid) (ts : List Transaction)
    (es : List Entry)
    → account_sum account_id as_of side (map (void_row id) ts) es
      ≡ account_sum account_id as_of side ts es
account_sum-void_row account_id as_of side id ts [] = refl
account_sum-void_row account_id as_of side id ts (e ∷ es) = ground (
  arith,
  live-void_row as_of id e.transaction_id ts,
  account_sum-void_row account_id as_of side id ts es,
)

calculate_balance-with_status :
    (account_id : Uuid) (as_of : Date) (id : Uuid) (s : Session)
    → calculate_balance account_id as_of (with_status id s).db
      ≡ calculate_balance account_id as_of s.db
calculate_balance-with_status account_id as_of id s =
    let same = λ (side : Direction).
      account_sum-void_row account_id as_of side id s.db.transactions s.db.entries in
    calculate_balance-eq account_id as_of (with_status id s).db
    ∙ ap₂ sub_ℕ (same Direction.debit) (same Direction.credit)
    ∙ sym (calculate_balance-eq account_id as_of s.db)

own_sum-reversal :
    (account_id : Uuid) (side : Direction) (uuid4 : ℕ → Uuid) (n : ℕ) (id : Uuid) (es : List Entry)
    → own_sum account_id side (rows uuid4 n id (map reversal_entry es))
      ≡ own_sum account_id (opposite side) es
own_sum-reversal account_id side uuid4 n id [] = refl
own_sum-reversal account_id side uuid4 n id (e ∷ es) =
    ground (arith, own_sum-reversal account_id side uuid4 (n + 1) id es)

-- The sides of a reversal, crossed over, cancel those of the original.
sub_ℕ-cross :
    (b : Bool) (m n : ℕ)
    → (if b then sub_ℕ m n else pos 0) +ℤ (if b then sub_ℕ n m else pos 0) ≡ pos 0
sub_ℕ-cross true m n = sub_ℕ-add m n n m ∙ sub_ℕ-eq (m + n) (n + m) 0 0 (omega arith)
sub_ℕ-cross false m n = omega int_laws

-- In a ledger that keeps the invariant, creating a transaction changes the balance of every account, as of every date, by what the
-- transaction's own entries on that account sum up to, debits less credits, if its date is not
-- later than that date, and by nothing otherwise.
pub create_transaction-balance :
    (payload : TransactionCreate) (user_id : Uuid) (s : Session) {loaded : Loaded} {s' : Session}
    (account_id : Uuid) (as_of : Date)
    → create_transaction payload user_id s ≡ (ok loaded, s')
    → IsLedger s.db
    → calculate_balance account_id as_of s'.db
      ≡ calculate_balance account_id as_of s.db +ℤ own_balance account_id as_of loaded
create_transaction-balance payload user_id s account_id as_of h inv =
    let c = create_transaction-ok payload user_id s h in
    ap (λ (w : Session). calculate_balance account_id as_of w.db) c.logged
    ∙ calculate_balance-save (posted_header payload s) c.news s c.saved inv account_id as_of refl

module _ (id user_id : Uuid) (s : Session) {original reversal : Loaded} {s' : Session}
    (account_id : Uuid) (as_of : Date)
    (h : void_transaction id user_id s ≡ (ok (some (original, reversal)), s'))
    (inv : IsLedger s.db) where
  reversal_cancels :
      own_balance account_id as_of reversal +ℤ own_balance account_id as_of original ≡ pos 0
  reversal_cancels =
      let v = void_transaction-ok id user_id s h in
      let news = map reversal_entry original.entries in
      let back = λ (side : Direction).
        ap (own_sum account_id side) (
          loaded-rows (reversal_of original s.now) news (with_status id s) v.saved
            (with_status-IsLedger id s inv))
        ∙ own_sum-reversal account_id side s.uuid4 (s.draws + 1) (s.uuid4 s.draws)
            original.entries in
      let counted = leb original.transaction_date as_of in
      ap (λ x. x +ℤ own_balance account_id as_of original)
        (ap
            (λ (t : Transaction).
              if leb t.transaction_date as_of
              then sub_ℕ (own_sum account_id Direction.debit reversal.entries)
                  (own_sum account_id Direction.credit reversal.entries)
              else pos 0)
            v.saved.header
          ∙ ap₂ (λ m n. if counted then sub_ℕ m n else pos 0) (back Direction.debit)
              (back Direction.credit))
      ∙ sub_ℕ-cross counted (own_sum account_id Direction.credit original.entries)
          (own_sum account_id Direction.debit original.entries)

  -- In a ledger that keeps the invariant, voiding a transaction takes from the balance of every account, as of every date, exactly what
  -- the original put there: the original still counts, and its reversal cancels it.
  pub void_transaction-balance :
      calculate_balance account_id as_of s'.db +ℤ own_balance account_id as_of original
      ≡ calculate_balance account_id as_of s.db
  void_transaction-balance =
      let v = void_transaction-ok id user_id s h in
      let after =
        ap (λ (w : Session). calculate_balance account_id as_of w.db) v.logged
        ∙ calculate_balance-save (reversal_of original s.now) (map reversal_entry original.entries)
            (with_status id s) v.saved (with_status-IsLedger id s inv) account_id as_of refl
        ∙ ap (λ b. b +ℤ own_balance account_id as_of reversal)
            (calculate_balance-with_status account_id as_of id s) in
      omega (
        int_laws,
        ap pos_part after,
        ap neg_part after,
        ap pos_part reversal_cancels,
        ap neg_part reversal_cancels,
      )

-- What has been created is found again under its id, as it was returned.
pub create_transaction-find :
    (payload : TransactionCreate) (user_id : Uuid) (s : Session) {loaded : Loaded} {s' : Session}
    → create_transaction payload user_id s ≡ (ok loaded, s')
    → find_by_id_with_entries loaded.id s'.db ≡ ok (some loaded)
create_transaction-find payload user_id s {loaded} h =
    let c = create_transaction-ok payload user_id s h in
    ap (λ (w : Session). find_by_id_with_entries loaded.id w.db) c.logged
    ∙ save-find (posted_header payload s) c.news s c.saved

found_unique : {a b : Loaded} → ◌≡◌ {A = Result (Option Loaded)} (ok (some a)) (ok (some b)) → a ≡ b
found_unique h = cc

-- In a ledger that keeps the invariant, a create and then a void of what it created, in any later
-- session that sees the tables as the create left them, leave the balance of every account, as of every date, where it was.
pub void_undoes_create :
    (payload : TransactionCreate) (creator voider : Uuid) (s s₂ : Session)
    {created original reversal : Loaded} {s₁ s₃ : Session} (account_id : Uuid) (as_of : Date)
    → create_transaction payload creator s ≡ (ok created, s₁)
    → s₂.db ≡ s₁.db
    → void_transaction created.id voider s₂ ≡ (ok (some (original, reversal)), s₃)
    → IsLedger s.db
    → calculate_balance account_id as_of s₃.db ≡ calculate_balance account_id as_of s.db
void_undoes_create payload creator voider s s₂ {created} {original} account_id as_of h same k inv =
    let inv₁ = create_transaction-IsLedger payload creator s h inv in
    let inv₂ = subst IsLedger (sym same) inv₁ in
    let v = void_transaction-ok created.id voider s₂ k in
    let found : v.found ≡ created = found_unique (
      sym v.present
      ∙ ap (find_by_id_with_entries created.id) same
      ∙ create_transaction-find payload creator s h) in
    let own =
      ap (own_balance account_id as_of) v.original_lem ∙ ap (own_balance account_id as_of) found in
    let b₁ =
      ap (calculate_balance account_id as_of) same
      ∙ create_transaction-balance payload creator s account_id as_of h inv in
    let b₂ = void_transaction-balance created.id voider s₂ account_id as_of k inv₂ in
    omega (
      int_laws,
      ap pos_part b₁,
      ap neg_part b₁,
      ap pos_part b₂,
      ap neg_part b₂,
      ap pos_part own,
      ap neg_part own,
    )
