-- ===== src/Ledger/Requests.antt =====
-- Every request of the transaction service keeps the invariant of the ledger.
use payment_ledger_api.Common.{
  ℕ, ◌≡◌, refl, List, [], ◌∷◌, map, filter, any, All, arith, ◌==◌, nat_eq, some, inl, inr, ap, sym,
  ◌∙◌,
}
use payment_ledger_api.Model.{Uuid, Direction, direction_eq, Entry, Transaction}
use payment_ledger_api.Errors.{ok, Result-cases}
use payment_ledger_api.Schemas.{EntryCreate, TransactionCreate}
use payment_ledger_api.Db.{Db}
use payment_ledger_api.Session.{Session}
use payment_ledger_api.Repositories.Transactions.{NewEntry, Loaded, void_row}
use payment_ledger_api.Repositories.Transactions.Find.{find-some}
use payment_ledger_api.Services.Transactions.{
  create_transaction, void_transaction, new_entries, reversal_entry, reversal_of,
}
use payment_ledger_api.Services.Transactions.Rules.{check_payload, amount_sum}
use payment_ledger_api.Services.Transactions.Create.{create_transaction-ok, posted_header}
use payment_ledger_api.Services.Transactions.Void.{void_transaction-ok, with_status}
use payment_ledger_api.Ledger.{IsLedger, IsLinked, IsDescribed, AreDistinct, save-IsLedger}
use payment_ledger_api.Ledger.Sums.{new_sum, new_sum-reversal}

pub new_sum-new_entries :
    (side : Direction) (es : List EntryCreate) (usds : List ℕ) {news : List NewEntry}
    → new_entries es usds ≡ ok news
    → new_sum side news ≡ amount_sum side es
unfolding new_entries
new_sum-new_entries side [] [] h = ground arith
new_sum-new_entries side [] (u ∷ us) h = cc
new_sum-new_entries side (e ∷ es) [] h = cc
new_sum-new_entries side (e ∷ es) (u ∷ us) h = elim (Result-cases (new_entries es us)) [
  | inl (more, p) ↦ ground (arith, new_sum-new_entries side es us p)
  | inr (x, p) ↦ ground arith
]

pub check_payload-balanced :
    (payload : TransactionCreate) (db : Db)
    → check_payload payload db ≡ ok tt
    → amount_sum Direction.debit payload.entries ≡ amount_sum Direction.credit payload.entries
unfolding check_payload
check_payload-balanced payload db h = ground arith

-- The status of a row changes, and nothing that the invariant reads.
pub any-void_row :
    (id j : Uuid) (ts : List Transaction)
    → any (λ t. t.id == j) (map (void_row id) ts) ≡ any (λ t. t.id == j) ts
any-void_row id j [] = refl
any-void_row id j (t ∷ ts) = ground (arith, any-void_row id j ts)

AreDistinct-void_row :
    (id : Uuid) (ts : List Transaction) → AreDistinct ts → AreDistinct (map (void_row id) ts)
AreDistinct-void_row id [] d = tt
AreDistinct-void_row id (t ∷ ts) d =
    ground (arith, AreDistinct-void_row id ts d.1, any-void_row id t.id ts)

IsLinked-void_row :
    (id : Uuid) (ts : List Transaction) (es : List Entry)
    → All (IsLinked ts) es
    → All (IsLinked (map (void_row id) ts)) es
IsLinked-void_row id ts [] h = tt
IsLinked-void_row id ts (e ∷ es) h =
    (any-void_row id e.transaction_id ts ∙ h.0, IsLinked-void_row id ts es h.1)

IsDescribed-void_row :
    (id : Uuid) (ts : List Transaction)
    → All IsDescribed ts
    → All IsDescribed (map (void_row id) ts)
IsDescribed-void_row id [] h = tt
IsDescribed-void_row id (t ∷ ts) h = ground (arith, IsDescribed-void_row id ts h.1)

pub with_status-IsLedger :
    (id : Uuid) (s : Session) → IsLedger s.db → IsLedger (with_status id s).db
with_status-IsLedger id s inv = record {
  balanced = inv.balanced;
  linked = IsLinked-void_row id s.db.transactions s.db.entries inv.linked;
  distinct = AreDistinct-void_row id s.db.transactions inv.distinct;
  storable = inv.storable;
  texts = IsDescribed-void_row id s.db.transactions inv.texts;
}

-- A `create_transaction` that returns keeps the invariant of the ledger: every transaction
-- balances, every entry belongs to a transaction and fits its columns, no description has U+0000, and no id
-- is taken twice.
pub create_transaction-IsLedger :
    (payload : TransactionCreate) (user_id : Uuid) (s : Session) {loaded : Loaded} {s' : Session}
    → create_transaction payload user_id s ≡ (ok loaded, s')
    → IsLedger s.db
    → IsLedger s'.db
create_transaction-IsLedger payload user_id s h inv =
    let c = create_transaction-ok payload user_id s h in
    let even : new_sum Direction.debit c.news ≡ new_sum Direction.credit c.news =
      new_sum-new_entries Direction.debit payload.entries c.converted c.zipped
      ∙ check_payload-balanced payload s.db c.checked
      ∙ sym (new_sum-new_entries Direction.credit payload.entries c.converted c.zipped) in
    rw c.logged (save-IsLedger s (posted_header payload s) c.news c.saved even inv)

-- A void that returns a reversal keeps the invariant of the ledger: every transaction balances,
-- every entry belongs to a transaction and fits its columns, no description has U+0000, and no id
-- is taken twice.
pub void_transaction-IsLedger :
    (id user_id : Uuid) (s : Session) {original reversal : Loaded} {s' : Session}
    → void_transaction id user_id s ≡ (ok (some (original, reversal)), s')
    → IsLedger s.db
    → IsLedger s'.db
void_transaction-IsLedger id user_id s {original} {reversal} {s'} h inv =
    let v = void_transaction-ok id user_id s h in
    let entries : original.entries ≡ filter (λ e. e.transaction_id == id) s.db.entries =
      ap (λ l. l.entries) v.original_lem ∙ (find-some id s.db v.present).1 in
    let even : new_sum Direction.debit (map reversal_entry original.entries)
        ≡ new_sum Direction.credit (map reversal_entry original.entries) =
      rw entries (
        new_sum-reversal Direction.debit id s.db.entries
        ∙ sym (inv.balanced id)
        ∙ sym (new_sum-reversal Direction.credit id s.db.entries)) in
    rw v.logged (
      save-IsLedger (with_status id s) (reversal_of original s.now)
        (map reversal_entry original.entries) v.saved even (with_status-IsLedger id s inv))
