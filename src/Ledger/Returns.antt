-- ===== src/Ledger/Returns.antt =====
-- When `void_transaction` returns a reversal: what may be voided is voided.
use Prim.Native.String.{◌++◌ as str_append, [] as empty_text, ◌∷◌ as ◌∷ₜ◌}
use text.Mathlib.TextLemmas.{nil-append, cons-append}
use payment_ledger_api.Common.{
  String, Bool, ◌≡◌, refl, ap, ◌∙◌, true, some, List, [], ◌∷◌, ◌++◌, map, filter, any, All, length,
  arith, inl, inr, ◌==◌, nat_eq, string_eq, Bool-cases,
}
use payment_ledger_api.Model.{
  Uuid, Account, Currency, Entry, Transaction, TransactionStatus, status_eq,
}
use payment_ledger_api.Errors.{ok}
use payment_ledger_api.Db.{is_text}
use payment_ledger_api.Session.{Session}
use payment_ledger_api.Repositories.Audit.{log}
use payment_ledger_api.Repositories.Transactions.{
  Loaded, save, find_by_id_with_entries, mark_voided_if_posted, is_voidable,
}
use payment_ledger_api.Repositories.Transactions.Find.{find-some, find-one}
use payment_ledger_api.Repositories.Transactions.Save.{IsStorable}
use payment_ledger_api.Repositories.Transactions.Returns.{IsInsertable, IsFresh, save-returns}
use payment_ledger_api.Services.Transactions.{
  void_transaction, void_found, reversal_entry, reversal_of, as_voided,
}
use payment_ledger_api.Services.Transactions.Void.{with_status, reversal_log, void_log}
use payment_ledger_api.Ledger.{IsLedger, IsDescribed}
use payment_ledger_api.Ledger.Requests.{any-void_row}
use payment_ledger_api.Ledger.Lifecycle.{voidable-found, is_posted}

-- The foreign keys of the entries.
abbrev pub IsReferring : List Account → List Currency → Entry → Type 0
IsReferring accounts currencies e =
    (any (λ a. a.id == e.account_id) accounts ≡ true)
    × (any (λ c. c.code == e.currency) currencies ≡ true)

All-IsInsertable :
    (accounts : List Account) (currencies : List Currency) (id : Uuid) (es : List Entry)
    → All IsStorable es
    → All (IsReferring accounts currencies) es
    → All
        (IsInsertable accounts currencies)
        (map reversal_entry (filter (λ e. e.transaction_id == id) es))
All-IsInsertable accounts currencies id [] h k = tt
All-IsInsertable accounts currencies id (e ∷ es) h k = elim (Bool-cases (e.transaction_id == id)) [
  | inl hit ↦ rw hit (
    record {
      positive = h.0.positive;
      amount_fits = h.0.amount_fits;
      usd_fits = h.0.usd_fits;
      account = k.0.0;
      currency = k.0.1;
    },
    All-IsInsertable accounts currencies id es h.1 k.1,
  )
  | inr miss ↦ rw miss (All-IsInsertable accounts currencies id es h.1 k.1)
]

IsFresh-with_status :
    (id : Uuid) (s : Session)
    → IsFresh s.uuid4 s.draws s.db
    → IsFresh s.uuid4 s.draws (with_status id s).db
IsFresh-with_status id s fresh = record {
  transaction = λ n h. any-void_row id (s.uuid4 n) s.db.transactions ∙ fresh.transaction n h;
  entry = fresh.entry;
  distinct = fresh.distinct;
}

posted_one :
    (t : Transaction) → t.status ≡ TransactionStatus.posted → length (filter is_posted (t ∷ [])) ≡ 1
posted_one t h = rw h refl

void_of :
    (id user_id : Uuid) (s : Session) {found reversal : Loaded} {s₁ : Session}
    → find_by_id_with_entries id s.db ≡ ok (some found)
    → length (filter (is_voidable id) s.db.transactions) ≡ 1
    → save
        (reversal_of (as_voided found) s.now)
        (map reversal_entry found.entries)
        (with_status id s)
      ≡ (ok reversal, s₁)
    → void_transaction id user_id s ≡ (
      ok (some (as_voided found, reversal)),
      record s₁ {
        added =
            (s₁.added ++ reversal_log user_id (as_voided found) reversal ∷ [])
            ++ void_log user_id found (as_voided found) reversal ∷ [];
      },
    )
unfolding void_transaction void_found mark_voided_if_posted log
void_of id user_id s present won saved = ground arith

is_text-append :
    (s t : String) → is_text s ≡ true → is_text t ≡ true → is_text (str_append s t) ≡ true
is_text-append empty_text t h k = ap is_text (nil-append t) ∙ k
is_text-append (c ∷ₜ s) t h k = ap is_text (cons-append c s t) ∙ ground (arith, is_text-append s t)

-- What is found has the description of a stored header.
found-IsDescribed :
    (test : Transaction → Bool) (ts : List Transaction) (t : Transaction)
    → filter test ts ≡ t ∷ []
    → All IsDescribed ts
    → IsDescribed t
found-IsDescribed test [] t h k = cc
found-IsDescribed test (u ∷ ts) t h k = elim (Bool-cases (test u)) [
  | inl hit ↦ ground (arith, k.0)
  | inr miss ↦ found-IsDescribed test ts t (ground arith) k.1
]

-- What may be voided is voided: in a ledger that keeps the invariant and whose entries refer to
-- accounts and currencies of their tables, under fresh ids, a void of a transaction that is found as
-- POSTED returns the original and a reversal.
pub void_transaction-returns :
    (id user_id : Uuid) (s : Session) {found : Loaded}
    → IsLedger s.db
    → All (IsReferring s.db.accounts s.db.currencies) s.db.entries
    → IsFresh s.uuid4 s.draws s.db
    → find_by_id_with_entries id s.db ≡ ok (some found)
    → found.status ≡ TransactionStatus.posted
    → (original : Loaded) × (reversal : Loaded) × (s' : Session) × (void_transaction id user_id s
        ≡ (ok (some (original, reversal)), s'))
void_transaction-returns id user_id s {found} inv refs fresh present posted =
    let original = as_voided found in
    let won : length (filter (is_voidable id) s.db.transactions) ≡ 1 =
      ap length (voidable-found id s.db present) ∙ posted_one found.header posted in
    let entries : original.entries ≡ filter (λ e. e.transaction_id == id) s.db.entries =
      (find-some id s.db present).1 in
    let insertable : All (IsInsertable s.db.accounts s.db.currencies)
        (map reversal_entry original.entries) =
      rw entries
        (All-IsInsertable s.db.accounts s.db.currencies id s.db.entries inv.storable refs) in
    let text : is_text found.description ≡ true =
      found-IsDescribed (λ t. t.id == id) s.db.transactions found.header (find-one id s.db present)
        inv.texts in
    let (reversal, s₁, saved) =
      save-returns (reversal_of original s.now) (map reversal_entry original.entries)
        (with_status id s) (is_text-append "Reversal of: " found.description refl text)
        (IsFresh-with_status id s fresh) insertable in
    (original, reversal, _, void_of id user_id s present won saved)
