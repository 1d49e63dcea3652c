-- ===== src/Ledger.antt =====
-- The invariant of the tables `transactions` and `entries`, and that saving a balanced transaction
-- keeps it.
pub mod Sums
pub mod Requests
pub mod Balance
pub mod Effect
pub mod Reversal
pub mod Lifecycle
pub mod Conversion
pub mod FxGap
pub mod Triggers
pub mod Overflow
pub mod Committed
pub mod Returns
pub mod Grows
pub mod History
pub mod Unchanged
pub mod Once
pub mod Sound
pub mod Interleaved
use payment_ledger_api.Common.{
  ℕ, ◌+◌, ◌≡◌, refl, true, false, List, [], ◌∷◌, ◌++◌, any, All, All-append, any-append, arith,
  ◌==◌, nat_eq,
}
use payment_ledger_api.Model.{Uuid, Direction, Entry, Transaction}
use payment_ledger_api.Db.{Db, is_text, side_sum}
use payment_ledger_api.Session.{Session}
use payment_ledger_api.Repositories.Transactions.{NewTransaction, NewEntry, Loaded, transaction_row}
use payment_ledger_api.Repositories.Transactions.Save.{IsStorable, Saved, rows}
use Sums.{new_sum, side_sum-rows, side_sum-append}

-- No two headers have the same id.
abbrev pub AreDistinct : List Transaction → Type 0
AreDistinct [] = Unit
AreDistinct (t ∷ ts) = (any (λ r. r.id == t.id) ts ≡ false) × AreDistinct ts

abbrev pub IsLinked : List Transaction → Entry → Type 0
IsLinked ts e = any (λ t. t.id == e.transaction_id) ts ≡ true

-- The description of a stored header is a text of PostgreSQL.
abbrev pub IsDescribed : Transaction → Type 0
IsDescribed t = is_text t.description ≡ true

pub record IsLedger (db : Db) : Type 0 where
  -- what a transaction debits is what it credits
  pub balanced :
      (id : Uuid) → side_sum Direction.debit id db.entries ≡ side_sum Direction.credit id db.entries
  -- every entry belongs to a transaction
  pub linked : All (IsLinked db.transactions) db.entries
  pub distinct : AreDistinct db.transactions
  pub storable : All IsStorable db.entries
  pub texts : All IsDescribed db.transactions

pub AreDistinct-append :
    (ts : List Transaction) (t : Transaction)
    → AreDistinct ts
    → any (λ r. r.id == t.id) ts ≡ false
    → AreDistinct (ts ++ t ∷ [])
AreDistinct-append [] t d h = (refl, tt)
AreDistinct-append (r ∷ ts) t d h =
    ground (arith, AreDistinct-append ts t d.1, any-append (λ x. x.id == r.id) ts (t ∷ []))

pub IsLinked-append :
    (ts us : List Transaction) (es : List Entry)
    → All (IsLinked ts) es
    → All (IsLinked (ts ++ us)) es
IsLinked-append ts us [] h = tt
IsLinked-append ts us (e ∷ es) h =
    (ground (arith, any-append (λ t. t.id == e.transaction_id) ts us), IsLinked-append ts us es h.1)

IsLinked-rows :
    (uuid4 : ℕ → Uuid) (n : ℕ) (ts : List Transaction) (t : Transaction) (news : List NewEntry)
    → All (IsLinked (ts ++ t ∷ [])) (rows uuid4 n t.id news)
IsLinked-rows uuid4 n ts t [] = tt
IsLinked-rows uuid4 n ts t (new ∷ news) = (
  ground (arith, any-append (λ r. r.id == t.id) ts (t ∷ [])),
  IsLinked-rows uuid4 (n + 1) ts t news,
)

module _ (s : Session) (new : NewTransaction) (news : List NewEntry) where
  abbrev new_id : Uuid
  new_id = s.uuid4 s.draws

  abbrev new_rows : List Entry
  new_rows = rows s.uuid4 (s.draws + 1) new_id news

  -- A `save` of entries that balance keeps the invariant.
  pub save-IsLedger :
      {loaded : Loaded} {s' : Session}
      → Saved new news s loaded s'
      → new_sum Direction.debit news ≡ new_sum Direction.credit news
      → IsLedger s.db
      → IsLedger s'.db
  save-IsLedger saved even inv = rw saved.after (record {
    balanced = λ id. ground (
      arith,
      inv.balanced id,
      side_sum-append Direction.debit id s.db.entries new_rows,
      side_sum-append Direction.credit id s.db.entries new_rows,
      side_sum-rows Direction.debit id new_id s.uuid4 (s.draws + 1) news,
      side_sum-rows Direction.credit id new_id s.uuid4 (s.draws + 1) news,
    );
    linked =
        All-append (IsLinked _) s.db.entries new_rows
          (IsLinked-append s.db.transactions _ s.db.entries inv.linked)
          (IsLinked-rows s.uuid4 (s.draws + 1) s.db.transactions
            (transaction_row new_id s.started new) news);
    distinct = AreDistinct-append s.db.transactions _ inv.distinct saved.unused;
    storable = All-append IsStorable s.db.entries new_rows inv.storable saved.storable;
    texts = All-append IsDescribed s.db.transactions _ inv.texts (saved.text, tt);
  })
