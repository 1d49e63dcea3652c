-- ===== src/Ledger/Grows.antt =====
-- What a later state of the tables keeps of an earlier one: entries and audit logs are only added,
-- and of a header only the status changes, once.
use mathlib.Core.List.{append-nil, append_assoc}
use payment_ledger_api.Common.{
  ◌≡◌, ◌⊎◌, refl, ap, sym, ◌∙◌, true, List, [], ◌∷◌, ◌++◌, map, arith, inl, inr, nat_eq, Bool-cases,
}
use payment_ledger_api.Model.{
  Uuid, Entry, Transaction, TransactionStatus, status_eq, status_beq_iff, AuditLog,
}
use payment_ledger_api.Db.{Db}
use payment_ledger_api.Ledger.{IsLedger}
use payment_ledger_api.Repositories.Transactions.{void_row, is_voidable}

-- A header may be voided while it is POSTED, and nothing else happens to it.
abbrev pub IsSameOrVoided : Transaction → Transaction → Type 0
IsSameOrVoided t u =
    (u ≡ t)
    ⊎ (t.status ≡ TransactionStatus.posted) × (u ≡ record t { status = TransactionStatus.voided })

-- The headers of before are still there, in their places.
abbrev pub AreKept : List Transaction → List Transaction → Type 0
AreKept [] us = Unit
AreKept (t ∷ ts) [] = ⊥
AreKept (t ∷ ts) (u ∷ us) = IsSameOrVoided t u × AreKept ts us

-- What a later state keeps of an earlier one: every entry and every audit log, and the headers but
-- for their status.
pub record Grows (db db' : Db) : Type 0 where
  pub new_entries : List Entry
  pub entries : db'.entries ≡ db.entries ++ new_entries
  pub new_logs : List AuditLog
  pub audit_logs : db'.audit_logs ≡ db.audit_logs ++ new_logs
  pub transactions : AreKept db.transactions db'.transactions

pub AreKept-refl : (ts us : List Transaction) → AreKept ts (ts ++ us)
AreKept-refl [] us = tt
AreKept-refl (t ∷ ts) us = (inl refl, AreKept-refl ts us)

AreKept-same : (ts : List Transaction) → AreKept ts ts
AreKept-same [] = tt
AreKept-same (t ∷ ts) = (inl refl, AreKept-same ts)

void_row-kept : (id : Uuid) (t : Transaction) → IsSameOrVoided t (void_row id t)
void_row-kept id t = elim (Bool-cases (is_voidable id t)) [
  | inl hit ↦ inr (h_posted hit, rw hit refl)
  | inr miss ↦ inl (rw miss refl)
]
  where
    h_posted : is_voidable id t ≡ true → t.status ≡ TransactionStatus.posted
    h_posted h = ground (arith, status_beq_iff t.status TransactionStatus.posted)

pub AreKept-void_row :
    (id : Uuid) (ts us : List Transaction) → AreKept ts (map (void_row id) ts ++ us)
AreKept-void_row id [] us = tt
AreKept-void_row id (t ∷ ts) us = (void_row-kept id t, AreKept-void_row id ts us)

IsSameOrVoided-trans :
    (t u v : Transaction) → IsSameOrVoided t u → IsSameOrVoided u v → IsSameOrVoided t v
IsSameOrVoided-trans t u v (inl p) (inl q) = inl (q ∙ p)
IsSameOrVoided-trans t u v (inl p) (inr q) = inr (
  ap (λ x. x.status) (sym p) ∙ q.0,
  q.1 ∙ ap (λ (x : Transaction). record x { status = TransactionStatus.voided }) p,
)
IsSameOrVoided-trans t u v (inr p) (inl q) = inr (p.0, q ∙ p.1)
IsSameOrVoided-trans t u v (inr p) (inr q) =
    absurd (voided_ne (sym (ap (λ (x : Transaction). x.status) p.1) ∙ q.0))
  where
    voided_ne : TransactionStatus.voided ≡ TransactionStatus.posted → ⊥
    voided_ne h = cc

AreKept-trans : (ts us vs : List Transaction) → AreKept ts us → AreKept us vs → AreKept ts vs
AreKept-trans [] us vs h k = tt
AreKept-trans (t ∷ ts) [] vs h k = absurd h
AreKept-trans (t ∷ ts) (u ∷ us) [] h k = absurd k
AreKept-trans (t ∷ ts) (u ∷ us) (v ∷ vs) h k =
    (IsSameOrVoided-trans t u v h.0 k.0, AreKept-trans ts us vs h.1 k.1)

pub Grows-refl : (db : Db) → Grows db db
Grows-refl db = record {
  new_entries = [];
  entries = sym (append-nil db.entries);
  new_logs = [];
  audit_logs = sym (append-nil db.audit_logs);
  transactions = AreKept-same db.transactions;
}

pub Grows-trans : (a b c : Db) → Grows a b → Grows b c → Grows a c
Grows-trans a b c g h = record {
  new_entries = g.new_entries ++ h.new_entries;
  entries =
      h.entries
      ∙ ap (λ es. es ++ h.new_entries) g.entries
      ∙ append_assoc a.entries g.new_entries h.new_entries;
  new_logs = g.new_logs ++ h.new_logs;
  audit_logs =
      h.audit_logs
      ∙ ap (λ es. es ++ h.new_logs) g.audit_logs
      ∙ append_assoc a.audit_logs g.new_logs h.new_logs;
  transactions =
      AreKept-trans a.transactions b.transactions c.transactions g.transactions h.transactions;
}

pub same_tables-Grows :
    (db db' : Db)
    → db'.entries ≡ db.entries
    → db'.transactions ≡ db.transactions
    → db'.audit_logs ≡ db.audit_logs
    → Grows db db'
same_tables-Grows db db' es ts ls = record {
  new_entries = [];
  entries = es ∙ sym (append-nil db.entries);
  new_logs = [];
  audit_logs = ls ∙ sym (append-nil db.audit_logs);
  transactions = rw ts (AreKept-same db.transactions);
}

pub same_tables-IsLedger :
    (db db' : Db)
    → db'.entries ≡ db.entries
    → db'.transactions ≡ db.transactions
    → IsLedger db
    → IsLedger db'
same_tables-IsLedger db db' es ts inv = record {
  balanced = rw es inv.balanced;
  linked = rw (es, ts) inv.linked;
  distinct = rw ts inv.distinct;
  storable = rw es inv.storable;
  texts = rw ts inv.texts;
}
