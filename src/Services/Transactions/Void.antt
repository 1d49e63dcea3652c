-- ===== src/Services/Transactions/Void.antt =====
-- What a `void_transaction` that returned has found and done.
use mathlib.Core.Path.{subst₂, ap₂}
use payment_ledger_api.Common.{
  ◌≡◌, sym, ◌∙◌, some, none, [], ◌∷◌, ◌++◌, map, filter, length, arith, inl, inr, Bool-cases,
  Option-cases, ◌==◌, nat_eq,
}
use payment_ledger_api.Model.{Uuid, Timestamp, status_eq}
use payment_ledger_api.Errors.{Result, ok, Result-cases}
use payment_ledger_api.Session.{Session, NewAuditLog, Action, pure, ◌>>=◌, ◌>>◌}
use payment_ledger_api.Session.Laws.{bind_ok}
use payment_ledger_api.Repositories.Transactions.{
  Loaded, save, find_by_id_with_entries, mark_voided_if_posted, is_voidable, void_row,
}
use payment_ledger_api.Repositories.Transactions.Save.{Saved, save-ok}
use payment_ledger_api.Repositories.Audit.{log}
use payment_ledger_api.Services.Transactions.{
  as_voided, reversal_of, reversal_entry, reversal_snapshot, before_void_snapshot,
  after_void_snapshot, void_found, void_transaction,
}

-- The session after the UPDATE.
abbrev pub with_status : Uuid → Session → Session
with_status id s = record s {
  db = record s.db { transactions = map (void_row id) s.db.transactions };
}

abbrev pub reversal_log : Uuid → Loaded → Loaded → NewAuditLog
reversal_log user_id original reversal = record {
  user_id = user_id;
  entity_type = "transaction";
  entity_id = reversal.id;
  action = "create";
  before_value = none;
  after_value = some (reversal_snapshot reversal original.id);
}

abbrev pub void_log : Uuid → Loaded → Loaded → Loaded → NewAuditLog
void_log user_id found original reversal = record {
  user_id = user_id;
  entity_type = "transaction";
  entity_id = original.id;
  action = "void";
  before_value = some (before_void_snapshot found);
  after_value = some (after_void_snapshot original reversal.id);
}

pub record Voided (id user_id : Uuid) (s : Session) (original reversal : Loaded) (s' : Session)
    : Type 0 where
  pub found : Loaded
  pub present : find_by_id_with_entries id s.db ≡ ok (some found)
  -- exactly one row was POSTED
  pub won : length (filter (is_voidable id) s.db.transactions) ≡ 1
  pub original_lem : original ≡ as_voided found
  pub middle : Session
  pub saved :
      Saved
        (reversal_of original s.now)
        (map reversal_entry original.entries)
        (with_status id s)
        reversal
        middle
  pub logged : s' ≡ record middle {
    added =
        (middle.added ++ reversal_log user_id original reversal ∷ [])
        ++ void_log user_id found original reversal ∷ [];
  }

abbrev log_voided : Uuid → Loaded → Loaded → Action (Loaded × Loaded)
log_voided user_id found reversal = do
  let original = as_voided found
  log user_id "transaction" reversal.id "create" none
      (some (reversal_snapshot reversal original.id))
  log user_id "transaction" original.id "void" (some (before_void_snapshot found))
      (some (after_void_snapshot original reversal.id))
  pure (original, reversal)

abbrev save_reversal : Loaded → Timestamp → Action Loaded
save_reversal found at = save (reversal_of (as_voided found) at) (map reversal_entry found.entries)

log_voided-ok :
    (user_id : Uuid) (found t : Loaded) (s : Session) {original reversal : Loaded} {s' : Session}
    → log_voided user_id found t s ≡ (ok (original, reversal), s')
    → (original ≡ as_voided found)
      × (reversal ≡ t)
      × (s' ≡ record s {
        added =
            (s.added ++ reversal_log user_id (as_voided found) t ∷ [])
            ++ void_log user_id found (as_voided found) t ∷ [];
      })
unfolding log
log_voided-ok user_id found t s h = ground arith

abbrev rest_of_void : Loaded → Uuid → Session → Result (Loaded × Loaded) × Session
rest_of_void found user_id s = (save_reversal found s.now >>= log_voided user_id found) s

-- A void that found the transaction and returned won the UPDATE.
void_found-ok :
    (found : Loaded) (id user_id : Uuid) (s : Session) {p : Loaded × Loaded} {s' : Session}
    → void_found found id user_id s ≡ (ok p, s')
    → (length (filter (is_voidable id) s.db.transactions) ≡ 1)
      × (rest_of_void found user_id (with_status id s) ≡ (ok p, s'))
unfolding void_found mark_voided_if_posted
void_found-ok found id user_id s h =
    elim (Bool-cases (length (filter (is_voidable id) s.db.transactions) == 1)) [
      | inl won ↦ (ground arith, ground arith)
      | inr lost ↦ ground arith
    ]

pub void_transaction-found :
    (id user_id : Uuid) (s : Session) {p : Loaded × Loaded} {s' : Session}
    → void_transaction id user_id s ≡ (ok (some p), s')
    → (found : Loaded) × (find_by_id_with_entries id s.db ≡ ok (some found))
      × (void_found found id user_id s ≡ (ok p, s'))
unfolding void_transaction
void_transaction-found id user_id s h = elim (Result-cases (find_by_id_with_entries id s.db)) [
  | inr (x, p) ↦ ground arith
  | inl (o, p) ↦ elim (Option-cases o) [
    | inl missing ↦ ground arith
    | inr (found, q) ↦ (found, ground arith, ground arith)
  ]
]

module _ (found : Loaded) (user_id : Uuid) (s : Session) where
  void_from :
      (t : Loaded) (s₁ : Session) {original reversal : Loaded} {s' : Session}
      → save_reversal found s.now s ≡ (ok t, s₁)
      → log_voided user_id found t s₁ ≡ (ok (original, reversal), s')
      → (original ≡ as_voided found)
        × Saved (reversal_of original s.now) (map reversal_entry original.entries) s reversal s₁
        × (s' ≡ record s₁ {
          added =
              (s₁.added ++ reversal_log user_id original reversal ∷ [])
              ++ void_log user_id found original reversal ∷ [];
        })
  void_from t s₁ {original} {reversal} {s'} q r =
      let (o, v, a) = log_voided-ok user_id found t s₁ r in
      (
        o,
        subst₂ (λ x y. Saved (reversal_of x s.now) (map reversal_entry x.entries) s y s₁) (sym o)
            (sym v)
            (save-ok (reversal_of (as_voided found) s.now) (map reversal_entry found.entries) s q),
        a
            ∙ ap₂
                (λ x y. record s₁ {
                  added =
                      (s₁.added ++ reversal_log user_id x y ∷ [])
                      ++ void_log user_id found x y ∷ [];
                })
                (sym o) (sym v),
      )

-- A void of what was found, now or earlier, that returned.
pub record VoidedFrom (found : Loaded) (id user_id : Uuid) (s : Session)
    (original reversal : Loaded) (s' : Session) : Type 0 where
  -- exactly one row was POSTED
  pub won : length (filter (is_voidable id) s.db.transactions) ≡ 1
  pub original_lem : original ≡ as_voided found
  pub middle : Session
  pub saved :
      Saved
        (reversal_of original s.now)
        (map reversal_entry original.entries)
        (with_status id s)
        reversal
        middle
  pub logged : s' ≡ record middle {
    added =
        (middle.added ++ reversal_log user_id original reversal ∷ [])
        ++ void_log user_id found original reversal ∷ [];
  }

pub void_found-VoidedFrom :
    (found : Loaded) (id user_id : Uuid) (s : Session) {original reversal : Loaded} {s' : Session}
    → void_found found id user_id s ≡ (ok (original, reversal), s')
    → VoidedFrom found id user_id s original reversal s'
void_found-VoidedFrom found id user_id s h =
    let (won, g) = void_found-ok found id user_id s h in
    let (t, s₁, q, r) =
      bind_ok (save_reversal found s.now) (log_voided user_id found) (with_status id s) g in
    let (o, saved, logged) = void_from found user_id (with_status id s) t s₁ q r in
    record { won = won; original_lem = o; middle = s₁; saved = saved; logged = logged }

pub void_transaction-ok :
    (id user_id : Uuid) (s : Session) {original reversal : Loaded} {s' : Session}
    → void_transaction id user_id s ≡ (ok (some (original, reversal)), s')
    → Voided id user_id s original reversal s'
void_transaction-ok id user_id s h =
    let (found, present, f) = void_transaction-found id user_id s h in
    let v = void_found-VoidedFrom found id user_id s f in
    record {
      found = found;
      present = present;
      won = v.won;
      original_lem = v.original_lem;
      middle = v.middle;
      saved = v.saved;
      logged = v.logged;
    }

-- A void that returned `None` found nothing, and changed nothing.
pub void_transaction-missing :
    (id user_id : Uuid) (s : Session) {s' : Session}
    → void_transaction id user_id s ≡ (ok none, s')
    → (find_by_id_with_entries id s.db ≡ ok none) × (s' ≡ s)
unfolding void_transaction
void_transaction-missing id user_id s h = elim (Result-cases (find_by_id_with_entries id s.db)) [
  | inr (x, p) ↦ ground arith
  | inl (o, p) ↦ elim (Option-cases o) [
    | inl missing ↦ (ground arith, ground arith)
    | inr (found, q) ↦ (elim (Result-cases (void_found found id user_id s).0) [
      | inl (pair, r) ↦ ground arith
      | inr (x, r) ↦ ground arith
    ])
  ]
]
