-- ===== src/Repositories/Audit.antt =====
-- app/repositories/audit_repository.py: `log` adds an object to the session and does not flush.
use payment_ledger_api.Common.{String, Option, [], ◌∷◌, ◌++◌}
use payment_ledger_api.Model.{Uuid, Snapshot}
use payment_ledger_api.Errors.{ok}
use payment_ledger_api.Session.{NewAuditLog, Action}

unfoldable pub log :
    Uuid → String → Uuid → String → Option Snapshot → Option Snapshot → Action (Unit {0})
log user_id entity_type entity_id action before after s =
    let new : NewAuditLog = record {
      user_id = user_id;
      entity_type = entity_type;
      entity_id = entity_id;
      action = action;
      before_value = before;
      after_value = after;
    } in
    (ok tt, record s { added = s.added ++ new ∷ [] })
