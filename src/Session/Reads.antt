-- ===== src/Session/Reads.antt =====
-- Calls that only read: they leave the session alone, and what is committed.
use payment_ledger_api.Common.{◌≡◌, refl, ◌∙◌}
use payment_ledger_api.Errors.{Result, ok, err}
use payment_ledger_api.Db.{Db}
use payment_ledger_api.Session.{Session, Action, lift, query, ◌>>=◌}

-- A call that leaves the session as it is, whether it returns or raises.
pub record ReadsOnly {ℓ} {A : Type ℓ} (m : Action A) : Type ℓ where
  pub at : (s : Session) → (m s).1 ≡ s

module _ {ℓ} {A : Type ℓ} where
  pub ReadsOnly-lift : (r : Result A) → ReadsOnly (lift r)
  ReadsOnly-lift r = record { at = λ s. refl }

  pub ReadsOnly-query : (f : Db → A) → ReadsOnly (query f)
  ReadsOnly-query f = record { at = λ s. refl }

module _ {ℓ κ} {A : Type ℓ} {B : Type κ} where
  then_reads :
      (p : Result A × Session) (f : A → Action B)
      → ((a : A) → ReadsOnly (f a))
      → (◌>>=◌ (λ s. p) f p.1).1 ≡ p.1
  then_reads (ok a, s) f h = (h a).at s
  then_reads (err e, s) f h = refl

  pub ReadsOnly-bind :
      (m : Action A) (f : A → Action B)
      → ReadsOnly m
      → ((a : A) → ReadsOnly (f a))
      → ReadsOnly (m >>= f)
  ReadsOnly-bind m f hm hf = record { at = λ s. then_reads (m s) f hf ∙ hm.at s }
