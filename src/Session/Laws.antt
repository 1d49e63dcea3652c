-- ===== src/Session/Laws.antt =====
-- How a call that succeeds through `>>=` came about, and what no statement but COMMIT changes.
use payment_ledger_api.Common.{ap, ◌≡◌, refl, ◌∙◌, arith}
use payment_ledger_api.Errors.{Error, Result, ok, err}
use payment_ledger_api.Db.{Db}
use payment_ledger_api.Session.{
  Session, Action, pure, raise, lift, query, get, execute, draw, ◌>>=◌,
}

module _ {ℓ κ} {A : Type ℓ} {B : Type κ} where
  bind_from :
      (p : Result A × Session) (f : A → Action B) {b : B} {s' : Session}
      → ◌>>=◌ (λ s. p) f p.1 ≡ (ok b, s')
      → (a : A) × (s₁ : Session) × (p ≡ (ok a, s₁)) × (f a s₁ ≡ (ok b, s'))
  bind_from (ok a, s₁) f h = (a, s₁, refl, h)
  bind_from (err e, s₁) f h = cc

  -- A sequence that succeeds has a first part that succeeds.
  pub bind_ok :
      (m : Action A) (f : A → Action B) (s : Session) {b : B} {s' : Session}
      → (m >>= f) s ≡ (ok b, s')
      → (a : A) × (s₁ : Session) × (m s ≡ (ok a, s₁)) × (f a s₁ ≡ (ok b, s'))
  bind_ok m f s h = bind_from (m s) f h

module _ {ℓ κ} {A : Type ℓ} {B : Type κ} where
  -- A first part that succeeds hands over to the second.
  pub bind_intro :
      (m : Action A) (f : A → Action B) (s : Session) {a : A} {s₁ : Session}
      → m s ≡ (ok a, s₁)
      → (m >>= f) s ≡ f a s₁
  bind_intro m f s h = ap (λ p. ((λ _. p) >>= f) s) h

-- A call leaves what is committed alone, whether it returns or raises.
pub record KeepsCommitted {ℓ} {A : Type ℓ} (m : Action A) : Type ℓ where
  pub at : (s : Session) → (m s).1.committed ≡ s.committed

module _ {ℓ} {A : Type ℓ} where
  pub KeepsCommitted-pure : (a : A) → KeepsCommitted (pure a)
  KeepsCommitted-pure a = record { at = λ s. refl }

  pub KeepsCommitted-raise : (e : Error) → KeepsCommitted (raise {A = A} e)
  KeepsCommitted-raise e = record { at = λ s. refl }

  pub KeepsCommitted-lift : (r : Result A) → KeepsCommitted (lift r)
  KeepsCommitted-lift r = record { at = λ s. refl }

  pub KeepsCommitted-get : (f : Session → A) → KeepsCommitted (get f)
  KeepsCommitted-get f = record { at = λ s. refl }

  pub KeepsCommitted-query : (f : Db → A) → KeepsCommitted (query f)
  KeepsCommitted-query f = record { at = λ s. refl }

pub KeepsCommitted-draw : KeepsCommitted draw
unfolding draw
KeepsCommitted-draw = record { at = λ s. refl }

pub KeepsCommitted-execute : (f : Db → Result Db) → KeepsCommitted (execute f)
KeepsCommitted-execute f = record { at = λ s. ground arith }

module _ {ℓ κ} {A : Type ℓ} {B : Type κ} where
  KeepsCommitted-next :
      (p : Result A × Session) (f : A → Action B)
      → ((a : A) → KeepsCommitted (f a))
      → (◌>>=◌ (λ s. p) f p.1).1.committed ≡ p.1.committed
  KeepsCommitted-next (ok a, s₁) f h = (h a).at s₁
  KeepsCommitted-next (err e, s₁) f h = refl

  pub KeepsCommitted-bind :
      (m : Action A) (f : A → Action B)
      → KeepsCommitted m
      → ((a : A) → KeepsCommitted (f a))
      → KeepsCommitted (m >>= f)
  KeepsCommitted-bind m f km kf = record { at = λ s. KeepsCommitted-next (m s) f kf ∙ km.at s }

pub ruleset keeps_rules = (
  KeepsCommitted-pure, KeepsCommitted-raise, KeepsCommitted-lift, KeepsCommitted-get,
  KeepsCommitted-query, KeepsCommitted-draw, KeepsCommitted-execute, KeepsCommitted-bind,
)
