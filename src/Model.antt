-- ===== src/Model.antt =====
-- The tables of app/models and the enums that their columns hold. A table is the list of its rows
-- in the order of insertion. A UUID is a number, since the program only compares them, a date is
-- a day number and a timestamp a number of microseconds.
use payment_ledger_api.Common.{
  ℕ, String, Bool, true, false, ◌≡◌, ◌↔◌, Option, List, Comparable, arith,
}
use payment_ledger_api.Common.Int.{ℤ}

abbrev pub Uuid : Type 0
Uuid = ℕ

abbrev pub Date : Type 0
Date = ℕ

abbrev pub Timestamp : Type 0
Timestamp = ℕ

pub data AccountType : Type 0 where
  asset liability equity revenue expense : AccountType

pub data Direction : Type 0 where
  debit credit : Direction

pub data TransactionStatus : Type 0 where
  pending posted voided : TransactionStatus

pub data UserRole : Type 0 where
  admin auditor : UserRole

-- The `value` of an enum's member.
abbrev pub account_type_value : AccountType → String
account_type_value AccountType.asset = "asset"
account_type_value AccountType.liability = "liability"
account_type_value AccountType.equity = "equity"
account_type_value AccountType.revenue = "revenue"
account_type_value AccountType.expense = "expense"

abbrev pub status_value : TransactionStatus → String
status_value TransactionStatus.pending = "pending"
status_value TransactionStatus.posted = "posted"
status_value TransactionStatus.voided = "voided"

abbrev pub role_value : UserRole → String
role_value UserRole.admin = "admin"
role_value UserRole.auditor = "auditor"

abbrev pub direction_beq : Direction → Direction → Bool
direction_beq Direction.debit Direction.debit = true
direction_beq Direction.credit Direction.credit = true
direction_beq _ _ = false

pub direction_beq_iff : (a b : Direction) → (direction_beq a b ≡ true) ↔ (a ≡ b)
direction_beq_iff a b = ground arith

instance abbrev pub direction_eq : Comparable Direction
direction_eq = record { equals = direction_beq; equals_iff = direction_beq_iff }

abbrev pub status_beq : TransactionStatus → TransactionStatus → Bool
status_beq TransactionStatus.pending TransactionStatus.pending = true
status_beq TransactionStatus.posted TransactionStatus.posted = true
status_beq TransactionStatus.voided TransactionStatus.voided = true
status_beq _ _ = false

pub status_beq_iff : (a b : TransactionStatus) → (status_beq a b ≡ true) ↔ (a ≡ b)
status_beq_iff a b = ground arith

instance abbrev pub status_eq : Comparable TransactionStatus
status_eq = record { equals = status_beq; equals_iff = status_beq_iff }

abbrev pub role_beq : UserRole → UserRole → Bool
role_beq UserRole.admin UserRole.admin = true
role_beq UserRole.auditor UserRole.auditor = true
role_beq _ _ = false

pub role_beq_iff : (a b : UserRole) → (role_beq a b ≡ true) ↔ (a ≡ b)
role_beq_iff a b = ground arith

instance abbrev pub role_eq : Comparable UserRole
role_eq = record { equals = role_beq; equals_iff = role_beq_iff }

pub record Account : Type 0 where
  pub id : Uuid
  pub code : String
  pub name : String
  pub account_type : AccountType
  pub currency : String
  pub is_active : Bool
  pub created_at : Timestamp
  pub updated_at : Timestamp

pub record Currency : Type 0 where
  pub id : Uuid
  pub code : String
  pub name : String
  pub decimal_places : ℤ
  pub is_active : Bool
  pub created_at : Timestamp

-- `rate` is the column `Numeric(18, 8)` in units of 10 ^ -8.
pub record ExchangeRate : Type 0 where
  pub id : Uuid
  pub from_currency_id : Uuid
  pub to_currency_id : Uuid
  pub rate : ℕ
  pub effective_date : Date
  pub created_by_id : Uuid
  pub created_at : Timestamp

pub record Entry : Type 0 where
  pub id : Uuid
  pub transaction_id : Uuid
  pub account_id : Uuid
  pub direction : Direction
  pub amount : ℕ
  pub currency : String
  pub converted_amount_usd : ℕ

-- `metadata` is NULL or {"reversal_of": id}.
pub record Transaction : Type 0 where
  pub id : Uuid
  pub description : String
  pub transaction_date : Date
  pub status : TransactionStatus
  pub posted_at : Option Timestamp
  pub created_at : Timestamp
  pub metadata : Option Uuid

pub record User : Type 0 where
  pub id : Uuid
  pub email : String
  pub hashed_password : String
  pub role : UserRole
  pub is_active : Bool
  pub created_at : Timestamp

-- A value of the JSON objects that the audit log keeps; `uuid`, `date` and `decimal` are the
-- texts that `str` makes of such a value.
pub data Json : Type 0 where
  string : String → Json
  uuid : Uuid → Json
  date : Date → Json
  decimal : ℕ → Json
  int : ℤ → Json

abbrev pub Snapshot : Type 0
Snapshot = List (String × Json)

pub record AuditLog : Type 0 where
  pub id : Uuid
  pub user_id : Uuid
  pub entity_type : String
  pub entity_id : Uuid
  pub action : String
  pub before_value : Option Snapshot
  pub after_value : Option Snapshot
  pub created_at : Timestamp
