-- ===== src/Schemas.antt =====
-- The request bodies of app/schemas/transaction.py and their validators. A body that does not pass
-- is answered by 422 before any handler runs.
pub mod Valid
pub mod Read
use Prim.Native.Char.{code}
use payment_ledger_api.Common.{
  ℕ, String, Bool, true, Option, none, some, ◌&&◌, ◌||◌, List, [], ◌∷◌, length, ltb, leb, ◌==◌,
  nat_eq, if◌then◌else◌,
}
use payment_ledger_api.Common.Int.{ℤ, pos, negsuc}
use payment_ledger_api.Model.{Uuid, Date, Direction}
use payment_ledger_api.Errors.{Result, ok, err, http_exception, invalid_body, ◌>>=◌}

-- The JSON of an entry, with any integer as its amount, and the entry that has passed.
pub record EntryBody : Type 0 where
  pub account_id : Uuid
  pub direction : Direction
  pub amount : ℤ
  pub currency : String

pub record EntryCreate : Type 0 where
  pub account_id : Uuid
  pub direction : Direction
  pub amount : ℕ
  pub currency : String

-- `currency_code` may be left out.
pub record TransactionBody : Type 0 where
  pub currency_code : Option String
  pub description : String
  pub transaction_date : Date
  pub entries : List EntryBody

pub record TransactionCreate : Type 0 where
  pub currency_code : String
  pub description : String
  pub transaction_date : Date
  pub entries : List EntryCreate

abbrev invalid {ℓ} : {A : Type ℓ} → Result A
invalid = err (http_exception 422 invalid_body)

-- A positive amount is a number from here on.
unfoldable pub amount_must_be_positive : ℤ → Result ℕ
amount_must_be_positive (pos n) = if leb n 0 then invalid else ok n
amount_must_be_positive (negsuc n) = invalid

-- The characters that `str.strip` removes.
abbrev is_space : ℕ → Bool
is_space c =
    leb 9 c && leb c 13
    || leb 28 c && leb c 32
    || c == 133
    || c == 160
    || c == 5760
    || leb 8192 c && leb c 8202
    || leb 8232 c && leb c 8233
    || c == 8239
    || c == 8287
    || c == 12288

-- `not v.strip()`
unfoldable pub is_blank : String → Bool
is_blank String.[] = true
is_blank (String.◌∷◌ c s) = is_space (code c) && is_blank s

unfoldable pub description_must_not_be_blank : String → Result String
unfolding is_blank
description_must_not_be_blank v = if is_blank v then invalid else ok v

unfoldable pub entry_create : EntryBody → Result EntryCreate
unfolding amount_must_be_positive
entry_create b = do
  amount ← amount_must_be_positive b.amount
  ok (record {
    account_id = b.account_id;
    direction = b.direction;
    amount = amount;
    currency = b.currency;
  })

unfoldable pub entry_creates : List EntryBody → Result (List EntryCreate)
unfolding entry_create
entry_creates [] = ok []
entry_creates (b ∷ bs) = do e ← entry_create b; es ← entry_creates bs; ok (e ∷ es)

unfoldable pub entries_must_have_at_least_two : List EntryCreate → Result (List EntryCreate)
entries_must_have_at_least_two v = if ltb (length v) 2 then invalid else ok v

abbrev pub default_currency_code : Option String → String
default_currency_code none = "USD"
default_currency_code (some code) = code

-- `TransactionCreate.model_validate`
unfoldable pub transaction_create : TransactionBody → Result TransactionCreate
unfolding description_must_not_be_blank entry_creates entries_must_have_at_least_two
transaction_create b = do
  description ← description_must_not_be_blank b.description
  entries ← entry_creates b.entries
  entries' ← entries_must_have_at_least_two entries
  ok (record {
    currency_code = default_currency_code b.currency_code;
    description = description;
    transaction_date = b.transaction_date;
    entries = entries';
  })
