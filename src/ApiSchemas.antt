-- ===== src/ApiSchemas.antt =====
-- Dechat/dex_with_fiat_frontend/src/lib/apiSchemas.ts: the schemas of the API routes' bodies. The
-- decoding of JSON has happened: a body is what it gave. Numbers are whole, negative or something
-- else that no schema accepts.
pub mod Validity
pub mod Retry
pub mod Attempts
mod Tests
use stellar_dex_chat.Common.{
  ℕ, String, Option, none, some, List, if◌then◌else◌, str_eq, get, ltb, ◌>>=◌,
}

-- A value of a decoded object; `undefined` where the object has no such field.
pub data Field : Type 0 where
  undefined other_value : Field
  string : String → Field
  number : ℕ → Field

abbrev pub Fields : Type 0
Fields = List (String × Field)

-- What `request.json()` gave.
pub data Body : Type 0 where
  malformed no_object : Body
  object : Fields → Body

abbrev pub present : Option Field → Field
present none = undefined
present (some f) = f

-- `body[name]`
abbrev pub read : String → Fields → Field
read name fields = present (get name fields)

-- `z.string().min(1)`
abbrev pub non_empty : Field → Option String
non_empty (string s) = if str_eq s "" then none else some s
non_empty _ = none

-- `z.string().optional()`
abbrev pub optional : Field → Option (Option String)
optional undefined = some none
optional (string s) = some (some s)
optional _ = none

-- The field that an optional text is written as.
abbrev pub given : Option String → Field
given none = undefined
given (some s) = string s

-- `z.number().positive()`
abbrev pub positive : Field → Option ℕ
positive (number n) = if ltb 0 n then some n else none
positive _ = none

pub record InitiateTransferInput : Type 0 where
  pub source : String
  pub reason : Option String
  pub amount : ℕ
  pub recipient : String
  pub reference : Option String

pub record CreateRecipientInput : Type 0 where
  pub kind : String
  pub name : String
  pub account_number : String
  pub bank_code : String
  pub currency : String

pub record VerifyAccountInput : Type 0 where
  pub account_number : String
  pub bank_code : String

abbrev pub fields_of : Body → Option Fields
fields_of (object fields) = some fields
fields_of _ = none

unfoldable pub initiate_transfer_schema : Body → Option InitiateTransferInput
initiate_transfer_schema body = do
  fields ← fields_of body
  source ← non_empty (read "source" fields)
  reason ← optional (read "reason" fields)
  amount ← positive (read "amount" fields)
  recipient ← non_empty (read "recipient" fields)
  reference ← optional (read "reference" fields)
  some (record {
    source = source;
    reason = reason;
    amount = amount;
    recipient = recipient;
    reference = reference;
  })

unfoldable pub create_recipient_schema : Body → Option CreateRecipientInput
create_recipient_schema body = do
  fields ← fields_of body
  kind ← non_empty (read "type" fields)
  name ← non_empty (read "name" fields)
  account_number ← non_empty (read "account_number" fields)
  bank_code ← non_empty (read "bank_code" fields)
  currency ← non_empty (read "currency" fields)
  some (record {
    kind = kind;
    name = name;
    account_number = account_number;
    bank_code = bank_code;
    currency = currency;
  })

unfoldable pub verify_account_schema : Body → Option VerifyAccountInput
verify_account_schema body = do
  fields ← fields_of body
  account_number ← non_empty (read "accountNumber" fields)
  bank_code ← non_empty (read "bankCode" fields)
  some (record { account_number = account_number; bank_code = bank_code })

unfoldable pub transfer_status_schema : Body → Option String
transfer_status_schema body = do fields ← fields_of body; non_empty (read "reference" fields)
