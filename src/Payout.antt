-- ===== src/Payout.antt =====
-- Dechat/dex_with_fiat_frontend/src/lib/payout/providers: the choice of the payout provider, and the
-- one that calls Paystack. A call ends where the provider awaits the network; the reply, random
-- codes and the time are arguments. The key and the name of the provider are the environment's.
use stellar_dex_chat.Common.{
  ℕ, ◌*◌, String, Bool, true, false, Option, none, some, [], ◌∷◌, if◌then◌else◌, str_eq,
}
use stellar_dex_chat.ApiSchemas.{
  Field, Fields, read, string, number, other_value, InitiateTransferInput, CreateRecipientInput,
  VerifyAccountInput,
}
use Prim.Native.String
use stellar_dex_chat.Webhook.{or_else}

-- The random codes and times that a call makes up.
pub record Generated : Type 0 where
  pub reference : String
  pub code : String
  pub id : ℕ
  pub now : String

-- What a method of the provider does before it waits: it has its answer, or it asks Paystack at an
-- address, with a body if it posts.
pub data Call : Type 0 where
  mocked : Fields → Call
  requested : String → Option Fields → Call

-- The JSON that Paystack answers with.
pub record Answered : Type 0 where
  pub status : Bool
  pub result : Option Fields
  pub message : Option String

-- A request that fails has a status and a body only where an answer came.
pub data Reply : Type 0 where
  answered : Answered → Reply
  rejected : ℕ → Option String → Reply
  unreachable : Reply

-- What a method throws: an error of its own, or that of the request.
pub data Failure : Type 0 where
  plain : String → Failure
  http : ℕ → Option String → Failure

pub data Outcome : Type 0 where
  returned : Fields → Outcome
  thrown : Failure → Outcome

-- `!PAYSTACK_SECRET_KEY`
abbrev pub has_no_key : Option String → Bool
has_no_key none = true
has_no_key (some k) = str_eq k ""

unfoldable pub initiate_transfer : Option String → Generated → InitiateTransferInput → Call
initiate_transfer key g input =
    if has_no_key key
    then mocked (
        ("reference", string (or_else input.reference g.reference))
        ∷ ("integration", number 123456)
        ∷ ("domain", string "test")
        ∷ ("amount", number input.amount)
        ∷ ("currency", string "NGN")
        ∷ ("source", string input.source)
        ∷ ("reason", string (or_else input.reason "Crypto withdrawal"))
        ∷ ("recipient", string input.recipient)
        ∷ ("status", string "pending")
        ∷ ("transfer_code", string (String.◌++◌ "TRF_" g.code))
        ∷ ("id", number g.id)
        ∷ ("createdAt", string g.now)
        ∷ ("updatedAt", string g.now)
        ∷ [])
    else requested "https://api.paystack.co/transfer" (
        some (
          ("source", string input.source)
          ∷ ("amount", number (input.amount * 100))
          ∷ ("recipient", string input.recipient)
          ∷ ("reason", string (or_else input.reason "Crypto withdrawal"))
          ∷ ("reference", string (or_else input.reference g.reference))
          ∷ []))

-- The bank details inside the mock recipient are one value of another shape.
unfoldable pub create_recipient : Option String → Generated → CreateRecipientInput → Call
create_recipient key g input =
    if has_no_key key
    then mocked (
        ("active", other_value)
        ∷ ("createdAt", string g.now)
        ∷ ("currency", string input.currency)
        ∷ ("domain", string "test")
        ∷ ("id", number g.id)
        ∷ ("integration", number 123456)
        ∷ ("name", string input.name)
        ∷ ("recipient_code", string (String.◌++◌ "RCP_" g.code))
        ∷ ("type", string input.kind)
        ∷ ("updatedAt", string g.now)
        ∷ ("is_deleted", other_value)
        ∷ ("details", other_value)
        ∷ [])
    else requested "https://api.paystack.co/transferrecipient" (
        some (
          ("type", string input.kind)
          ∷ ("name", string input.name)
          ∷ ("account_number", string input.account_number)
          ∷ ("bank_code", string input.bank_code)
          ∷ ("currency", string input.currency)
          ∷ []))

-- `Number.parseInt(bankCode, 10)` is a parameter: not a number for some texts.
unfoldable pub verify_account : Option String → (String → Field) → VerifyAccountInput → Call
verify_account key parse_int input =
    if has_no_key key
    then mocked (
        ("account_number", string input.account_number)
        ∷ ("account_name", string "John Doe")
        ∷ ("bank_id", parse_int input.bank_code)
        ∷ [])
    else requested
        (String.◌++◌ "https://api.paystack.co/bank/resolve?account_number="
          (String.◌++◌ input.account_number (String.◌++◌ "&bank_code=" input.bank_code)))
        none

unfoldable pub check_transfer_status : Option String → String → Call
check_transfer_status key reference =
    if has_no_key key
    then mocked (
        ("status", other_value)
        ∷ ("message", string "Transfer status retrieved (mock)")
        ∷ ("data", other_value)
        ∷ [])
    else requested (String.◌++◌ "https://api.paystack.co/transfer/verify/" reference) none

-- `if (response.data?.status && response.data?.data) return response.data.data;` and the throw after
-- it, with the method's own message where the answer has none.
abbrev pub data_of : Bool → Option Fields → Option Fields
data_of true result = result
data_of false result = none

unfoldable pub read_answer : String → Answered → Outcome
read_answer fallback a = elim (data_of a.status a.result) [
  | some fields ↦ returned fields
  | none ↦ thrown (plain (or_else a.message fallback))
]

unfoldable pub read_reply : String → Reply → Outcome
unfolding read_answer
read_reply fallback (answered a) = read_answer fallback a
read_reply fallback (rejected code m) = thrown (http code m)
read_reply fallback unreachable = thrown (plain "Network Error")

-- What the method ends with once the reply is there; a mock does not wait for one.
unfoldable pub result_of : String → Call → Reply → Outcome
unfolding read_reply
result_of fallback (mocked fields) reply = returned fields
result_of fallback (requested address sent) reply = read_reply fallback reply

-- `verifyAccount` answers with two fields of the reply, and the number of the bank.
abbrev pub account_of : Field → Outcome → Outcome
account_of bank_id (returned fields) = returned (
    ("account_number", read "account_number" fields)
    ∷ ("account_name", read "account_name" fields)
    ∷ ("bank_id", bank_id)
    ∷ [])
account_of bank_id (thrown failure) = thrown failure

unfoldable pub verification_result : Field → Call → Reply → Outcome
verification_result bank_id (mocked fields) reply = returned fields
verification_result bank_id (requested address sent) reply =
    account_of bank_id (read_reply "Account verification failed" reply)

-- `getPayoutProvider()`: whether the configured name is that of a provider; if not, it throws.
unfoldable pub is_supported : Option String → Bool
is_supported name = str_eq (or_else name "paystack") "paystack"
