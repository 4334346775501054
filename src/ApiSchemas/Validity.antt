-- ===== src/ApiSchemas/Validity.antt =====
-- apiSchemas.ts: which bodies the schema of a transfer accepts.
use stellar_dex_chat.Common.{
  ℕ, ◌≤◌, ◌≡◌, ◌≢◌, ◌↔◌, refl, sym, ap, subst, String, Option, none, some, arith, eq_iff,
  some_injective, ◌>>=◌,
}
use stellar_dex_chat.ApiSchemas.{
  Field, Fields, Body, object, string, number, undefined, other_value, malformed, no_object, read,
  non_empty, optional, positive, given, InitiateTransferInput, initiate_transfer_schema,
}

non_empty_iff : (f : Field) (s : String) → (non_empty f ≡ some s) ↔ ((f ≡ string s) × (s ≢ ""))
non_empty_iff undefined s = (λ e. ground arith, λ h. ground arith)
non_empty_iff other_value s = (λ e. ground arith, λ h. ground arith)
non_empty_iff (number n) s = (λ e. ground arith, λ h. ground arith)
non_empty_iff (string t) s = (λ e. ground (arith, eq_iff t ""), λ h. ground (arith, eq_iff t ""))

optional_iff : (f : Field) (s : Option String) → (optional f ≡ some s) ↔ (f ≡ given s)
optional_iff undefined none = (λ e. refl, λ e. refl)
optional_iff undefined (some t) = (λ e. ground arith, λ e. ground arith)
optional_iff other_value none = (λ e. ground arith, λ e. ground arith)
optional_iff other_value (some t) = (λ e. ground arith, λ e. ground arith)
optional_iff (number n) none = (λ e. ground arith, λ e. ground arith)
optional_iff (number n) (some t) = (λ e. ground arith, λ e. ground arith)
optional_iff (string t) none = (λ e. ground arith, λ e. ground arith)
optional_iff (string t) (some u) = (λ e. ground arith, λ e. ground arith)

positive_iff : (f : Field) (n : ℕ) → (positive f ≡ some n) ↔ ((f ≡ number n) × (1 ≤ n))
positive_iff undefined n = (λ e. ground arith, λ h. ground arith)
positive_iff other_value n = (λ e. ground arith, λ h. ground arith)
positive_iff (number m) n = (λ e. ground arith, λ h. ground arith)
positive_iff (string t) n = (λ e. ground arith, λ h. ground arith)

-- The fields hold the transfer: its source and its recipient are texts that are not empty, its amount
-- is a positive number, and its reason and its reference are texts or missing.
abbrev pub Holds : Fields → InitiateTransferInput → Type 0
Holds fields input =
    (read "source" fields ≡ string input.source)
    × (input.source ≢ "")
    × (read "reason" fields ≡ given input.reason)
    × (read "amount" fields ≡ number input.amount)
    × (1 ≤ input.amount)
    × (read "recipient" fields ≡ string input.recipient)
    × (input.recipient ≢ "")
    × (read "reference" fields ≡ given input.reference)

abbrev pub IsTransfer : Body → InitiateTransferInput → Type 0
IsTransfer body input = (fields : Fields) × (body ≡ object fields) × Holds fields input

abbrev assemble :
    Option String
    → Option (Option String)
    → Option ℕ
    → Option String
    → Option (Option String)
    → Option InitiateTransferInput
assemble source reason amount recipient reference = do
  source ← source
  reason ← reason
  amount ← amount
  recipient ← recipient
  reference ← reference
  some (record {
    source = source;
    reason = reason;
    amount = amount;
    recipient = recipient;
    reference = reference;
  })

assemble_iff :
    (source : Option String) (reason : Option (Option String)) (amount : Option ℕ)
    (recipient : Option String) (reference : Option (Option String)) (input : InitiateTransferInput)
    → (assemble source reason amount recipient reference ≡ some input) ↔ (
        (source ≡ some input.source)
        × (reason ≡ some input.reason)
        × (amount ≡ some input.amount)
        × (recipient ≡ some input.recipient)
        × (reference ≡ some input.reference))
assemble_iff none r a d f input = (λ e. ground arith, λ h. ground arith)
assemble_iff (some s) none a d f input = (λ e. ground arith, λ h. ground arith)
assemble_iff (some s) (some r) none d f input = (λ e. ground arith, λ h. ground arith)
assemble_iff (some s) (some r) (some a) none f input = (λ e. ground arith, λ h. ground arith)
assemble_iff (some s) (some r) (some a) (some d) none input = (λ e. ground arith, λ h. ground arith)
assemble_iff (some s) (some r) (some a) (some d) (some f) input = (
  λ e.
      let same = some_injective e in
      (
        ap (λ i. some i.source) same,
        ap (λ i. some i.reason) same,
        ap (λ i. some i.amount) same,
        ap (λ i. some i.recipient) same,
        ap (λ i. some i.reference) same,
      ),
  λ (p, q, u, v, w). cc,
)

object_injective : {fs gs : Fields} → object fs ≡ object gs → fs ≡ gs
object_injective e = cc

initiate_transfer_schema-Holds :
    (fields : Fields) (input : InitiateTransferInput)
    → (initiate_transfer_schema (object fields) ≡ some input) ↔ Holds fields input
unfolding initiate_transfer_schema
initiate_transfer_schema-Holds fields input =
    let parts =
      assemble_iff (non_empty (read "source" fields)) (optional (read "reason" fields))
        (positive (read "amount" fields)) (non_empty (read "recipient" fields))
        (optional (read "reference" fields)) input in
    let source = non_empty_iff (read "source" fields) input.source in
    let reason = optional_iff (read "reason" fields) input.reason in
    let amount = positive_iff (read "amount" fields) input.amount in
    let recipient = non_empty_iff (read "recipient" fields) input.recipient in
    let reference = optional_iff (read "reference" fields) input.reference in
    (
      λ e.
          let (p, q, u, v, w) = parts.0 e in
          let (is_source, named) = source.0 p in
          let (is_amount, some_amount) = amount.0 u in
          let (is_recipient, known) = recipient.0 v in
          (
            is_source,
            named,
            reason.0 q,
            is_amount,
            some_amount,
            is_recipient,
            known,
            reference.0 w,
          ),
      λ (is_source, named, is_reason, is_amount, some_amount, is_recipient, known, is_reference).
          parts.1 (
            source.1 (is_source, named),
            reason.1 is_reason,
            amount.1 (is_amount, some_amount),
            recipient.1 (is_recipient, known),
            reference.1 is_reference,
          ),
    )

-- The schema reads a transfer out of a body exactly if the body is an object that holds it.
pub initiate_transfer_schema_iff :
    (body : Body) (input : InitiateTransferInput)
    → (initiate_transfer_schema body ≡ some input) ↔ IsTransfer body input
unfolding initiate_transfer_schema
initiate_transfer_schema_iff malformed input = (λ e. ground arith, λ (fields, e, h). ground arith)
initiate_transfer_schema_iff no_object input = (λ e. ground arith, λ (fields, e, h). ground arith)
initiate_transfer_schema_iff (object fields) input = (
  λ e. (fields, refl, (initiate_transfer_schema-Holds fields input).0 e),
  λ (fields', same, h).
      (initiate_transfer_schema-Holds fields input).1
        (subst (λ f. Holds f input) (sym (object_injective same)) h),
)
