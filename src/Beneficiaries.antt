-- ===== src/Beneficiaries.antt =====
-- Dechat/dex_with_fiat_frontend/src/hooks/useBeneficiaries.ts: the user's list of bank accounts. The
-- state of the hook and the item in `localStorage` are one record; generated ids and `Date.now()` are
-- arguments, and JSON is a parameter. A fetch runs up to its await; its end is a later step.
pub mod Reload
pub mod Lookup
pub mod Keyboard
pub mod Sharing
mod Tests
use stellar_dex_chat.Common.{
  ℕ, zero, suc, ◌+◌, ◌-◌, String, Bool, true, false, not, ◌&&◌, Option, none, some, List, [], ◌∷◌,
  ◌++◌, ltb, map, filter, length, if◌then◌else◌, str_eq, get, put, delete, is_some,
}
use Prim.Native.String

pub record Beneficiary : Type 0 where
  pub id : String
  pub name : String
  pub bank_id : ℕ
  pub bank_name : String
  pub bank_code : String
  pub account_number : String
  pub account_name : String
  pub created_at : ℕ

-- `selected_index` is absent where it is -1, `stored` is the item of `STORAGE_KEY`.
pub record Hook : Type 0 where
  pub beneficiaries : List Beneficiary
  pub is_loaded : Bool
  pub selected_index : Option ℕ
  pub stored : Option String

-- What a new page has, with what the browser still keeps.
abbrev pub first_render : Option String → Hook
first_render item = record {
  beneficiaries = [];
  is_loaded = false;
  selected_index = none;
  stored = item;
}

-- `JSON.parse` fails, gives something that is no array, or an array.
pub data Parsed : Type 0 where
  throws no_array : Parsed
  array : List Beneficiary → Parsed

abbrev pub set_parsed : Parsed → Hook → Hook
set_parsed throws s = record s { beneficiaries = [] }
set_parsed no_array s = record s { beneficiaries = [] }
set_parsed (array bs) s = record s { beneficiaries = bs }

module _ (parse : String → Parsed) where
  -- The body of `try`, whose `if (stored)` asks for an item that is not the empty text.
  abbrev pub load_item : Option String → Hook → Hook
  load_item none s = s
  load_item (some text) s = if str_eq text "" then s else set_parsed (parse text) s

  -- The effect that reads the storage, with what the access to it gives: it may fail.
  unfoldable pub load_effect : Bool → Hook → Hook
  load_effect works s =
      record (if works then load_item s.stored s else record s { beneficiaries = [] }) {
        is_loaded = true;
      }

-- The effect that writes the storage, after a render that changed the list or the flag.
unfoldable pub save_effect : (List Beneficiary → String) → Bool → Hook → Hook
save_effect stringify works s =
    if s.is_loaded && works then record s { stored = some (stringify s.beneficiaries) } else s

-- What the request for the list ends with: it fails, its status is no success, or its body is or is not
-- an array.
pub data Response : Type 0 where
  fails : Response
  not_ok : ℕ → Response
  body : Option (List Beneficiary) → Response

unfoldable pub fetched_list : Response → List Beneficiary
fetched_list fails = []
fetched_list (not_ok status) = []
fetched_list (body none) = []
fetched_list (body (some bs)) = bs

-- The effect that fetches, after its await; `wanted` is `!cancelled && isMountedRef.current`.
unfoldable pub fetch_ends : Bool → Response → Hook → Hook
unfolding fetched_list
fetch_ends wanted r s =
    if wanted then record s { beneficiaries = fetched_list r; is_loaded = true } else s

-- `customName || accountName`
abbrev pub name_or : Option String → String → String
name_or none account_name = account_name
name_or (some custom) account_name = if str_eq custom "" then account_name else custom

-- The arguments of `addBeneficiary`.
pub record Account : Type 0 where
  pub bank_id : ℕ
  pub bank_name : String
  pub bank_code : String
  pub account_number : String
  pub account_name : String
  pub custom_name : Option String

unfoldable pub new_beneficiary : String → ℕ → Account → Beneficiary
new_beneficiary id now a = record {
  id = id;
  name = name_or a.custom_name a.account_name;
  bank_id = a.bank_id;
  bank_name = a.bank_name;
  bank_code = a.bank_code;
  account_number = a.account_number;
  account_name = a.account_name;
  created_at = now;
}

unfoldable pub add_beneficiary : String → ℕ → Account → Hook → Hook
add_beneficiary id now a s = record s {
  beneficiaries = s.beneficiaries ++ new_beneficiary id now a ∷ [];
}

abbrev pub rename_if : String → String → Beneficiary → Beneficiary
rename_if id new_name b = if str_eq b.id id then record b { name = new_name } else b

unfoldable pub rename_beneficiary : String → String → Hook → Hook
rename_beneficiary id new_name s = record s {
  beneficiaries = map (rename_if id new_name) s.beneficiaries;
}

unfoldable pub delete_beneficiary : String → Hook → Hook
delete_beneficiary id s = record s {
  beneficiaries = filter (λ b. not (str_eq b.id id)) s.beneficiaries;
}

-- `beneficiaries.find((b) => b.id === id)`
abbrev pub find_id : String → List Beneficiary → Option Beneficiary
find_id id [] = none
find_id id (b ∷ bs) = if str_eq b.id id then some b else find_id id bs

unfoldable pub get_beneficiary : String → Hook → Option Beneficiary
get_beneficiary id s = find_id id s.beneficiaries

-- `beneficiaries[index]`
abbrev pub at : ℕ → List Beneficiary → Option Beneficiary
at n [] = none
at zero (b ∷ bs) = some b
at (suc n) (b ∷ bs) = at n bs

pub record KeyboardEvent : Type 0 where
  pub ctrl_key : Bool
  pub shift_key : Bool
  pub key : String

pub data Shortcut : Type 0 where
  add focus navigate_up navigate_down select deletes : Shortcut

abbrev pub delete_at : Option Beneficiary → Hook → Hook
delete_at none s = s
delete_at (some b) s = delete_beneficiary b.id s

-- The keys that need no selection but `ArrowDown`, whose `selectedIndex` may be -1: the next index and
-- whether it is below the length.
abbrev pub next_index : Option ℕ → ℕ
next_index none = 0
next_index (some n) = n + 1

unfoldable pub selected_key : String → Hook → Hook × Option Shortcut
unfolding delete_beneficiary
selected_key key s = elim s.selected_index [
  | none ↦ (s, none)
  | some n ↦
      if str_eq key "Enter"
      then (s, some select)
      else if str_eq key "Delete"
      then (delete_at (at n s.beneficiaries) s, some deletes)
      else (s, none)
]

unfoldable pub down_key : String → Hook → Hook × Option Shortcut
unfolding selected_key
down_key key s =
    if str_eq key "ArrowDown" && ltb (next_index s.selected_index) (length s.beneficiaries)
    then (record s { selected_index = some (next_index s.selected_index) }, some navigate_down)
    else selected_key key s

unfoldable pub arrow_key : String → Hook → Hook × Option Shortcut
unfolding down_key
arrow_key key s = elim s.selected_index [
  | none ↦ down_key key s
  | some n ↦
      if str_eq key "ArrowUp" && ltb 0 n
      then (record s { selected_index = some (n - 1) }, some navigate_up)
      else down_key key s
]

-- The state after the key, and the shortcut that is answered, or `null`.
unfoldable pub handle_keyboard_shortcut : KeyboardEvent → Hook → Hook × Option Shortcut
unfolding arrow_key
handle_keyboard_shortcut e s =
    if e.ctrl_key && not e.shift_key && str_eq e.key "b"
    then (s, some add)
    else if e.ctrl_key && e.shift_key && str_eq e.key "B"
    then (s, some focus)
    else arrow_key e.key s

unfoldable pub select_beneficiary : ℕ → Hook → Hook
select_beneficiary index s = record s { selected_index = some index }

unfoldable pub clear_selection : Hook → Hook
clear_selection s = record s { selected_index = none }

-- The edits of the list that the pages make.
pub data Edit : Type 0 where
  adds : String → ℕ → Account → Edit
  renames : String → String → Edit
  removes : String → Edit

unfoldable pub perform : Edit → Hook → Hook
perform (adds id now a) s = add_beneficiary id now a s
perform (renames id new_name) s = rename_beneficiary id new_name s
perform (removes id) s = delete_beneficiary id s

unfoldable pub perform_all : List Edit → Hook → Hook
perform_all [] s = s
perform_all (e ∷ es) s = perform_all es (perform e s)

-- A promise is a number; `started` are the requests that were begun.
pub record Deduplicator : Type 0 where
  pub in_flight_requests : List (String × ℕ)
  pub started : List (String × ℕ)

-- `fetch`, with the promise that a new request has, and the promise that is returned.
unfoldable pub fetch : String → ℕ → Deduplicator → Deduplicator × ℕ
fetch key promise d = elim (get key d.in_flight_requests) [
  | some shared ↦ (d, shared)
  | none ↦ (
    record d {
      in_flight_requests = put key promise d.in_flight_requests;
      started = d.started ++ (key, promise) ∷ [];
    },
    promise,
  )
]

-- The `finally` of the request for the key.
unfoldable pub settle : String → Deduplicator → Deduplicator
settle key d = record d { in_flight_requests = delete key d.in_flight_requests }
