-- ===== src/Beneficiaries/Tests.antt =====
-- useBeneficiaries.ts: runs at concrete inputs. A list is written as one letter for each beneficiary
-- between bars, and read back from a table of the lists that occur.
use stellar_dex_chat.Common.{
  ◌≡◌, refl, String, true, none, some, List, [], ◌∷◌, if◌then◌else◌, str_eq, eq_iff, arith,
}
use stellar_dex_chat.Beneficiaries.{
  Beneficiary, Hook, Parsed, array, load_effect, save_effect, Account, Edit, adds, renames, removes,
  first_render, new_beneficiary, add_beneficiary, rename_beneficiary, delete_beneficiary,
  get_beneficiary, perform, perform_all,
}
use stellar_dex_chat.Beneficiaries.Lookup.{replay_all, get_beneficiary-perform_all}
use stellar_dex_chat.Beneficiaries.Reload.{mount, edit_all, mount-edit_all}

abbrev account : String → Account
account name = record {
  bank_id = 1;
  bank_name = "Bank";
  bank_code = "001";
  account_number = "0123456789";
  account_name = name;
  custom_name = none;
}

abbrev edits : List Edit
edits =
    adds "a" 1 (account "Ada")
    ∷ adds "b" 2 (account "Ben")
    ∷ renames "a" "Mother"
    ∷ removes "b"
    ∷ []

abbrev mother : Beneficiary
mother = record {
  id = "a";
  name = "Mother";
  bank_id = 1;
  bank_name = "Bank";
  bank_code = "001";
  account_number = "0123456789";
  account_name = "Ada";
  created_at = 1;
}

abbrev page : Hook
page = perform_all edits (first_render none)

page_run : page.beneficiaries ≡ mother ∷ []
unfolding perform_all perform add_beneficiary rename_beneficiary delete_beneficiary new_beneficiary
page_run = refl

get_beneficiary-perform_all_example :
    get_beneficiary "a" page ≡ replay_all edits (λ i. get_beneficiary i (first_render none)) "a"
get_beneficiary-perform_all_example = get_beneficiary-perform_all edits (first_render none) "a"

abbrev stringify : List Beneficiary → String
stringify [] = "[]"
stringify (b ∷ bs) = "[a]"

abbrev parse : String → Parsed
parse text = if str_eq text "[]" then array [] else array (mother ∷ [])

abbrev other_page : Hook
other_page = record {
  beneficiaries = mother ∷ [];
  is_loaded = true;
  selected_index = none;
  stored = some "[a]";
}

mount-edit_all_example :
    (mount stringify parse other_page.stored).beneficiaries ≡ other_page.beneficiaries
mount-edit_all_example =
    mount-edit_all stringify parse none edits other_page
      (unfold edit_all perform add_beneficiary rename_beneficiary delete_beneficiary new_beneficiary
          load_effect save_effect in
        refl)
      refl (λ e. ground (arith, (eq_iff "[a]" "").1 e))
