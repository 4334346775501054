-- ===== src/Beneficiaries/Lookup.antt =====
-- useBeneficiaries.ts: the list against a table from ids to beneficiaries.
use stellar_dex_chat.Common.{
  ◌≡◌, ◌∙◌, refl, sym, ap, String, true, false, not, Option, none, some, List, [], ◌∷◌, ◌++◌, map,
  filter, arith, inl, inr, if◌then◌else◌, str_eq, eq_iff, Bool-cases,
}
use stellar_dex_chat.Beneficiaries.{
  Beneficiary, Hook, Edit, adds, renames, removes, new_beneficiary, add_beneficiary, rename_if,
  rename_beneficiary, delete_beneficiary, find_id, get_beneficiary, perform, perform_all,
}

-- What is known of each id.
abbrev pub Table : Type 0
Table = String → Option Beneficiary

abbrev pub or_new : Option Beneficiary → Option Beneficiary → Option Beneficiary
or_new none new = new
or_new (some b) new = some b

abbrev pub renamed : String → Option Beneficiary → Option Beneficiary
renamed new_name none = none
renamed new_name (some b) = some (record b { name = new_name })

-- The edits on a table: the first account added under an id stays.
abbrev pub replay : Edit → Table → Table
replay (adds id now a) t k =
    if str_eq id k then or_new (t k) (some (new_beneficiary id now a)) else t k
replay (renames id new_name) t k = if str_eq id k then renamed new_name (t k) else t k
replay (removes id) t k = if str_eq id k then none else t k

unfoldable pub replay_all : List Edit → Table → Table
replay_all [] t = t
replay_all (e ∷ es) t = replay_all es (replay e t)

str_eq-agree : (a b c : String) → str_eq a b ≡ true → str_eq a c ≡ str_eq b c
str_eq-agree a b c e = ap (λ x. str_eq x c) ((eq_iff a b).0 e)

str_eq-differ : (a b c : String) → str_eq a b ≡ false → str_eq a c ≡ true → str_eq b c ≡ false
str_eq-differ a b c e h = elim (Bool-cases (str_eq b c)) [
  | inl g ↦ ground (arith, e, (eq_iff a b).1 ((eq_iff a c).0 h ∙ sym ((eq_iff b c).0 g)))
  | inr g ↦ g
]

find_id-append_one :
    (k : String) (bs : List Beneficiary) (b : Beneficiary)
    → find_id k (bs ++ b ∷ [])
      ≡ (if str_eq b.id k then or_new (find_id k bs) (some b) else find_id k bs)
find_id-append_one k [] b = refl
find_id-append_one k (c ∷ bs) b = ground (arith, find_id-append_one k bs b)

find_id-rename :
    (id new_name k : String) (bs : List Beneficiary)
    → find_id k (map (rename_if id new_name) bs)
      ≡ (if str_eq id k then renamed new_name (find_id k bs) else find_id k bs)
find_id-rename id new_name k [] = ground arith
find_id-rename id new_name k (b ∷ bs) =
    let rest = find_id-rename id new_name k bs in
    elim (Bool-cases (str_eq b.id id)) [
      | inl e ↦ ground (arith, rest, e, str_eq-agree b.id id k e)
      | inr e ↦ elim (Bool-cases (str_eq b.id k)) [
        | inl h ↦ ground (arith, rest, e, h, str_eq-differ b.id id k e h)
        | inr h ↦ ground (arith, rest, e, h)
      ]
    ]

find_id-delete :
    (id k : String) (bs : List Beneficiary)
    → find_id k (filter (λ b. not (str_eq b.id id)) bs)
      ≡ (if str_eq id k then none else find_id k bs)
find_id-delete id k [] = ground arith
find_id-delete id k (b ∷ bs) =
    let rest = find_id-delete id k bs in
    elim (Bool-cases (str_eq b.id id)) [
      | inl e ↦ ground (arith, rest, e, str_eq-agree b.id id k e)
      | inr e ↦ elim (Bool-cases (str_eq b.id k)) [
        | inl h ↦ ground (arith, rest, e, h, str_eq-differ b.id id k e h)
        | inr h ↦ ground (arith, rest, e, h)
      ]
    ]

get_beneficiary-perform :
    (e : Edit) (s : Hook) (k : String)
    → get_beneficiary k (perform e s) ≡ replay e (λ i. get_beneficiary i s) k
unfolding get_beneficiary perform add_beneficiary rename_beneficiary delete_beneficiary
    new_beneficiary
get_beneficiary-perform (adds id now a) s k =
    find_id-append_one k s.beneficiaries (new_beneficiary id now a)
get_beneficiary-perform (renames id new_name) s k = find_id-rename id new_name k s.beneficiaries
get_beneficiary-perform (removes id) s k = find_id-delete id k s.beneficiaries

replay-same :
    (e : Edit) (t u : Table)
    → ((k : String) → t k ≡ u k)
    → (k : String) → replay e t k ≡ replay e u k
replay-same (adds id now a) t u h k = rw (h k) refl
replay-same (renames id new_name) t u h k = rw (h k) refl
replay-same (removes id) t u h k = rw (h k) refl

replay_all-same :
    (es : List Edit) (t u : Table)
    → ((k : String) → t k ≡ u k)
    → (k : String) → replay_all es t k ≡ replay_all es u k
unfolding replay_all
replay_all-same [] t u h k = h k
replay_all-same (e ∷ es) t u h k =
    replay_all-same es (replay e t) (replay e u) (replay-same e t u h) k

-- After any edits of the list, what is found under an id is what the table has, to which the same edits
-- were made: the first account added under the id since it was last removed, with the last name that
-- it was given. Nothing is assumed of the ids, which may occur several times.
pub get_beneficiary-perform_all :
    (es : List Edit) (s : Hook) (k : String)
    → get_beneficiary k (perform_all es s) ≡ replay_all es (λ i. get_beneficiary i s) k
unfolding perform_all replay_all
get_beneficiary-perform_all [] s k = refl
get_beneficiary-perform_all (e ∷ es) s k =
    get_beneficiary-perform_all es (perform e s) k
    ∙ replay_all-same es _ _ (get_beneficiary-perform e s) k
