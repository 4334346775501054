-- ===== src/SensitiveTerms.antt =====
-- Dechat/dex_with_fiat_frontend/src/lib/sensitiveTerms.ts: the terms that are masked, and where a text
-- holds them. A text is the list of its UTF-16 code units. `toLowerCase`, and the form in which the
-- flag `i` compares characters, are parameters. The loops that collect matches run on fuel; nothing is
-- returned where it runs out.
pub mod Loop
pub mod Matches
pub mod Collecting
pub mod Empty
pub mod Tests
use stellar_dex_chat.Common.{
  ℕ, zero, suc, ◌+◌, ◌-◌, Bool, true, false, not, ◌&&◌, ◌||◌, Option, none, some, List, [], ◌∷◌,
  ◌++◌, map, any, drop, take, leb, ltb, ◌==◌, if◌then◌else◌, length, is_some, ◌>>=◌,
}
use stellar_dex_chat.Common.Text.{codes, same, starts_with, includes}
use stellar_dex_chat.Stroops.{Text}

pub data Category : Type 0 where
  profanity sensitive offensive custom : Category

pub record SensitiveTermConfig : Type 0 where
  pub term : Text
  pub category : Category
  pub case_sensitive : Bool
  pub whole_word_only : Bool

-- The map of the terms, in the order in which their keys were first set.
abbrev pub Terms : Type 0
Terms = List (Text × SensitiveTermConfig)

abbrev word : Bool → Category → Text → SensitiveTermConfig
word whole category term = record {
  term = term;
  category = category;
  case_sensitive = false;
  whole_word_only = whole;
}

abbrev pub default_sensitive_terms : List SensitiveTermConfig
default_sensitive_terms =
    word true profanity (codes "damn")
    ∷ word true profanity (codes "hell")
    ∷ word true profanity (codes "crap")
    ∷ word false profanity (codes "ass")
    ∷ word true profanity (codes "piss")
    ∷ word true offensive (codes "stupid")
    ∷ word true offensive (codes "idiot")
    ∷ word true offensive (codes "dumb")
    ∷ word true sensitive (codes "sucks")
    ∷ word true sensitive (codes "hate")
    ∷ word true sensitive (codes "kill")
    ∷ []

-- `terms.set(key, term)` and `terms.delete(key)`
unfoldable pub set_term : Text → SensitiveTermConfig → Terms → Terms
set_term key c [] = (key, c) ∷ []
set_term key c ((k, d) ∷ ts) = if same k key then (k, c) ∷ ts else (k, d) ∷ set_term key c ts

unfoldable pub delete_term : Text → Terms → Terms
delete_term key [] = []
delete_term key ((k, d) ∷ ts) = if same k key then ts else (k, d) ∷ delete_term key ts

-- `text.substring(start, end)`, for a start that is not past the end.
abbrev pub substring : ℕ → ℕ → Text → Text
substring start end text = take (end - start) (drop start text)

-- `\w`
abbrev pub is_word : ℕ → Bool
is_word c =
    (leb b'a' c && leb c b'z')
    || (leb b'A' c && leb c b'Z')
    || (leb b'0' c && leb c b'9')
    || c == b'_'

abbrev pub word_first : Text → Bool
word_first [] = false
word_first (c ∷ cs) = is_word c

-- `\b` at a position.
abbrev pub differ : Bool → Bool → Bool
differ true b = not b
differ false b = b

abbrev pub is_boundary : Text → ℕ → Bool
is_boundary text zero = word_first text
is_boundary text (suc n) = differ (word_first (drop n text)) (word_first (drop (suc n) text))

-- The text begins with the term, compared by the form of each character.
abbrev pub agrees : (ℕ → ℕ) → Text → Text → Bool
agrees form text [] = true
agrees form [] (k ∷ ks) = false
agrees form (c ∷ cs) (k ∷ ks) = (form c == form k) && agrees form cs ks

-- The expression `\bterm\b` at a position; the term's own characters are escaped.
abbrev pub is_whole_word : (ℕ → ℕ) → Text → Text → ℕ → Bool
is_whole_word form text term i =
    is_boundary text i && agrees form (drop i text) term && is_boundary text (i + length term)

abbrev pub is_here : Text → Text → ℕ → Bool
is_here text term i = starts_with (drop i text) term

-- The first of the positions from a start on, as many as are left and one more, that passes the test.
unfoldable pub first_from : (ℕ → Bool) → ℕ → ℕ → Option ℕ
first_from test start zero = if test start then some start else none
first_from test start (suc left) =
    let rest = first_from test (suc start) left in if test start then some start else rest

abbrev pub is_found : (ℕ → Bool) → ℕ → Bool
is_found test end = is_some (first_from test 0 end)

abbrev pub add_first : Option ℕ → (ℕ → Option (List ℕ)) → Option (List ℕ)
add_first none rest = some []
add_first (some i) rest = do is ← rest i; some (i ∷ is)

-- The loop: the next search starts where the last match ends.
unfoldable pub find_all : (ℕ → Bool) → ℕ → ℕ → ℕ → ℕ → Option (List ℕ)
find_all test size end zero start = none
find_all test size end (suc fuel) start =
    add_first (first_from test start (end - start)) (λ i. find_all test size end fuel (i + size))

pub record Match : Type 0 where
  pub term : Text
  pub index : ℕ
  pub length_of : ℕ
  pub config : SensitiveTermConfig

abbrev pub to_match : Text → ℕ → SensitiveTermConfig → ℕ → Match
to_match text size config i = record {
  term = substring i (i + size) text;
  index = i;
  length_of = size;
  config = config;
}

-- `results.sort((a, b) => a.index - b.index)`, which keeps the order of equal indices.
unfoldable pub insert_match : Match → List Match → List Match
insert_match m [] = m ∷ []
insert_match m (n ∷ ns) =
    let rest = insert_match m ns in if leb m.index n.index then m ∷ n ∷ ns else n ∷ rest

unfoldable pub sort_matches : List Match → List Match
sort_matches [] = []
sort_matches (m ∷ ms) = insert_match m (sort_matches ms)

module _ (lower : Text → Text) (form : ℕ → ℕ) where
  abbrev pub key_of : Bool → Text → Text
  key_of case_sensitive term = if case_sensitive then term else lower term

  unfoldable pub add_terms : List SensitiveTermConfig → Terms → Terms
  add_terms [] ts = ts
  add_terms (c ∷ cs) ts = add_terms cs (set_term (key_of c.case_sensitive c.term) c ts)

  unfoldable pub remove_term : Text → Bool → Terms → Terms
  remove_term term case_sensitive ts = delete_term (key_of case_sensitive term) ts

  -- The constructor.
  unfoldable pub construct : List SensitiveTermConfig → Terms
  construct custom_terms = add_terms custom_terms (add_terms default_sensitive_terms [])

  abbrev pub search_text : SensitiveTermConfig → Text → Text
  search_text c text = key_of c.case_sensitive text

  abbrev pub search_term : Text → SensitiveTermConfig → Text
  search_term key c = if c.case_sensitive then c.term else key

  -- The form by which the flags of the expression compare.
  abbrev pub form_of : Bool → ℕ → ℕ
  form_of true c = c
  form_of false c = form c

  -- Where a term is found: a whole word, or any part of the text.
  abbrev pub test_of : Text → Text → SensitiveTermConfig → ℕ → Bool
  test_of text key c i =
      if c.whole_word_only
      then is_whole_word (form_of c.case_sensitive) (search_text c text) (search_term key c) i
      else is_here (search_text c text) (key_of c.case_sensitive (search_term key c)) i

  -- The loop, with one round for each character and one more.
  unfoldable pub find_matches : Text → Text → SensitiveTermConfig → Option (List Match)
  find_matches text key c = do
    let size = length (search_term key c)
    let end = length (search_text c text)
    is ← find_all (test_of text key c) size end (suc end) 0
    some (map (to_match text size c) is)

  unfoldable pub collect : Text → Terms → Option (List Match)
  collect text [] = some []
  collect text ((key, c) ∷ ts) = do
    ms ← find_matches text key c
    ns ← collect text ts
    some (ms ++ ns)

  unfoldable pub find_sensitive_terms : Text → Terms → Option (List Match)
  find_sensitive_terms text ts = do ms ← collect text ts; some (sort_matches ms)

  -- `matchesTerm`, whose expression always ignores the case.
  unfoldable pub matches_term : Text → Text → SensitiveTermConfig → Bool
  matches_term text key c =
      if c.whole_word_only
      then is_found (is_whole_word form (search_text c text) (search_term key c))
          (length (search_text c text))
      else includes (search_text c text) (search_term key c)

  unfoldable pub is_sensitive : Text → Terms → Bool
  is_sensitive text [] = false
  is_sensitive text ((key, c) ∷ ts) = matches_term text key c || is_sensitive text ts
