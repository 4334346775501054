-- ===== src/TextMasking/Masked.antt =====
-- textMasking.ts: what masking leaves of a text.
use stellar_dex_chat.Common.{
  ℕ, zero, suc, ◌+◌, ◌-◌, ◌≤◌, ◌<◌, ◌≡◌, ◌≢◌, ◌∙◌, refl, sym, ap, Bool, true, ◌&&◌, ◌||◌, Option,
  none, some, List, [], ◌∷◌, ◌++◌, take, drop, any, leb, ltb, length, length-append,
  length-replicate, length-take, length-drop, if◌then◌else◌, arith, inl, inr, ◌⊎◌, All, All-Memᴰ,
  Memᴰ, some_injective, Bool-cases,
}
use stellar_dex_chat.Stroops.{Text}
use stellar_dex_chat.SensitiveTerms.{Match, Terms, SensitiveTermConfig, test_of, search_text}
use stellar_dex_chat.SensitiveTerms.Matches.{inside, IsWithin, IsSearchable, Covers}
use stellar_dex_chat.SensitiveTerms.Collecting.{find_sensitive_terms_lem}
use stellar_dex_chat.TextMasking.{
  MaskingStyle, asterisk, block, initial, pipe, address, stars, last_four, generate_mask,
  mask_matches, mask_text,
}

abbrev pub char_at : Text → ℕ → Option ℕ
char_at [] j = none
char_at (c ∷ cs) zero = some c
char_at (c ∷ cs) (suc j) = char_at cs j

length-address :
    (term : Text)
    → 10 < length term
    → length (take 6 term ++ stars (length term - 10) ++ last_four term) ≡ length term
length-address term tall =
    length-append (take 6 term ++ stars (length term - 10)) (last_four term)
    ∙ omega (
      arith,
      length-append (take 6 term) (stars (length term - 10)),
      length-take 6 term,
      length-replicate {A = ℕ} (length term - 10) b'*',
      length-drop (length term - 4) term,
    )

-- A mask of any style but the one with bars is as long as its term.
length-generate_mask :
    (style : MaskingStyle) (term : Text)
    → style ≢ pipe
    → 1 ≤ length term
    → length (generate_mask term style) ≡ length term
unfolding generate_mask
length-generate_mask asterisk term other long = length-replicate (length term) _
length-generate_mask block term other long = length-replicate (length term) _
length-generate_mask initial [] other long = absurd (omega (arith, long))
length-generate_mask initial (c ∷ []) other long = refl
length-generate_mask initial (c ∷ d ∷ cs) other long =
    ap (λ k. suc (suc k)) (length-replicate (length cs) _)
length-generate_mask pipe term other long = absurd (other refl)
length-generate_mask address term other long = elim (Bool-cases (leb (length term) 10)) [
  | inl short ↦ rw short refl
  | inr tall ↦ rw tall (length-address term (ground arith))
]

length-match : (text : Text) (m : Match) → IsWithin text m → length m.term ≡ m.length_of
length-match text m (within, some_size, same) =
    ap length same
    ∙ length-take (m.index + m.length_of - m.index) (drop m.index text)
    ∙ omega (arith, length-drop m.index text)

-- Writing a mask over a part of the same length.
length-overwrite :
    (i n : ℕ) (mask r : Text)
    → i + n ≤ length r
    → length mask ≡ n
    → length (take i r ++ mask ++ drop (i + n) r) ≡ length r
length-overwrite i n mask r within same =
    length-append (take i r ++ mask) (drop (i + n) r)
    ∙ omega (arith, length-append (take i r) mask, length-take i r, length-drop (i + n) r)

inner_shift : (i j e : ℕ) → leb i j && ltb j e ≡ leb (suc i) (suc j) && ltb (suc j) (suc e)
inner_shift i j e = ground arith

inner_shift_zero : (j e : ℕ) → leb 0 j && ltb j e ≡ leb 0 (suc j) && ltb (suc j) (suc e)
inner_shift_zero j e = ground arith

char_at-overwrite :
    (i n j : ℕ) (r : Text)
    → i + n ≤ length r
    → char_at (take i r ++ stars n ++ drop (i + n) r) j
      ≡ (if leb i j && ltb j (i + n) then some b'*' else char_at r j)
char_at-overwrite zero zero j r within = let e : 0 + 0 ≡ 0 = refl in ground arith
char_at-overwrite zero (suc n) zero r within = ground arith
char_at-overwrite zero (suc n) (suc j) [] within = absurd (omega (arith, within))
char_at-overwrite zero (suc n) (suc j) (c ∷ r) within =
    let e : 0 + suc n ≡ suc (0 + n) = omega arith in
    rw e (
      char_at-overwrite zero n j r (omega (arith, within))
      ∙ ap (λ b. if b then some b'*' else char_at r j) (inner_shift_zero j (0 + n)))
char_at-overwrite (suc i) n zero [] within = absurd (omega (arith, within))
char_at-overwrite (suc i) n zero (c ∷ r) within = ground arith
char_at-overwrite (suc i) n (suc j) [] within = absurd (omega (arith, within))
char_at-overwrite (suc i) n (suc j) (c ∷ r) within =
    let e : suc i + n ≡ suc (i + n) = omega arith in
    rw e (
      char_at-overwrite i n j r (omega (arith, within))
      ∙ ap (λ b. if b then some b'*' else char_at r j) (inner_shift i j (i + n)))

-- One round of the loop, where as many characters were added as removed.
mask_matches_round :
    (style : MaskingStyle) (m : Match) (ms : List Match) (a : ℕ) (r : Text)
    → length (generate_mask m.term style) ≡ m.length_of
    → mask_matches style (m ∷ ms) a a r
      ≡ mask_matches style ms
          (a + m.length_of)
          (a + m.length_of)
          (take m.index r ++ generate_mask m.term style ++ drop (m.index + m.length_of) r)
unfolding mask_matches
mask_matches_round style m ms a r same =
    let from : m.index + a - a ≡ m.index = omega arith in
    let to : m.index + a + m.length_of - a ≡ m.index + m.length_of = omega arith in
    rw (from, to, same) refl

module _ (text : Text) (style : MaskingStyle) (plain : style ≢ pipe) where
  mask-length : (m : Match) → IsWithin text m → length (generate_mask m.term style) ≡ m.length_of
  mask-length m (within, some_size, same) =
      let long = length-match text m (within, some_size, same) in
      length-generate_mask style m.term plain (omega (arith, long, some_size)) ∙ long

  mask_matches-length :
      (ms : List Match) (a : ℕ) (r : Text)
      → All (IsWithin text) ms
      → length r ≡ length text
      → length (mask_matches style ms a a r) ≡ length text
  unfolding mask_matches
  mask_matches-length [] a r within same = same
  mask_matches-length (m ∷ ms) a r (w, ws) same =
      let fits = mask-length m w in
      let (inner, some_size, same_term) = w in
      let kept =
        length-overwrite m.index m.length_of (generate_mask m.term style) r
          (omega (arith, inner, same)) fits in
      ap length (mask_matches_round style m ms a r fits)
      ∙ mask_matches-length ms (a + m.length_of) _ ws (kept ∙ same)

either_star :
    (b c : Bool) (x : Option ℕ)
    → (if b then some b'*' else (if c then some b'*' else x)) ≡ (if c || b then some b'*' else x)
either_star b c x = ground arith

mask_matches-char_at :
    (text : Text) (ms : List Match) (a : ℕ) (r : Text) (j : ℕ)
    → All (IsWithin text) ms
    → length r ≡ length text
    → char_at (mask_matches asterisk ms a a r) j
      ≡ (if any (inside j) ms then some b'*' else char_at r j)
mask_matches-char_at text [] a r j within same = unfold mask_matches in refl
mask_matches-char_at text (m ∷ ms) a r j (w, ws) same =
    let (inner, some_size, same_term) = w in
    let fits = mask-length text asterisk (λ e. ground arith) m w in
    let star : generate_mask m.term asterisk ≡ stars m.length_of =
      unfold generate_mask in ap stars (length-match text m w) in
    let lies : m.index + m.length_of ≤ length r = omega (arith, inner, same) in
    let kept = length-overwrite m.index m.length_of (generate_mask m.term asterisk) r lies fits in
    ap (λ s. char_at s j) (mask_matches_round asterisk m ms a r fits)
    ∙ mask_matches-char_at text ms (a + m.length_of) _ j ws (kept ∙ same)
    ∙ ap
        (λ mask.
          if any (inside j) ms
          then some b'*'
          else char_at (take m.index r ++ mask ++ drop (m.index + m.length_of) r) j)
        star
    ∙ ap (λ c. if any (inside j) ms then some b'*' else c)
        (char_at-overwrite m.index m.length_of j r lies)
    ∙ either_star (any (inside j) ms) (inside j m) (char_at r j)

module _ (lower : Text → Text) (form : ℕ → ℕ) (text : Text) (terms : Terms)
    (same_length : length (lower text) ≡ length text)
    (searchable : All (IsSearchable lower form) terms) where
  -- In a text whose characters keep their number in lower case, and for stored terms that are not
  -- empty and whose keys keep their length in lower case, masking in any style but the one with bars
  -- gives a text, which has the length of the first.
  pub mask_text-length :
      (style : MaskingStyle)
      → style ≢ pipe
      → (masked : Text) × (mask_text lower form text terms style ≡ some masked)
        × (length masked ≡ length text)
  unfolding mask_text
  mask_text-length style plain =
      let (ms, e, within, covered) =
        find_sensitive_terms_lem lower form text terms same_length searchable in
      (
        mask_matches style ms 0 0 text,
        rw e refl,
        mask_matches-length text style plain ms 0 text within refl,
      )

  stars_only :
      (masked : Text) (j : ℕ)
      → mask_text lower form text terms asterisk ≡ some masked
      → (ms : List Match) × All (λ kc. Covers lower form text kc ms) terms
        × (char_at masked j ≡ (if any (inside j) ms then some b'*' else char_at text j))
  unfolding mask_text
  stars_only masked j h =
      let (ms, e, within, covered) =
        find_sensitive_terms_lem lower form text terms same_length searchable in
      let same : mask_matches asterisk ms 0 0 text ≡ masked = some_injective (rw e at h) in
      (
        ms,
        covered,
        ap (λ m. char_at m j) (sym same) ∙ mask_matches-char_at text ms 0 text j within refl,
      )

  -- Under the same conditions, masking with asterisks keeps each character or replaces it by an
  -- asterisk.
  pub mask_text_keeps :
      (masked : Text) (j : ℕ)
      → mask_text lower form text terms asterisk ≡ some masked
      → (char_at masked j ≡ char_at text j) ⊎ (char_at masked j ≡ some b'*')
  mask_text_keeps masked j h =
      let (ms, covered, e) = stars_only masked j h in
      elim (Bool-cases (any (inside j) ms)) [
        | inl hit ↦ inr (rw hit at e)
        | inr miss ↦ inl (rw miss at e)
      ]

  -- Under the same conditions, once a text is masked with asterisks, an asterisk stands wherever a
  -- stored term begins in the text.
  pub mask_text_covers :
      (masked : Text) (key : Text) (c : SensitiveTermConfig) (j : ℕ)
      → mask_text lower form text terms asterisk ≡ some masked
      → Memᴰ (key, c) terms
      → j ≤ length (search_text lower form c text)
      → test_of lower form text key c j ≡ true
      → char_at masked j ≡ some b'*'
  mask_text_covers masked key c j h stored to hit =
      let (ms, covered, e) = stars_only masked j h in
      let inside_one = All-Memᴰ (λ kc. Covers lower form text kc ms) stored covered j to hit in
      rw inside_one at e
