-- ===== src/ChatSearch/Segments.antt =====
-- chatSearch.ts: that the segments of a text make up the text.
use stellar_dex_chat.Common.{
  ℕ, zero, suc, ◌+◌, ◌-◌, ◌≤◌, ◌<◌, Bool, true, false, ◌≡◌, refl, sym, ◌∙◌, ap, inl, inr, Option,
  List, [], ◌∷◌, ◌++◌, arith, ltb, if◌then◌else◌, length, drop, append-nil, take-append-drop,
  drop-drop, Bool-cases,
}
use stellar_dex_chat.Stroops.{Text, is_empty, trim}
use stellar_dex_chat.ChatSearch.{
  Segment, slice, plain, segments_from, split_by_highlights, find_highlights,
}
use stellar_dex_chat.ChatSearch.Highlights.{IsScan, find_highlights_lem}

-- Intervals of the text, one after the other, from a position on.
abbrev pub IsOrdered : Text → ℕ → List (ℕ × ℕ) → Type 0
IsOrdered text pos [] = Unit
IsOrdered text pos ((start, end) ∷ hs) =
    (pos ≤ start) × (start ≤ end) × (end ≤ length text) × IsOrdered text end hs

abbrev pub rejoined : List Segment → Text
rejoined [] = []
rejoined (s ∷ ss) = s.text ++ rejoined ss

-- The texts of the highlighted segments.
abbrev pub marked : List Segment → List Text
marked [] = []
marked (s ∷ ss) = if s.highlight then s.text ∷ marked ss else marked ss

abbrev pub slices : Text → List (ℕ × ℕ) → List Text
slices text [] = []
slices text ((start, end) ∷ hs) = slice text start end ∷ slices text hs

drop-nil : (n : ℕ) (text : Text) → length text ≤ n → drop n text ≡ []
drop-nil zero [] h = refl
drop-nil zero (c ∷ cs) h = absurd (omega arith)
drop-nil (suc n) [] h = refl
drop-nil (suc n) (c ∷ cs) h = drop-nil n cs (omega arith)

slice-append-drop :
    (text : Text) (start end : ℕ)
    → start ≤ end
    → slice text start end ++ drop end text ≡ drop start text
slice-append-drop text start end h =
    let e : start + (end - start) ≡ end = omega arith in
    let there : drop (end - start) (drop start text) ≡ drop end text =
      rw e at (drop-drop start (end - start) text) in
    rw (← there) (take-append-drop (end - start) (drop start text))

module _ (text : Text) where
  plain-rejoined :
      (cursor start : ℕ) (ss : List Segment)
      → cursor ≤ start
      → rejoined ss ≡ drop start text
      → rejoined (plain (ltb cursor start) (slice text cursor start) ++ ss) ≡ drop cursor text
  plain-rejoined cursor start ss h e = elim (Bool-cases (ltb cursor start)) [
    | inl before ↦ rw before (rw e (slice-append-drop text cursor start h))
    | inr at ↦ rw at (let same : cursor ≡ start = ground arith in rw same e)
  ]

  segments_from-rejoined :
      (cursor : ℕ) (hs : List (ℕ × ℕ))
      → IsOrdered text cursor hs
      → rejoined (segments_from text cursor hs) ≡ drop cursor text
  unfolding segments_from
  segments_from-rejoined cursor [] h = elim (Bool-cases (ltb cursor (length text))) [
    | inl more ↦ rw more (append-nil (drop cursor text))
    | inr over ↦ rw over (sym (drop-nil cursor text (ground arith)))
  ]
  segments_from-rejoined cursor ((start, end) ∷ hs) (le, ordered, within, rest) =
      plain-rejoined cursor start _ le
        (rw (segments_from-rejoined end hs rest) (slice-append-drop text start end ordered))

  plain-marked : (b : Bool) (t : Text) (ss : List Segment) → marked (plain b t ++ ss) ≡ marked ss
  plain-marked true t ss = refl
  plain-marked false t ss = refl

  segments_from-marked :
      (cursor : ℕ) (hs : List (ℕ × ℕ)) → marked (segments_from text cursor hs) ≡ slices text hs
  unfolding segments_from
  segments_from-marked cursor [] = elim (Bool-cases (ltb cursor (length text))) [
    | inl more ↦ rw more refl
    | inr over ↦ rw over refl
  ]
  segments_from-marked cursor ((start, end) ∷ hs) =
      plain-marked (ltb cursor start) (slice text cursor start)
        (record { text = slice text start end; highlight = true } ∷ segments_from text end hs)
      ∙ ap (λ ts. slice text start end ∷ ts) (segments_from-marked end hs)

  -- For intervals of the text in their order, the segments make up the text, and those that are
  -- highlighted are the texts of the intervals.
  pub split_by_highlights_lem :
      (hs : List (ℕ × ℕ))
      → IsOrdered text 0 hs
      → (rejoined (split_by_highlights text hs) ≡ text)
        × (marked (split_by_highlights text hs) ≡ slices text hs)
  unfolding split_by_highlights
  split_by_highlights_lem [] h = (append-nil text, refl)
  split_by_highlights_lem (i ∷ hs) h =
      (segments_from-rejoined 0 (i ∷ hs) h, segments_from-marked 0 (i ∷ hs))

  IsScan-IsOrdered :
      (lower key : Text) (pos : ℕ) (hs : List (ℕ × ℕ))
      → length lower ≡ length text
      → IsScan lower key pos hs
      → IsOrdered text pos hs
  IsScan-IsOrdered lower key pos [] e h = tt
  IsScan-IsOrdered lower key pos ((start, end) ∷ hs) e (le, size, within, found, before, rest) =
      (le, omega arith, omega arith, IsScan-IsOrdered lower key end hs e rest)

-- Where the lower case form of the text is as long as the text, the segments of its highlights make up
-- the text.
pub find_highlights-rejoined :
    (to_lower_case : Text → Text) (time_of : Text → Option ℕ) (text keyword : Text)
    → is_empty (trim keyword) ≡ false
    → 0 < length (to_lower_case keyword)
    → length (to_lower_case text) ≡ length text
    → rejoined (split_by_highlights text (find_highlights to_lower_case time_of text keyword))
      ≡ text
find_highlights-rejoined to_lower_case time_of text keyword visible positive same =
    (split_by_highlights_lem text (find_highlights to_lower_case time_of text keyword) (
      IsScan-IsOrdered text (to_lower_case text) (to_lower_case keyword) 0 _ same
        (find_highlights_lem to_lower_case time_of text keyword visible positive))).0
