-- ===== src/Drafts/Refinement.antt =====
-- draftUtils.ts: the operations on the storage do what the table says.
use stellar_dex_chat.Common.{
  ℕ, ◌≡◌, ◌≢◌, ◌∙◌, refl, sym, ap, String, true, Option, none, some, List, [], ◌∷◌, arith, inl, inr,
  if◌then◌else◌, str_eq, eq_iff, Bool-cases, get, put, delete, get-put, get-delete, IsMap,
  put-IsMap, delete-IsMap,
}
use stellar_dex_chat.Common.Text.{trim}
use stellar_dex_chat.Drafts.{
  Draft, Storage, draft_key, clear_draft, save_draft, read_item, answer_draft, get_draft,
  is_expired, clear_expired_drafts,
}
use stellar_dex_chat.Drafts.Board.{
  Board, Action, saves, clears, expires, reads, saved_as, set_at, fresh_at, content_of, replay,
  replay_all, draft_key_eq,
}
use stellar_dex_chat.Drafts.Expiry.{
  get-clear_expired_drafts, clear_expired_drafts-IsMap, read-kept_at,
}

module _ (stringify : Draft → String) (parse : String → Option Draft) where
  unfoldable pub perform : Action → Storage → Storage
  perform (saves session content now) st = save_draft stringify parse session content now true st
  perform (clears session) st = clear_draft session true st
  perform (expires now ttl) st = clear_expired_drafts stringify parse now ttl st
  perform (reads session now ttl) st = (get_draft stringify parse session now ttl true st).0

  unfoldable pub perform_all : List Action → Storage → Storage
  perform_all [] st = st
  perform_all (a ∷ as') st = perform_all as' (perform a st)

  abbrev item : String → Storage → Option Draft
  item s st = read_item stringify parse (get (draft_key s) st)

  -- The storage has for each session the draft that the table has.
  abbrev Shows : Storage → Board → Type 0
  Shows st board = IsMap st × ((s : String) → s ≢ "" → item s st ≡ board s)

  -- No draft belongs to the empty session.
  blank-Shows :
      (session : String) (d : Option Draft) (st : Storage) (board : Board)
      → str_eq session "" ≡ true
      → Shows st board
      → Shows st (set_at session d board)
  blank-Shows session d st board blank (distinct, same) = (
    distinct,
    λ s named. same s named ∙ (elim (Bool-cases (str_eq session s)) [
      | inl e ↦ absurd (named (sym ((eq_iff session s).0 e) ∙ (eq_iff session "").0 blank))
      | inr e ↦ rw e refl
    ]),
  )

  written-Shows :
      (session : String) (x : Option String) (d : Option Draft) (st st' : Storage) (board : Board)
      → ((k : String) → get k st' ≡ (if str_eq (draft_key session) k then x else get k st))
      → read_item stringify parse x ≡ d
      → IsMap st'
      → Shows st board
      → Shows st' (set_at session d board)
  written-Shows session x d st st' board written read distinct' (distinct, same) = (
    distinct',
    λ s named.
        ap (read_item stringify parse) (written (draft_key s))
        ∙ ap (λ b. read_item stringify parse (if b then x else get (draft_key s) st))
            (draft_key_eq session s)
        ∙ (elim (Bool-cases (str_eq session s)) [
          | inl e ↦ rw e read
          | inr e ↦ rw e (same s named)
        ]),
  )

  clear-Shows :
      (session : String) (st : Storage) (board : Board)
      → Shows st board
      → Shows (clear_draft session true st) (set_at session none board)
  unfolding clear_draft
  clear-Shows session st board (distinct, same) = elim (Bool-cases (str_eq session "")) [
    | inl blank ↦ rw blank (blank-Shows session none st board blank (distinct, same))
    | inr named ↦ rw named (
        written-Shows session none none st (delete (draft_key session) st) board
          (λ k. get-delete (draft_key session) k st distinct) refl
          (delete-IsMap (draft_key session) st distinct) (distinct, same))
  ]

  kept-Shows :
      (session : String) (d : Option Draft) (st : Storage) (board : Board)
      → d ≡ board session
      → Shows st board
      → Shows st (set_at session d board)
  kept-Shows session d st board e (distinct, same) = (
    distinct,
    λ s named. same s named ∙ (elim (Bool-cases (str_eq session s)) [
      | inl h ↦ rw h (ap board (sym ((eq_iff session s).0 h)) ∙ sym e)
      | inr h ↦ rw h refl
    ]),
  )

  expire-Shows :
      (now ttl : ℕ) (st : Storage) (board : Board)
      → Shows st board
      → Shows (clear_expired_drafts stringify parse now ttl st) (λ s. fresh_at now ttl (board s))
  expire-Shows now ttl st board (distinct, same) = (
    clear_expired_drafts-IsMap stringify parse now ttl st distinct,
    λ s named.
        ap (read_item stringify parse)
          (get-clear_expired_drafts stringify parse now ttl (draft_key s) st distinct)
        ∙ read-kept_at stringify parse now ttl s (get (draft_key s) st)
        ∙ ap (fresh_at now ttl) (same s named),
  )

  answer-Shows :
      (session : String) (now ttl : ℕ) (d : Option Draft) (st : Storage) (board : Board)
      → d ≡ board session
      → Shows st board
      → Shows
          (answer_draft stringify parse session now ttl true d st).0
          (set_at session (fresh_at now ttl (board session)) board)
  answer-Shows session now ttl none st board e h = rw (← e) (kept-Shows session none st board e h)
  answer-Shows session now ttl (some d) st board e h =
      rw (← e) (elim (Bool-cases (is_expired now ttl d)) [
        | inl old ↦ rw old (clear-Shows session st board h)
        | inr young ↦ rw young (kept-Shows session (some d) st board e h)
      ])

  answer-content :
      (session : String) (now ttl : ℕ) (d : Option Draft) (st : Storage)
      → (answer_draft stringify parse session now ttl true d st).1 ≡ content_of (fresh_at now ttl d)
  answer-content session now ttl none st = refl
  answer-content session now ttl (some d) st = ground arith

  read-Shows :
      (session : String) (now ttl : ℕ) (st : Storage) (board : Board)
      → Shows st board
      → Shows
          (get_draft stringify parse session now ttl true st).0
          (set_at session (fresh_at now ttl (board session)) board)
  unfolding get_draft
  read-Shows session now ttl st board (distinct, same) = elim (Bool-cases (str_eq session "")) [
    | inl blank ↦ rw blank (blank-Shows session _ st board blank (distinct, same))
    | inr there ↦
        let named : session ≢ "" = λ e. ground (arith, there, (eq_iff session "").1 e) in
        rw there (
          answer-Shows session now ttl (item session st) st board (same session named)
            (distinct, same))
  ]

  module _ (json : (d : Draft) → parse (stringify d) ≡ some d)
      (some_text : (d : Draft) → stringify d ≢ "") where
    read-stringify : (d : Draft) → read_item stringify parse (some (stringify d)) ≡ some d
    read-stringify d = elim (Bool-cases (str_eq (stringify d) "")) [
      | inl e ↦ absurd (some_text d ((eq_iff (stringify d) "").0 e))
      | inr e ↦ rw e (json d)
    ]

    save-Shows :
        (session content : String) (now : ℕ) (st : Storage) (board : Board)
        → Shows st board
        → Shows
            (save_draft stringify parse session content now true st)
            (set_at session (saved_as content now) board)
    unfolding save_draft
    save-Shows session content now st board (distinct, same) =
        elim (Bool-cases (str_eq session "")) [
          | inl blank ↦ rw blank (blank-Shows session _ st board blank (distinct, same))
          | inr named ↦ rw named (elim (Bool-cases (str_eq (trim content) "")) [
            | inl empty ↦ rw empty (clear-Shows session st board (distinct, same))
            | inr there ↦
                let d : Draft = record { content = content; timestamp = now } in
                rw there (
                  written-Shows session (some (stringify d)) (some d) st
                    (put (draft_key session) (stringify d) st) board
                    (λ k. get-put (draft_key session) k (stringify d) st) (read-stringify d)
                    (put-IsMap (draft_key session) (stringify d) st distinct) (distinct, same))
          ])
        ]

    perform-Shows :
        (a : Action) (st : Storage) (board : Board)
        → Shows st board
        → Shows (perform a st) (replay a board)
    unfolding perform
    perform-Shows (saves session content now) st board h = save-Shows session content now st board h
    perform-Shows (clears session) st board h = clear-Shows session st board h
    perform-Shows (expires now ttl) st board h = expire-Shows now ttl st board h
    perform-Shows (reads session now ttl) st board h = read-Shows session now ttl st board h

    perform_all-Shows :
        (as' : List Action) (st : Storage) (board : Board)
        → Shows st board
        → Shows (perform_all as' st) (replay_all as' board)
    unfolding perform_all replay_all
    perform_all-Shows [] st board h = h
    perform_all-Shows (a ∷ as') st board h =
        perform_all-Shows as' (perform a st) (replay a board) (perform-Shows a st board h)

    -- Whatever is done with the drafts in a storage that works and that was empty at first, the draft
    -- read for a session is the one that the table has for it, unless that has expired: the one saved
    -- last, as long as it was neither cleared nor found expired. JSON is read as what was written, and
    -- no draft is written as the empty text.
    pub get_draft-perform_all :
        (as' : List Action) (session : String) (now ttl : ℕ)
        → session ≢ ""
        → (get_draft stringify parse session now ttl true (perform_all as' [])).1
          ≡ content_of (fresh_at now ttl (replay_all as' (λ s. none) session))
    unfolding get_draft
    get_draft-perform_all as' session now ttl named =
        let (_, same) = perform_all-Shows as' [] (λ s. none) (tt, λ s n. unfold get in refl) in
        elim (Bool-cases (str_eq session "")) [
          | inl blank ↦ absurd (named ((eq_iff session "").0 blank))
          | inr there ↦ rw there (
              answer-content session now ttl (item session (perform_all as' []))
                (perform_all as' [])
              ∙ ap (λ d. content_of (fresh_at now ttl d)) (same session named))
        ]
