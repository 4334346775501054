-- ===== src/Drafts/Tests.antt =====
-- Drafts in a concrete storage. A draft is written as its time, one letter for each millisecond, a
-- bar, and its content.
use Prim.Native.Char.{code}
use stellar_dex_chat.Common.{
  ℕ, zero, suc, ◌≡◌, ◌≢◌, refl, true, ap, String, Option, none, some, List, [], ◌∷◌, arith, eq_iff,
  ◌==◌, if◌then◌else◌,
}
use stellar_dex_chat.Drafts.{Draft, get_draft, default_ttl}
use stellar_dex_chat.Drafts.Board.{
  Action, saves, clears, expires, reads, replay_all, content_of, fresh_at,
}
use stellar_dex_chat.Drafts.Refinement.{perform_all, get_draft-perform_all}

abbrev stamp : ℕ → String → String
stamp zero content = String.◌∷◌ "|" content
stamp (suc n) content = String.◌∷◌ "x" (stamp n content)

abbrev stringify : Draft → String
stringify d = stamp d.timestamp d.content

abbrev later : Option Draft → Option Draft
later none = none
later (some d) = some (record { content = d.content; timestamp = suc d.timestamp })

abbrev parse : String → Option Draft
parse String.[] = none
parse (String.◌∷◌ c s) =
    let rest = parse s in
    if code c == b'x' then later rest else some (record { content = s; timestamp = 0 })

parse-stamp :
    (n : ℕ) (content : String)
    → parse (stamp n content) ≡ some (record { content = content; timestamp = n })
parse-stamp zero content = refl
parse-stamp (suc n) content = ap later (parse-stamp n content)

stamp-some : (n : ℕ) (content : String) → stamp n content ≢ ""
stamp-some n content e =
    let h : parse (stamp n content) ≡ parse "" = ap parse e in
    ground (arith, parse-stamp n content, h)

abbrev actions : List Action
actions =
    saves "a" "Send 50 XLM" 10
    ∷ saves "b" "Hello" 20
    ∷ clears "b"
    ∷ reads "a" 25 default_ttl
    ∷ expires 30 default_ttl
    ∷ []

get_draft-perform_all_example :
    (get_draft stringify parse "a" 40 default_ttl true (perform_all stringify parse actions [])).1
    ≡ content_of (fresh_at 40 default_ttl (replay_all actions (λ s. none) "a"))
get_draft-perform_all_example =
    get_draft-perform_all stringify parse (λ d. parse-stamp d.timestamp d.content)
      (λ d. stamp-some d.timestamp d.content) actions "a" 40 default_ttl
      (λ e. ground (arith, eq_iff "a" ""))
