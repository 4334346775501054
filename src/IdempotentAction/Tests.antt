-- ===== src/IdempotentAction/Tests.antt =====
-- The guard at concrete calls.
use stellar_dex_chat.Common.{List, delete, ◌≡◌, refl, [], ◌∷◌, arith, get, put}
use stellar_dex_chat.IdempotentAction.{
  Guard, starts, shares, suppressed, initial_guard, execute, start, finish, reset,
}
use stellar_dex_chat.IdempotentAction.Sharing.{Attempt, attempt}
use stellar_dex_chat.IdempotentAction.Single.{duplicates_shared}
use stellar_dex_chat.IdempotentAction.Spacing.{
  Step, Apart, calls, ends, goes, perform, perform_all, perform_all-Apart,
}
use stellar_dex_chat.IdempotentAction.Overlap.{reset_between, reset_overlap}

abbrev fresh : Guard
fresh = initial_guard 2000

abbrev pay : Attempt
pay = record { action_name = "pay"; time = 10; stamp = "10_x"; promise = 1 }

abbrev pay_again : Attempt
pay_again = record { action_name = "pay"; time = 20; stamp = "20_y"; promise = 2 }

abbrev other : Attempt
other = record { action_name = "other"; time = 15; stamp = "15_z"; promise = 3 }

abbrev pay_later : Attempt
pay_later = record { action_name = "pay"; time = 3000; stamp = "3000_w"; promise = 4 }

other_suppressed : (attempt other (attempt pay fresh).0).1 ≡ suppressed
unfolding execute get start put
other_suppressed = refl

abbrev paid : List Step
paid = calls pay ∷ calls other ∷ ends "pay" ∷ []

abbrev between : List Step
between = calls other ∷ calls pay_again ∷ []

abbrev before : Guard
before = perform_all paid fresh

duplicates_shared_example :
    (perform_all between (attempt pay_later before).0 ≡ (attempt pay_later before).0)
    × (attempt pay_again (perform_all between (attempt pay_later before).0)
        ≡ ((attempt pay_later before).0, shares 4))
duplicates_shared_example =
    duplicates_shared 2000 4 paid between pay_later pay_again
      (unfold execute start get put in (refl, tt))
      (unfold perform_all perform execute start finish get put delete in refl) tt refl refl

perform_all-Apart_example :
    Apart 2000
      (perform_all
        (calls pay ∷ ends "pay" ∷ calls pay_again ∷ calls pay_later ∷ goes ∷ [])
        fresh).runs
perform_all-Apart_example =
    perform_all-Apart 2000 (calls pay ∷ ends "pay" ∷ calls pay_again ∷ calls pay_later ∷ goes ∷ [])

reset_overlap_example :
    ((attempt pay_again (reset (attempt pay fresh).0)).1 ≡ starts 2)
    × ((attempt pay_later (reset_between pay pay_again fresh)).1 ≡ starts 4)
reset_overlap_example = reset_overlap pay pay_again pay_later fresh refl refl (omega arith)
