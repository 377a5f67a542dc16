-- ===== src/Examples/Delivery.antt =====
-- The delivery of tests at a table with two queued tests.
use mathlib.Core.List.{Memᴰ}
use kitt.Prelude.{none, some, List, [], ◌∷◌, ◌≡◌, ◌≢◌, refl}
use kitt.Prelude.Exec.{ok, pure, gets, modify, ◌>>=◌}
use kitt.Web.Database.{QuickTest, Db, publish}
use kitt.Web.Agents.Heartbeat.{
  Command, command_of, older, oldest_queued, is_queued_for, dispatch_row, dispatch, mark_dispatched,
}
use kitt.Web.QuickTests.{post_log}
use kitt.Web.QuickTests.Delivery.{Step, Reach, dispatch-at_most_once}
use kitt.Examples.Server.{lib, a_test, tables}

abbrev next_test : QuickTest
next_test = record a_test { id = "t2"; command_id = "c2" }

abbrev two_tests : Db
two_tests = record tables { tests = a_test ∷ next_test ∷ [] }

abbrev first_given : List Command
first_given = command_of lib a_test ∷ []

abbrev then_given : List Command
then_given = command_of lib next_test ∷ []

-- A line of the first test's log comes in between.
abbrev between : Db
between = (post_log lib "t1" (some "started") (dispatch lib "a1" two_tests).1).1

first_answer : (dispatch lib "a1" two_tests).0 ≡ ok first_given
unfolding dispatch dispatch_row older oldest_queued is_queued_for mark_dispatched publish pure gets
    modify ◌>>=◌
first_answer = refl

then_answer : (dispatch lib "a1" between).0 ≡ ok then_given
unfolding dispatch dispatch_row older oldest_queued is_queued_for mark_dispatched publish pure gets
    modify ◌>>=◌ post_log
then_answer = refl

dispatch-at_most_once_example : (command_of lib next_test).test_id ≢ (command_of lib a_test).test_id
dispatch-at_most_once_example =
    dispatch-at_most_once lib (λ engine path. none) "a1" "a1" two_tests between
      (command_of lib a_test) (command_of lib next_test) first_given then_given first_answer
      (Memᴰ.head refl)
      (Reach.next Reach.here (Step.logs "t1" (some "started") (dispatch lib "a1" two_tests).1))
      then_answer (Memᴰ.head refl)
