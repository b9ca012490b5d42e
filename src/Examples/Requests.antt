-- ===== src/Examples/Requests.antt =====
-- The submission service and the leaderboard bus at concrete requests.
use nexus_bench.Base.{ℕ, ◌≡◌, refl, none, some, List, [], ◌∷◌, pos}
use nexus_bench.Base.Dict.{get}
use nexus_bench.Base.Text.{TextOps}
use nexus_bench.Models.{Contest, active}
use nexus_bench.Contest.Defaults.{default_low_profile, default_medium_profile, default_high_profile}
use nexus_bench.Executor.{State, taken}
use nexus_bench.Submission.{SubmitRequest, active_contest, ingest}
use nexus_bench.Submission.Exclusive.{IsExclusive, ingest-IsExclusive}
use nexus_bench.Bus.{do_subscribe, subscriber_chan_size}
use nexus_bench.Bus.Delivery.{
  Call, Spares, run, sends, sent, subscribe_lem, subscribes, take, unsubscribes,
}
use nexus_bench.Examples.Floats.{thousandths}

abbrev verbatim : TextOps
verbatim = record { sprintf = λ format args. format; prefix = λ n s. s; format_duration = λ n. "" }

abbrev spring : Contest thousandths
spring = record {
  id = "c";
  name = "Spring";
  status = active;
  low_profile = default_low_profile thousandths;
  medium_profile = default_medium_profile thousandths;
  high_profile = default_high_profile thousandths;
  low_weight = 200;
  medium_weight = 350;
  high_weight = 450;
  submissions_closed_at = none;
  contest_closed_at = none;
  ends_at = none;
  created_at = 1;
  updated_at = 1;
}

abbrev request : SubmitRequest
request = record { team_name = "team"; language = "go"; protocol = "rest" }

abbrev no_submissions : State thousandths
no_submissions = record { submissions = []; jobs = [] }

no_submissions-IsExclusive : IsExclusive thousandths no_submissions
unfolding get
no_submissions-IsExclusive = λ i j x y e f n c t a b. cc

ingest-IsExclusive_example :
    IsExclusive thousandths
      (ingest thousandths verbatim 3 no_submissions "s" request
        (pos 9)
        (active_contest spring)
        (some "/data/s")
        taken).0
ingest-IsExclusive_example =
    ingest-IsExclusive thousandths verbatim 3 no_submissions "s" request (pos 9)
      (active_contest spring) (some "/data/s") taken no_submissions-IsExclusive

abbrev calls : List (Call ℕ)
calls =
    sends 1
    ∷ subscribes "w"
    ∷ sends 2
    ∷ sends 3
    ∷ unsubscribes "v"
    ∷ sends 4
    ∷ sends 5
    ∷ sends 6
    ∷ []

calls-Spares : Spares "u" calls
calls-Spares = (refl, (refl, tt))

subscribe_lem_example :
    get "u" (run (do_subscribe "u" (("v", 7 ∷ []) ∷ [])) calls)
    ≡ some (take subscriber_chan_size (sent calls))
subscribe_lem_example = subscribe_lem calls "u" (("v", 7 ∷ []) ∷ []) calls-Spares
