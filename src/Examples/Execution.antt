-- ===== src/Examples/Execution.antt =====
-- The executor of campaigns and the pages of the listing at a table with one campaign.
use mathlib.Core.List.{Perm}
use kitt.Prelude.{
  ℕ, ◌+◌, ◌*◌, String, Option, none, some, List, select, ◌||◌, ◌==◌, [], ◌∷◌, ◌≡◌, refl, arith, map,
  true,
}
use kitt.Prelude.Exec.{ok}
use kitt.Web.Database.{QuickTest, WebCampaign, Db}
use kitt.Web.Campaigns.{list_campaigns}
use kitt.Web.Campaigns.Pages.{IsNewestFirst, first_pages, hidden, list_campaigns-pages}
use kitt.Web.Execution.{Executor, RunConfig, Tally, poll_interval}
use kitt.Web.Execution.Wait.{wait_for_test}
use kitt.Web.Execution.Wait.Rounds.{IsClock, KeepsCampaign, is_waited, wait_for_test_total}
use kitt.Web.Execution.Run.{execute_campaign}
use kitt.Web.Execution.Run.Completion.{Settled, execute_campaign-Settled}
use kitt.Examples.Server.{lib, by_length, by_length-IsTextOrder, tables}

abbrev a_campaign : WebCampaign
a_campaign = record {
  id = "k1";
  name = "nightly";
  description = "";
  config = "{}";
  status = "queued";
  agent_id = "a1";
  created_at = "2025-01-01T00:00:00";
  started_at = "";
  completed_at = "";
  total_runs = 0;
  succeeded = 0;
  failed = 0;
  skipped = 0;
  error = "";
}

abbrev with_campaign : Db
with_campaign = record tables { campaigns = a_campaign ∷ [] }

abbrev start_up : Executor
start_up = record { db = with_campaign; sleeps = 0; readings = 0 }

-- A clock that moves by a microsecond at a reading and by the interval at a sleep.
abbrev ticking : ℕ → ℕ → ℕ
ticking n r = n * poll_interval + r

ticking-IsClock : IsClock ticking
ticking-IsClock = record {
  never_back = λ n r r' h. omega (arith, h);
  sleeps_enough = λ n r r' h. omega (arith, h);
}

-- During each sleep the agent completes its tests.
abbrev agent_works : ℕ → Db → Db
agent_works n s = record s {
  tests = map (λ (t : QuickTest). record t { status = "completed" }) s.tests;
}

agent_works-KeepsCampaign : KeepsCampaign "k1" agent_works
agent_works-KeepsCampaign = record { kept = λ n s h. h }

abbrev two_runs : RunConfig
two_runs = record {
  models = record { path = some "/models/llama"; name = none } ∷ [];
  engines = record { name = some "vllm"; mode = none; profile_id = none } ∷ [];
  benchmarks = some ("throughput" ∷ "mmlu" ∷ []);
  suite_name = none;
}

wait_for_test_total_example :
    (status : String) × ((wait_for_test ticking agent_works "k1" "t1" 1 1 start_up).0 ≡ ok status)
    × (is_waited status ≡ true)
wait_for_test_total_example =
    wait_for_test_total "k1" ticking agent_works ticking-IsClock agent_works-KeepsCampaign "t1" 1 1
      start_up refl

execute_campaign-Settled_example :
    (r : Option Tally) × ((execute_campaign lib ticking agent_works "k1" "a1" two_runs start_up).0
      ≡ ok r)
    × Settled lib "k1"
        (1 * 1 * 2)
        r
        (execute_campaign lib ticking agent_works "k1" "a1" two_runs start_up).1.db
execute_campaign-Settled_example =
    execute_campaign-Settled lib "k1" ticking agent_works ticking-IsClock agent_works-KeepsCampaign
      "a1" two_runs start_up refl

list_campaigns-pages_example :
    (rows : List WebCampaign) × (first_pages by_length "" 10
        (list_campaigns by_length "" 1 10 with_campaign).pages
        with_campaign
      ≡ map (hidden by_length) rows)
    × Perm rows
        (select (λ (c : WebCampaign). ("" == "") || (c.status == "")) with_campaign.campaigns)
    × IsNewestFirst by_length rows
list_campaigns-pages_example =
    list_campaigns-pages by_length "" 1 10 with_campaign by_length-IsTextOrder (omega arith)
