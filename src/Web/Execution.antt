-- ===== src/Web/Execution.antt =====
-- src/kitt/web/services/campaign_executor.py: a campaign runs as tests that are queued one at a time
-- for an agent, each waited for before the next. The state is the database with the times that the
-- thread slept and read its clock.
pub mod Wait
pub mod Run
use Prim.Native.Char.{code}
use kitt.Prelude.{
  ℕ, zero, suc, ◌+◌, ◌-◌, ◌*◌, String, Bool, true, false, not, Option, none, some, List, [], ◌∷◌,
  ◌++◌, length, map, ltb, eqb, if◌then◌else◌, ◌==◌, ◌||◌, ◌&&◌,
}
use kitt.Prelude.Exec.{Exec, Result, ok, raised, pure, raise, gets, modify, try, ◌>>=◌, ◌>>◌}
use kitt.Web.Database.{
  QuickTest, WebCampaign, CampaignLine, started, cancelled_by_user, queuing, waiting, agent_status,
  run_completed, run_failed, timed_out, finished, unexpected, Event, campaign_line_is, Db, Outside,
  query, publish, insert_test,
}
use kitt.Web.Campaigns.{has_campaign, find_campaign, Counts, no_counts, update_status}
use kitt.Web.QuickTests.{or_value}

-- The entries of a configuration, `none` for a missing key, and no models or engines for theirs.
pub record Model : Type 0 where
  pub path : Option String
  pub name : Option String

pub record EngineEntry : Type 0 where
  pub name : Option String
  pub mode : Option String
  pub profile_id : Option String

pub record RunConfig : Type 0 where
  pub models : List Model
  pub engines : List EngineEntry
  pub benchmarks : Option (List String)
  pub suite_name : Option String

-- One round of the loops.
pub record Job : Type 0 where
  pub model_path : String
  pub model_name : String
  pub engine_name : String
  pub engine_mode : String
  pub profile_id : String
  pub benchmark_name : String

after_slash : String → Option String
after_slash String.[] = none
after_slash (String.◌∷◌ c s) = elim (after_slash s) [
  | some last ↦ some last
  | none ↦ if eqb (code c) b'/' then some s else none
]

-- What follows the last slash of a path.
unfoldable pub model_name : String → String
unfolding after_slash
model_name path = or_value (after_slash path) path

unfoldable pub model_path : Model → String
model_path m = or_value m.path (or_value m.name "unknown")

abbrev job : Model → EngineEntry → String → Job
job m e benchmark_name = record {
  model_path = model_path m;
  model_name = model_name (model_path m);
  engine_name = or_value e.name "unknown";
  engine_mode = or_value e.mode "docker";
  profile_id = or_value e.profile_id "";
  benchmark_name = benchmark_name;
}

unfoldable pub engine_jobs : Model → List EngineEntry → List String → List Job
engine_jobs m [] benchmarks = []
engine_jobs m (e ∷ engines) benchmarks =
    map (job m e) benchmarks ++ engine_jobs m engines benchmarks

-- The rounds of the three loops, in their order.
unfoldable pub jobs_of : List Model → List EngineEntry → List String → List Job
jobs_of [] engines benchmarks = []
jobs_of (m ∷ models) engines benchmarks =
    engine_jobs m engines benchmarks ++ jobs_of models engines benchmarks

pub record Executor : Type 0 where
  pub db : Db
  pub sleeps : ℕ
  pub readings : ℕ

-- How a round of the loops ends, and the counts at their end.
pub data Round : Type 0 where
  succeeds fails stops : Round

pub record Tally : Type 0 where
  pub succeeded : ℕ
  pub failed : ℕ
  pub cancelled : Bool

module _ {A : Type 0} where
  unfoldable pub on_db : Exec Db A → Exec Executor A
  on_db m x = let (r, s) = m x.db in (r, record x { db = s })

-- _is_cancelled
is_cancelled_row : Option WebCampaign → Bool
is_cancelled_row none = false
is_cancelled_row (some c) = c.status == "cancelled"

unfoldable pub is_cancelled : String → Db → Bool
unfolding is_cancelled_row
is_cancelled campaign_id s = is_cancelled_row (find_campaign campaign_id s.campaigns)

unfoldable pub find_test : String → List QuickTest → Option QuickTest
find_test test_id [] = none
find_test test_id (t ∷ tests) = if t.id == test_id then some t else find_test test_id tests

-- INSERT INTO campaign_logs, where the campaign is listed.
unfoldable pub insert_line : String → CampaignLine → Exec Db (Unit {0})
insert_line campaign_id line s =
    if has_campaign campaign_id s
    then (ok tt, record s { campaign_logs = s.campaign_logs ++ (campaign_id, line) ∷ [] })
    else (raised "FOREIGN KEY constraint failed", s)

-- _publish_campaign_log
unfoldable pub log : String → CampaignLine → Exec Db (Unit {0})
log campaign_id line = do
  insert_line campaign_id line
  publish (record { event_type = "log"; source_id = campaign_id; payload = campaign_line_is line })

-- _POLL_INTERVAL and _TEST_TIMEOUT, in microseconds
abbrev pub poll_interval : ℕ
poll_interval = 5 * 1000000

abbrev pub test_timeout : ℕ
test_timeout = 1800 * 1000000

-- More rounds than a wait can take.
abbrev pub wait_rounds : ℕ
wait_rounds = 361

unfoldable pub is_underway : String → Bool
is_underway status = (status == "dispatched") || (status == "running")

unfoldable pub is_over : String → Bool
is_over status = (status == "completed") || (status == "failed")

abbrev some_benchmarks : Option (List String) → List String
some_benchmarks none = "throughput" ∷ []
some_benchmarks (some benchmarks) = benchmarks

abbrev pub all_benchmarks : RunConfig → List String
all_benchmarks config = some_benchmarks config.benchmarks
