-- ===== src/Web/QuickTests.antt =====
-- src/kitt/web/api/v1/quicktest.py: tests are launched, agents post their logs and their status, and
-- pages of tests are listed. A request that is refused changes nothing.
pub mod Lifecycle
pub mod Delivery
use kitt.Prelude.{
  ℕ, suc, ◌+◌, ◌-◌, ◌*◌, ◌/◌, String, Bool, true, false, not, Option, none, some, List, [], ◌∷◌,
  ◌++◌, any, map, length, take, drop, select, ltb, leb, min, if◌then◌else◌, ◌==◌, ◌||◌, ◌&&◌,
}
use kitt.Prelude.Exec.{Exec, Result, ok, raised, pure, gets, modify, ◌>>=◌, ◌>>◌}
use kitt.Web.Database.{
  Agent, QuickTest, Event, EventData, status_is, line_is, Db, Outside, query, find_agent, publish,
  has_test_row, insert_test, update_tests,
}
use kitt.Web.Agents.Stale.{is_test_agent}

-- The JSON body of a launch, `none` for a missing key.
pub record LaunchBody : Type 0 where
  pub agent_id : Option String
  pub model_path : Option String
  pub engine_name : Option String
  pub benchmark_name : Option String
  pub suite_name : Option String
  pub engine_mode : Option String
  pub profile_id : Option String
  pub force : Bool

-- The answer: an error with its HTTP status, or the launched test.
pub data Launched : Type 0 where
  refused : ℕ → String → Launched
  launched : String → String → Bool → Launched

unfoldable pub or_value : Option String → String → String
or_value none default = default
or_value (some v) default = v

-- `model_error` is the answer of the engine's validate_model, `none` where the engine is unknown or
-- takes the model.
module _ (lib : Outside) (model_error : String → String → Option String) where
  abbrev queued_test : String → String → String → String → String → String → LaunchBody → QuickTest
  queued_test test_id command_id now agent_id model_path engine_name b = record {
    id = test_id;
    agent_id = agent_id;
    model_path = model_path;
    engine_name = engine_name;
    benchmark_name = or_value b.benchmark_name "throughput";
    suite_name = or_value b.suite_name "quick";
    status = "queued";
    command_id = command_id;
    engine_mode = or_value b.engine_mode "docker";
    profile_id = or_value b.profile_id "";
    created_at = now;
    started_at = "";
    completed_at = "";
    error = "";
  }

  -- From the insertion on. The last part of the answer says whether a simulation is spawned.
  unfoldable pub enqueue : String → String → String → LaunchBody → Exec Db Launched
  enqueue agent_id model_path engine_name b = do
    test_id ← query lib.uuid_hex
    command_id ← query lib.uuid_hex
    now ← query lib.now
    insert_test (queued_test test_id command_id now agent_id model_path engine_name b)
    publish (record { event_type = "status"; source_id = test_id; payload = status_is "queued" })
    simulated ← gets (is_test_agent lib agent_id)
    pure (launched test_id command_id simulated)

  unfoldable pub unless_wrong : Bool → Option String → Exec Db Launched → Exec Db Launched
  unless_wrong true _ m = m
  unless_wrong false none m = m
  unless_wrong false (some error) m = pure (refused 400 error)

  unfoldable pub for_agent : String → String → String → LaunchBody → Option Agent → Exec Db Launched
  unfolding unless_wrong
  for_agent agent_id model_path engine_name b none = pure (refused 404 "Agent not found")
  for_agent agent_id model_path engine_name b (some a) =
      unless_wrong b.force (model_error engine_name model_path)
        (enqueue agent_id model_path engine_name b)

  unfoldable pub required :
      LaunchBody → Option String → Option String → Option String → Exec Db Launched
  unfolding for_agent
  required b none _ _ = pure (refused 400 "'agent_id' is required")
  required b (some agent_id) none _ = pure (refused 400 "'model_path' is required")
  required b (some agent_id) (some model_path) none = pure (refused 400 "'engine_name' is required")
  required b (some agent_id) (some model_path) (some engine_name) = do
    agent ← gets (λ s. find_agent agent_id s.agents)
    for_agent agent_id model_path engine_name b agent

  -- `none` is a body that is not JSON, or empty.
  unfoldable pub launch : Option LaunchBody → Exec Db Launched
  unfolding required
  launch none = pure (refused 400 "Invalid JSON body")
  launch (some b) = required b b.agent_id b.model_path b.engine_name

-- The statuses that an agent may report.
unfoldable pub is_reported : String → Bool
is_reported status = (status == "running") || ((status == "completed") || (status == "failed"))

-- The row after a report, `error` being the body's or empty.
unfoldable pub report_row : String → String → String → QuickTest → QuickTest
report_row status error now t =
    if status == "running"
    then record t { status = status; started_at = now }
    else record t { status = status; completed_at = now; error = error }

module _ (lib : Outside) where
  unfoldable pub store_report : String → String → String → Exec Db ℕ
  store_report test_id status error = do
    now ← query lib.now
    modify (update_tests test_id (report_row status error now))
    publish (record { event_type = "status"; source_id = test_id; payload = status_is status })
    pure 200

  unfoldable pub report_status : String → Option String → String → Exec Db ℕ
  unfolding store_report
  report_status test_id none error = pure 400
  report_status test_id (some status) error =
      if is_reported status then store_report test_id status error else pure 400

  -- POST /<test_id>/status, with the body's status, if it has one.
  unfoldable pub update_status : String → Option String → String → Exec Db ℕ
  unfolding report_status
  update_status test_id status error s =
      if has_test_row test_id s then report_status test_id status error s else (ok 404, s)

  unfoldable pub store_line : String → Option String → Exec Db ℕ
  store_line test_id none = pure 400
  store_line test_id (some line) = do
    modify (λ s. record s { test_logs = s.test_logs ++ (test_id, line) ∷ [] })
    publish (record { event_type = "log"; source_id = test_id; payload = line_is line })
    pure 200

  -- POST /<test_id>/logs
  unfoldable pub post_log : String → Option String → Exec Db ℕ
  unfolding store_line
  post_log test_id line s =
      if has_test_row test_id s then store_line test_id line s else (ok 404, s)

-- GET /<test_id>/logs
unfoldable pub get_logs : String → Db → Option (List String)
get_logs test_id s =
    if has_test_row test_id s
    then some (
        map (λ (l : String × String). l.1)
          (select (λ (l : String × String). l.0 == test_id) s.test_logs))
    else none

-- max(min(per_page, 100), 1), max(page, 1), and the pages of `total` items
unfoldable pub clamp_per_page : ℕ → ℕ
clamp_per_page per_page = if leb (min per_page 100) 0 then 1 else min per_page 100

unfoldable pub page_count : ℕ → ℕ → ℕ
page_count total per_page = if ltb 0 total then (total + (per_page - 1)) / per_page else 1
