-- ===== src/Web/Agents/Heartbeat.antt =====
-- heartbeat: the agent's status and engines are stored, and its oldest queued test is dispatched.
pub mod Dispatch
pub mod Oldest
use kitt.Prelude.{
  ℕ, suc, String, Bool, true, false, not, Option, none, some, List, [], ◌∷◌, ◌++◌, any, map, select,
  ◌||◌, ◌&&◌, if◌then◌else◌, ◌==◌,
}
use kitt.Prelude.Exec.{Exec, Result, ok, pure, gets, modify, ◌>>=◌, ◌>>◌}
use kitt.Web.Database.{
  Agent, QuickTest, AgentEngine, Event, status_is, Db, Outside, query, update_agents, set_agents,
  require_agent, publish,
}
use kitt.Web.Agents.Registration.{get_agent_settings}

-- What a heartbeat says of an engine.
pub record EngineReport : Type 0 where
  pub engine : String
  pub installed : Bool
  pub running : Bool
  pub version : String
  pub binary_path : String

unfoldable pub engine_status : EngineReport → String
engine_status r =
    if r.running then "running" else if r.installed then "installed" else "not_installed"

abbrev native_row : String → String → EngineReport → AgentEngine
native_row agent_id now r = record {
  agent_id = agent_id;
  engine = r.engine;
  mode = "native";
  version = r.version;
  binary_path = r.binary_path;
  status = engine_status r;
  last_checked = now;
}

abbrev same_engine : AgentEngine → AgentEngine → Bool
same_engine x y = (x.agent_id == y.agent_id) && ((x.engine == y.engine) && (x.mode == y.mode))

upsert_engine : AgentEngine → List AgentEngine → List AgentEngine
upsert_engine e rows =
    if any (same_engine e) rows
    then map (λ (r : AgentEngine). if same_engine e r then e else r) rows
    else rows ++ e ∷ []

unfoldable pub store_engine : AgentEngine → Db → Db
unfolding upsert_engine
store_engine e s = record s { engines = upsert_engine e s.engines }

unfoldable pub store_report : String → String → EngineReport → Exec Db (Unit {0})
unfolding store_engine
store_report agent_id now r =
    if r.engine == ""
    then pure tt
    else require_agent agent_id >> modify (store_engine (native_row agent_id now r))

unfoldable pub store_reports : String → String → List EngineReport → Exec Db (Unit {0})
unfolding store_report
store_reports agent_id now [] = pure tt
store_reports agent_id now (r ∷ reports) = do
  store_report agent_id now r
  store_reports agent_id now reports

unfoldable pub is_queued_for : String → QuickTest → Bool
is_queued_for agent_id t = (t.agent_id == agent_id) && (t.status == "queued")

unfoldable pub is_engine_command : String → Bool
is_engine_command name =
    (name == "install_engine") || ((name == "start_engine") || (name == "stop_engine"))

unfoldable pub command_type : QuickTest → String
command_type t =
    if t.engine_name == "cleanup"
    then "cleanup_storage"
    else if is_engine_command t.benchmark_name
    then t.benchmark_name
    else "run_test"

-- A command: its payload is the row, and for engine commands the runtime config, a JSON text.
pub record Command : Type 0 where
  pub command_id : String
  pub test_id : String
  pub kind : String
  pub payload : QuickTest
  pub runtime_config : Option String

pub record HeartbeatReply : Type 0 where
  pub commands : List Command
  pub settings : List (String × String)

unfoldable pub mark_dispatched : String → List QuickTest → List QuickTest
mark_dispatched test_id tests =
    map (λ (t : QuickTest). if t.id == test_id then record t { status = "dispatched" } else t) tests

module _ (lib : Outside) where
  -- SELECT ... WHERE agent_id = ? AND status = 'queued' ORDER BY created_at LIMIT 1
  unfoldable pub older : Option QuickTest → QuickTest → QuickTest
  older none t = t
  older (some u) t = if lib.text_before u.created_at t.created_at then u else t

  unfoldable pub oldest_queued : String → List QuickTest → Option QuickTest
  unfolding older
  oldest_queued agent_id [] = none
  oldest_queued agent_id (t ∷ tests) =
      let rest = oldest_queued agent_id tests in
      if is_queued_for agent_id t then some (older rest t) else rest

  config_text : String → String
  config_text profile_id = if profile_id == "" then "{}" else profile_id

  parsed_config : String → String
  parsed_config raw = if lib.is_json raw then raw else "{}"

  unfoldable pub command_of : QuickTest → Command
  unfolding config_text parsed_config
  command_of t = record {
    command_id = t.command_id;
    test_id = t.id;
    kind = command_type t;
    payload = t;
    runtime_config =
        if is_engine_command (command_type t)
        then some (parsed_config (config_text t.profile_id))
        else none;
  }

  unfoldable pub dispatch_row : Option QuickTest → Exec Db (List Command)
  unfolding command_of
  dispatch_row none = pure []
  dispatch_row (some t) = do
    modify (λ s. record s { tests = mark_dispatched t.id s.tests })
    publish (record { event_type = "status"; source_id = t.id; payload = status_is "dispatched" })
    pure (command_of t ∷ [])

  unfoldable pub dispatch : String → Exec Db (List Command)
  unfolding dispatch_row
  dispatch agent_id = do row ← gets (λ s. oldest_queued agent_id s.tests); dispatch_row row

  beat : String → String → Agent → Agent
  beat status now a = record a {
    status = if status == "" then "idle" else status;
    last_heartbeat = now;
  }

  unfoldable pub heartbeat : String → String → List EngineReport → Exec Db HeartbeatReply
  unfolding beat store_reports
  heartbeat agent_id status engines = do
    now ← query lib.now
    modify (set_agents (update_agents agent_id (beat status now)))
    store_reports agent_id now engines
    commands ← dispatch agent_id
    settings ← gets (get_agent_settings agent_id)
    pure (record { commands = commands; settings = settings })
