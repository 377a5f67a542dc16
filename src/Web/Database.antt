-- ===== src/Web/Database.antt =====
-- The tables of src/kitt/storage/migrations.py that the services of src/kitt/web work on, as lists of
-- rows in the order of insertion, and what the services use from outside.
use kitt.Prelude.{
  ◌≡◌, true, false, ℕ, suc, String, Bool, Option, none, some, List, [], ◌∷◌, ◌++◌, ◌||◌, any, map,
  if◌then◌else◌, ◌==◌,
}
use kitt.Prelude.Exec.{Exec, ok, raised}

-- What an agent reports about its machine.
pub record Hardware : Type 0 where
  pub gpu_info : String
  pub gpu_count : ℕ
  pub cpu_info : String
  pub cpu_arch : String
  pub ram_gb : ℕ
  pub environment_type : String
  pub fingerprint : String
  pub kitt_version : String
  pub hardware_details : String

pub record Agent : Type 0 where
  pub id : String
  pub name : String
  pub hostname : String
  pub port : ℕ
  pub token : String
  pub token_hash : String
  pub token_prefix : String
  pub status : String
  pub hardware : Hardware
  pub last_heartbeat : String
  pub registered_at : String
  pub notes : String
  pub tags : String

pub record QuickTest : Type 0 where
  pub id : String
  pub agent_id : String
  pub model_path : String
  pub engine_name : String
  pub benchmark_name : String
  pub suite_name : String
  pub status : String
  pub command_id : String
  pub engine_mode : String
  pub profile_id : String
  pub created_at : String
  pub started_at : String
  pub completed_at : String
  pub error : String

pub record Setting : Type 0 where
  pub agent_id : String
  pub key : String
  pub value : String

pub record AgentEngine : Type 0 where
  pub agent_id : String
  pub engine : String
  pub mode : String
  pub version : String
  pub binary_path : String
  pub status : String
  pub last_checked : String

-- A row of web_campaigns. `config` stands for the text of its configuration.
pub record WebCampaign : Type 0 where
  pub id : String
  pub name : String
  pub description : String
  pub config : String
  pub status : String
  pub agent_id : String
  pub created_at : String
  pub started_at : String
  pub completed_at : String
  pub total_runs : ℕ
  pub succeeded : ℕ
  pub failed : ℕ
  pub skipped : ℕ
  pub error : String

-- The lines that the execution of a campaign logs, before they are formatted: the number of the run
-- and of all runs come first.
pub data CampaignLine : Type 0 where
  started : ℕ → CampaignLine
  cancelled_by_user : CampaignLine
  queuing : ℕ → ℕ → String → String → String → CampaignLine
  waiting : ℕ → ℕ → CampaignLine
  agent_status : ℕ → ℕ → String → CampaignLine
  run_completed : ℕ → ℕ → CampaignLine
  run_failed : ℕ → ℕ → String → CampaignLine
  timed_out : ℕ → ℕ → CampaignLine
  finished : ℕ → ℕ → CampaignLine
  unexpected : CampaignLine

-- What the data of an event tell.
pub data EventData : Type 0 where
  status_is : String → EventData
  status_and_error : String → String → EventData
  line_is : String → EventData
  campaign_line_is : CampaignLine → EventData
  name_is : String → EventData

-- An event of the bus.
pub record Event : Type 0 where
  pub event_type : String
  pub source_id : String
  pub payload : EventData

pub record Db : Type 0 where
  pub agents : List Agent
  pub tests : List QuickTest
  pub settings : List Setting
  pub engines : List AgentEngine
  pub test_logs : List (String × String)
  pub campaigns : List WebCampaign
  pub campaign_logs : List (String × CampaignLine)
  pub published : List Event
  pub asked : ℕ

-- SHA-256 in hex, random hex texts, clocks, JSON, and SQLite's order of texts. `age_us` is the age of
-- a time stamp in microseconds, rounded up, 0 for one that is not past, `none` for one that does not
-- parse; `loads_tags` gives the tags, `none` for a text that is not JSON.
pub record Outside : Type 0 where
  pub hash : String → String
  pub token_hex : ℕ → String
  pub uuid_hex : ℕ → String
  pub now : ℕ → String
  pub sqlite_now : ℕ → String
  pub age_us : ℕ → String → Option ℕ
  pub loads_tags : String → Option (List String)
  pub dumped_test_tag : String
  pub is_json : String → Bool
  pub text_before : String → String → Bool

-- ORDER BY on a text column: what SQLite's comparison of texts satisfies.
pub record IsTextOrder (lib : Outside) : Type 0 where
  pub asym : (x y : String) → lib.text_before x y ≡ true → lib.text_before y x ≡ false
  pub not_before_trans :
      (x y z : String)
      → lib.text_before x y ≡ false
      → lib.text_before y z ≡ false
      → lib.text_before x z ≡ false

module _ {A : Type 0} where
  unfoldable pub query : (ℕ → A) → Exec Db A
  query question s = (ok (question s.asked), record s { asked = suc s.asked })

unfoldable pub find_agent : String → List Agent → Option Agent
find_agent agent_id [] = none
find_agent agent_id (a ∷ rows) = if a.id == agent_id then some a else find_agent agent_id rows

unfoldable pub find_by_name : String → List Agent → Option Agent
find_by_name name [] = none
find_by_name name (a ∷ rows) = if a.name == name then some a else find_by_name name rows

-- UPDATE agents SET ... WHERE id = ?
unfoldable pub update_agents : String → (Agent → Agent) → List Agent → List Agent
update_agents agent_id change rows =
    map (λ (a : Agent). if a.id == agent_id then change a else a) rows

abbrev pub has_agent : String → Db → Bool
has_agent agent_id s = any (λ (a : Agent). a.id == agent_id) s.agents

unfoldable pub set_agents : (List Agent → List Agent) → Db → Db
set_agents f s = record s { agents = f s.agents }

-- A foreign key: the agent must stand in the table.
unfoldable pub require_agent : String → Exec Db (Unit {0})
require_agent agent_id s =
    if has_agent agent_id s then (ok tt, s) else (raised "FOREIGN KEY constraint failed", s)

-- INSERT INTO agents, where the id and the name are new.
unfoldable pub insert_agent : Agent → Exec Db (Unit {0})
insert_agent a s =
    if any (λ (b : Agent). (b.id == a.id) || (b.name == a.name)) s.agents
    then (raised "UNIQUE constraint failed", s)
    else (ok tt, record s { agents = s.agents ++ a ∷ [] })

unfoldable pub publish : Event → Exec Db (Unit {0})
publish e s = (ok tt, record s { published = s.published ++ e ∷ [] })

abbrev pub has_test_row : String → Db → Bool
has_test_row test_id s = any (λ (u : QuickTest). u.id == test_id) s.tests

-- INSERT INTO quick_tests, where the id is new and the agent is listed.
unfoldable pub insert_test : QuickTest → Exec Db (Unit {0})
insert_test t s =
    if has_test_row t.id s
    then (raised "UNIQUE constraint failed", s)
    else if has_agent t.agent_id s
    then (ok tt, record s { tests = s.tests ++ t ∷ [] })
    else (raised "FOREIGN KEY constraint failed", s)

-- UPDATE quick_tests SET ... WHERE id = ?
unfoldable pub update_tests : String → (QuickTest → QuickTest) → Db → Db
update_tests test_id change s = record s {
  tests = map (λ (t : QuickTest). if t.id == test_id then change t else t) s.tests;
}
