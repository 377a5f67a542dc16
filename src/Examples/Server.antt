-- ===== src/Examples/Server.antt =====
-- The theorems on the server at a table with one agent and one queued test.
use Prim.Native.String.{◌++◌ as append_text}
use kitt.Prelude.{
  ltb, length, true, false, none, some, [], ◌∷◌, ◌≡◌, ◌≢◌, ◌↔◌, refl, ◌==◌, eq_iff, arith,
}
use kitt.Prelude.Text.{codes}
use kitt.Prelude.Exec.{ok, gets, modify, pure, ◌>>=◌}
use kitt.Web.Events.{Bus, publish_event}
use kitt.Web.Events.Bounds.{IsBounded, publish_event-IsBounded}
use kitt.Web.Database.{
  Event, line_is, Agent, QuickTest, Db, Outside, IsTextOrder, find_agent, find_by_name,
  update_agents, set_agents, require_agent, query,
}
use kitt.Web.Agents.Registration.{
  no_hardware, Provisioned, with_new_token, provision, ensure_default_settings,
}
use kitt.Web.Agents.Registration.Provision.{provision-auth}
use kitt.Web.Agents.Tokens.{check_agent_auth, rotate_token, take_text}
use kitt.Web.Agents.Tokens.Auth.{
  answered, IsLetIn, IsUncomparable, check_agent_auth_iff, rotate_token-auth,
}
use kitt.Web.Agents.Stale.{is_stale, is_test_row}

abbrev pub lib : Outside
lib = record {
  hash = λ t. append_text "h" t;
  token_hex = λ _. "secret";
  uuid_hex = λ _. "id";
  now = λ _. "2025-01-01T00:00:00";
  sqlite_now = λ _. "2025-01-01 00:00:00";
  age_us = λ _ _. some 120000000;
  loads_tags = λ _. some [];
  dumped_test_tag = "[\"test\"]";
  is_json = λ _. true;
  text_before = λ _ _. false;
}

abbrev an_agent : Agent
an_agent = record {
  id = "a1";
  name = "spark";
  hostname = "spark";
  port = 8090;
  token = "legacy";
  token_hash = "";
  token_prefix = "";
  status = "idle";
  hardware = no_hardware;
  last_heartbeat = "2024-12-31T00:00:00";
  registered_at = "2024-12-31T00:00:00";
  notes = "";
  tags = "[]";
}

abbrev pub a_test : QuickTest
a_test = record {
  id = "t1";
  agent_id = "a1";
  model_path = "/models/llama";
  engine_name = "vllm";
  benchmark_name = "throughput";
  suite_name = "quick";
  status = "queued";
  command_id = "c1";
  engine_mode = "docker";
  profile_id = "";
  created_at = "2025-01-01T00:00:00";
  started_at = "";
  completed_at = "";
  error = "";
}

abbrev pub tables : Db
tables = record {
  agents = an_agent ∷ [];
  tests = a_test ∷ [];
  settings = [];
  engines = [];
  test_logs = [];
  campaigns = [];
  campaign_logs = [];
  published = [];
  asked = 0;
}

listed : find_agent "a1" tables.agents ≡ some an_agent
unfolding find_agent
listed = refl

check_agent_auth_iff_example :
    ((answered (check_agent_auth lib "a1" "legacy" tables) ≡ some true)
      ↔ IsLetIn lib an_agent "legacy")
    × ((answered (check_agent_auth lib "a1" "legacy" tables) ≡ none)
        ↔ IsUncomparable an_agent "legacy")
check_agent_auth_iff_example = check_agent_auth_iff lib "a1" "legacy" tables an_agent listed

hashes_differ : lib.hash "legacy" ≢ lib.hash "secret"
hashes_differ h =
    let same : ("hlegacy" == "hsecret") ≡ true = (eq_iff "hlegacy" "hsecret").1 h in
    let differ : ("hlegacy" == "hsecret") ≡ false = refl in cc (same, differ)

rotate_token-auth_example :
    (answered (check_agent_auth lib "a1" "secret" (rotate_token lib "a1" tables).1) ≡ some true)
    × (answered (check_agent_auth lib "a1" "legacy" (rotate_token lib "a1" tables).1) ≡ some false)
rotate_token-auth_example =
    rotate_token-auth lib "a1" "legacy" tables an_agent listed refl refl hashes_differ

-- An order of texts, by their lengths.
abbrev pub by_length : Outside
by_length = record lib { text_before = λ x y. ltb (length (codes x)) (length (codes y)) }

pub by_length-IsTextOrder : IsTextOrder by_length
by_length-IsTextOrder = record {
  asym = λ x y h. ground (arith, h);
  not_before_trans = λ x y z h k. ground (arith, h, k);
}

an_agent_stale : is_stale lib 0 an_agent ≡ true
unfolding is_stale is_test_row
an_agent_stale = refl

abbrev provisioned_token : Provisioned
provisioned_token = record { agent_id = "a1"; token = "secret"; token_prefix = "secret" }

provisioned : (provision lib "spark" 9000 tables).0 ≡ ok provisioned_token
unfolding provision ensure_default_settings require_agent query find_by_name update_agents
    set_agents take_text with_new_token gets modify pure ◌>>=◌
provisioned = refl

provision-auth_example :
    (provisioned_token.token ≡ lib.token_hex 0)
    × (answered (check_agent_auth lib "a1" "secret" (provision lib "spark" 9000 tables).1)
        ≡ some true)
provision-auth_example =
    provision-auth lib "spark" 9000 tables provisioned_token provisioned refl refl

-- A bus that remembers one event and has one subscriber, whose queue is full.
abbrev an_event : Event
an_event = record { event_type = "log"; source_id = "c1"; payload = line_is "running" }

abbrev a_bus : Bus
a_bus = record {
  subscribers = ("s1", record { max_size = 1; waiting = an_event ∷ [] }) ∷ [];
  history = an_event ∷ [];
  max_history = 1;
  counter = 1;
}

a_bus-IsBounded : IsBounded a_bus
a_bus-IsBounded = record {
  history_fits = omega arith;
  queues_fit = ((omega arith, omega arith), tt);
}

publish_event-IsBounded_example :
    IsBounded (publish_event an_event a_bus) × ((publish_event an_event a_bus).counter ≡ 2)
publish_event-IsBounded_example =
    publish_event-IsBounded an_event a_bus (omega arith) a_bus-IsBounded
