-- ===== src/Web/Agents/Registration.antt =====
-- provision, create_test_agent, register, delete_agent, update_agent and the settings of agents.
pub mod Provision
use kitt.Prelude.{
  ℕ, String, Bool, true, false, not, Option, none, some, List, [], ◌∷◌, ◌++◌, any, map, select,
  ◌||◌, ◌&&◌, if◌then◌else◌, ◌==◌,
}
use Prim.Native.String.{◌++◌ as append_text}
use kitt.Prelude.Exec.{Exec, Result, ok, raised, pure, gets, modify, ◌>>=◌, ◌>>◌}
use kitt.Web.Database.{
  Hardware, Agent, QuickTest, Setting, AgentEngine, WebCampaign, status_is, Db, Outside, query,
  find_by_name, update_agents, has_agent, set_agents, require_agent, insert_agent, publish,
}
use kitt.Web.Agents.Tokens.{take_text}

abbrev pub no_hardware : Hardware
no_hardware = record {
  gpu_info = "";
  gpu_count = 0;
  cpu_info = "";
  cpu_arch = "";
  ram_gb = 0;
  environment_type = "";
  fingerprint = "";
  kitt_version = "";
  hardware_details = "";
}

-- _DEFAULT_SETTINGS
abbrev pub default_settings : List (String × String)
default_settings =
    ("model_storage_dir", "~/.kitt/models")
    ∷ ("model_share_source", "")
    ∷ ("model_share_mount", "")
    ∷ ("auto_cleanup", "true")
    ∷ ("heartbeat_interval_s", "30")
    ∷ ("kitt_image", "")
    ∷ []

abbrev is_setting : String → String → Setting → Bool
is_setting agent_id key r = (r.agent_id == agent_id) && (r.key == key)

-- INSERT OR IGNORE
insert_or_ignore : String → List (String × String) → List Setting → List Setting
insert_or_ignore agent_id [] rows = rows
insert_or_ignore agent_id ((key, value) ∷ more) rows = insert_or_ignore agent_id more (
    if any (is_setting agent_id key) rows
    then rows
    else rows ++ record { agent_id = agent_id; key = key; value = value } ∷ [])

-- ON CONFLICT(agent_id, key) DO UPDATE
upsert : String → String × String → List Setting → List Setting
upsert agent_id (key, value) rows =
    if any (is_setting agent_id key) rows
    then map (λ (r : Setting). if is_setting agent_id key r then record r { value = value } else r)
        rows
    else rows ++ record { agent_id = agent_id; key = key; value = value } ∷ []

upsert_all : String → List (String × String) → List Setting → List Setting
unfolding upsert
upsert_all agent_id [] rows = rows
upsert_all agent_id (e ∷ more) rows = upsert_all agent_id more (upsert agent_id e rows)

unfoldable pub ensure_default_settings : String → Exec Db (Unit {0})
unfolding insert_or_ignore
ensure_default_settings agent_id = do
  require_agent agent_id
  modify (λ s. record s { settings = insert_or_ignore agent_id default_settings s.settings })

unfoldable pub get_agent_settings : String → Db → List (String × String)
get_agent_settings agent_id s =
    map (λ (r : Setting). (r.key, r.value))
      (select (λ (r : Setting). r.agent_id == agent_id) s.settings)

store_settings : String → List (String × String) → Exec Db Bool
unfolding upsert_all
store_settings agent_id [] = pure false
store_settings agent_id (e ∷ more) = do
  require_agent agent_id
  modify (λ s. record s { settings = upsert_all agent_id (e ∷ more) s.settings })
  pure true

pub update_agent_settings : String → List (String × String) → Exec Db Bool
unfolding store_settings
update_agent_settings agent_id updates = store_settings agent_id (
    select (λ (e : String × String). any (λ (d : String × String). d.0 == e.0) default_settings)
      updates)

pub record Provisioned : Type 0 where
  pub agent_id : String
  pub token : String
  pub token_prefix : String

module _ (lib : Outside) where
  -- UPDATE agents SET token_hash = ?, token_prefix = ?, port = ?: a legacy token is kept.
  unfoldable pub with_new_token : String → ℕ → Agent → Agent
  with_new_token raw_token port a = record a {
    token_hash = lib.hash raw_token;
    token_prefix = take_text 8 raw_token;
    port = port;
  }

  abbrev new_agent : String → String → String → ℕ → String → Agent
  new_agent agent_id name raw_token port now = record {
    id = agent_id;
    name = name;
    hostname = name;
    port = port;
    token = "";
    token_hash = lib.hash raw_token;
    token_prefix = take_text 8 raw_token;
    status = "provisioned";
    hardware = no_hardware;
    last_heartbeat = "";
    registered_at = now;
    notes = "";
    tags = "[]";
  }

  -- The row that `provision` writes; it gives the id.
  provision_row : String → String → ℕ → String → Option Agent → Exec Db String
  provision_row name raw_token port now (some a) = do
    modify (set_agents (update_agents a.id (with_new_token raw_token port)))
    pure a.id
  provision_row name raw_token port now none = do
    agent_id ← query lib.uuid_hex
    insert_agent (new_agent agent_id name raw_token port now)
    pure agent_id

  unfoldable pub provision : String → ℕ → Exec Db Provisioned
  unfolding provision_row
  provision name port = do
    raw_token ← query lib.token_hex
    now ← query lib.now
    row ← gets (λ s. find_by_name name s.agents)
    agent_id ← provision_row name raw_token port now row
    ensure_default_settings agent_id
    pure (record { agent_id = agent_id; token = raw_token; token_prefix = take_text 8 raw_token })

  -- create_test_agent, whose virtual hardware is that of the arguments
  pub create_test_agent : String → Hardware → Exec Db String
  create_test_agent name hardware = do
    agent_id ← query lib.uuid_hex
    now ← query lib.now
    insert_agent (record (new_agent agent_id name "" 0 now) {
      hostname = append_text "test-" name;
      token_hash = "";
      token_prefix = "";
      status = "online";
      hardware = record hardware { fingerprint = ""; kitt_version = ""; hardware_details = "" };
      last_heartbeat = now;
      tags = lib.dumped_test_tag;
    })
    ensure_default_settings agent_id
    pure agent_id

  -- AgentRegistration
  registered : String → ℕ → Hardware → String → Agent → Agent
  registered hostname port hardware now a = record a {
    hostname = hostname;
    port = port;
    status = "online";
    hardware = hardware;
    last_heartbeat = now;
  }

  hash_or_empty : String → String
  hash_or_empty token = if token == "" then "" else lib.hash token

  register_row : String → String → ℕ → Hardware → String → String → Option Agent → Exec Db String
  unfolding registered hash_or_empty
  register_row name hostname port hardware token now (some a) = do
    modify (set_agents (update_agents a.id (registered hostname port hardware now)))
    pure a.id
  register_row name hostname port hardware token now none = do
    agent_id ← query lib.uuid_hex
    insert_agent (record (new_agent agent_id name token port now) {
      hostname = hostname;
      token_hash = hash_or_empty token;
      status = "online";
      hardware = hardware;
      last_heartbeat = now;
    })
    pure agent_id

  pub register : String → String → ℕ → Hardware → String → Exec Db (String × ℕ)
  unfolding register_row
  register name hostname port hardware token = do
    now ← query lib.now
    row ← gets (λ s. find_by_name name s.agents)
    agent_id ← register_row name hostname port hardware token now row
    ensure_default_settings agent_id
    publish
        (record { event_type = "agent_status"; source_id = agent_id; payload = status_is "online" })
    pure (agent_id, 30)

  drop_agent : String → Bool → Db → Result Bool × Db
  drop_agent agent_id referred s =
      if not (has_agent agent_id s)
      then (ok false, s)
      else if referred
      then (raised "FOREIGN KEY constraint failed", s)
      else (
        ok true,
        record s {
          agents = select (λ (a : Agent). not (a.id == agent_id)) s.agents;
          settings = select (λ (r : Setting). not (r.agent_id == agent_id)) s.settings;
          engines = select (λ (e : AgentEngine). not (e.agent_id == agent_id)) s.engines;
        },
      )

  -- DELETE, where no test and no campaign refers to the agent; its settings and engines go with it.
  pub delete_agent : String → Exec Db Bool
  unfolding drop_agent
  delete_agent agent_id s =
      drop_agent agent_id
        (any (λ (t : QuickTest). t.agent_id == agent_id) s.tests
          || any (λ (c : WebCampaign). c.agent_id == agent_id) s.campaigns)
        s
