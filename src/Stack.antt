-- ===== src/Stack.antt =====
-- src/kitt/stack: docker-compose stacks. config.py holds the configuration and the registry of the
-- stacks, generator.py builds the services and writes the directory of a stack.
pub mod Services
pub mod Generate
pub mod Closed
pub mod Variables
pub mod Supplied
pub mod Dockerfiles
pub mod Registry
use kitt.Prelude.{ℕ, String, Bool, if◌then◌else◌, ◌==◌}

-- StackConfig
pub record StackConfig : Type 0 where
  pub name : String
  pub web : Bool
  pub reporting : Bool
  pub agent : Bool
  pub postgres : Bool
  pub monitoring : Bool
  pub web_port : ℕ
  pub agent_port : ℕ
  pub postgres_port : ℕ
  pub grafana_port : ℕ
  pub prometheus_port : ℕ
  pub influxdb_port : ℕ
  pub auth_token : String
  pub secret_key : String
  pub postgres_password : String
  pub grafana_password : String
  pub influxdb_token : String
  pub local_dir : String
  pub results_dir : String
  pub server_url : String

-- What the module `secrets` draws for the five secrets.
pub record Drawn : Type 0 where
  pub auth_token : String
  pub secret_key : String
  pub postgres_password : String
  pub grafana_password : String
  pub influxdb_token : String

unfoldable pub or_drawn : String → String → String
or_drawn given drawn = if given == "" then drawn else given

-- model_post_init
unfoldable pub model_post_init : Drawn → StackConfig → StackConfig
model_post_init d c = record c {
  auth_token = or_drawn c.auth_token d.auth_token;
  secret_key = or_drawn c.secret_key d.secret_key;
  postgres_password = or_drawn c.postgres_password d.postgres_password;
  grafana_password = or_drawn c.grafana_password d.grafana_password;
  influxdb_token = or_drawn c.influxdb_token d.influxdb_token;
}
