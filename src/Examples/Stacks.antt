-- ===== src/Examples/Stacks.antt =====
-- A stack of every component but the report.
use kitt.Prelude.{ℕ, String, true, false, not, none, some, [], ◌≡◌, refl, ◌&&◌, ◌||◌}
use kitt.Prelude.Text.{codes}
use kitt.Stack.{StackConfig, Drawn}
use kitt.Stack.Generate.{build_compose, generate, env_lines}
use kitt.Stack.Closed.{fits, build_compose-fits}
use kitt.Stack.Variables.{variables, has_variables}
use kitt.Stack.Supplied.{build_compose-has_variables}
use kitt.Stack.Dockerfiles.{is_buildable, is_some, generate-is_buildable}
use kitt.Stack.Registry.{Registry, has_secrets}

abbrev show : ℕ → String
show n = "80"

abbrev lab : StackConfig
lab = record {
  name = "lab";
  web = true;
  reporting = false;
  agent = true;
  postgres = true;
  monitoring = true;
  web_port = 8080;
  agent_port = 8090;
  postgres_port = 5432;
  grafana_port = 3000;
  prometheus_port = 9090;
  influxdb_port = 8086;
  auth_token = "a1";
  secret_key = "b2";
  postgres_password = "c3";
  grafana_password = "d4";
  influxdb_token = "e5";
  local_dir = "";
  results_dir = "";
  server_url = "https://kitt:8080";
}

build_compose-fits_example : fits (build_compose show lab) ≡ true
build_compose-fits_example = build_compose-fits show lab

no_variable : variables (codes "e5") ≡ []
unfolding variables
no_variable = refl

build_compose-has_variables_example : has_variables (env_lines lab) (build_compose show lab) ≡ true
build_compose-has_variables_example = build_compose-has_variables show lab no_variable refl

generate-is_buildable_example :
    is_buildable (generate show lab (some "/kitt/docker/web/Dockerfile") [])
    ≡ (not true && (not (true || false) || is_some (some "/kitt/docker/web/Dockerfile")))
generate-is_buildable_example = generate-is_buildable show lab (some "/kitt/docker/web/Dockerfile")

abbrev drawn : Drawn
drawn = record {
  auth_token = "f6";
  secret_key = "a7";
  postgres_password = "b8";
  grafana_password = "c9";
  influxdb_token = "d0";
}

abbrev registry : Registry
registry = record { stacks = none }

lab-has_secrets : has_secrets lab ≡ true
unfolding has_secrets
lab-has_secrets = refl
