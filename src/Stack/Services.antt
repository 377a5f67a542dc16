-- ===== src/Stack/Services.antt =====
-- generator.py of src/kitt/stack: the services and volumes of the components. `show` is str of a
-- port.
use Prim.Native.String.{◌++◌}
use mathlib.Core.List.{◌++◌ as append_lists}
use kitt.Prelude.Text.{codes}
use kitt.Prelude.{ℕ, String, Option, none, some, List, [], ◌∷◌}
use kitt.Stack.{StackConfig}

pub record Healthcheck : Type 0 where
  pub test : List String
  pub interval : String
  pub timeout : String
  pub retries : ℕ
  pub start_period : Option String

-- The forms of depends_on: names, or names with the condition of each.
pub data DependsOn : Type 0 where
  names : List String → DependsOn
  conditions : List (String × String) → DependsOn

-- resources.reservations.devices of deploy
pub record Devices : Type 0 where
  pub driver : String
  pub count : String
  pub capabilities : List String

-- A service. The environment is in code points. `dockerfile` is that of its build, with the context "."; an absent list is empty.
pub record Service : Type 0 where
  pub dockerfile : Option String
  pub image : Option String
  pub container_name : String
  pub command : List String
  pub ports : List String
  pub volumes : List String
  pub environment : List (List ℕ)
  pub depends_on : Option DependsOn
  pub restart : String
  pub healthcheck : Option Healthcheck
  pub deploy : Option Devices

-- A declared volume, whose value is None.
pub data Volume : Type 0 where
  no_options : Volume

abbrev pub Services : Type 0
Services = List (String × Service)

abbrev pub Volumes : Type 0
Volumes = List (String × Volume)

module _ (show : ℕ → String) where
  unfoldable pub web_service : StackConfig → Services × Volumes
  web_service c = (
    (
      "kitt-web",
      record {
        dockerfile = some "Dockerfile.web";
        image = none;
        container_name = "kitt-web-" ++ c.name;
        command = [];
        ports = (show c.web_port ++ ":8080") ∷ [];
        volumes =
            "kitt-data:/data" ∷ "kitt-certs:/root/.kitt/certs" ∷ "kitt-results:/app/kitt-results"
            ∷ [];
        environment =
            codes "KITT_SECRET_KEY=${KITT_SECRET_KEY}"
            ∷ codes "KITT_AUTH_TOKEN=${KITT_AUTH_TOKEN}"
            ∷ [];
        depends_on = none;
        restart = "unless-stopped";
        healthcheck = some (record {
          test = "CMD" ∷ "curl" ∷ "-f" ∷ "-k" ∷ "https://localhost:8080/api/v1/health" ∷ [];
          interval = "30s";
          timeout = "10s";
          retries = 3;
          start_period = some "10s";
        });
        deploy = none;
      },
    )
        ∷ [],
    ("kitt-data", no_options) ∷ ("kitt-certs", no_options) ∷ ("kitt-results", no_options) ∷ [],
  )

  unfoldable pub reporting_service : StackConfig → Services × Volumes
  reporting_service c = (
    (
      "kitt-reporting",
      record {
        dockerfile = some "Dockerfile.web";
        image = none;
        container_name = "kitt-reporting-" ++ c.name;
        command = "--host" ∷ "0.0.0.0" ∷ "--port" ∷ "8080" ∷ "--legacy" ∷ [];
        ports = (show c.web_port ++ ":8080") ∷ [];
        volumes = "kitt-data:/data" ∷ "kitt-results:/app/kitt-results" ∷ [];
        environment = codes "KITT_AUTH_TOKEN=${KITT_AUTH_TOKEN}" ∷ [];
        depends_on = none;
        restart = "unless-stopped";
        healthcheck = some (record {
          test = "CMD" ∷ "curl" ∷ "-f" ∷ "http://localhost:8080/api/v1/health" ∷ [];
          interval = "30s";
          timeout = "10s";
          retries = 3;
          start_period = some "10s";
        });
        deploy = none;
      },
    )
        ∷ [],
    ("kitt-data", no_options) ∷ ("kitt-results", no_options) ∷ [],
  )

  unfoldable pub agent_service : StackConfig → Services × Volumes
  agent_service c = (
    (
      "kitt-agent",
      record {
        dockerfile = some "Dockerfile.agent";
        image = none;
        container_name = "kitt-agent-" ++ c.name;
        command = [];
        ports = (show c.agent_port ++ ":8090") ∷ [];
        volumes = "/var/run/docker.sock:/var/run/docker.sock" ∷ [];
        environment =
            codes "KITT_AUTH_TOKEN=${KITT_AUTH_TOKEN}"
            ∷ codes "KITT_SERVER_URL=${KITT_SERVER_URL}"
            ∷ [];
        depends_on = none;
        restart = "unless-stopped";
        healthcheck = none;
        deploy = some (record { driver = "nvidia"; count = "all"; capabilities = "gpu" ∷ [] });
      },
    )
        ∷ [],
    [],
  )

  unfoldable pub postgres_service : StackConfig → Services × Volumes
  postgres_service c = (
    (
      "postgres",
      record {
        dockerfile = none;
        image = some "postgres:16-alpine";
        container_name = "kitt-postgres-" ++ c.name;
        command = [];
        ports = (show c.postgres_port ++ ":5432") ∷ [];
        volumes = "postgres-data:/var/lib/postgresql/data" ∷ [];
        environment =
            codes "POSTGRES_DB=kitt"
            ∷ codes "POSTGRES_USER=kitt"
            ∷ codes "POSTGRES_PASSWORD=${POSTGRES_PASSWORD}"
            ∷ [];
        depends_on = none;
        restart = "unless-stopped";
        healthcheck = some (record {
          test = "CMD-SHELL" ∷ "pg_isready -U kitt" ∷ [];
          interval = "10s";
          timeout = "5s";
          retries = 5;
          start_period = none;
        });
        deploy = none;
      },
    )
        ∷ [],
    ("postgres-data", no_options) ∷ [],
  )

  unfoldable pub prometheus : StackConfig → Service
  prometheus c = record {
    dockerfile = none;
    image = some "prom/prometheus:latest";
    container_name = "kitt-prometheus-" ++ c.name;
    command = [];
    ports = (show c.prometheus_port ++ ":9090") ∷ [];
    volumes =
        "./prometheus/prometheus.yml:/etc/prometheus/prometheus.yml:ro"
        ∷ "prometheus_data:/prometheus" ∷ [];
    environment = [];
    depends_on = none;
    restart = "unless-stopped";
    healthcheck = none;
    deploy = none;
  }

  unfoldable pub grafana : StackConfig → Service
  grafana c = record {
    dockerfile = none;
    image = some "grafana/grafana:latest";
    container_name = "kitt-grafana-" ++ c.name;
    command = [];
    ports = (show c.grafana_port ++ ":3000") ∷ [];
    volumes =
        "grafana_data:/var/lib/grafana" ∷ "./grafana/provisioning:/etc/grafana/provisioning:ro"
        ∷ "./grafana/dashboards:/var/lib/grafana/dashboards:ro" ∷ [];
    environment =
        codes "GF_SECURITY_ADMIN_PASSWORD=${GRAFANA_PASSWORD}"
        ∷ codes "GF_SECURITY_ADMIN_USER=admin"
        ∷ codes "GF_USERS_ALLOW_SIGN_UP=false"
        ∷ [];
    depends_on = some (names ("prometheus" ∷ []));
    restart = "unless-stopped";
    healthcheck = none;
    deploy = none;
  }

  unfoldable pub influxdb : StackConfig → Service
  influxdb c = record {
    dockerfile = none;
    image = some "influxdb:2";
    container_name = "kitt-influxdb-" ++ c.name;
    command = [];
    ports = (show c.influxdb_port ++ ":8086") ∷ [];
    volumes = "influxdb_data:/var/lib/influxdb2" ∷ [];
    environment =
        codes "DOCKER_INFLUXDB_INIT_MODE=setup"
        ∷ codes "DOCKER_INFLUXDB_INIT_USERNAME=kitt"
        ∷ codes "DOCKER_INFLUXDB_INIT_PASSWORD=${INFLUXDB_PASSWORD}"
        ∷ codes "DOCKER_INFLUXDB_INIT_ORG=kitt"
        ∷ codes "DOCKER_INFLUXDB_INIT_BUCKET=benchmarks"
        ∷ append_lists (codes "DOCKER_INFLUXDB_INIT_ADMIN_TOKEN=") (codes c.influxdb_token)
        ∷ [];
    depends_on = none;
    restart = "unless-stopped";
    healthcheck = none;
    deploy = none;
  }

  unfoldable pub monitoring_services : StackConfig → Services × Volumes
  monitoring_services c = (
    ("prometheus", prometheus c) ∷ ("grafana", grafana c) ∷ ("influxdb", influxdb c) ∷ [],
    ("prometheus_data", no_options)
        ∷ ("grafana_data", no_options)
        ∷ ("influxdb_data", no_options)
        ∷ [],
  )
