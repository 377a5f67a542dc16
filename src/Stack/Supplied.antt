-- ===== src/Stack/Supplied.antt =====
-- Why each variable of the compose file is set by .env: the lines that a component brings, its
-- services, and the wiring of the database.
use mathlib.Core.List.{◌++◌ as append_lists}
use kitt.Prelude.{
  ℕ, String, Bool, true, false, Option, none, some, List, [], ◌∷◌, ◌≡◌, refl, ◌&&◌, ◌==◌, lookup,
  insert, Bool-cases, inl, inr,
}
use kitt.Prelude.Text.{codes}
use kitt.Stack.{StackConfig}
use kitt.Stack.Services.{
  Service, Services, Volumes, conditions, web_service, reporting_service, agent_service,
  postgres_service, monitoring_services, prometheus, grafana, influxdb,
}
use kitt.Stack.Generate.{
  build_compose, merged_parts, web_key, env_lines, waits, database_url, wire_into, put_back,
  wire_found, wire_key, wire_postgres, composed,
}
use kitt.Stack.Closed.{every, fits, build_compose-fits}
use kitt.Stack.Variables.{
  admin_variables, all_of, all_of-insert, all_of-lookup, all_of-with_component, and-true,
  auth_variable, bucket_variables, database_variable, db_variables, every-append, grafana_variable,
  has_variables, influxdb_variable, is_set, is_supplied, mode_variables, none-set, one-set,
  org_variables, postgres_variable, secret_variable, sign_up_variables, token_variables,
  url_variable, user_variables, username_variables, variables,
}

module _ (show : ℕ → String) (c : StackConfig) where
  secret_set : is_set (env_lines c) (codes "KITT_SECRET_KEY") ≡ true
  unfolding is_set env_lines
  secret_set = refl

  auth_set : is_set (env_lines c) (codes "KITT_AUTH_TOKEN") ≡ true
  unfolding is_set env_lines
  auth_set = refl

  postgres_set : c.postgres ≡ true → is_set (env_lines c) (codes "POSTGRES_PASSWORD") ≡ true
  unfolding is_set env_lines
  postgres_set h = rw h refl

  influxdb_set : c.monitoring ≡ true → is_set (env_lines c) (codes "INFLUXDB_PASSWORD") ≡ true
  unfolding is_set env_lines
  influxdb_set h = elim (Bool-cases c.postgres) [ inl p ↦ rw (h, p) refl | inr n ↦ rw (h, n) refl ]

  grafana_set : c.monitoring ≡ true → is_set (env_lines c) (codes "GRAFANA_PASSWORD") ≡ true
  unfolding is_set env_lines
  grafana_set h = elim (Bool-cases c.postgres) [ inl p ↦ rw (h, p) refl | inr n ↦ rw (h, n) refl ]

  url_set :
      c.agent ≡ true
      → (c.server_url == "") ≡ false
      → is_set (env_lines c) (codes "KITT_SERVER_URL") ≡ true
  unfolding is_set env_lines
  url_set h u = elim (Bool-cases c.postgres) [
    | inl p ↦ elim (Bool-cases c.monitoring) [
      | inl m ↦ rw (p, m, h, u) refl
      | inr m ↦ rw (p, m, h, u) refl
    ]
    | inr p ↦ elim (Bool-cases c.monitoring) [
      | inl m ↦ rw (p, m, h, u) refl
      | inr m ↦ rw (p, m, h, u) refl
    ]
  ]

  abbrev ok : Service → Bool
  ok = is_supplied (env_lines c)

  web-supplied : all_of ok (web_service show c).0 ≡ true
  unfolding is_supplied web_service
  web-supplied =
      and-true
        (and-true (one-set _ _ _ secret_variable secret_set)
          (and-true (one-set _ _ _ auth_variable auth_set) refl))
        refl

  reporting-supplied : all_of ok (reporting_service show c).0 ≡ true
  unfolding is_supplied reporting_service
  reporting-supplied = and-true (and-true (one-set _ _ _ auth_variable auth_set) refl) refl

  postgres-supplied : c.postgres ≡ true → all_of ok (postgres_service show c).0 ≡ true
  unfolding is_supplied postgres_service
  postgres-supplied h =
      and-true
        (and-true (none-set _ (codes "POSTGRES_DB=kitt") db_variables) (
          and-true (none-set _ (codes "POSTGRES_USER=kitt") user_variables)
            (and-true (one-set _ _ _ postgres_variable (postgres_set h)) refl)))
        refl

  agent-supplied :
      c.agent ≡ true → (c.server_url == "") ≡ false → all_of ok (agent_service show c).0 ≡ true
  unfolding is_supplied agent_service
  agent-supplied h u =
      and-true
        (and-true (one-set _ _ _ auth_variable auth_set)
          (and-true (one-set _ _ _ url_variable (url_set h u)) refl))
        refl

  prometheus-supplied : ok (prometheus show c) ≡ true
  unfolding is_supplied prometheus
  prometheus-supplied = refl

  grafana-supplied : c.monitoring ≡ true → ok (grafana show c) ≡ true
  unfolding is_supplied grafana
  grafana-supplied h = and-true (one-set _ _ _ grafana_variable (grafana_set h)) (
      and-true (none-set _ (codes "GF_SECURITY_ADMIN_USER=admin") admin_variables)
        (and-true (none-set _ (codes "GF_USERS_ALLOW_SIGN_UP=false") sign_up_variables) refl))

  influxdb-supplied :
      c.monitoring ≡ true → variables (codes c.influxdb_token) ≡ [] → ok (influxdb show c) ≡ true
  unfolding is_supplied influxdb
  influxdb-supplied h t =
      and-true (none-set _ (codes "DOCKER_INFLUXDB_INIT_MODE=setup") mode_variables) (
        and-true (none-set _ (codes "DOCKER_INFLUXDB_INIT_USERNAME=kitt") username_variables) (
          and-true (one-set _ _ _ influxdb_variable (influxdb_set h)) (
            and-true (none-set _ (codes "DOCKER_INFLUXDB_INIT_ORG=kitt") org_variables) (
              and-true
                (none-set _ (codes "DOCKER_INFLUXDB_INIT_BUCKET=benchmarks") bucket_variables)
                (and-true (none-set _ _ (token_variables (codes c.influxdb_token) t)) refl)))))

  monitoring-supplied :
      c.monitoring ≡ true
      → variables (codes c.influxdb_token) ≡ []
      → all_of ok (monitoring_services show c).0 ≡ true
  unfolding monitoring_services
  monitoring-supplied h t =
      and-true (prometheus-supplied)
        (and-true (grafana-supplied h) (and-true (influxdb-supplied h t) refl))

  merged-supplied :
      variables (codes c.influxdb_token) ≡ []
      → (c.agent && (c.server_url == "")) ≡ false
      → all_of ok (merged_parts show c).0 ≡ true
  unfolding merged_parts
  merged-supplied t u =
      all_of-with_component ok c.monitoring (monitoring_services show c) _
        (λ h. monitoring-supplied h t)
        (all_of-with_component ok c.agent (agent_service show c) _
          (λ h. agent-supplied h (rw h at u))
          (all_of-with_component ok c.postgres (postgres_service show c) _ postgres-supplied (
            all_of-with_component ok c.reporting (reporting_service show c) _
              (λ h. reporting-supplied)
              (all_of-with_component ok c.web (web_service show c) ([], []) (λ h. web-supplied)
                refl))))

  wire_into-supplied :
      (s t : Service) (d : Option (List (String × String)))
      → c.postgres ≡ true
      → ok s ≡ true
      → wire_into s d ≡ some t
      → ok t ≡ true
  unfolding wire_into is_supplied
  wire_into-supplied s t none p h e = absurd (cc)
  wire_into-supplied s t (some d) p h e =
      let wired : Service = record s {
        depends_on = some (conditions d);
        environment = append_lists s.environment (database_url ∷ []);
      } in
      let same : wired ≡ t = cc e in
      rw (← same) (
        every-append (λ x. every (is_set (env_lines c)) (variables x)) s.environment
          (database_url ∷ []) h (and-true (one-set _ _ _ database_variable (postgres_set p)) refl))

  put_back-supplied :
      (key : String) (services out : Services) (o : Option Service)
      → all_of ok services ≡ true
      → ((t : Service) → o ≡ some t → ok t ≡ true)
      → put_back key services o ≡ some out
      → all_of ok out ≡ true
  unfolding put_back
  put_back-supplied key services out none hs h e = absurd (cc)
  put_back-supplied key services out (some t) hs h e =
      let same : insert key t services ≡ out = cc e in
      rw (← same) (all_of-insert ok key t services (h t refl) hs)

  wire_found-supplied :
      (key : String) (services out : Services) (o : Option Service)
      → c.postgres ≡ true
      → all_of ok services ≡ true
      → ((s : Service) → o ≡ some s → ok s ≡ true)
      → wire_found key services o ≡ some out
      → all_of ok out ≡ true
  unfolding wire_found
  wire_found-supplied key services out none p hs h e =
      let same : services ≡ out = cc e in rw (← same) hs
  wire_found-supplied key services out (some s) p hs h e =
      put_back-supplied key services out (wire_into s (waits s.depends_on)) hs
        (λ t e'. wire_into-supplied s t (waits s.depends_on) p (h s refl) e') e

  wire_key-supplied :
      (key : Option String) (services out : Services)
      → c.postgres ≡ true
      → all_of ok services ≡ true
      → wire_key key services ≡ some out
      → all_of ok out ≡ true
  unfolding wire_key
  wire_key-supplied none services out p hs e = let same : services ≡ out = cc e in rw (← same) hs
  wire_key-supplied (some key) services out p hs e =
      wire_found-supplied key services out (lookup key services) p hs
        (λ s e'. all_of-lookup ok key services s hs e') e

  wire_postgres-supplied :
      (services out : Services)
      → all_of ok services ≡ true
      → wire_postgres c services ≡ some out
      → all_of ok out ≡ true
  unfolding wire_postgres
  wire_postgres-supplied services out hs e = elim (Bool-cases c.postgres) [
    | inl p ↦ wire_key-supplied (web_key c) services out p hs (rw p at e)
    | inr n ↦
        let e' : some services ≡ some out = rw n at e in
        let same : services ≡ out = cc e' in rw (← same) hs
  ]

  composed-supplied :
      (volumes : Volumes) (o : Option Services)
      → ((out : Services) → o ≡ some out → all_of ok out ≡ true)
      → fits (composed volumes o) ≡ true
      → has_variables (env_lines c) (composed volumes o) ≡ true
  unfolding has_variables composed fits
  composed-supplied volumes none h f = absurd (cc)
  composed-supplied volumes (some out) h f = h out refl

  -- Where the token of InfluxDB holds no variable and an agent has the URL of its server, each
  -- variable in the environments of the compose file is set by a line of .env.
  pub build_compose-has_variables :
      variables (codes c.influxdb_token) ≡ []
      → (c.agent && (c.server_url == "")) ≡ false
      → has_variables (env_lines c) (build_compose show c) ≡ true
  unfolding build_compose
  build_compose-has_variables t u =
      composed-supplied (merged_parts show c).1 (wire_postgres c (merged_parts show c).0)
        (λ out e. wire_postgres-supplied (merged_parts show c).0 out (merged-supplied t u) e)
        (build_compose-fits show c)
