-- ===== src/Stack/Variables.antt =====
-- The variables of the compose file and the lines of .env.
use mathlib.Core.List.{◌++◌ as append_lists}
use kitt.Prelude.{
  ℕ, String, Bool, true, false, Option, none, some, List, [], ◌∷◌, ◌≡◌, refl, sym, arith,
  if◌then◌else◌, ◌&&◌, ◌==◌, eqb, any, lookup, insert, Bool-cases, inl, inr,
}
use kitt.Prelude.Text.{codes, same_text}
use kitt.Stack.Services.{Service, Services, Volumes}
use kitt.Stack.Generate.{Compose, extend, with_component, database_url}
use kitt.Stack.Closed.{every, up_to}

braced : List ℕ → List (List ℕ) → List (List ℕ)
unfolding up_to
braced [] later = later
braced (d ∷ s) later = if eqb d b'{' then up_to b'}' s ∷ later else later

-- The names X of each ${X} in a text.
unfoldable pub variables : List ℕ → List (List ℕ)
unfolding braced
variables [] = []
variables (c ∷ s) = let later = variables s in if eqb c b'$' then braced s later else later

unfoldable pub is_set : List (List ℕ) → List ℕ → Bool
unfolding up_to same_text
is_set lines key = any (λ line. same_text (up_to b'=' line) key) lines

unfoldable pub is_supplied : List (List ℕ) → Service → Bool
is_supplied lines s = every (λ e. every (is_set lines) (variables e)) s.environment

-- Each variable in the environments of the services has a line.
unfoldable pub has_variables : List (List ℕ) → Option Compose → Bool
unfolding is_supplied
has_variables lines none = false
has_variables lines (some c) = every (λ (s : String × Service). is_supplied lines s.1) c.services

module _ (p : Service → Bool) where
  abbrev pub all_of : Services → Bool
  all_of services = every (λ (s : String × Service). p s.1) services

  pub all_of-insert :
      (k : String) (s : Service) (d : Services)
      → p s ≡ true
      → all_of d ≡ true
      → all_of (insert k s d) ≡ true
  unfolding insert
  all_of-insert k s [] h ds = ground arith
  all_of-insert k s ((j, t) ∷ d) h ds = ground (arith, all_of-insert k s d)

  pub all_of-extend :
      (d e : Services) → all_of d ≡ true → all_of e ≡ true → all_of (extend d e) ≡ true
  unfolding extend
  all_of-extend d [] ds es = ds
  all_of-extend d ((k, s) ∷ e) ds es =
      all_of-extend (insert k s d) e (all_of-insert k s d (ground arith) ds) (ground arith)

  pub all_of-with_component :
      (b : Bool) (part parts : Services × Volumes)
      → (b ≡ true → all_of part.0 ≡ true)
      → all_of parts.0 ≡ true
      → all_of (with_component b part parts).0 ≡ true
  unfolding with_component
  all_of-with_component true (svc, vol) (services, volumes) h hs =
      all_of-extend services svc hs (h refl)
  all_of-with_component false (svc, vol) (services, volumes) h hs = hs

  pub all_of-lookup :
      (k : String) (d : Services) (s : Service) → all_of d ≡ true → lookup k d ≡ some s → p s ≡ true
  unfolding lookup
  all_of-lookup k [] s ds e = absurd (cc)
  all_of-lookup k ((j, t) ∷ d) s ds e = elim (Bool-cases (j == k)) [
    | inl found ↦
        let e' : some t ≡ some s = rw found at e in
        let same : t ≡ s = cc e' in rw (sym same) (ground arith)
    | inr other ↦ all_of-lookup k d s (ground arith) (rw other at e)
  ]

pub every-append :
    {A : Type 0} (p : A → Bool) (xs ys : List A)
    → every p xs ≡ true
    → every p ys ≡ true
    → every p (append_lists xs ys) ≡ true
every-append p [] ys hx hy = hy
every-append p (x ∷ xs) ys hx hy = ground (arith, every-append p xs ys)

pub and-true : {a b : Bool} → a ≡ true → b ≡ true → (a && b) ≡ true
and-true h k = rw h k

-- A text with one variable, which has a line, and a text with none.
pub one-set :
    (lines : List (List ℕ)) (key text : List ℕ)
    → variables text ≡ key ∷ []
    → is_set lines key ≡ true
    → every (is_set lines) (variables text) ≡ true
one-set lines key text v h = rw v (rw h refl)

pub none-set :
    (lines : List (List ℕ)) (text : List ℕ)
    → variables text ≡ []
    → every (is_set lines) (variables text) ≡ true
none-set lines text v = rw v refl

pub secret_variable :
    variables (codes "KITT_SECRET_KEY=${KITT_SECRET_KEY}") ≡ codes "KITT_SECRET_KEY" ∷ []
unfolding variables
secret_variable = refl

pub auth_variable :
    variables (codes "KITT_AUTH_TOKEN=${KITT_AUTH_TOKEN}") ≡ codes "KITT_AUTH_TOKEN" ∷ []
unfolding variables
auth_variable = refl

pub url_variable :
    variables (codes "KITT_SERVER_URL=${KITT_SERVER_URL}") ≡ codes "KITT_SERVER_URL" ∷ []
unfolding variables
url_variable = refl

pub postgres_variable :
    variables (codes "POSTGRES_PASSWORD=${POSTGRES_PASSWORD}") ≡ codes "POSTGRES_PASSWORD" ∷ []
unfolding variables
postgres_variable = refl

pub grafana_variable :
    variables (codes "GF_SECURITY_ADMIN_PASSWORD=${GRAFANA_PASSWORD}")
    ≡ codes "GRAFANA_PASSWORD" ∷ []
unfolding variables
grafana_variable = refl

pub influxdb_variable :
    variables (codes "DOCKER_INFLUXDB_INIT_PASSWORD=${INFLUXDB_PASSWORD}")
    ≡ codes "INFLUXDB_PASSWORD" ∷ []
unfolding variables
influxdb_variable = refl

pub database_variable : variables database_url ≡ codes "POSTGRES_PASSWORD" ∷ []
unfolding variables database_url
database_variable = refl

pub token_variables :
    (token : List ℕ)
    → variables token ≡ []
    → variables (append_lists (codes "DOCKER_INFLUXDB_INIT_ADMIN_TOKEN=") token) ≡ []
unfolding variables
token_variables token h = h

pub db_variables : variables (codes "POSTGRES_DB=kitt") ≡ []
unfolding variables
db_variables = refl

pub user_variables : variables (codes "POSTGRES_USER=kitt") ≡ []
unfolding variables
user_variables = refl

pub admin_variables : variables (codes "GF_SECURITY_ADMIN_USER=admin") ≡ []
unfolding variables
admin_variables = refl

pub sign_up_variables : variables (codes "GF_USERS_ALLOW_SIGN_UP=false") ≡ []
unfolding variables
sign_up_variables = refl

pub mode_variables : variables (codes "DOCKER_INFLUXDB_INIT_MODE=setup") ≡ []
unfolding variables
mode_variables = refl

pub username_variables : variables (codes "DOCKER_INFLUXDB_INIT_USERNAME=kitt") ≡ []
unfolding variables
username_variables = refl

pub org_variables : variables (codes "DOCKER_INFLUXDB_INIT_ORG=kitt") ≡ []
unfolding variables
org_variables = refl

pub bucket_variables : variables (codes "DOCKER_INFLUXDB_INIT_BUCKET=benchmarks") ≡ []
unfolding variables
bucket_variables = refl
