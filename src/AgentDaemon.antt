-- ===== src/AgentDaemon.antt =====
-- src/kitt_agent/daemon.py of agent-package: which thread a command starts, for commands of a heartbeat
-- (handle_command) and of a request (receive_command).
pub mod Known
pub mod Execute
use Prim.Native.String.{◌++◌ as append_text}
use kitt.Prelude.{
  ℕ, String, Bool, true, false, not, Option, none, some, List, [], ◌∷◌, any, lookup, if◌then◌else◌,
  ◌==◌, ◌&&◌, ◌||◌,
}

-- The thread that is started.
pub data Started : Type 0 where
  container test cleanup engine_start engine_install : Started

-- _dispatch_command, `none` for an unknown type, which is only logged
unfoldable pub dispatch_command : String → Option Started
dispatch_command cmd_type =
    if cmd_type == "run_container"
    then some container
    else if cmd_type == "run_test"
    then some test
    else if cmd_type == "cleanup_storage"
    then some cleanup
    else if cmd_type == "start_engine"
    then some engine_start
    else if cmd_type == "install_engine"
    then some engine_install
    else none

-- What receive_command reads of a body, `none` for a missing key.
pub record CommandBody : Type 0 where
  pub kind : String
  pub engine_name : Option String
  pub suite_name : Option String
  pub target_command : Option String

-- The answer to a request, with what is called on the way.
pub data Response : Type 0 where
  refused : ℕ → Response
  container_stopped : String → Response
  docker_asked : Response
  engine_asked : String → Response
  all_engines_asked : Response
  engine_stopped : String → Response
  accepted : Option Started → Response

abbrev or_default : String → Option String → String
or_default default none = default
or_default default (some v) = v

abbrev one_of : List String → String → Bool
one_of names x = any (λ n. n == x) names

abbrev valid_engines : List String
valid_engines = "vllm" ∷ "llama_cpp" ∷ "ollama" ∷ "exllamav2" ∷ "mlx" ∷ []

abbrev valid_suites : List String
valid_suites = "quick" ∷ "standard" ∷ "performance" ∷ []

-- A test with an engine or a suite that the agent does not have.
unfoldable pub is_invalid : CommandBody → Bool
is_invalid b =
    (b.kind == "run_test")
    && (not (one_of valid_engines (or_default "vllm" b.engine_name))
        || not (one_of valid_suites (or_default "quick" b.suite_name)))

stop_found : Option String → Response
stop_found none = refused 404
stop_found (some cid) = if cid == "" then refused 404 else container_stopped cid

asked_engine : String → Response
asked_engine name = if name == "" then all_engines_asked else engine_asked name

abbrev async_commands : List String
async_commands =
    "run_container" ∷ "run_test" ∷ "cleanup_storage" ∷ "start_engine" ∷ "install_engine" ∷ []

-- The command itself, by its type.
unfoldable pub receive_type : List (String × String) → CommandBody → Response
unfolding stop_found asked_engine
receive_type active_containers b =
    if b.kind == "stop_container"
    then stop_found (lookup (or_default "" b.target_command) active_containers)
    else if b.kind == "check_docker"
    then docker_asked
    else if b.kind == "engine_status"
    then asked_engine (or_default "" b.engine_name)
    else if b.kind == "stop_engine"
    then engine_stopped (or_default "" b.engine_name)
    else if one_of async_commands b.kind
    then accepted (dispatch_command b.kind)
    else refused 400

-- POST /api/commands, where `active_containers` are the containers of the commands, `given` is the
-- header Authorization, and `none` is a body that is not JSON, or empty.
unfoldable pub receive_command :
    String → String → List (String × String) → Option CommandBody → Response
receive_command token given active_containers none =
    if given == append_text "Bearer " token then refused 400 else refused 401
receive_command token given active_containers (some b) =
    if given == append_text "Bearer " token
    then if is_invalid b then refused 400 else receive_type active_containers b
    else refused 401
