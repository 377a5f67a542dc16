-- ===== src/AgentDaemon/Execute.antt =====
-- daemon.py of the agent: what the threads of the commands do. Docker, the engines, the storage of
-- models and the processes are a World, whose calls may raise; a post to the server that fails is
-- only logged. What was sent stands in `sent`, the last first.
pub mod Test
pub mod Settled
pub mod Reported
pub mod Chosen
pub mod Tested
use Prim.Native.String.{String, ◌++◌ as append_text}
use mathlib.Core.List.{◌++◌ as append_lists}
use kitt.Prelude.{
  ℕ, Bool, true, false, not, Option, none, some, List, [], ◌∷◌, select, any, if◌then◌else◌, ◌==◌,
  ◌&&◌, ◌||◌, insert, remove,
}
use kitt.Prelude.Exec.{Result, ok, raised, Exec, pure, raise, gets, modify, try, ◌>>=◌, ◌>>◌}
use kitt.Prelude.Text.{codes, starts_with}

-- `result` is the data of a benchmark that goes with a report.
pub data Message : Type 0 where
  line : String → Message
  status : String → String → Message
  report : String → String → Option String → Message

pub record Daemon : Type 0 where
  pub active_containers : List (String × String)
  pub log_streamers : List String
  pub sent : List Message
  pub output_dirs : List String
  pub cleaned : List String
  pub kitt_image : String

-- A command, with the first eight characters of its id.
pub record Command : Type 0 where
  pub command_id : String
  pub short_id : String
  pub test_id : String

pub record ContainerSpec : Type 0 where
  pub image : String
  pub port : ℕ
  pub container_port : ℕ
  pub gpu : Bool
  pub volumes : List (String × String)
  pub env : List (String × String)
  pub extra_args : List String
  pub command_args : List String
  pub name : String
  pub health_url : String

pub record TestPayload : Type 0 where
  pub engine_name : String
  pub suite_name : String
  pub model_path : String
  pub benchmark_name : String
  pub engine_mode : String

-- What EngineOps tells: the lines that it logs, and its result.
pub record EngineAnswer : Type 0 where
  pub success : Bool
  pub pid : String
  pub error : Option String

pub record ModelStorage : Type 0 where
  pub auto_cleanup : Bool
  -- resolve_model, with the lines that it logs
  pub resolve_model : String → List String × Result String
  pub cleanup_model : String → Result (Unit {0})

pub record Exit : Type 0 where
  pub is_zero : Bool
  pub shown : String

-- A process: its output, and its exit where reading and waiting do not raise.
pub record Process : Type 0 where
  pub pid : String
  pub output : List String
  pub exit : Result Exit

pub record World : Type 0 where
  pub pull_image : String → Result Bool
  pub run_container : ContainerSpec → List String × Result String
  pub wait_for_healthy : String → Result Bool
  pub stop_container : String → Result Bool
  pub stream_logs : String → List String × Result Bool
  pub image_exists : String → Result Bool
  pub image_arch : String → Result String
  pub host_arch : Result String
  pub storage : Option ModelStorage
  pub tempdir : String
  -- mkdir(parents=True, exist_ok=True)
  pub mkdir : String → Result (Unit {0})
  -- the kitt beside the interpreter or on the path
  pub kitt_bin : Option String
  pub popen : List String → Result Process
  -- the text of metrics.json of a directory, `none` where there is no file, and the error of a read
  pub metrics : String → Option (Result String)
  pub start_engine : String → String → String → List String × Result EngineAnswer
  pub install_engine : String → List String × Result EngineAnswer

unfoldable pub send : Message → Daemon → Daemon
send m d = record d { sent = m ∷ d.sent }

unfoldable pub settle : {A : Type 0} → Result A → Exec Daemon A
settle r d = (r, d)

unfoldable pub on_log : String → Exec Daemon (Unit {0})
on_log text = modify (send (line text))

unfoldable pub log_lines : List String → Exec Daemon (Unit {0})
log_lines [] = pure tt
log_lines (l ∷ lines) = do on_log l; log_lines lines

-- Lines that a call logs, and then its result.
unfoldable pub logged : {A : Type 0} → List String × Result A → Exec Daemon A
logged (lines, r) = do log_lines lines; settle r

-- `if test_id:`
unfoldable pub update_status : Command → String → String → Exec Daemon (Unit {0})
update_status c s error = if c.test_id == "" then pure tt else modify (send (status s error))

-- _report
unfoldable pub send_report : String → String → Option String → Exec Daemon (Unit {0})
send_report s error result = modify (send (report s error result))

-- The status of the test and the report of the command, one after the other.
unfoldable pub conclude : Command → String → String → Exec Daemon (Unit {0})
conclude c s error = do update_status c s error; send_report s error none

unfoldable pub track : String → String → Daemon → Daemon
track command_id container d = record d {
  active_containers = insert command_id container d.active_containers;
}

abbrev without : String → List String → List String
without x xs = select (λ y. not (y == x)) xs

unfoldable pub forget_streamer : Command → Daemon → Daemon
forget_streamer c d = record d { log_streamers = without c.command_id d.log_streamers }

unfoldable pub forget : Command → Daemon → Daemon
forget c d = record d {
  active_containers = remove c.command_id d.active_containers;
  log_streamers = without c.command_id d.log_streamers;
}

-- _make_callbacks
unfoldable pub make_callbacks : Command → Daemon → Daemon
make_callbacks c d = record d {
  log_streamers = c.command_id ∷ without c.command_id d.log_streamers;
}

module _ (w : World) (c : Command) where
  unfoldable pub fail : String → String → Exec Daemon (Unit {0})
  fail text e = do on_log (append_text text e); conclude c "failed" e

  unfoldable pub stop_unhealthy : String → Exec Daemon (Unit {0})
  stop_unhealthy container = do
    on_log "Health check timed out — stopping container"
    settle (w.stop_container container)
    conclude c "failed" "Health check timeout"

  unfoldable pub run_healthy : String → Exec Daemon (Unit {0})
  run_healthy container = do
    on_log (append_text "Container healthy: " container)
    logged (w.stream_logs container)
    on_log "--- Container exited ---"
    conclude c "completed" ""

  unfoldable pub wait_healthy : ContainerSpec → Exec Daemon Bool
  wait_healthy spec = do
    on_log (append_text "Waiting for health: " spec.health_url)
    settle (w.wait_for_healthy spec.health_url)

  unfoldable pub run_container : ContainerSpec → Exec Daemon (Unit {0})
  unfolding stop_unhealthy run_healthy wait_healthy
  run_container spec = do
    update_status c "running" ""
    on_log (append_text "Pulling image: " spec.image)
    settle (w.pull_image spec.image)
    on_log "Starting container..."
    container ← logged (w.run_container spec)
    modify (track c.command_id container)
    healthy ← if spec.health_url == "" then pure true else wait_healthy spec
    if healthy then run_healthy container else stop_unhealthy container

  unfoldable pub execute_container : ContainerSpec → Exec Daemon (Unit {0})
  unfolding fail
  execute_container spec = do try (run_container spec) (fail "Error: "); modify (forget c)

  or_unknown : String → Option String → String
  or_unknown default none = default
  or_unknown default (some e) = e

  unfoldable pub engine_started : String → EngineAnswer → Exec Daemon (Unit {0})
  engine_started engine_name a = do
    on_log (
        append_text "Engine "
          (append_text engine_name (append_text " started (PID " (append_text a.pid ")"))))
    conclude c "completed" ""

  -- result["error"] is a KeyError where it is missing.
  unfoldable pub engine_refused : String → Option String → Exec Daemon (Unit {0})
  unfolding fail
  engine_refused engine_name none = raise "'error'"
  engine_refused engine_name (some e) =
      fail (append_text "Failed to start " (append_text engine_name ": ")) e

  unfoldable pub run_start : String → String → String → Exec Daemon (Unit {0})
  unfolding engine_started engine_refused
  run_start engine_name config model_path = do
    update_status c "running" ""
    a ← logged (w.start_engine engine_name config model_path)
    if a.success then engine_started engine_name a else engine_refused engine_name a.error

  unfoldable pub execute_start_engine : String → String → String → Exec Daemon (Unit {0})
  unfolding fail run_start
  execute_start_engine engine_name config model_path = do
    try (run_start engine_name config model_path) (fail "Error starting engine: ")
    modify (forget_streamer c)

  unfoldable pub install_refused : Option String → Exec Daemon (Unit {0})
  unfolding fail or_unknown
  install_refused error = fail "Install failed: " (or_unknown "Unknown error" error)

  unfoldable pub run_install : String → Exec Daemon (Unit {0})
  unfolding install_refused
  run_install engine_name = do
    update_status c "running" ""
    a ← logged (w.install_engine engine_name)
    if a.success then conclude c "completed" "" else install_refused a.error

  unfoldable pub execute_install_engine : String → Exec Daemon (Unit {0})
  unfolding fail run_install
  execute_install_engine engine_name = do
    try (run_install engine_name) (fail "Error: ")
    modify (forget_streamer c)

  unfoldable pub resolve_with : Option ModelStorage → String → List String × Result String
  resolve_with none model_path = ([], ok model_path)
  resolve_with (some storage) model_path = storage.resolve_model model_path

  -- Whether two architectures are known and differ.
  abbrev clash : String → String → Bool
  clash host image = not (host == "") && (not (image == "") && not (host == image))

  abbrev default_image : String
  default_image = "kitt:latest"

  image_clash : String → String → String → String
  image_clash image arch host = append_text "Image " (
      append_text image (
        append_text " is "
          (append_text arch (append_text ", host is " (append_text host " — skipping")))))

  default_clash : String → String → String
  default_clash arch host = append_text "kitt:latest is " (
      append_text arch (
        append_text ", host is "
          (append_text host " — run 'kitt-agent build' to build a compatible image")))

  -- While the image is chosen, the state is what is logged of it.
  note : String → Exec (List String) (Unit {0})
  note text = modify (λ lines. append_lists lines (text ∷ []))

  ask : {A : Type 0} → Result A → Exec (List String) A
  ask r lines = (r, lines)

  -- Whether the configured image, which exists, is for this host.
  check_image : String → Exec (List String) Bool
  unfolding note ask image_clash
  check_image image = do
    host ← ask w.host_arch
    arch ← ask (w.image_arch image)
    if clash host arch then note (image_clash image arch host) >> pure false else pure true

  check_default : Exec (List String) (Option String)
  unfolding note ask default_clash
  check_default = do
    arch ← ask (w.image_arch default_image)
    host ← ask w.host_arch
    if clash host arch
        then note (default_clash arch host) >> pure none
        else pure (some default_image)

  fall_back : String → Exec (List String) (Option String)
  unfolding ask check_default
  fall_back image =
      if image == default_image
      then pure none
      else (ask (w.image_exists default_image) >>= λ found.
          if found then check_default else pure none)

  -- The image to run, where there is one for this host: the configured one, or else kitt:latest.
  unfoldable pub choose_image : String → Exec (List String) (Option String)
  unfolding ask check_image fall_back
  choose_image image = do
    found ← ask (w.image_exists image)
    usable ← if found then check_image image else pure false
    if usable then pure (some image) else fall_back image

  -- What is logged, and the image.
  unfoldable pub chosen_image : String → List String × Result (Option String)
  chosen_image image = let (r, lines) = choose_image image [] in (lines, r)

  mode_args : String → List String
  mode_args mode = if mode == "" then [] else "--mode" ∷ mode ∷ []

  mount_args : String → List String
  mount_args path =
      if starts_with (codes path) (codes "/")
      then "-v" ∷ append_text path (append_text ":" (append_text path ":ro")) ∷ []
      else []

  unfoldable pub docker_args : TestPayload → String → String → String → List String
  unfolding mode_args mount_args
  docker_args p image path output_dir =
      append_lists
        ("docker"
          ∷ "run"
          ∷ "--rm"
          ∷ "--name"
          ∷ append_text "kitt-run-" c.short_id
          ∷ "--gpus"
          ∷ "all"
          ∷ "--network"
          ∷ "host"
          ∷ "--entrypoint"
          ∷ "kitt"
          ∷ "-v"
          ∷ "/var/run/docker.sock:/var/run/docker.sock"
          ∷ "-v"
          ∷ append_text output_dir (append_text ":" output_dir)
          ∷ [])
        (append_lists (mount_args path) (
          append_lists
            (image ∷ "run" ∷ "-m" ∷ path ∷ "-e" ∷ p.engine_name ∷ "-s" ∷ p.suite_name ∷ "-o"
              ∷ output_dir ∷ "--auto-pull" ∷ [])
            (mode_args p.engine_mode)))

  unfoldable pub local_args : TestPayload → String → String → String → List String
  unfolding mode_args
  local_args p kitt_bin path output_dir =
      append_lists
        (kitt_bin ∷ "run" ∷ "-m" ∷ path ∷ "-e" ∷ p.engine_name ∷ "-s" ∷ p.suite_name ∷ "-o"
          ∷ output_dir ∷ [])
        (mode_args p.engine_mode)
