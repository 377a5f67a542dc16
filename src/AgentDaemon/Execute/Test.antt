-- ===== src/AgentDaemon/Execute/Test.antt =====
-- _execute_test and _execute_cleanup of the agent's daemon.
use Prim.Native.String.{String, ◌++◌ as append_text}
use kitt.Prelude.{not, Option, none, some, List, ◌∷◌, if◌then◌else◌, ◌==◌, ◌&&◌}
use kitt.Prelude.Exec.{Result, ok, raised, Exec, pure, gets, modify, try, ◌>>=◌, ◌>>◌}
use kitt.AgentDaemon.Execute.{
  Daemon, Command, TestPayload, ModelStorage, World, Process, Exit, settle, on_log, log_lines,
  logged, update_status, send_report, track, without, forget, fail, resolve_with, chosen_image,
  docker_args, local_args,
}

unfoldable pub add_dir : String → Daemon → Daemon
add_dir dir d = record d { output_dirs = dir ∷ d.output_dirs }

-- rmtree(output_dir, ignore_errors=True)
unfoldable pub remove_dir : String → Daemon → Daemon
remove_dir dir d = record d { output_dirs = without dir d.output_dirs }

unfoldable pub note_cleaned : String → Daemon → Daemon
note_cleaned path d = record d { cleaned = path ∷ d.cleaned }

-- What runs the benchmark: its arguments, what is logged of it, and the name by which a container is
-- stopped.
pub record Runner : Type 0 where
  pub args : List String
  pub note : String
  pub container : Option String

module _ (w : World) (c : Command) where
  docker_runner : TestPayload → String → String → String → Runner
  docker_runner p image path dir = record {
    args = docker_args w c p image path dir;
    note = append_text "Running KITT benchmark in container (" (append_text image ")");
    container = some (append_text "kitt-run-" c.short_id);
  }

  local_runner : TestPayload → String → String → String → Runner
  local_runner p kitt_bin path dir = record {
    args = local_args w c p kitt_bin path dir;
    note = append_text "Running KITT benchmark locally (" (append_text kitt_bin ")");
    container = none;
  }

  local_choice : TestPayload → String → String → Option String → Option Runner
  unfolding local_runner
  local_choice p path dir none = none
  local_choice p path dir (some kitt_bin) = some (local_runner p kitt_bin path dir)

  -- The container where an image is usable, or else the local command, if there is one.
  unfoldable pub choose_runner : TestPayload → String → String → Option String → Option Runner
  unfolding docker_runner local_choice
  choose_runner p path dir (some image) = some (docker_runner p image path dir)
  choose_runner p path dir none = local_choice p path dir w.kitt_bin

  unfoldable pub tracking_id : Option String → Process → String
  tracking_id none proc = proc.pid
  tracking_id (some container) proc = container

  unfoldable pub final_status : Exit → String
  final_status e = if e.is_zero then "completed" else "failed"

  unfoldable pub error_msg : Exit → String
  error_msg e = if e.is_zero then "" else append_text "Exit " e.shown

  unfoldable pub read_metrics : Option (Result String) → Exec Daemon (Option String)
  read_metrics none = pure none
  read_metrics (some (ok text)) = do
    on_log "Benchmark results captured — forwarding to server"
    pure (some text)
  read_metrics (some (raised e)) = do
    on_log (append_text "Warning: Could not read metrics.json: " e)
    pure none

  -- The end of a run: the status, then the results, which go with the report.
  unfoldable pub conclude_run : String → Exit → Exec Daemon (Unit {0})
  unfolding read_metrics final_status error_msg
  conclude_run dir e = do
    on_log (append_text "--- Finished: " (append_text (final_status e) " ---"))
    update_status c (final_status e) (error_msg e)
    result ← if e.is_zero then read_metrics (w.metrics dir) else pure none
    send_report (final_status e) (error_msg e) result

  unfoldable pub run_process : Runner → String → Exec Daemon (Unit {0})
  unfolding tracking_id
  run_process runner dir = do
    proc ← settle (w.popen runner.args)
    modify (track c.command_id (tracking_id runner.container proc))
    log_lines proc.output
    e ← settle proc.exit
    conclude_run dir e

  unfoldable pub clean_copy : Option ModelStorage → String → String → Exec Daemon (Unit {0})
  clean_copy none path model_path = pure tt
  clean_copy (some storage) path model_path =
      if storage.auto_cleanup && not (path == model_path)
      then modify (note_cleaned path) >> settle (storage.cleanup_model path)
      else pure tt

  unfoldable pub missing : String
  missing =
      "No KITT Docker image or local CLI found. Run 'kitt-agent build' to build the Docker image."

  -- Without a way to run it, the test fails before the part that is guarded.
  unfoldable pub run_chosen : Option Runner → String → String → String → Exec Daemon (Unit {0})
  unfolding missing clean_copy
  run_chosen none path model_path dir = fail w c "Error: " missing
  run_chosen (some runner) path model_path dir = do
    on_log runner.note
    try (run_process runner dir) (fail w c "Error: ")
    modify (remove_dir dir)
    modify (forget c)
    clean_copy w.storage path model_path

  unfoldable pub execute_test : TestPayload → Exec Daemon (Unit {0})
  execute_test p = do
    update_status c "running" ""
    on_log (append_text "Agent starting benchmark: " p.benchmark_name)
    on_log (append_text "Engine: " p.engine_name)
    on_log (append_text "Model: " p.model_path)
    path ← logged (resolve_with w c w.storage p.model_path)
    let dir = append_text w.tempdir (append_text "/kitt-results-" c.command_id)
    settle (w.mkdir dir)
    modify (add_dir dir)
    kitt_image ← gets (λ d. d.kitt_image)
    image ← logged (chosen_image w c kitt_image)
    run_chosen (choose_runner p path dir image) path p.model_path dir
