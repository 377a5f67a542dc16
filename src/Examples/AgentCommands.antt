-- ===== src/Examples/AgentCommands.antt =====
-- An agent whose docker and processes answer.
use kitt.Prelude.{true, false, none, some, [], ◌∷◌, ◌≡◌, refl, ◌==◌}
use kitt.Prelude.Exec.{ok, raised, pure, modify, ◌>>=◌}
use kitt.AgentDaemon.Execute.{
  Daemon, Command, ContainerSpec, TestPayload, World, resolve_with, choose_image, chosen_image,
  execute_container,
}
use kitt.AgentDaemon.Execute.Test.{choose_runner, execute_test}
use kitt.AgentDaemon.Execute.Settled.{IsOver, execute_container-IsOver}
use kitt.AgentDaemon.Execute.Chosen.{is_none, thread_result, Ended}
use kitt.AgentDaemon.Execute.Tested.{execute_test-Ended}

abbrev world : World
world = record {
  pull_image = λ _. ok true;
  run_container = λ _. ("started" ∷ [], ok "c0ffee");
  wait_for_healthy = λ _. ok false;
  stop_container = λ _. raised "docker is gone";
  stream_logs = λ _. ([], ok true);
  image_exists = λ image. ok (image == "kitt:latest");
  image_arch = λ _. ok "amd64";
  host_arch = ok "amd64";
  storage = some (record {
    auto_cleanup = true;
    resolve_model = λ _. ("copied" ∷ [], ok "/local/llama");
    cleanup_model = λ _. raised "busy";
  });
  tempdir = "/tmp";
  mkdir = λ _. ok tt;
  kitt_bin = none;
  popen = λ _. ok (record {
    pid = "7";
    output = "done" ∷ [];
    exit = ok (record { is_zero = true; shown = "0" });
  });
  metrics = λ _. some (raised "no JSON");
  start_engine = λ _ _ _. ([], ok (record { success = false; pid = ""; error = none }));
  install_engine = λ _. ([], raised "no space");
}

abbrev a_command : Command
a_command = record { command_id = "0123456789"; short_id = "01234567"; test_id = "t1" }

abbrev daemon : Daemon
daemon = record {
  active_containers = [];
  log_streamers = "0123456789" ∷ [];
  sent = [];
  output_dirs = [];
  cleaned = [];
  kitt_image = "kitt:dev";
}

abbrev a_spec : ContainerSpec
a_spec = record {
  image = "vllm:latest";
  port = 8000;
  container_port = 8000;
  gpu = true;
  volumes = [];
  env = [];
  extra_args = [];
  command_args = [];
  name = "vllm";
  health_url = "http://localhost:8000/health";
}

abbrev a_payload : TestPayload
a_payload = record {
  engine_name = "vllm";
  suite_name = "quick";
  model_path = "/models/llama";
  benchmark_name = "throughput";
  engine_mode = "";
}

execute_container-IsOver_example :
    ((execute_container world a_command a_spec daemon).0 ≡ ok tt)
    × IsOver a_command (execute_container world a_command a_spec daemon).1
execute_container-IsOver_example = execute_container-IsOver a_command refl world a_spec daemon

copied : (resolve_with world a_command world.storage "/models/llama").1 ≡ ok "/local/llama"
unfolding resolve_with
copied = refl

kitt_latest : (chosen_image world a_command "kitt:dev").1 ≡ ok (some "kitt:latest")
unfolding chosen_image choose_image ◌>>=◌ pure modify
kitt_latest = refl

execute_test-Ended_example :
    ((execute_test world a_command a_payload daemon).0
      ≡ thread_result world.storage
          (choose_runner world a_command a_payload "/local/llama" "/tmp/kitt-results-0123456789"
            (some "kitt:latest"))
          "/local/llama"
          "/models/llama")
    × Ended "/tmp/kitt-results-0123456789"
        (is_none (
          choose_runner world a_command a_payload "/local/llama" "/tmp/kitt-results-0123456789"
            (some "kitt:latest")))
        (execute_test world a_command a_payload daemon).1
execute_test-Ended_example =
    execute_test-Ended world a_command refl a_payload "/local/llama" (some "kitt:latest") daemon
      copied refl kitt_latest
