-- ===== src/Web/Agents/Commands.antt =====
-- queue_cleanup_command and queue_engine_command: a command is a row of quick_tests that waits for
-- the agent's next heartbeat.
use kitt.Prelude.{String, if◌then◌else◌, ◌==◌}
use kitt.Prelude.Exec.{Exec, pure, ◌>>=◌, ◌>>◌}
use kitt.Web.Database.{Db, Outside, query, insert_test}

module _ (lib : Outside) where
  unfoldable pub queue_cleanup_command : String → String → Exec Db String
  queue_cleanup_command agent_id model_path = do
    command_id ← query lib.uuid_hex
    now ← query lib.sqlite_now
    insert_test (record {
      id = command_id;
      agent_id = agent_id;
      model_path = if model_path == "" then "__cleanup__" else model_path;
      engine_name = "cleanup";
      benchmark_name = "cleanup_storage";
      suite_name = "quick";
      status = "queued";
      command_id = command_id;
      engine_mode = "docker";
      profile_id = "";
      created_at = now;
      started_at = "";
      completed_at = "";
      error = "";
    })
    pure command_id

  -- `runtime_config` is its JSON text, empty where there is none.
  unfoldable pub queue_engine_command : String → String → String → String → String → Exec Db String
  queue_engine_command agent_id engine_name command runtime_config model_path = do
    command_id ← query lib.uuid_hex
    now ← query lib.sqlite_now
    insert_test (record {
      id = command_id;
      agent_id = agent_id;
      model_path = model_path;
      engine_name = engine_name;
      benchmark_name = command;
      suite_name = "quick";
      status = "queued";
      command_id = command_id;
      engine_mode = "native";
      profile_id = runtime_config;
      created_at = now;
      started_at = "";
      completed_at = "";
      error = "";
    })
    pure command_id
