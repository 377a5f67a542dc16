-- ===== src/Examples/AgentThread.antt =====
-- The heartbeat thread of an agent that the server does not know at first, and a command that it drops.
use kitt.Prelude.{
  ◌+◌, ◌≤◌, true, false, none, some, [], ◌∷◌, ◌≡◌, ◌↔◌, ◌==◌, false, refl, arith, length, eqb,
  if◌then◌else◌,
}
use kitt.Web.Database.{QuickTest}
use kitt.Web.Agents.Heartbeat.{command_type}
use kitt.AgentDaemon.{dispatch_command}
use kitt.AgentDaemon.Known.{dispatch_command-command_type}
use kitt.Examples.Server.{a_test}
use kitt.HeartbeatThread.{
  Thread, Reply, answered, http_error, given_id, Surroundings, send_heartbeat, set_status, beat,
}
use kitt.HeartbeatThread.Pacing.{IsPaced, Step, Reach, Reach-IsPaced}
use kitt.HeartbeatThread.Attempts.{send_heartbeat-bounds}

abbrev a_reply : Reply
a_reply = record {
  commands = "c1" ∷ [];
  settings = some (("heartbeat_interval_s", "45") ∷ []);
  agent_id = some "a2";
}

abbrev surroundings : Surroundings
surroundings = record {
  server = λ n agent_id. if eqb n 0 then http_error 404 else answered a_reply;
  has_register_fn = true;
  register_fn = λ n. given_id "a2";
  has_on_command = true;
  has_on_settings = true;
  settings_raise = λ settings. false;
  parse_int = λ text. some 45;
}

abbrev started : Thread
started = record {
  agent_id = "a1";
  base_interval_s = 30;
  active_interval_s = 30;
  status = "idle";
  current_task = "";
  retrying = false;
  requests = [];
  registrations = 0;
  changes = [];
  handled = [];
}

started-IsPaced : IsPaced started
started-IsPaced = record {
  base_from = omega arith;
  base_to = omega arith;
  active_from = omega arith;
  active_to = omega arith;
  slow = refl;
}

Reach-IsPaced_example : IsPaced (beat surroundings (set_status "running" "mmlu" started)).1
Reach-IsPaced_example =
    Reach-IsPaced surroundings
      (Reach.next (Reach.next Reach.here (Step.sets_status "running" "mmlu" started))
        (Step.beats (set_status "running" "mmlu" started)))
      started-IsPaced

send_heartbeat-bounds_example :
    (send_heartbeat surroundings 5 started ≡ send_heartbeat surroundings 2 started)
    × (length (send_heartbeat surroundings 2 started).1.requests ≤ length started.requests + 2)
    × ((send_heartbeat surroundings 2 started).1.registrations ≤ started.registrations + 1)
    × ((send_heartbeat surroundings 2 started).1.retrying ≡ false)
send_heartbeat-bounds_example = send_heartbeat-bounds surroundings 3 started refl

abbrev stopping : QuickTest
stopping = record a_test { engine_name = "vllm"; benchmark_name = "stop_engine" }

dispatch_command-command_type_example :
    (dispatch_command (command_type stopping) ≡ none)
    ↔ (((stopping.engine_name == "cleanup") ≡ false) × (stopping.benchmark_name ≡ "stop_engine"))
dispatch_command-command_type_example = dispatch_command-command_type stopping
