-- ===== src/HeartbeatThread.antt =====
-- src/kitt_agent/heartbeat.py of agent-package: the thread of an agent that reports to the server, hands
-- on its commands, and registers again where the server does not know the agent.
pub mod Pacing
pub mod Attempts
use kitt.Prelude.{
  ℕ, zero, suc, String, Bool, true, false, not, Option, none, some, List, [], ◌∷◌, ◌++◌, length,
  leb, eqb, lookup, if◌then◌else◌, ◌==◌, ◌&&◌,
}
use kitt.Prelude.Exec.{Exec, Result, ok, raised, pure, raise, gets, modify, try, ◌>>=◌, ◌>>◌}

-- The state of the thread, with what it did: the ids of its requests, the calls of `register_fn`, of
-- `on_agent_id_change` and of `on_command`.
pub record Thread : Type 0 where
  pub agent_id : String
  pub base_interval_s : ℕ
  pub active_interval_s : ℕ
  pub status : String
  pub current_task : String
  pub retrying : Bool
  pub requests : List String
  pub registrations : ℕ
  pub changes : List String
  pub handled : List String

-- The body of an answer; a command is its id.
pub record Reply : Type 0 where
  pub commands : List String
  pub settings : Option (List (String × String))
  pub agent_id : Option String

-- An answer to a request: a body, an HTTP error with its code, or another failure.
pub data Answer : Type 0 where
  answered : Reply → Answer
  http_error : ℕ → Answer
  unreachable : Answer

-- What a call of `register_fn` gives.
pub data Registration : Type 0 where
  given_id : String → Registration
  no_id : Registration
  register_raises : Registration

-- The server and the callbacks. `parse_int` reads a number that is not negative, `none` for every other
-- text; `settings_raise` says that `on_settings` raises on the settings.
pub record Surroundings : Type 0 where
  pub server : ℕ → String → Answer
  pub has_register_fn : Bool
  pub register_fn : ℕ → Registration
  pub has_on_command : Bool
  pub has_on_settings : Bool
  pub settings_raise : List (String × String) → Bool
  pub parse_int : String → Option ℕ

abbrev pub larger : ℕ → ℕ → ℕ
larger a b = if leb a b then b else a

abbrev pub in_range : ℕ → Bool
in_range n = leb 10 n && leb n 300

unfoldable pub set_status : String → String → Thread → Thread
set_status status task t = record t {
  status = status;
  current_task = task;
  active_interval_s =
      if status == "running" then larger t.base_interval_s 60 else t.base_interval_s;
}

unfoldable pub set_interval : ℕ → Thread → Thread
set_interval seconds t =
    if in_range seconds
    then record t {
      base_interval_s = seconds;
      active_interval_s = if t.status == "running" then t.active_interval_s else seconds;
    }
    else t

-- The interval that the settings give.
unfoldable pub sync_interval : Option ℕ → Thread → Thread
sync_interval none t = t
sync_interval (some n) t =
    if in_range n
    then record t {
      base_interval_s = n;
      active_interval_s = if t.status == "running" then larger n 60 else n;
    }
    else t

unfoldable pub change_id : String → Thread → Thread
change_id new_id t = record t { agent_id = new_id; changes = t.changes ++ new_id ∷ [] }

unfoldable pub hand_on : Bool → List String → Thread → Thread
hand_on true commands t = record t { handled = t.handled ++ commands }
hand_on false commands t = t

module _ {A : Type 0} where
  -- try: m / finally: f
  unfoldable pub finally : Exec Thread A → (Thread → Thread) → Exec Thread A
  finally m f t = let (r, t') = m t in (r, f t')

module _ (w : Surroundings) where
  unfoldable pub request : Exec Thread Answer
  request t = (
    ok (w.server (length t.requests) t.agent_id),
    record t { requests = t.requests ++ t.agent_id ∷ [] },
  )

  unfoldable pub call_register : Exec Thread Registration
  call_register t =
      (ok (w.register_fn t.registrations), record t { registrations = suc t.registrations })

  -- The canonical id of the answer.
  unfoldable pub sync_id : Option String → Thread → Thread
  sync_id none t = t
  sync_id (some canonical) t =
      if canonical == "" then t else if canonical == t.agent_id then t else change_id canonical t

  unfoldable pub with_new_id : Exec Thread Reply → Registration → Exec Thread Reply
  with_new_id again (given_id new_id) =
      if new_id == "" then raise "HTTP Error 404" else (modify (change_id new_id) >> again)
  with_new_id again no_id = raise "HTTP Error 404"
  with_new_id again register_raises = raise "registration failed"

  unfoldable pub register_again : Exec Thread Reply → Exec Thread Reply
  register_again again =
      finally (call_register >>= with_new_id again) (λ t. record t { retrying = false })

  unfoldable pub received : Exec Thread Reply → Answer → Exec Thread Reply
  received again (answered reply) = modify (sync_id reply.agent_id) >> pure reply
  received again (http_error code) = do
    retrying ← gets (λ t. t.retrying)
    if eqb code 404 && (w.has_register_fn && not retrying)
        then (modify (λ t. record t { retrying = true }) >> register_again again)
        else raise "HTTP Error"
  received again unreachable = raise "unreachable"

  -- _send_heartbeat, which calls itself at most once
  unfoldable pub send_heartbeat : ℕ → Exec Thread Reply
  send_heartbeat zero = raise "out of attempts"
  send_heartbeat (suc attempts) = do answer ← request; received (send_heartbeat attempts) answer

  unfoldable pub interval_of : List (String × String) → Option String → Option ℕ
  interval_of settings none = none
  interval_of settings (some text) = w.parse_int text

  unfoldable pub sync_settings : Option (List (String × String)) → Exec Thread (Unit {0})
  unfolding interval_of
  sync_settings none = pure tt
  sync_settings (some settings) =
      if w.settings_raise settings
      then pure tt
      else modify (sync_interval (interval_of settings (lookup "heartbeat_interval_s" settings)))

  -- One round of `run`, before the wait.
  unfoldable pub beat : Exec Thread (Unit {0})
  unfolding sync_settings
  beat =
      try
        (do
          reply ← send_heartbeat 2
          modify (hand_on w.has_on_command reply.commands)
          if w.has_on_settings then sync_settings reply.settings else pure tt)
        (λ error. pure tt)
