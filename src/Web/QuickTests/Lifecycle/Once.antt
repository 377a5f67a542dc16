-- ===== src/Web/QuickTests/Lifecycle/Once.antt =====
-- A test is handed to an agent at most once, whatever requests, heartbeats and campaigns come between.
use kitt.Prelude.{
  String, Bool, true, false, Option, none, some, List, [], ◌∷◌, ◌≡◌, inl, inr, Bool-cases,
}
use kitt.Prelude.Exec.{Exec}
use kitt.Prelude.Exec.Keeps.{Keeps}
use kitt.Web.Database.{Agent, QuickTest, Db, Outside, has_test_row}
use kitt.Web.Agents.Commands.{queue_cleanup_command, queue_engine_command}
use kitt.Web.Agents.Heartbeat.{
  EngineReport, store_report, store_reports, dispatch_row, dispatch, heartbeat,
}
use kitt.Web.QuickTests.{
  LaunchBody, launch, enqueue, for_agent, required, unless_wrong, is_reported, update_status,
  report_status, store_report as store_status, store_line, post_log,
}
use kitt.Web.QuickTests.Lifecycle.{HasLeft, lifecycle_rules, Keeps-report, Keeps-store_engine}

module _ (test_id : String) (lib : Outside) where
  Keeps-dispatch_row : (o : Option QuickTest) → Keeps (HasLeft test_id) (dispatch_row lib o)
  unfolding dispatch_row
  Keeps-dispatch_row none = search lifecycle_rules
  Keeps-dispatch_row (some t) = search lifecycle_rules

  Keeps-dispatch : (agent_id : String) → Keeps (HasLeft test_id) (dispatch lib agent_id)
  unfolding dispatch
  Keeps-dispatch agent_id = search (lifecycle_rules, Keeps-dispatch_row)

  Keeps-store_report :
      (agent_id now : String) (r : EngineReport)
      → Keeps (HasLeft test_id) (store_report agent_id now r)
  unfolding store_report
  Keeps-store_report agent_id now r = search (lifecycle_rules, Keeps-store_engine)

  Keeps-store_reports :
      (agent_id now : String) (rs : List EngineReport)
      → Keeps (HasLeft test_id) (store_reports agent_id now rs)
  unfolding store_reports
  Keeps-store_reports agent_id now [] = search lifecycle_rules
  Keeps-store_reports agent_id now (r ∷ rs) =
      let one = Keeps-store_report agent_id now r in
      let more = Keeps-store_reports agent_id now rs in search lifecycle_rules

  pub Keeps-heartbeat :
      (agent_id status : String) (engines : List EngineReport)
      → Keeps (HasLeft test_id) (heartbeat lib agent_id status engines)
  unfolding heartbeat
  Keeps-heartbeat agent_id status engines =
      search (lifecycle_rules, Keeps-store_reports, Keeps-dispatch) depth 9

  pub Keeps-queue_cleanup :
      (agent_id path : String) → Keeps (HasLeft test_id) (queue_cleanup_command lib agent_id path)
  unfolding queue_cleanup_command
  Keeps-queue_cleanup agent_id path = search lifecycle_rules depth 9

  pub Keeps-queue_engine :
      (agent_id engine command config path : String)
      → Keeps (HasLeft test_id) (queue_engine_command lib agent_id engine command config path)
  unfolding queue_engine_command
  Keeps-queue_engine agent_id engine command config path = search lifecycle_rules depth 9

  module _ (model_error : String → String → Option String) where
    Keeps-enqueue :
        (agent_id path engine : String) (b : LaunchBody)
        → Keeps (HasLeft test_id) (enqueue lib model_error agent_id path engine b)
    unfolding enqueue
    Keeps-enqueue agent_id path engine b = search lifecycle_rules depth 12

    Keeps-unless_wrong :
        (force : Bool) (o : Option String) (m : Exec Db _)
        → Keeps (HasLeft test_id) m
        → Keeps (HasLeft test_id) (unless_wrong lib model_error force o m)
    unfolding unless_wrong
    Keeps-unless_wrong true o m h = h
    Keeps-unless_wrong false none m h = h
    Keeps-unless_wrong false (some e) m h = search lifecycle_rules

    Keeps-for_agent :
        (agent_id path engine : String) (b : LaunchBody) (o : Option Agent)
        → Keeps (HasLeft test_id) (for_agent lib model_error agent_id path engine b o)
    unfolding for_agent
    Keeps-for_agent agent_id path engine b none = search lifecycle_rules
    Keeps-for_agent agent_id path engine b (some a) = search (Keeps-unless_wrong, Keeps-enqueue)

    Keeps-required :
        (b : LaunchBody) (agent_id path engine : Option String)
        → Keeps (HasLeft test_id) (required lib model_error b agent_id path engine)
    unfolding required
    Keeps-required b none path engine = search lifecycle_rules
    Keeps-required b (some agent_id) none engine = search lifecycle_rules
    Keeps-required b (some agent_id) (some path) none = search lifecycle_rules
    Keeps-required b (some agent_id) (some path) (some engine) =
        search (lifecycle_rules, Keeps-for_agent)

    pub Keeps-launch : (b : Option LaunchBody) → Keeps (HasLeft test_id) (launch lib model_error b)
    unfolding launch
    Keeps-launch none = search lifecycle_rules
    Keeps-launch (some b) = search Keeps-required

  Keeps-store_status :
      (i status error : String)
      → is_reported status ≡ true
      → Keeps (HasLeft test_id) (store_status lib i status error)
  unfolding store_status
  Keeps-store_status i status error reported =
      let row = λ (now : String). Keeps-report test_id i status error now reported in
      search lifecycle_rules depth 9

  Keeps-report_status :
      (i : String) (status : Option String) (error : String)
      → Keeps (HasLeft test_id) (report_status lib i status error)
  unfolding report_status
  Keeps-report_status i none error = search lifecycle_rules
  Keeps-report_status i (some status) error = elim (Bool-cases (is_reported status)) [
    | inl reported ↦ rw reported (Keeps-store_status i status error reported)
    | inr other ↦ rw other (search lifecycle_rules)
  ]

  pub Keeps-update_status :
      (i : String) (status : Option String) (error : String)
      → Keeps (HasLeft test_id) (update_status lib i status error)
  unfolding update_status
  Keeps-update_status i status error = record {
    keep = λ s h. elim (Bool-cases (has_test_row i s)) [
      | inl here ↦ rw here ((Keeps-report_status i status error).keep s h)
      | inr absent ↦ rw absent h
    ];
  }

  Keeps-log_line :
      (i : String) (line : Option String) → Keeps (HasLeft test_id) (store_line lib i line)
  unfolding store_line
  Keeps-log_line i none = search lifecycle_rules
  Keeps-log_line i (some line) = search lifecycle_rules depth 9

  pub Keeps-post_log :
      (i : String) (line : Option String) → Keeps (HasLeft test_id) (post_log lib i line)
  unfolding post_log
  Keeps-post_log i line = record {
    keep = λ s h. elim (Bool-cases (has_test_row i s)) [
      | inl here ↦ rw here ((Keeps-log_line i line).keep s h)
      | inr absent ↦ rw absent h
    ];
  }
