-- ===== src/Campaign/Execute/Outcome.antt =====
-- How one run ends: its result has a final status, its key is done, and where the state can be
-- written it always ends so, whatever the outside answers.
use kitt.Prelude.{
  String, Option, none, some, Bool, true, false, List, ◌≡◌, refl, sym, ap, ◌∙◌, subst, any, ◌==◌,
  ◌||◌,
}
use kitt.Prelude.Floats.{Float}
use kitt.Prelude.Exec.{Exec, Result, ok, raised, continue, pure, ◌>>=◌}
use kitt.Prelude.Exec.Rules.{
  Preserves, Ends, Returns, Ends-bind, Ends-if, Ends-try, Ends-pure, Ends-return, Ends-bind_from,
  pure-post,
}
use kitt.Campaign.Config.{
  CampaignConfig, CampaignRunSpec, CampaignRunResult, RunStatus, spec_key, run_key, is_done,
}
use kitt.Campaign.State.{CampaignState, RunState, key}
use kitt.Campaign.Session.{World, Session}
use kitt.Campaign.Session.Rules.{view, look, view_rules, session_returns}
use kitt.Campaign.Manager.{update_run, is_run_done}
use kitt.Campaign.Manager.Updates.{
  is_registered, keys, done_in, SavesSucceed, update_run-done, Preserves-update_run-keys,
  Returns-update_run,
}
use kitt.Campaign.Scheduler.Disk.{check_disk_space-Returns}
use kitt.Campaign.Transfer.Rules.{cleanup_model-view, cleanup_model-Returns}
use kitt.Campaign.Execute.Rules.{execute_run-look}
use kitt.Campaign.Execute.{
  Options, result_of, skip, some_skip, ask_hub, check_gated, succeed, give_up, attempt, start_run,
  unless_skipped, past_disk, execute_run,
}

pub any-keys : (k : String) (rs : List RunState) → is_registered k rs ≡ any (λ j. j == k) (keys rs)
any-keys k List.[] = refl
any-keys k (List.◌∷◌ r rs) = ap (λ b. (key r == k) || b) (any-keys k rs)

-- If the key is registered, it is done.
abbrev pub DoneIf : String → CampaignState → Type 0
DoneIf k st = is_registered k st.runs ≡ true → is_run_done st k ≡ true

-- The result is final and named like the run, and the key of the run is done.
pub record Settled (run : CampaignRunSpec) (r : CampaignRunResult) (s : Session) : Type 0 where
  pub final : is_done r.status ≡ true
  pub named : run_key r.model_name r.engine_name r.quant ≡ spec_key run
  pub key_done : DoneIf (spec_key run) s.state

module _ (w : World) (k : String) (st : RunStatus) (d : Float) (o e : String)
    (final : is_done st ≡ true) where
  update_run-DoneIf : (s : Session) → DoneIf k (update_run w k st d o e s).1.state
  update_run-DoneIf s here = update_run-done w k st d o e s final (
      any-keys k s.state.runs
      ∙ ap (any (λ j. j == k)) (sym ((Preserves-update_run-keys w k st d o e).same s))
      ∙ sym (any-keys k (update_run w k st d o e s).1.state.runs)
      ∙ here)

  continue-DoneIf :
      {A : Type 0} (m : Exec Session A)
      → Preserves view m
      → (r : Result (Unit {0})) (s : Session) → DoneIf k s.state
      → DoneIf k (continue r (λ _. m) s).1.state
  unfolding view
  continue-DoneIf m p (ok a) s h =
      subst (DoneIf k) (sym (ap (λ (v : CampaignState × _). v.0) (p.same s))) h
  continue-DoneIf m p (raised x) s h = h

  -- After a final update the key is done, whatever follows that leaves the state alone.
  pub finally-DoneIf :
      {A : Type 0} (m : Exec Session A)
      → Preserves view m
      → (s : Session) → DoneIf k ((update_run w k st d o e >>= λ _. m) s).1.state
  unfolding ◌>>=◌
  finally-DoneIf m p s =
      continue-DoneIf m p (update_run w k st d o e s).0 (update_run w k st d o e s).1
        (update_run-DoneIf s)

module _ (w : World) (config : CampaignConfig) (options : Options) (run : CampaignRunSpec) where
  Settled-by :
      (st : RunStatus) (d : Float) (o e : String) (m : Exec Session CampaignRunResult)
      → is_done st ≡ true
      → Preserves view m
      → Ends (λ r _. r ≡ result_of run st d o e) m
      → Ends (Settled run) (update_run w (spec_key run) st d o e >>= λ _. m)
  Settled-by st d o e m final p ends = record {
    post = λ s a returned.
        let same : a ≡ result_of run st d o e =
          (Ends-bind (λ r _. r ≡ result_of run st d o e) _ _ (λ _. ends)).post s a returned in
        record {
          final = ap (λ (r : CampaignRunResult). is_done r.status) same ∙ final;
          named = ap (λ (r : CampaignRunResult). run_key r.model_name r.engine_name r.quant) same;
          key_done = finally-DoneIf w (spec_key run) st d o e final m p s;
        };
  }

  skip-Settled : (reason : String) → Ends (Settled run) (skip w config options run reason)
  unfolding skip
  skip-Settled reason = Settled-by _ _ _ _ _ refl (search view_rules) (Ends-pure _)

  succeed-Settled : (o : Float × String) → Ends (Settled run) (succeed w config options run o)
  unfolding succeed
  succeed-Settled (d, dir) = Settled-by _ _ _ _ _ refl (search view_rules) (Ends-pure _)

  give_up-Settled :
      (start : Float) (e : String) → Ends (Settled run) (give_up w config options run start e)
  unfolding give_up
  give_up-Settled start e = Ends-bind _ _ _ λ end.
      Settled-by _ _ _ _ _ refl (search (view_rules, cleanup_model-view))
        (Ends-bind _ _ _ (λ _. Ends-bind _ _ _ (λ _. Ends-pure _)))

  attempt-Settled : (start : Float) → Ends (Settled run) (attempt w config options run start)
  unfolding attempt
  attempt-Settled start = Ends-bind _ _ _ succeed-Settled

  start_run-Settled : Ends (Settled run) (start_run w config options run)
  unfolding start_run
  start_run-Settled =
      Ends-bind _ _ _
        λ _. Ends-bind _ _ _ λ start. Ends-try _ _ _ (attempt-Settled start) (give_up-Settled start)

  -- Where the check of gated models gives a result, the run is settled.
  abbrev SettledIf : Option CampaignRunResult → Session → Type 0
  SettledIf none s = Unit {0}
  SettledIf (some r) s = Settled run r s

  some_skip-SettledIf : (reason : String) → Ends SettledIf (some_skip w config options run reason)
  unfolding some_skip
  some_skip-SettledIf reason =
      Ends-bind_from (Settled run) SettledIf _ _ (skip-Settled reason)
        (λ r s p. pure-post SettledIf (some r) s p)

  nothing-SettledIf : Ends SettledIf (pure {S = Session} none)
  nothing-SettledIf = Ends-return SettledIf none (λ s. tt)

  ask_hub-SettledIf : (repo : String) → Ends SettledIf (ask_hub w config options run repo)
  unfolding ask_hub
  ask_hub-SettledIf repo =
      Ends-bind _ _ _ λ answer. Ends-if _ _ _ _ (some_skip-SettledIf _) nothing-SettledIf

  check_gated-SettledIf :
      (repo : Option String) → Ends SettledIf (check_gated w config options run repo)
  unfolding check_gated
  check_gated-SettledIf none = nothing-SettledIf
  check_gated-SettledIf (some repo) =
      Ends-if _ _ _ _ (Ends-try _ _ _ (ask_hub-SettledIf repo) (λ e. nothing-SettledIf))
        nothing-SettledIf

  unless_skipped-Settled :
      (o : Option CampaignRunResult) (s : Session)
      → SettledIf o s
      → (r : CampaignRunResult) → (unless_skipped w config options run o s).0 ≡ ok r
      → Settled run r (unless_skipped w config options run o s).1
  unfolding unless_skipped
  unless_skipped-Settled none s p r e = start_run-Settled.post s r e
  unless_skipped-Settled (some x) s p r e = pure-post (Settled run) x s p r e

  past_disk-Settled : (b : Bool) → Ends (Settled run) (past_disk w config options run b)
  unfolding past_disk
  past_disk-Settled false = skip-Settled "Insufficient disk space"
  past_disk-Settled true =
      Ends-bind_from SettledIf (Settled run) _ _ (check_gated-SettledIf _) unless_skipped-Settled

  -- A run that returns has a final status, is named like the planned run, and leaves the key of the
  -- run done in the state.
  pub execute_run-Settled : Ends (Settled run) (execute_run w config options run)
  unfolding execute_run
  execute_run-Settled = Ends-if _ _ _ _ (skip-Settled _) (Ends-bind _ _ _ past_disk-Settled)

  -- A run whose key is registered and that returns has a final status, is named like the planned run,
  -- and its key is done in the state.
  pub execute_run-final :
      (s : Session) (r : CampaignRunResult)
      → is_registered (spec_key run) s.state.runs ≡ true
      → (execute_run w config options run s).0 ≡ ok r
      → (is_done r.status ≡ true)
        × (run_key r.model_name r.engine_name r.quant ≡ spec_key run)
        × (done_in (spec_key run) (execute_run w config options run s).1 ≡ true)
  unfolding look
  execute_run-final s r here e =
      let settled = execute_run-Settled.post s r e in
      let same_keys =
        (execute_run-look w config options run (λ st. keys st.runs)
            (λ st d o x. record {
              same = (Preserves-update_run-keys w (spec_key run) st d o x).same;
            })).same
          s in
      let k = spec_key run in
      let here' =
        any-keys k (execute_run w config options run s).1.state.runs
        ∙ ap (any (λ j. j == k)) same_keys
        ∙ sym (any-keys k s.state.runs)
        ∙ here in
      (settled.final, settled.named, settled.key_done here')

  module _ (saves : SavesSucceed w) where
    skip-Returns : (reason : String) → Returns (skip w config options run reason)
    unfolding skip
    skip-Returns reason = search (session_returns, Returns-update_run)

    give_up-Returns : (start : Float) (e : String) → Returns (give_up w config options run start e)
    unfolding give_up
    give_up-Returns start e =
        search (session_returns, Returns-update_run, cleanup_model-Returns) depth 9

    start_run-Returns : Returns (start_run w config options run)
    unfolding start_run
    start_run-Returns = search (session_returns, Returns-update_run, give_up-Returns)

    check_gated-Returns : (repo : Option String) → Returns (check_gated w config options run repo)
    unfolding check_gated
    check_gated-Returns none = search session_returns
    check_gated-Returns (some repo) = search session_returns

    unless_skipped-Returns :
        (o : Option CampaignRunResult) → Returns (unless_skipped w config options run o)
    unfolding unless_skipped
    unless_skipped-Returns none = start_run-Returns
    unless_skipped-Returns (some r) = search session_returns

    past_disk-Returns : (b : Bool) → Returns (past_disk w config options run b)
    unfolding past_disk
    past_disk-Returns false = skip-Returns "Insufficient disk space"
    past_disk-Returns true = search (session_returns, check_gated-Returns, unless_skipped-Returns)

    -- Where the state can be written, a run returns whatever download, benchmark and clean-up do.
    pub execute_run-Returns : Returns (execute_run w config options run)
    unfolding execute_run
    execute_run-Returns =
        search (session_returns, skip-Returns, check_disk_space-Returns, past_disk-Returns)

    -- Where every write of the state file succeeds, a run returns, whatever the outside answers.
    pub execute_run_total :
        (s : Session) → (r : CampaignRunResult) × ((execute_run w config options run s).0 ≡ ok r)
    execute_run_total = execute_run-Returns.result
