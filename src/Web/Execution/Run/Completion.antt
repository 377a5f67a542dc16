-- ===== src/Web/Execution/Run/Completion.antt =====
-- How the execution of a campaign ends: with every run counted and the status "completed", with a
-- cancellation, or with the status "failed".
use kitt.Prelude.{
  ℕ, ◌+◌, ◌*◌, String, true, false, Option, none, some, ◌≡◌, refl, arith, length, eqb, ◌⊎◌, inl,
  inr,
}
use kitt.Prelude.Exec.{ok, pure, ◌>>◌}
use kitt.Prelude.Exec.Yields.{
  Yields, Yields-pure, Yields-bind, Yields-if, Yields-try, Yields-weaken, Yields-given, Meets,
  Meets-Yields, Meets-bind, Meets-if,
}
use kitt.Web.Database.{finished, unexpected, started, WebCampaign, Db, Outside}
use kitt.Web.Campaigns.{has_campaign, find_campaign, Counts, no_counts, status_row, update_status}
use kitt.Web.QuickTests.{or_value}
use kitt.Web.Execution.{RunConfig, all_benchmarks, Executor, Tally, on_db}
use kitt.Web.Execution.Wait.Rounds.{IsClock, KeepsCampaign, Listed, Yields-log}
use kitt.Web.Execution.Run.{
  finish_campaign, start_campaign, all_jobs, total, run_counted, run_campaign, give_up,
  execute_campaign,
}
use kitt.Web.Execution.Run.Jobs.{jobs_of-length}
use kitt.Web.Execution.Run.Counts.{
  Yields-lift, Updated, Yields-update_status, Counted, Meets-run_jobs,
}

module _ (lib : Outside) (campaign_id : String) (monotonic : ℕ → ℕ → ℕ) (others : ℕ → Db → Db) where
  -- What is stored of a campaign that was not cancelled.
  abbrev Stored : ℕ → Tally → Db → Type 0
  Stored all t s =
      (t.cancelled ≡ true)
      ⊎ ((t.succeeded + t.failed ≡ all)
          × ((c : WebCampaign) × (find_campaign campaign_id s.campaigns ≡ some c)
              × (c.status ≡ "completed")
              × (c.succeeded ≡ t.succeeded)
              × (c.failed ≡ t.failed)))

  abbrev its_counts : Tally → Counts
  its_counts t = record no_counts { succeeded = some t.succeeded; failed = some t.failed }

  Yields-Stored :
      (all : ℕ) (t : Tally)
      → t.succeeded + t.failed ≡ all
      → Yields (Updated lib campaign_id "completed" "" (its_counts t)) (λ _. Stored all t) (pure tt)
  unfolding status_row
  Yields-Stored all t sum =
      Yields-pure (Updated lib campaign_id "completed" "" (its_counts t)) (λ _. Stored all t) tt
        (λ s u.
          let (c, now, e) = u.1 in
          inr (sum, (status_row "completed" "" (its_counts t) now c, e, refl, refl, refl)))

  Yields-finish :
      (all : ℕ) (t : Tally)
      → (t.cancelled ≡ true) ⊎ (t.succeeded + t.failed ≡ all)
      → Yields
          (Listed campaign_id)
          (λ _. Stored all t)
          (finish_campaign lib monotonic others campaign_id t)
  unfolding finish_campaign
  Yields-finish all t counted =
      Yields-if (Listed campaign_id) (λ _. Stored all t) t.cancelled _ _
        (λ cancelled.
          Yields-pure (Listed campaign_id) (λ _. Stored all t) tt (λ s h. inl cancelled))
        (λ going.
          let sum : t.succeeded + t.failed ≡ all = elim counted [
            | inl cancelled ↦ absurd (cc (cancelled, going))
            | inr sum ↦ sum
          ] in
          Yields-bind (Listed campaign_id) (λ _. (Listed campaign_id)) (λ _. Stored all t) _ _
            (Yields-log campaign_id (finished t.succeeded t.failed))
            (λ _.
              Yields-bind (Listed campaign_id)
                (λ _. Updated lib campaign_id "completed" "" (its_counts t)) (λ _. Stored all t) _ _
                (Yields-update_status lib campaign_id "completed" "" (its_counts t))
                (λ _. Yields-Stored all t sum)))

  Meets-finish :
      (all : ℕ) (t : Tally)
      → Meets
          (λ (x : Executor).
            Listed campaign_id x.db × ((t.cancelled ≡ true) ⊎ (t.succeeded + t.failed ≡ all)))
          (λ _ x. Stored all t x.db)
          (λ x. Listed campaign_id x.db)
          (on_db (finish_campaign lib monotonic others campaign_id t))
  Meets-finish all t =
      Meets-Yields _ _ (λ x. Listed campaign_id x.db) _
        (Yields-given (λ x. Listed campaign_id x.db) (λ _ x. Stored all t x.db) _
          (λ counted.
            Yields-lift (Listed campaign_id) (λ _. Stored all t) _ (Yields-finish all t counted)))

module _ (lib : Outside) (campaign_id : String) where
  -- The counts of a result, and the row that goes with it.
  abbrev pub Settled : ℕ → Option Tally → Db → Type 0
  Settled all none s =
      (c : WebCampaign) × (find_campaign campaign_id s.campaigns ≡ some c) × (c.status ≡ "failed")
  Settled all (some t) s =
      (t.cancelled ≡ true)
      ⊎ ((t.succeeded + t.failed ≡ all)
          × ((c : WebCampaign) × (find_campaign campaign_id s.campaigns ≡ some c)
              × (c.status ≡ "completed")
              × (c.succeeded ≡ t.succeeded)
              × (c.failed ≡ t.failed)))

  Yields-failed :
      (all : ℕ) (error : String)
      → Yields
          (λ (x : Executor). Listed campaign_id x.db)
          (λ r x. Settled all r x.db)
          (on_db (update_status lib campaign_id "failed" error no_counts) >> pure none)
  unfolding status_row
  Yields-failed all error =
      Yields-bind (λ (x : Executor). Listed campaign_id x.db)
        (λ _ x. Updated lib campaign_id "failed" error no_counts x.db) (λ r x. Settled all r x.db) _
        _
        (Yields-lift (Listed campaign_id) (λ _. Updated lib campaign_id "failed" error no_counts) _
          (Yields-update_status lib campaign_id "failed" error no_counts))
        (λ _.
          Yields-pure (λ (x : Executor). Updated lib campaign_id "failed" error no_counts x.db)
            (λ r x. Settled all r x.db) none
            (λ x u. let (c, now, e) = u.1 in (status_row "failed" error no_counts now c, e, refl)))

module _ (lib : Outside) (campaign_id : String) (monotonic : ℕ → ℕ → ℕ) (others : ℕ → Db → Db)
    (clock : IsClock monotonic) (keeping : KeepsCampaign campaign_id others) (agent_id : String)
    (config : RunConfig) where
  abbrev its_total : ℕ
  its_total = total lib monotonic others campaign_id agent_id config

  abbrev Running : Executor → Type 0
  Running x = Listed campaign_id x.db

  abbrev Ends : Option Tally → Executor → Type 0
  Ends r x = Settled lib campaign_id its_total r x.db

  Yields-start :
      Yields
        (Listed campaign_id)
        (λ _. Listed campaign_id)
        (start_campaign lib monotonic others campaign_id agent_id config)
  unfolding start_campaign
  Yields-start =
      let counts : Counts = record no_counts { total_runs = some its_total } in
      let updated =
        Yields-weaken (Listed campaign_id) (λ _. Updated lib campaign_id "running" "" counts)
          (λ _. Listed campaign_id) _ (λ changed s u. u.0)
          (Yields-update_status lib campaign_id "running" "" counts) in
      Yields-bind (Listed campaign_id) (λ _. Listed campaign_id) (λ _. Listed campaign_id) _ _
        updated (λ _. Yields-log campaign_id (started its_total))

  Meets-run_counted :
      Meets Running
        (λ t x. Ends (some t) x)
        Running
        (run_counted lib monotonic others campaign_id agent_id config)
  unfolding run_counted
  Meets-run_counted =
      let suite = or_value config.suite_name "quick" in
      let done = λ (t : Tally) (x : Executor). Ends (some t) x in
      let counted =
        Counted lib campaign_id monotonic others clock keeping agent_id suite its_total its_total in
      let jobs = all_jobs lib monotonic others campaign_id agent_id config in
      let none_yet : Tally = record { succeeded = 0; failed = 0; cancelled = false } in
      let all : 0 + 0 + length jobs ≡ its_total =
        omega (arith, jobs_of-length config.models config.engines (all_benchmarks config)) in
      Meets-bind Running (λ _. Running) done Running _ _
        (Meets-Yields Running (λ _. Running) Running _
          (Yields-lift (Listed campaign_id) (λ _. Listed campaign_id) _ Yields-start))
        (λ _.
          Meets-bind Running counted done Running _ _
            (Meets-run_jobs lib campaign_id monotonic others clock keeping agent_id suite its_total
              its_total 0 none_yet jobs all)
            (λ t.
              Meets-bind (counted t) (λ _ x. Ends (some t) x) done Running _ _
                (Meets-finish lib campaign_id monotonic others its_total t)
                (λ _.
                  Meets-Yields _ done Running _
                    (Yields-pure (λ x. Ends (some t) x) done t (λ x stored. stored)))))

  Meets-run_campaign :
      Meets Running Ends Running (run_campaign lib monotonic others campaign_id agent_id config)
  unfolding run_campaign
  Meets-run_campaign =
      Meets-if Running Ends Running (eqb its_total 0) _ _
        (λ _.
          Meets-Yields Running Ends Running _
            (Yields-failed lib campaign_id its_total "No test combinations in campaign config"))
        (λ _.
          Meets-bind Running (λ t x. Ends (some t) x) Ends Running _ _ Meets-run_counted
            (λ t.
              Meets-Yields _ Ends Running _
                (Yields-pure (λ x. Ends (some t) x) Ends (some t) (λ x stored. stored))))

  Yields-give_up :
      (error : String)
      → Yields Running Ends (give_up lib monotonic others campaign_id agent_id config error)
  unfolding give_up
  Yields-give_up error =
      Yields-bind Running (λ _. Running) Ends _ _
        (Yields-lift (Listed campaign_id) (λ _. Listed campaign_id) _
          (Yields-log campaign_id unexpected))
        (λ _. Yields-failed lib campaign_id its_total "Unexpected error during campaign execution")

  -- The execution of a listed campaign returns, where a sleep takes its time, the clock does not go
  -- back and the other threads leave the campaign in its table. Then either its row has the status
  -- "failed"; or it was cancelled; or as many runs succeeded or failed as the product of its models,
  -- engines and benchmarks, and its row is "completed" with these two counts.
  pub execute_campaign-Settled :
      (x : Executor)
      → has_campaign campaign_id x.db ≡ true
      → (r : Option Tally) × ((execute_campaign lib monotonic others campaign_id agent_id config
            x).0
          ≡ ok r)
        × Settled lib campaign_id
            (length config.models * length config.engines * length (all_benchmarks config))
            r
            (execute_campaign lib monotonic others campaign_id agent_id config x).1.db
  unfolding execute_campaign
  execute_campaign-Settled x h =
      (Yields-try Running Ends Running _ _ Meets-run_campaign Yields-give_up).yield x h
