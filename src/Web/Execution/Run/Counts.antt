-- ===== src/Web/Execution/Run/Counts.antt =====
-- The rounds of a campaign: every run is counted as succeeded or failed, unless it was cancelled.
use kitt.Prelude.{
  ℕ, suc, ◌+◌, String, true, some, List, [], ◌∷◌, ◌≡◌, refl, ap, ◌∙◌, arith, map, any, length,
  if◌then◌else◌, ◌==◌, ◌⊎◌, inl, inr, Bool-cases,
}
use kitt.Prelude.Exec.{Exec, Result, ok, raised, pure, gets, modify, ◌>>=◌}
use kitt.Prelude.Exec.Yields.{
  Yields, Yields-pure, Yields-weaken, Meets, Meets-Yields, Meets-bind, Meets-if, Meets-Keeps,
  Outcome,
}
use kitt.Prelude.Exec.Keeps.{Keeps, Keeps-gets, keeps_rules}
use kitt.Web.Database.{
  cancelled_by_user, QuickTest, WebCampaign, CampaignLine, Db, Outside, query, publish, insert_test,
  has_test_row, has_agent,
}
use kitt.Web.Campaigns.{
  has_campaign, find_campaign, update_campaigns, Counts, status_row, update_status,
}
use kitt.Web.Execution.{Job, Executor, succeeds, fails, stops, Tally, on_db, insert_line, log}
use kitt.Web.Execution.Wait.{wait_for_test}
use kitt.Web.Execution.Wait.Rounds.{IsClock, KeepsCampaign, Listed, Yields-wait_for_test}
use kitt.Web.Execution.Run.{queue_test, settle_round, run_job, run_round, run_jobs}

-- A database action beside the clock.
module _ {A : Type 0} (P : Db → Type 0) (Q : A → Db → Type 0) (m : Exec Db A) where
  pub Yields-lift : Yields P Q m → Yields (λ (x : Executor). P x.db) (λ a x. Q a x.db) (on_db m)
  unfolding on_db
  Yields-lift y = record { yield = λ x p. y.yield x.db p }

  Outcome-lift :
      (E : Db → Type 0) (x : Executor) (r : Result A) (s : Db)
      → Outcome Q E r s
      → Outcome (λ a (y : Executor). Q a y.db) (λ y. E y.db) r (record x { db = s })
  Outcome-lift E x (ok a) s q = q
  Outcome-lift E x (raised e) s q = q

  pub Meets-lift :
      (E : Db → Type 0)
      → Meets P Q E m
      → Meets (λ (x : Executor). P x.db) (λ a x. Q a x.db) (λ x. E x.db) (on_db m)
  unfolding on_db
  Meets-lift E y = record { meet = λ x p. Outcome-lift E x (m x.db).0 (m x.db).1 (y.meet x.db p) }

-- The rows of a campaign after an update of it.
find-update :
    (campaign_id : String) (change : WebCampaign → WebCampaign) (rows : List WebCampaign)
    → ((c : WebCampaign) → (change c).id ≡ c.id)
    → any (λ (c : WebCampaign). c.id == campaign_id) rows ≡ true
    → (c : WebCampaign) × (find_campaign campaign_id
          (map (λ (c : WebCampaign). if c.id == campaign_id then change c else c) rows)
        ≡ some (change c))
unfolding find_campaign
find-update campaign_id change [] same_id h = absurd (cc)
find-update campaign_id change (c ∷ rows) same_id h = elim (Bool-cases (c.id == campaign_id)) [
  | inl this ↦ (c, rw (this, ap (λ i. i == campaign_id) (same_id c) ∙ this) refl)
  | inr other ↦
      let (d, e) = find-update campaign_id change rows same_id (rw other at h) in
      (d, rw (other, other) e)
]

has-update :
    (campaign_id : String) (change : WebCampaign → WebCampaign) (rows : List WebCampaign)
    → ((c : WebCampaign) → (change c).id ≡ c.id)
    → any
        (λ (c : WebCampaign). c.id == campaign_id)
        (map (λ (c : WebCampaign). if c.id == campaign_id then change c else c) rows)
      ≡ any (λ (c : WebCampaign). c.id == campaign_id) rows
has-update campaign_id change [] same_id = refl
has-update campaign_id change (c ∷ rows) same_id = elim (Bool-cases (c.id == campaign_id)) [
  | inl this ↦ rw (this, ap (λ i. i == campaign_id) (same_id c) ∙ this) refl
  | inr other ↦ rw (other, other, has-update campaign_id change rows same_id) refl
]

module _ (lib : Outside) (campaign_id : String) where
  -- The campaign is listed and its row is as an update left it.
  abbrev pub Updated : String → String → Counts → Db → Type 0
  Updated status error counts s =
      Listed campaign_id s
      × ((c : WebCampaign) × (now : String) × (find_campaign campaign_id s.campaigns
            ≡ some (status_row status error counts now c)))

  pub Yields-update_status :
      (status error : String) (counts : Counts)
      → Yields
          (Listed campaign_id)
          (λ _. Updated status error counts)
          (update_status lib campaign_id status error counts)
  unfolding update_status query publish update_campaigns status_row gets modify pure ◌>>=◌
  Yields-update_status status error counts = record {
    yield = λ s h.
        let change = status_row status error counts (lib.now s.asked) in
        let (c, e) = find-update campaign_id change s.campaigns (λ d. refl) h in
        (
          has_campaign campaign_id s,
          refl,
          (has-update campaign_id change s.campaigns (λ d. refl) ∙ h, (c, lib.now s.asked, e)),
        );
  }

  module _ (monotonic : ℕ → ℕ → ℕ) (others : ℕ → Db → Db) (clock : IsClock monotonic)
      (keeping : KeepsCampaign campaign_id others) (agent_id suite_name : String)
      (total_runs : ℕ) where
    abbrev Kept : Db → Type 0
    Kept s = Listed campaign_id s

    abbrev Here : Executor → Type 0
    Here x = Listed campaign_id x.db

    -- What is put in the table of tests leaves the campaigns alone.
    Keeps-insert_test : (t : QuickTest) → Keeps Kept (insert_test t)
    unfolding insert_test
    Keeps-insert_test t = record {
      keep = λ s h. elim (Bool-cases (has_test_row t.id s)) [
        | inl taken ↦ rw taken h
        | inr fresh ↦ elim (Bool-cases (has_agent t.agent_id s)) [
          | inl here ↦ rw (fresh, here) h
          | inr absent ↦ rw (fresh, absent) h
        ]
      ];
    }

    Keeps-query : {A : Type 0} (question : ℕ → A) → Keeps Kept (query question)
    unfolding query
    Keeps-query question = record { keep = λ s h. h }

    Keeps-log : (line : CampaignLine) → Keeps Kept (log campaign_id line)
    unfolding log insert_line publish ◌>>=◌
    Keeps-log line = record { keep = λ s h. rw h h }

    ruleset kept_rules = (keeps_rules, Keeps-insert_test, Keeps-query, Keeps-log)

    Keeps-queue_test :
        (run_index : ℕ) (j : Job)
        → Keeps Kept
            (queue_test lib monotonic others campaign_id agent_id suite_name total_runs run_index j)
    unfolding queue_test
    Keeps-queue_test run_index j = search kept_rules depth 12

    Keeps-settle_round :
        (run_index : ℕ) (status : String)
        → Keeps Kept (
            settle_round lib monotonic others campaign_id agent_id suite_name total_runs run_index
              status)
    unfolding settle_round
    Keeps-settle_round run_index status = search kept_rules depth 9

    Meets-on_db :
        {A : Type 0} (m : Exec Db A) → Keeps Kept m → Meets Here (λ _. Here) Here (on_db m)
    Meets-on_db m k = Meets-lift Kept (λ _. Kept) m Kept (Meets-Keeps Kept m k)

    Meets-wait :
        (run_index : ℕ) (test_id : String)
        → Meets Here
            (λ _. Here)
            Here
            (wait_for_test monotonic others campaign_id test_id run_index total_runs)
    Meets-wait run_index test_id =
        Meets-Yields Here (λ _. Here) Here _
          (Yields-weaken Here _ (λ _. Here) _ (λ status x w. w.1)
            (Yields-wait_for_test campaign_id monotonic others clock keeping test_id run_index
              total_runs))

    Meets-run_job :
        (run_index : ℕ) (j : Job)
        → Meets Here
            (λ _. Here)
            Here
            (run_job lib monotonic others campaign_id agent_id suite_name total_runs run_index j)
    unfolding run_job
    Meets-run_job run_index j =
        Meets-bind Here (λ _. Here) (λ _. Here) Here _ _
          (Meets-on_db _ (Keeps-queue_test run_index j))
          (λ test_id.
            Meets-bind Here (λ _. Here) (λ _. Here) Here _ _ (Meets-wait run_index test_id)
              (λ status. Meets-on_db _ (Keeps-settle_round run_index status)))

    Meets-run_round :
        (run_index : ℕ) (j : Job)
        → Meets Here
            (λ _. Here)
            Here
            (run_round lib monotonic others campaign_id agent_id suite_name total_runs run_index j)
    unfolding run_round
    Meets-run_round run_index j =
        Meets-bind Here (λ _. Here) (λ _. Here) Here _ _ (Meets-on_db _ (Keeps-gets Kept _))
          (λ cancelled.
            Meets-if Here (λ _. Here) Here cancelled _ _
              (λ _.
                Meets-bind Here (λ _. Here) (λ _. Here) Here _ _
                  (Meets-on_db _ (Keeps-log cancelled_by_user))
                  (λ _.
                    Meets-Yields Here (λ _. Here) Here _
                      (Yields-pure Here (λ _. Here) stops (λ x h. h))))
              (λ _. Meets-run_job run_index j))

    -- Every run is counted, or the campaign was cancelled.
    abbrev pub Counted : ℕ → Tally → Executor → Type 0
    Counted all t x = Here x × ((t.cancelled ≡ true) ⊎ (t.succeeded + t.failed ≡ all))

    Meets-tally :
        (all : ℕ) (t : Tally)
        → (t.cancelled ≡ true) ⊎ (t.succeeded + t.failed ≡ all)
        → Meets Here (Counted all) Here (pure t)
    Meets-tally all t h =
        Meets-Yields Here (Counted all) Here _
          (Yields-pure Here (Counted all) t (λ x here. (here, h)))

    pub Meets-run_jobs :
        (all done : ℕ) (t : Tally) (jobs : List Job)
        → t.succeeded + t.failed + length jobs ≡ all
        → Meets Here
            (Counted all)
            Here
            (run_jobs lib monotonic others campaign_id agent_id suite_name total_runs done t jobs)
    unfolding run_jobs
    Meets-run_jobs all done t [] h = Meets-tally all t (inr (omega (arith, h)))
    Meets-run_jobs all done t (j ∷ jobs) h =
        Meets-bind Here (λ _. Here) (Counted all) Here _ _ (Meets-run_round (suc done) j)
          (elim [
            | succeeds ↦
                Meets-run_jobs all (suc done) (record t { succeeded = suc t.succeeded }) jobs
                  (omega (arith, h))
            | fails ↦
                Meets-run_jobs all (suc done) (record t { failed = suc t.failed }) jobs
                  (omega (arith, h))
            | stops ↦ Meets-tally all (record t { cancelled = true }) (inl refl)
          ])
