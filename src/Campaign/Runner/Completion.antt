-- ===== src/Campaign/Runner/Completion.antt =====
-- A whole campaign: how `run` ends.
use mathlib.Core.List.{Memᴰ}
use kitt.Prelude.{
  String, Bool, true, false, List, [], ◌∷◌, ◌≡◌, refl, sym, ap, ◌∙◌, subst, All, Bool-cases, inl,
  inr, length,
}
use kitt.Prelude.Exec.{Result, ok, raised, continue, pure, modify, ◌>>=◌, ◌>>◌}
use kitt.Prelude.Exec.Rules.{bind_inv, Ends-bind}
use kitt.Campaign.Config.{CampaignConfig, CampaignRunSpec, CampaignResult, spec_key}
use kitt.Campaign.State.{CampaignState, CampaignStatus, in_completed_keys}
use kitt.Campaign.Session.{World, Session, notifies_complete, query, perform}
use kitt.Campaign.Manager.{save, is_run_done}
use kitt.Campaign.Manager.Updates.{is_registered, done_in, IsSaved, Ends-save, Preserves-save}
use kitt.Campaign.Expand.Register.{register_runs-is_registered}
use kitt.Campaign.Execute.{Options}
use kitt.Campaign.Runner.{
  zero_s, register, complete, remaining, open_state, expanded_runs, fresh_result, loop_from, finish,
  carry_on, run_campaign,
}
use kitt.Campaign.Runner.Loop.{IsFinal, run_all-IsFinal, run_all-done}

module _ {P : CampaignRunSpec → Type 0} where
  All-Mem : (rs : List CampaignRunSpec) → ((r : CampaignRunSpec) → Memᴰ r rs → P r) → All P rs
  All-Mem [] each = tt
  All-Mem (r ∷ rs) each = (each r (Memᴰ.head refl), All-Mem rs (λ x m. each x (Memᴰ.tail m)))

module _ (w : World) (config : CampaignConfig) (options : Options) where
  after_save :
      (result : CampaignResult) (r : Result (Unit {0})) (s : Session) (out : CampaignResult)
      → (continue r (λ _. perform notifies_complete >> pure result) s).0 ≡ ok out
      → (r ≡ ok tt)
        × (out ≡ result)
        × ((continue r (λ _. perform notifies_complete >> pure result) s).1
            ≡ record s { trace = notifies_complete ∷ s.trace })
  unfolding perform pure ◌>>=◌
  after_save result (ok tt) s out e = (refl, cc, refl)
  after_save result (raised x) s out e = absurd (cc)

  -- How a campaign ends: the state is marked as completed, keeps the runs, and is on disk.
  pub record Finished (result : CampaignResult) (s : Session) (out : CampaignResult) (s' : Session)
      : Type 0 where
    pub results : out.runs ≡ result.runs
    pub runs : s'.state.runs ≡ s.state.runs
    pub status : s'.state.status ≡ CampaignStatus.completed
    pub on_disk : IsSaved s'
    pub same_id : s'.state.campaign_id ≡ s.state.campaign_id

  finish_lem :
      (result : CampaignResult) (s : Session) (out : CampaignResult)
      → (finish w config options result s).0 ≡ ok out
      → Finished result s out (finish w config options result s).1
  unfolding finish query ◌>>=◌ perform complete
  finish_lem result s out e =
      let now = w.now s.asked in
      let s₁ = complete w config options now (record s { asked = Prim.Native.Nat.suc s.asked }) in
      let (wrote, same, end) =
        after_save (record result { completed_at = now }) (save w s₁).0 (save w s₁).1 out e in
      subst (Finished result s out) (sym end) (record {
        results = ap (λ (c : CampaignResult). c.runs) same;
        runs = (Preserves-save w (λ st. st.runs)).same s₁;
        status = (Preserves-save w (λ st. st.status)).same s₁;
        on_disk = (Ends-save w).post s₁ tt wrote;
        same_id = (Preserves-save w (λ st. st.campaign_id)).same s₁;
      })

  abbrev pub planned : List CampaignRunSpec
  planned = expanded_runs w config options

  -- What holds when a campaign returns.
  pub record Completed (out : CampaignResult) (s : Session) : Type 0 where
    pub all_done : All (λ r. done_in (spec_key r) s ≡ true) planned
    pub all_final : All IsFinal out.runs
    pub status : s.state.status ≡ CampaignStatus.completed
    pub on_disk : IsSaved s

  -- The parts of a campaign that was opened with the state of `s` and returned.
  pub record Carried (campaign_id : String) (s : Session) (out : CampaignResult) (s' : Session)
      : Type 0 where
    pub before : Session
    pub registered : before.state ≡ (register w config options planned s).state
    pub result : CampaignResult
    pub ran : (loop_from w config options campaign_id planned before).0 ≡ ok result
    pub finished : Finished result (loop_from w config options campaign_id planned before).1 out s'

  pub carry_on_lem :
      (campaign_id : String) (s : Session) (out : CampaignResult)
      → (carry_on w config options campaign_id s).0 ≡ ok out
      → Carried campaign_id s out (carry_on w config options campaign_id s).1
  unfolding carry_on modify
  carry_on_lem campaign_id s out e =
      let s₁ = register w config options planned s in
      let (u, _, p₁) = bind_inv (modify (register w config options planned)) _ s out e in
      let (v, wrote, p₂) = bind_inv (save w) _ s₁ out (rw p₁ at e) in
      let s₂ = (save w s₁).1 in
      let (result, ran, p₃) =
        bind_inv (loop_from w config options campaign_id planned) _ s₂ out
          (rw p₂ at (rw p₁ at e)) in
      let s₃ = (loop_from w config options campaign_id planned s₂).1 in
      let whole = p₁ ∙ p₂ ∙ p₃ in
      let ended = ap (λ (p : Result CampaignResult × Session). p.0) (sym whole) ∙ e in
      record {
        before = s₂;
        registered = (Preserves-save w (λ st. st)).same s₁;
        result = result;
        ran = ran;
        finished =
            subst (λ (p : Result CampaignResult × Session). Finished result s₃ out p.1) (sym whole)
              (finish_lem result s₃ out ended);
      }

  Mem-remaining :
      (st : CampaignState) (r : CampaignRunSpec) (specs : List CampaignRunSpec)
      → Memᴰ r specs
      → is_run_done st (spec_key r) ≡ false
      → Memᴰ r (remaining w config options st specs)
  Mem-remaining st r [] m new = elim m [ ]
  Mem-remaining st r (x ∷ specs) (Memᴰ.head e) new =
      let new_x : is_run_done st (spec_key x) ≡ false =
        ap (λ y. is_run_done st (spec_key y)) (sym e) ∙ new in
      rw new_x (Memᴰ.head e)
  Mem-remaining st r (x ∷ specs) (Memᴰ.tail m) new =
      elim (Bool-cases (is_run_done st (spec_key x))) [
        | inl old ↦ rw old (Mem-remaining st r specs m new)
        | inr fresh ↦ rw fresh (Memᴰ.tail (Mem-remaining st r specs m new))
      ]

  -- After the loop over the runs that are not done, the key of every planned run is done.
  loop_from-done :
      (campaign_id : String) (s before : Session) (out : CampaignResult) (r : CampaignRunSpec)
      → before.state ≡ (register w config options planned s).state
      → (loop_from w config options campaign_id planned before).0 ≡ ok out
      → Memᴰ r planned
      → done_in (spec_key r) (loop_from w config options campaign_id planned before).1 ≡ true
  unfolding loop_from register
  loop_from-done campaign_id s before out r same e m =
      run_all-done w config options (length planned)
        (remaining w config options before.state planned)
        (fresh_result w config options campaign_id before.state) before out (spec_key r) e
        (ap (λ (st : CampaignState). is_registered (spec_key r) st.runs) same
          ∙ register_runs-is_registered (zero_s w config options) s.state.runs r planned m)
        (elim (Bool-cases (is_run_done before.state (spec_key r))) [
          | inl old ↦ inl old
          | inr fresh ↦ inr (r, Mem-remaining before.state r planned m fresh, refl)
        ])

  loop_from-IsFinal :
      (campaign_id : String) (before : Session) (out : CampaignResult)
      → (loop_from w config options campaign_id planned before).0 ≡ ok out
      → All IsFinal out.runs
  unfolding loop_from fresh_result
  loop_from-IsFinal campaign_id before out e =
      run_all-IsFinal w config options (length planned)
        (remaining w config options before.state planned)
        (fresh_result w config options campaign_id before.state) before out e tt

  Carried-Completed :
      (campaign_id : String) (s : Session) (out : CampaignResult) (s' : Session)
      → Carried campaign_id s out s'
      → Completed out s'
  unfolding is_run_done
  Carried-Completed campaign_id s out s' c = record {
    all_done = All-Mem planned (λ r m.
        ap (in_completed_keys (spec_key r)) c.finished.runs
        ∙ loop_from-done campaign_id s c.before c.result r c.registered c.ran m);
    all_final =
        subst (All IsFinal) (sym c.finished.results)
          (loop_from-IsFinal campaign_id c.before c.result c.ran);
    status = c.finished.status;
    on_disk = c.finished.on_disk;
  }

  -- Where a campaign returns, new or resumed, the key of every planned run is done, every result
  -- has a final status, the state is marked as completed and the state file holds it.
  pub run_campaign-Completed :
      (campaign_id : String) (resume : Bool) (s : Session) (out : CampaignResult)
      → (run_campaign w config options campaign_id resume s).0 ≡ ok out
      → Completed out (run_campaign w config options campaign_id resume s).1
  unfolding run_campaign
  run_campaign-Completed campaign_id resume =
      (Ends-bind Completed (open_state w config options campaign_id resume) _ (λ _. record {
        post = λ s out e. Carried-Completed campaign_id s out _ (carry_on_lem campaign_id s out e);
      })).post
