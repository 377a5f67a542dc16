-- ===== src/Campaign/Runner/Loop.antt =====
-- The loop over the remaining runs: one result for each, in order, and every key done at the end.
use mathlib.Core.List.{Memᴰ}
use kitt.Prelude.{
  ℕ, String, Bool, true, false, List, [], ◌∷◌, ◌++◌, ◌≡◌, ◌≢◌, refl, sym, ap, ◌∙◌, subst, map, All,
  ◌⊎◌, inl, inr, append-nil, append_assoc, map-append, ◌==◌, eq_iff, eq_refl, Bool-cases,
  All-append,
}
use kitt.Prelude.Exec.{Exec, Result, ok, pure}
use kitt.Prelude.Exec.Rules.{Preserves, bind_inv}
use kitt.Campaign.Config.{
  CampaignConfig, CampaignRunSpec, CampaignRunResult, CampaignResult, spec_key, run_key, is_done,
}
use kitt.Campaign.State.{CampaignState}
use kitt.Campaign.Session.{World, Session}
use kitt.Campaign.Session.Rules.{view, look, view_rules}
use kitt.Campaign.Manager.{is_run_done}
use kitt.Campaign.Manager.Updates.{
  is_registered, keys, keys_of, done_in, Preserves-update_run-keys, Preserves-update_run-done,
}
use kitt.Campaign.Execute.{Options, execute_run}
use kitt.Campaign.Execute.Rules.{execute_run-look}
use kitt.Campaign.Execute.Outcome.{execute_run-Settled, any-keys}
use kitt.Campaign.Runner.{add_result, report, tell_failure, run_all}

abbrev pub result_key : CampaignRunResult → String
result_key r = run_key r.model_name r.engine_name r.quant

abbrev pub IsFinal : CampaignRunResult → Type 0
IsFinal r = is_done r.status ≡ true

module _ (w : World) (config : CampaignConfig) (options : Options) where
  execute_run-keys :
      (run : CampaignRunSpec) (s : Session)
      → keys_of (execute_run w config options run s).1 ≡ keys_of s
  unfolding look
  execute_run-keys run s =
      (execute_run-look w config options run (λ st. keys st.runs)
          (λ st d o e. record {
            same = (Preserves-update_run-keys w (spec_key run) st d o e).same;
          })).same
        s

  execute_run-registered :
      (run : CampaignRunSpec) (k : String) (s : Session)
      → is_registered k (execute_run w config options run s).1.state.runs
        ≡ is_registered k s.state.runs
  execute_run-registered run k s =
      any-keys k _
      ∙ ap (kitt.Prelude.any (λ j. j == k)) (execute_run-keys run s)
      ∙ sym (any-keys k _)

  execute_run-other :
      (run : CampaignRunSpec) (k : String) (s : Session)
      → spec_key run ≢ k
      → done_in k (execute_run w config options run s).1 ≡ done_in k s
  unfolding look
  execute_run-other run k s ne =
      (execute_run-look w config options run (λ st. is_run_done st k)
          (λ st d o e. record {
            same = (Preserves-update_run-done w (spec_key run) st d o e k ne).same;
          })).same
        s

  -- A run that returns undoes no key.
  execute_run-done :
      (run : CampaignRunSpec) (k : String) (s : Session) (r : CampaignRunResult)
      → (execute_run w config options run s).0 ≡ ok r
      → is_registered k s.state.runs ≡ true
      → (spec_key run ≡ k) ⊎ (done_in k s ≡ true)
      → done_in k (execute_run w config options run s).1 ≡ true
  execute_run-done run k s r e here why = elim (Bool-cases (spec_key run == k)) [
    | inl same ↦
        subst
          (λ j.
            is_registered j (execute_run w config options run s).1.state.runs ≡ true
            → done_in j (execute_run w config options run s).1 ≡ true)
          ((eq_iff (spec_key run) k).0 same)
          ((execute_run-Settled w config options run).post s r e).key_done
          (execute_run-registered run k s ∙ here)
    | inr other ↦ elim why [
      | inl same ↦ absurd (cc (eq_refl k, same, other))
      | inr done ↦ execute_run-other run k s (λ same. cc (eq_refl k, same, other)) ∙ done
    ]
  ]

  -- How the loop goes on from its first run.
  record Goes (total : ℕ) (result : CampaignResult) (run : CampaignRunSpec)
      (rest : List CampaignRunSpec) (s : Session) : Type 0 where
    first : CampaignRunResult
    then : Session
    returned : (execute_run w config options run s).0 ≡ ok first
    kept : then.state ≡ (execute_run w config options run s).1.state
    goes :
        run_all w config options total result (run ∷ rest) s
        ≡ run_all w config options total (add_result w config options result first) rest then

  state_of_view :
      {A : Type 0} (m : Exec Session A) (s : Session) → Preserves view m → (m s).1.state ≡ s.state
  unfolding view
  state_of_view m s p = ap (λ (v : CampaignState × _). v.0) (p.same s)

  report-view : (n : ℕ) (c : CampaignResult) → Preserves view (report w config options n c)
  unfolding report
  report-view n c = search view_rules

  tell_failure-view :
      (run : CampaignRunSpec) (r : CampaignRunResult)
      → Preserves view (tell_failure w config options run r)
  unfolding tell_failure
  tell_failure-view run r = search view_rules

  run_all_step :
      (total : ℕ) (result : CampaignResult) (run : CampaignRunSpec) (rest : List CampaignRunSpec)
      (s : Session) (out : CampaignResult)
      → (run_all w config options total result (run ∷ rest) s).0 ≡ ok out
      → Goes total result run rest s
  unfolding run_all
  run_all_step total result run rest s out e =
      let (r, e₁, p₁) = bind_inv (execute_run w config options run) _ s out e in
      let s₁ = (execute_run w config options run s).1 in
      let result' = add_result w config options result r in
      let (u, e₂, p₂) = bind_inv (report w config options total result') _ s₁ out (rw p₁ at e) in
      let s₂ = (report w config options total result' s₁).1 in
      let (v, e₃, p₃) =
        bind_inv (tell_failure w config options run r) _ s₂ out (rw p₂ at (rw p₁ at e)) in
      record {
        first = r;
        then = (tell_failure w config options run r s₂).1;
        returned = e₁;
        kept =
            state_of_view (tell_failure w config options run r) s₂ (tell_failure-view run r)
            ∙ state_of_view (report w config options total result') s₁ (report-view total result');
        goes = p₁ ∙ p₂ ∙ p₃;
      }

  run_all-nil :
      (total : ℕ) (result : CampaignResult) (s : Session)
      → run_all w config options total result [] s ≡ (ok result, s)
  unfolding run_all pure
  run_all-nil total result s = refl

  pub nil_result :
      (total : ℕ) (result out : CampaignResult) (s : Session)
      → (run_all w config options total result [] s).0 ≡ ok out
      → result ≡ out
  nil_result total result out s e =
      let same : ok result ≡ ok out =
        ap (λ (p : Result CampaignResult × Session). p.0) (sym (run_all-nil total result s)) ∙ e in
      cc same

  add_result-keys :
      (result : CampaignResult) (r : CampaignRunResult)
      → map result_key (add_result w config options result r).runs
        ≡ map result_key result.runs ++ result_key r ∷ []
  unfolding add_result
  add_result-keys result r = map-append result_key result.runs (r ∷ [])

  -- What the loop gives for the first run and the rest, where the first run returned `r`.
  onward :
      {total : ℕ} {result : CampaignResult} {run : CampaignRunSpec} {rest : List CampaignRunSpec}
      {s : Session}
      → (out : CampaignResult) → (g : Goes total result run rest s)
      → (run_all w config options total result (run ∷ rest) s).0 ≡ ok out
      → (run_all w config options total (add_result w config options result g.first) rest g.then).0
        ≡ ok out
  onward out g e = ap (λ (p : Result CampaignResult × Session). p.0) (sym g.goes) ∙ e

  -- The results are those there were and one for each run of the loop, in order.
  pub run_all-results :
      (total : ℕ) (specs : List CampaignRunSpec) (result : CampaignResult) (s : Session)
      (out : CampaignResult)
      → (run_all w config options total result specs s).0 ≡ ok out
      → map result_key out.runs ≡ map result_key result.runs ++ map spec_key specs
  run_all-results total [] result s out e =
      ap (λ (c : CampaignResult). map result_key c.runs) (sym (nil_result total result out s e))
      ∙ sym (append-nil _)
  run_all-results total (run ∷ rest) result s out e =
      let g = run_all_step total result run rest s out e in
      let settled = (execute_run-Settled w config options run).post s g.first g.returned in
      run_all-results total rest (add_result w config options result g.first) g.then out
        (onward out g e)
      ∙ ap (λ l. l ++ map spec_key rest) (add_result-keys result g.first)
      ∙ append_assoc (map result_key result.runs) (result_key g.first ∷ []) (map spec_key rest)
      ∙ ap (λ k. map result_key result.runs ++ k ∷ map spec_key rest) settled.named

  pub run_all-IsFinal :
      (total : ℕ) (specs : List CampaignRunSpec) (result : CampaignResult) (s : Session)
      (out : CampaignResult)
      → (run_all w config options total result specs s).0 ≡ ok out
      → All IsFinal result.runs
      → All IsFinal out.runs
  run_all-IsFinal total [] result s out e h =
      subst (λ (c : CampaignResult). All IsFinal c.runs) (nil_result total result out s e) h
  run_all-IsFinal total (run ∷ rest) result s out e h =
      let g = run_all_step total result run rest s out e in
      let settled = (execute_run-Settled w config options run).post s g.first g.returned in
      run_all-IsFinal total rest (add_result w config options result g.first) g.then out
        (onward out g e)
        (unfold add_result in All-append IsFinal result.runs (g.first ∷ []) h (settled.final, tt))

  -- The key is done before, is the first run's, or is that of a later run.
  first_or_later :
      {P : Type 0} (run : CampaignRunSpec) (rest : List CampaignRunSpec) (k : String) (s : Session)
      → (done_in k s ≡ true) ⊎ ((r : CampaignRunSpec) × Memᴰ r (run ∷ rest) × (spec_key r ≡ k))
      → ((spec_key run ≡ k) ⊎ (done_in k s ≡ true)
          → P ⊎ ((r : CampaignRunSpec) × Memᴰ r rest × (spec_key r ≡ k)))
      → P ⊎ ((r : CampaignRunSpec) × Memᴰ r rest × (spec_key r ≡ k))
  first_or_later run rest k s (inl done) now = now (inr done)
  first_or_later run rest k s (inr (r, Memᴰ.head e, same)) now =
      now (inl (ap spec_key (sym e) ∙ same))
  first_or_later run rest k s (inr (r, Memᴰ.tail m, same)) now = inr (r, m, same)

  -- A registered key that was done, or that a run of the loop has, is done after the loop.
  pub run_all-done :
      (total : ℕ) (specs : List CampaignRunSpec) (result : CampaignResult) (s : Session)
      (out : CampaignResult) (k : String)
      → (run_all w config options total result specs s).0 ≡ ok out
      → is_registered k s.state.runs ≡ true
      → (done_in k s ≡ true) ⊎ ((r : CampaignRunSpec) × Memᴰ r specs × (spec_key r ≡ k))
      → done_in k (run_all w config options total result specs s).1 ≡ true
  run_all-done total [] result s out k e here why = elim why [
    | inl done ↦ rw (run_all-nil total result s) done
    | inr (r, m, _) ↦ elim m [ ]
  ]
  run_all-done total (run ∷ rest) result s out k e here why =
      let g = run_all_step total result run rest s out e in
      let here' : is_registered k g.then.state.runs ≡ true =
        ap (λ (st : CampaignState). is_registered k st.runs) g.kept
        ∙ execute_run-registered run k s
        ∙ here in
      let later =
        run_all-done total rest (add_result w config options result g.first) g.then out k
          (onward out g e) here' in
      let done_now = λ (why' : (spec_key run ≡ k) ⊎ (done_in k s ≡ true)).
        ap (λ (st : CampaignState). is_run_done st k) g.kept
        ∙ execute_run-done run k s g.first g.returned here why' in
      ap (λ (p : Result CampaignResult × Session). done_in k p.1) g.goes
      ∙ later (first_or_later run rest k s why (λ h. inl (done_now h)))
