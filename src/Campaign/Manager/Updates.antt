-- ===== src/Campaign/Manager/Updates.antt =====
-- What `update_run`, `save`, `load` and `create` do to the state, its keys and the folder.
use kitt.Prelude.{
  ℕ, suc, String, Bool, true, none, some, List, [], ◌∷◌, ◌≡◌, ◌≢◌, refl, ap, ◌∙◌, subst, map, any,
  arith, eq_iff, eq_refl, lookup-insert, ◌==◌, Option-cases,
}
use kitt.Prelude.Floats.{Float}
use kitt.Prelude.Exec.{ok, ◌>>=◌}
use kitt.Prelude.Exec.Rules.{Preserves, Ends, Returns, Ends-bind, returns_rules}
use kitt.Campaign.Config.{RunStatus, is_done}
use kitt.Campaign.State.{RunState, CampaignState, saved, key, in_completed_keys}
use kitt.Campaign.Saved.{state_dict}
use kitt.Campaign.Saved.Loads.{read_state-state_dict}
use kitt.Campaign.Session.{World, Session, query}
use kitt.Campaign.Session.Rules.{Returns-query}
use kitt.Campaign.Manager.{
  or_raise, write_file, read_file, record_run, update_first, update_state, save, update_run, create,
  load, is_run_done,
}

abbrev pub is_registered : String → List RunState → Bool
is_registered k runs = any (λ r. key r == k) runs

abbrev pub keys : List RunState → List String
keys = map key

module _ (st : RunStatus) (duration : Float) (output_dir error now : String) where
  key-record_run : (r : RunState) → key (record_run st duration output_dir error now r) ≡ key r
  unfolding record_run
  key-record_run r = ground arith

  status-record_run : (r : RunState) → (record_run st duration output_dir error now r).status ≡ st
  unfolding record_run
  status-record_run r = ground arith

module _ (k : String) (f : RunState → RunState)
    (same_key : (r : RunState) → key (f r) ≡ key r) where
  pub keys-update_first : (rs : List RunState) → keys (update_first k f rs) ≡ keys rs
  unfolding update_first
  keys-update_first [] = refl
  keys-update_first (r ∷ rs) = ground (arith, same_key r, keys-update_first rs)

  done-update_first :
      (finished : (r : RunState) → is_done (f r).status ≡ true) (rs : List RunState)
      → is_registered k rs ≡ true
      → in_completed_keys k (update_first k f rs) ≡ true
  unfolding update_first in_completed_keys
  done-update_first finished [] h = cc
  done-update_first finished (r ∷ rs) h =
      ground (arith, same_key r, finished r, done-update_first finished rs)

  -- Runs with another key are not touched.
  done-update_first_ne :
      (j : String) (rs : List RunState)
      → k ≢ j
      → in_completed_keys j (update_first k f rs) ≡ in_completed_keys j rs
  unfolding update_first in_completed_keys
  done-update_first_ne j [] h = refl
  done-update_first_ne j (r ∷ rs) h =
      ground (arith, same_key r, eq_iff (key r) k, eq_iff (key r) j, done-update_first_ne j rs h)

abbrev pub keys_of : Session → List String
keys_of s = keys s.state.runs

abbrev pub done_in : String → Session → Bool
done_in k s = is_run_done s.state k

abbrev pub name_of : Session → String
name_of s = s.state.campaign_id

abbrev pub SavesSucceed : World → Type 0
SavesSucceed w = (n : ℕ) → w.save_error n ≡ none

-- The file of the campaign holds the state in memory.
abbrev pub IsSaved : Session → Type 0
IsSaved s = load s.state.campaign_id s.files ≡ some s.state

module _ (w : World) where
  module _ {B : Type 0} (observe : CampaignState → B) where
    -- A save changes the folder and nothing else.
    pub Preserves-save : Preserves (λ s. observe s.state) (save w)
    unfolding save or_raise write_file query ◌>>=◌
    Preserves-save = record { same = λ s. ground (arith, Option-cases (w.save_error s.asked)) }

  pub Ends-save : Ends (λ _. IsSaved) (save w)
  unfolding save or_raise write_file query ◌>>=◌ load read_file
  Ends-save = record {
    post = λ s a e. ground (
      arith,
      Option-cases (w.save_error s.asked),
      eq_refl s.state.campaign_id,
      lookup-insert s.state.campaign_id s.state.campaign_id (saved (state_dict s.state)) s.files,
      read_state-state_dict s.state,
    );
  }

  pub Returns-save : SavesSucceed w → Returns (save w)
  unfolding save or_raise write_file query ◌>>=◌
  Returns-save h = record { result = λ s. (tt, ground (arith, h s.asked)) }

  ruleset session_returns = (returns_rules, Returns-query, Returns-save)

  module _ (k : String) (st : RunStatus) (duration : Float) (output_dir error : String) where
    abbrev rewritten : Session → List RunState
    rewritten s =
        update_first k (record_run st duration output_dir error (w.now s.asked)) s.state.runs

    -- Whether the save succeeds or raises, the runs in memory are the updated ones.
    runs-update_run :
        (s : Session) → (update_run w k st duration output_dir error s).1.state.runs ≡ rewritten s
    unfolding update_run query ◌>>=◌
    runs-update_run s = (Preserves-save (λ st. st.runs)).same (
        update_state k (record_run st duration output_dir error (w.now s.asked))
          (record s { asked = suc s.asked }))

    pub Preserves-update_run-keys : Preserves keys_of (update_run w k st duration output_dir error)
    Preserves-update_run-keys = record {
      same = λ s.
          ap keys (runs-update_run s)
          ∙ keys-update_first k _ (key-record_run st duration output_dir error (w.now s.asked)) _;
    }

    pub Preserves-update_run-done :
        (j : String) → k ≢ j → Preserves (done_in j) (update_run w k st duration output_dir error)
    unfolding is_run_done
    Preserves-update_run-done j h = record {
      same = λ s.
          ap (in_completed_keys j) (runs-update_run s)
          ∙ done-update_first_ne k _ (key-record_run st duration output_dir error (w.now s.asked)) j
              _ h;
    }

    -- A final status makes a registered key done.
    pub update_run-done :
        (s : Session)
        → is_done st ≡ true
        → is_registered k s.state.runs ≡ true
        → done_in k (update_run w k st duration output_dir error s).1 ≡ true
    unfolding is_run_done
    update_run-done s final here =
        let now = w.now s.asked in
        ap (in_completed_keys k) (runs-update_run s)
        ∙ done-update_first k _ (key-record_run st duration output_dir error now)
            (λ r. ap is_done (status-record_run st duration output_dir error now r) ∙ final) _ here

    pub Ends-update_run : Ends (λ _. IsSaved) (update_run w k st duration output_dir error)
    unfolding update_run
    Ends-update_run = Ends-bind _ _ _ (λ now. Ends-bind _ _ _ (λ _. Ends-save))

    pub Returns-update_run : SavesSucceed w → Returns (update_run w k st duration output_dir error)
    unfolding update_run
    Returns-update_run h = search session_returns

  pub Returns-create : (i n : String) → SavesSucceed w → Returns (create w i n)
  unfolding create
  Returns-create i n h = search session_returns

  pub Ends-create : (i n : String) → Ends (λ _. IsSaved) (create w i n)
  unfolding create
  Ends-create i n = Ends-bind _ _ _ (λ now. Ends-bind _ _ _ (λ _. Ends-save))

  -- Where a save succeeds, `load` builds from the object that was written the state that was saved,
  -- with every field of the campaign and of each run.
  pub save-load :
      (s : Session)
      → (save w s).0 ≡ ok tt
      → load s.state.campaign_id (save w s).1.files ≡ some s.state
  save-load s e =
      subst (λ (st : CampaignState). load st.campaign_id (save w s).1.files ≡ some st)
        ((Preserves-save (λ st. st)).same s) (Ends-save.post s tt e)

  -- Recording a final status for a registered key makes that key done and leaves every other key as
  -- it was.
  update_run-keys :
      (k j : String) (st : RunStatus) (duration : Float) (output_dir error : String) (s : Session)
      → is_done st ≡ true
      → is_registered k s.state.runs ≡ true
      → k ≢ j
      → (done_in k (update_run w k st duration output_dir error s).1 ≡ true)
        × (done_in j (update_run w k st duration output_dir error s).1 ≡ done_in j s)
  update_run-keys k j st duration output_dir error s final here ne = (
    update_run-done k st duration output_dir error s final here,
    (Preserves-update_run-done k st duration output_dir error j ne).same s,
  )
