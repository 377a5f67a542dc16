-- ===== src/Campaign/Manager.antt =====
-- CampaignStateManager of src/kitt/campaign/state_manager.py: one JSON file for each campaign. The
-- folder is a dictionary from the campaign's id to what stands in its file; writing a temporary
-- file and renaming it is one step, which happens or raises.
pub mod Updates
use kitt.Prelude.{
  ℕ, String, Bool, Option, none, some, List, [], ◌∷◌, lookup, insert, if◌then◌else◌, ◌==◌,
}
use kitt.Prelude.Floats.{Float}
use kitt.Prelude.Exec.{Exec, Result, ok, pure, raise, gets, modify, ◌>>=◌, ◌>>◌}
use kitt.Campaign.Config.{RunStatus, pending, running, success, failed, skipped}
use kitt.Campaign.State.{
  RunState, CampaignState, CampaignStatus, StateFile, saved, unreadable, key, in_completed_keys,
}
use kitt.Campaign.Saved.{state_dict, read_state}
use kitt.Campaign.Session.{World, Session, query}

or_raise : Option String → Exec Session (Unit {0}) → Exec Session (Unit {0})
or_raise none m = m
or_raise (some e) m = raise e

write_file : Exec Session (Unit {0})
write_file =
    modify λ s. record s { files = insert s.state.campaign_id (saved (state_dict s.state)) s.files }

-- What `load` makes of a file: nothing of one that does not parse or does not give a state.
read_file : Option StateFile → Option CampaignState
read_file (some (saved d)) = read_state d
read_file _ = none

-- The time stamps of a run that gets the status `st` at the time `now`.
stamp : RunStatus → String → RunState → RunState
stamp running now r = record r { started_at = now }
stamp success now r = record r { completed_at = now }
stamp failed now r = record r { completed_at = now }
stamp skipped now r = record r { completed_at = now }
stamp pending now r = r

record_run : RunStatus → Float → String → String → String → RunState → RunState
unfolding stamp
record_run st duration output_dir error now r =
    stamp st now
      (record r { status = st; duration_s = duration; output_dir = output_dir; error = error })

-- The loop of `update_run`: only the first run with the key is changed.
unfoldable pub update_first : String → (RunState → RunState) → List RunState → List RunState
update_first k f [] = []
update_first k f (r ∷ rs) = if key r == k then f r ∷ rs else r ∷ update_first k f rs

update_state : String → (RunState → RunState) → Session → Session
update_state k f s = record s { state = record s.state { runs = update_first k f s.state.runs } }

module _ (w : World) where
  -- The atomic save of the state in memory.
  pub save : Exec Session (Unit {0})
  unfolding or_raise write_file
  save = do failure ← query w.save_error; or_raise failure write_file

  pub update_run : String → RunStatus → Float → String → String → Exec Session (Unit {0})
  unfolding update_state record_run
  update_run k st duration output_dir error = do
    now ← query w.now
    modify (update_state k (record_run st duration output_dir error now))
    save

  pub create : String → String → Exec Session (Unit {0})
  create campaign_id campaign_name = do
    now ← query w.now
    modify (λ s. record s {
      state = record {
        campaign_id = campaign_id;
        campaign_name = campaign_name;
        started_at = now;
        completed_at = "";
        status = CampaignStatus.running;
        runs = [];
      };
    })
    save

unfoldable pub load : String → List (String × StateFile) → Option CampaignState
unfolding read_file
load campaign_id files = read_file (lookup campaign_id files)

unfoldable pub is_run_done : CampaignState → String → Bool
is_run_done st k = in_completed_keys k st.runs
