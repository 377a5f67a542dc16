-- ===== src/Campaign/Saved.antt =====
-- The JSON object that `save` of src/kitt/campaign/state_manager.py writes, and the state that `load`
-- builds from one. JSON itself, which json.dump prints and json.loads parses, is not modelled. Of a
-- status, the texts of the source's comments are known, and another one does not load.
pub mod Loads
use kitt.Prelude.{
  String, Bool, true, false, Option, none, some, List, [], ◌∷◌, any, map, lookup, if◌then◌else◌,
  ◌==◌, ◌&&◌,
}
use kitt.Prelude.Floats.{Float}
use kitt.Campaign.Config.{RunStatus}
use kitt.Campaign.State.{
  RunState, CampaignState, CampaignStatus, FileValue, text, number, other, RunDict, Entry, plain,
  dicts, StateDict,
}

unfoldable pub status_text : RunStatus → String
status_text RunStatus.pending = "pending"
status_text RunStatus.running = "running"
status_text RunStatus.success = "success"
status_text RunStatus.failed = "failed"
status_text RunStatus.skipped = "skipped"

unfoldable pub campaign_status_text : CampaignStatus → String
campaign_status_text CampaignStatus.running = "running"
campaign_status_text CampaignStatus.completed = "completed"
campaign_status_text CampaignStatus.failed = "failed"
campaign_status_text CampaignStatus.paused = "paused"

-- asdict(r)
unfoldable pub run_dict : RunState → RunDict
run_dict r =
    ("model_name", text r.model_name)
    ∷ ("engine_name", text r.engine_name)
    ∷ ("quant", text r.quant)
    ∷ ("status", text (status_text r.status))
    ∷ ("duration_s", number r.duration_s)
    ∷ ("output_dir", text r.output_dir)
    ∷ ("error", text r.error)
    ∷ ("started_at", text r.started_at)
    ∷ ("completed_at", text r.completed_at)
    ∷ []

-- The dictionary of `save`.
unfoldable pub state_dict : CampaignState → StateDict
state_dict st =
    ("campaign_id", plain (text st.campaign_id))
    ∷ ("campaign_name", plain (text st.campaign_name))
    ∷ ("started_at", plain (text st.started_at))
    ∷ ("completed_at", plain (text st.completed_at))
    ∷ ("status", plain (text (campaign_status_text st.status)))
    ∷ ("runs", dicts (map run_dict st.runs))
    ∷ []

unfoldable pub read_status : String → Option RunStatus
read_status s =
    if s == "pending"
    then some RunStatus.pending
    else if s == "running"
    then some RunStatus.running
    else if s == "success"
    then some RunStatus.success
    else if s == "failed"
    then some RunStatus.failed
    else if s == "skipped"
    then some RunStatus.skipped
    else none

unfoldable pub read_campaign_status : String → Option CampaignStatus
read_campaign_status s =
    if s == "running"
    then some CampaignStatus.running
    else if s == "completed"
    then some CampaignStatus.completed
    else if s == "failed"
    then some CampaignStatus.failed
    else if s == "paused"
    then some CampaignStatus.paused
    else none

abbrev and_then : {A B : Type 0} → Option A → (A → Option B) → Option B
and_then none f = none
and_then (some a) f = f a

text_of : FileValue → Option String
text_of (text s) = some s
text_of _ = none

number_of : FileValue → Option Float
number_of (number x) = some x
number_of _ = none

-- A keyword argument without a default.
needed : String → RunDict → Option String
unfolding text_of
needed k d = and_then (lookup k d) text_of

-- One with the default "".
text_or : Option FileValue → Option String
unfolding text_of
text_or none = some ""
text_or (some v) = text_of v

-- duration_s, whose default is 0.0
duration_or : Option FileValue → Option Float
unfolding number_of
duration_or none = some (record { bits = 0 })
duration_or (some v) = number_of v

-- The fields of RunState; any other keyword is a TypeError.
is_field : String → Bool
is_field k =
    any (λ f. f == k)
      ("model_name" ∷ "engine_name" ∷ "quant" ∷ "status" ∷ "duration_s" ∷ "output_dir" ∷ "error"
        ∷ "started_at" ∷ "completed_at" ∷ [])

only_fields : RunDict → Bool
unfolding is_field
only_fields [] = true
only_fields ((k, v) ∷ d) = is_field k && only_fields d

build_run : RunDict → Option RunState
unfolding needed text_or duration_or read_status
build_run d = and_then (needed "model_name" d) λ model_name.
    and_then (needed "engine_name" d) λ engine_name. and_then (needed "quant" d) λ quant.
      and_then (and_then (needed "status" d) read_status) λ status.
        and_then (duration_or (lookup "duration_s" d)) λ duration_s.
          and_then (text_or (lookup "output_dir" d)) λ output_dir.
            and_then (text_or (lookup "error" d)) λ error.
              and_then (text_or (lookup "started_at" d)) λ started_at.
                and_then (text_or (lookup "completed_at" d)) λ completed_at. some (record {
                  model_name = model_name;
                  engine_name = engine_name;
                  quant = quant;
                  status = status;
                  duration_s = duration_s;
                  output_dir = output_dir;
                  error = error;
                  started_at = started_at;
                  completed_at = completed_at;
                })

-- RunState(**d)
unfoldable pub read_run : RunDict → Option RunState
unfolding only_fields build_run
read_run d = if only_fields d then build_run d else none

unfoldable pub read_runs : List RunDict → Option (List RunState)
read_runs [] = some []
read_runs (d ∷ ds) = and_then (read_run d) λ r. and_then (read_runs ds) λ rs. some (r ∷ rs)

plain_text : Entry → Option String
unfolding text_of
plain_text (plain v) = text_of v
plain_text (dicts ds) = none

-- data[k], and data.get(k, default)
entry : String → StateDict → Option String
unfolding plain_text
entry k d = and_then (lookup k d) plain_text

default_entry : String → Option Entry → Option String
unfolding plain_text
default_entry default none = some default
default_entry default (some e) = plain_text e

loaded_runs : Option Entry → Option (List RunState)
loaded_runs none = some []
loaded_runs (some (dicts ds)) = read_runs ds
loaded_runs (some (plain v)) = none

-- The state of `load`, `none` where building it raises.
unfoldable pub read_state : StateDict → Option CampaignState
unfolding entry default_entry loaded_runs
read_state d = and_then (entry "campaign_id" d) λ campaign_id.
    and_then (entry "campaign_name" d) λ campaign_name.
      and_then (default_entry "" (lookup "started_at" d)) λ started_at.
        and_then (default_entry "" (lookup "completed_at" d)) λ completed_at.
          and_then (and_then (default_entry "running" (lookup "status" d)) read_campaign_status)
            λ status. and_then (loaded_runs (lookup "runs" d)) λ runs. some (record {
              campaign_id = campaign_id;
              campaign_name = campaign_name;
              started_at = started_at;
              completed_at = completed_at;
              status = status;
              runs = runs;
            })
