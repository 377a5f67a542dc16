-- ===== src/Campaign/Session.antt =====
-- What a running campaign touches. The outside answers by the number of the question, so a theorem
-- covers every sequence of answers; what is done outside is kept as a trace.
pub mod Rules
use kitt.Prelude.{ℕ, suc, String, Bool, Option, List, ◌∷◌, []}
use kitt.Prelude.Floats.{Float, FloatOps}
use kitt.Prelude.Exec.{Exec, Result, ok, gets, modify, ◌>>=◌, ◌>>◌}
use kitt.Campaign.State.{CampaignState, StateFile}

-- How a call of the remote Devon client or of the local Devon package ends.
pub data Attempt : Type 0 where
  done : String → Attempt
  import_error : Attempt
  broke : String → Attempt

-- How a subprocess ends: its exit code with the text that is read from its output, or an exception
-- (a timeout, a missing program).
pub data Exit : Type 0 where
  exited : ℕ → String → Exit
  died : String → Exit

-- The answer of the HuggingFace API: whether "gated" is anything but False, an HTTP error, or none.
pub data HubAnswer : Type 0 where
  model : Bool → HubAnswer
  http_error : ℕ → HubAnswer
  no_answer : HubAnswer

pub record World : Type 0 where
  pub ops : FloatOps
  -- datetime.now().isoformat() and time.time()
  pub now : ℕ → String
  pub time : ℕ → Float
  -- the exception of a write of the state file, if there is one
  pub save_error : ℕ → Option String
  -- shutil.disk_usage(path).free in GB, `none` for an OSError; str(Path.home())
  pub free_gb : ℕ → String → Option Float
  pub home : String
  -- str of an exit code
  pub show_code : ℕ → String
  pub hub : ℕ → String → HubAnswer
  -- the three ways to fetch a model, and to remove it
  pub remote_download : ℕ → String → Option String → Attempt
  pub devon_available : Bool
  pub bridge_download : ℕ → String → Option String → Attempt
  pub cli_download : ℕ → String → Option String → Exit
  pub remote_remove : ℕ → String → Attempt
  pub bridge_remove : ℕ → String → Attempt
  -- find_model_path: where the file system has a model
  pub find_path : ℕ → String → Option String → Option String
  -- kitt run -m path -e engine -s suite; the text is the output folder or the error detail
  pub kitt_run : ℕ → String → String → String → Exit
  -- what discover_gguf_quants and discover_ollama_tags find: a quant with its include pattern, a tag
  -- fnmatch.fnmatch(name, pattern)
  pub fnmatch : String → String → Bool
  pub gguf_quants : String → List (String × String)
  pub ollama_tags : String → List String

-- What the campaign does outside.
pub data Action : Type 0 where
  downloads : String → Action
  benchmarks : String → String → String → Action
  removes : String → Action
  cleans_docker : Action
  notifies_failure : String → String → Action
  notifies_complete : Action
  -- update_campaign_progress: total runs, completed, succeeded, failed, skipped, duration
  reports_progress : ℕ → ℕ → ℕ → ℕ → ℕ → Float → Action

-- The folder of state files, the state object in memory, the number of questions that were asked,
-- and the actions, the latest first.
pub record Session : Type 0 where
  pub files : List (String × StateFile)
  pub state : CampaignState
  pub asked : ℕ
  pub trace : List Action

module _ {A : Type 0} where
  -- Ask the outside one question.
  unfoldable pub query : (ℕ → A) → Exec Session A
  query question s = (ok (question s.asked), record s { asked = suc s.asked })

unfoldable pub perform : Action → Exec Session (Unit {0})
perform a s = (ok tt, record s { trace = a ∷ s.trace })
