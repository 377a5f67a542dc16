-- ===== src/Benchmarks.antt =====
-- YAMLBenchmark._execute of src/kitt/benchmarks/loader.py with CheckpointManager of
-- src/kitt/runners/checkpoint.py: prompts are put to the engine in turn, checkpoints are written on the
-- way, and a later run goes on from the last one.
pub mod Resume
pub mod Forgotten
use kitt.Prelude.{
  ℕ, zero, suc, ◌+◌, ◌%◌, String, Bool, true, false, Option, none, some, List, [], ◌∷◌, ◌++◌, drop,
  ltb, eqb, if◌then◌else◌, ◌==◌,
}
use kitt.Prelude.Exec.{Result, ok, raised}

-- What the engine generates; the metrics of it are kept as they are.
pub record Generated : Type 0 where
  pub output : String
  pub metrics : String

pub record Output : Type 0 where
  pub prompt : String
  pub output : String
  pub metrics : String

pub record Checkpoint : Type 0 where
  pub config_hash : String
  pub last_completed_index : ℕ
  pub outputs : List Output

-- The checkpoint file of a benchmark and a configuration.
pub data File : Type 0 where
  absent unreadable : File
  readable : Checkpoint → File

-- How a write ends: in full, in the middle, or before the file is opened.
pub data Write : Type 0 where
  complete broken untouched : Write

-- The engine and the disk, which answer the questions in turn.
pub record Host : Type 0 where
  pub generate : ℕ → String → Result Generated
  pub write : ℕ → Write
  pub unlinks : ℕ → Bool

pub record Bench : Type 0 where
  pub file : File
  pub asked : ℕ

-- The outputs and the errors of a loop so far, an error with the index of its item.
pub record Loop : Type 0 where
  pub outputs : List Output
  pub errors : List (ℕ × String)
  pub bench : Bench

pub record BenchResult : Type 0 where
  pub passed : Bool
  pub outputs : List Output
  pub errors : List (ℕ × String)

abbrev pub is_empty : List (ℕ × String) → Bool
is_empty [] = true
is_empty (e ∷ errors) = false

-- get_last_completed_index
unfoldable pub start_index : String → File → ℕ
start_index config_hash absent = 0
start_index config_hash unreadable = 0
start_index config_hash (readable c) =
    if c.config_hash == config_hash then suc c.last_completed_index else 0

-- load_partial_outputs
unfoldable pub load_partial_outputs : File → List Output
load_partial_outputs absent = []
load_partial_outputs unreadable = []
load_partial_outputs (readable c) = c.outputs

-- The outputs that a run starts with.
unfoldable pub start_outputs : String → File → List Output
start_outputs config_hash f =
    if ltb 0 (start_index config_hash f) then load_partial_outputs f else []

abbrev pub output_of : String → Generated → Output
output_of prompt g = record { prompt = prompt; output = g.output; metrics = g.metrics }

module _ (h : Host) (config_hash : String) where
  abbrev pub written : Write → ℕ → List Output → File → File
  written complete i outputs f =
      readable (record { config_hash = config_hash; last_completed_index = i; outputs = outputs })
  written broken i outputs f = unreadable
  written untouched i outputs f = f

  unfoldable pub save_checkpoint : ℕ → List Output → Bench → Bench
  save_checkpoint i outputs b = record {
    file = written (h.write b.asked) i outputs b.file;
    asked = suc b.asked;
  }

  remove_file : File → Bool → File
  remove_file absent unlinked = absent
  remove_file f true = absent
  remove_file f false = f

  unfoldable pub clear_checkpoint : Bench → Bench
  unfolding remove_file
  clear_checkpoint b = record { file = remove_file b.file (h.unlinks b.asked); asked = suc b.asked }

  -- The checkpoint after every hundredth item.
  unfoldable pub checkpoint_at : ℕ → List Output → Bench → Bench
  checkpoint_at i outputs b = if eqb ((i + 1) % 100) 0 then save_checkpoint i outputs b else b

  abbrev pub question : Bench → Bench
  question b = record b { asked = suc b.asked }

  -- One item of the loop, by the engine's answer.
  unfoldable pub after_item : ℕ → String → Result Generated → Loop → Loop
  after_item i p (ok g) l = record l {
    outputs = l.outputs ++ output_of p g ∷ [];
    bench = checkpoint_at i (l.outputs ++ output_of p g ∷ []) (question l.bench);
  }
  after_item i p (raised e) l = record l {
    errors = l.errors ++ (i, e) ∷ [];
    bench = save_checkpoint i l.outputs (question l.bench);
  }

  -- The loop from item `i` on.
  unfoldable pub process : ℕ → List String → Loop → Loop
  process i [] l = l
  process i (p ∷ prompts) l =
      process (suc i) prompts (after_item i p (h.generate l.bench.asked p) l)

  -- The loop as a run starts it, over those prompts that are left.
  unfoldable pub start_process : List String → Bench → Loop
  start_process prompts b =
      process (start_index config_hash b.file) prompts
        (record { outputs = start_outputs config_hash b.file; errors = []; bench = b })

  unfoldable pub finish_run : Loop → BenchResult × Bench
  finish_run l = (
    record { passed = is_empty l.errors; outputs = l.outputs; errors = l.errors },
    if is_empty l.errors then clear_checkpoint l.bench else l.bench,
  )

  unfoldable pub execute : List String → Bench → BenchResult × Bench
  execute prompts b = finish_run (start_process (drop (start_index config_hash b.file) prompts) b)
