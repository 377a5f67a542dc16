-- ===== src/Web/Execution/Run/Jobs.antt =====
-- How many rounds the loops of a campaign have.
use kitt.Prelude.{◌*◌, String, List, [], ◌∷◌, ◌≡◌, arith, map, length, length-append, length-map}
use kitt.Web.Execution.{Model, EngineEntry, job, jobs_of, engine_jobs}

engine_jobs-length :
    (m : Model) (engines : List EngineEntry) (benchmarks : List String)
    → length (engine_jobs m engines benchmarks) ≡ length engines * length benchmarks
unfolding engine_jobs
engine_jobs-length m [] benchmarks = omega arith
engine_jobs-length m (e ∷ engines) benchmarks =
    rw
      (
        length-append (map (job m e) benchmarks) (engine_jobs m engines benchmarks),
        length-map (job m e) benchmarks,
        engine_jobs-length m engines benchmarks,
      )
      (omega arith)

pub jobs_of-length :
    (models : List Model) (engines : List EngineEntry) (benchmarks : List String)
    → length (jobs_of models engines benchmarks)
      ≡ length models * length engines * length benchmarks
unfolding jobs_of
jobs_of-length [] engines benchmarks = omega arith
jobs_of-length (m ∷ models) engines benchmarks =
    rw
      (
        length-append (engine_jobs m engines benchmarks) (jobs_of models engines benchmarks),
        engine_jobs-length m engines benchmarks,
        jobs_of-length models engines benchmarks,
      )
      (grind arith)
