-- ===== src/Web/Agents/Stale/Offline.antt =====
-- Which agents the stale check marks.
use mathlib.Core.List.{Memᴰ}
use kitt.Prelude.{ℕ, ◌<◌, String, ◌≢◌, some, List, ◌≡◌, any, if◌then◌else◌, ◌&&◌, ◌==◌}
use kitt.Web.Database.{Agent, Outside}
use kitt.Web.Agents.Stale.{is_stale, offline}

module _ (lib : Outside) (n : ℕ) where
  -- The row after the loop over `rows`.
  abbrev fate : List Agent → Agent → Agent
  fate rows b =
      if any (λ (a : Agent). (b.id == a.id) && is_stale lib n a) rows then offline lib b else b

-- The row of an agent that is online and no test agent, and whose last heartbeat parses and is older
-- than 90 seconds.
pub record IsStale (lib : Outside) (n : ℕ) (a : Agent) : Type 0 where
  pub online : a.status ≢ "offline"
  pub not_test : ¬ (
      (tags : List String) × (lib.loads_tags (if a.tags == "" then "[]" else a.tags) ≡ some tags)
      × Memᴰ "test" tags)
  pub has_beaten : a.last_heartbeat ≢ ""
  pub age : ℕ
  pub parsed : lib.age_us n a.last_heartbeat ≡ some age
  pub old : 90000000 < age
