-- ===== src/Web/Agents/Heartbeat/Oldest.antt =====
-- heartbeat of agent_manager.py: which test is handed out, by the order of their creation.
use mathlib.Core.List.{Memᴰ}
use kitt.Prelude.{String, false, List, ◌≡◌, ◌⊎◌, All}
use kitt.Web.Database.{QuickTest, Outside, IsTextOrder}
use kitt.Web.Agents.Heartbeat.{is_queued_for}

-- The test is queued for the agent.
abbrev pub Waits : String → QuickTest → Type 0
Waits agent_id t = (t.agent_id ≡ agent_id) × (t.status ≡ "queued")

-- A listed test that is queued for the agent, and no other such test was created before it.
pub record IsOldest (lib : Outside) (agent_id : String) (tests : List QuickTest) (t : QuickTest)
    : Type 0 where
  pub listed : Memᴰ t tests
  pub waits : Waits agent_id t
  pub oldest :
      All
        (λ (u : QuickTest).
          (¬ Waits agent_id u) ⊎ (lib.text_before u.created_at t.created_at ≡ false))
        tests

module _ (lib : Outside) (order : IsTextOrder lib) (agent_id : String) where
  abbrev NotBefore : QuickTest → QuickTest → Type 0
  NotBefore t u =
      (is_queued_for agent_id u ≡ false) ⊎ (lib.text_before u.created_at t.created_at ≡ false)
