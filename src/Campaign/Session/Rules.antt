-- ===== src/Campaign/Session/Rules.antt =====
-- Proof rules for questions to the outside and for actions outside: they leave the state in memory
-- and the files alone, and they return.
use kitt.Prelude.{ℕ, String, List, refl, ap}
use kitt.Prelude.Exec.{Exec}
use kitt.Prelude.Exec.Rules.{Preserves, Returns, preserves_rules, returns_rules}
use kitt.Campaign.State.{CampaignState, StateFile}
use kitt.Campaign.Session.{Session, Action, query, perform}

-- The state in memory and the folder of state files.
unfoldable pub view : Session → CampaignState × List (String × StateFile)
view s = (s.state, s.files)

pub Preserves-query : {A : Type 0} (question : ℕ → A) → Preserves view (query question)
unfolding query view
Preserves-query question = record { same = λ s. refl }

pub Preserves-perform : (a : Action) → Preserves view (perform a)
unfolding perform view
Preserves-perform a = record { same = λ s. refl }

-- What `observe` shows of the state in memory.
unfoldable pub look : {B : Type 0} → (CampaignState → B) → Session → B
look observe s = observe s.state

-- What keeps the view keeps all that is read of the state.
pub Preserves-look :
    {A B : Type 0} (observe : CampaignState → B) (m : Exec Session A)
    → Preserves view m
    → Preserves (look observe) m
unfolding view look
Preserves-look observe m p = record {
  same = λ s. ap (λ (v : CampaignState × List (String × StateFile)). observe v.0) (p.same s);
}

pub Returns-query : {A : Type 0} (question : ℕ → A) → Returns (query question)
unfolding query
Returns-query question = record { result = λ s. (question s.asked, refl) }

pub Returns-perform : (a : Action) → Returns (perform a)
unfolding perform
Returns-perform a = record { result = λ s. (tt, refl) }

pub ruleset view_rules = (preserves_rules, Preserves-query, Preserves-perform)

pub ruleset session_returns = (returns_rules, Returns-query, Returns-perform)
