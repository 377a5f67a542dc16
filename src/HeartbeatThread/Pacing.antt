-- ===== src/HeartbeatThread/Pacing.antt =====
-- The interval between two heartbeats stays within its bounds.
use kitt.Prelude.{
  ℕ, zero, suc, ◌≤◌, String, Bool, true, false, not, Option, none, some, List, ◌≡◌, refl, arith,
  leb, ◌==◌, ◌||◌, Bool-cases, inl, inr,
}
use kitt.Prelude.Exec.{Exec, modify}
use kitt.Prelude.Exec.Keeps.{Keeps, keeps_rules}
use kitt.HeartbeatThread.{
  Thread, Reply, Answer, answered, http_error, unreachable, Registration, given_id, no_id,
  register_raises, Surroundings, finally, request, call_register, sync_id, with_new_id,
  register_again, received, change_id, send_heartbeat, set_status, set_interval, sync_interval,
  hand_on, sync_settings, beat, in_range,
}

-- Both intervals are from 10 to 300 seconds, and at least 60 while a benchmark runs.
pub record IsPaced (t : Thread) : Type 0 where
  pub base_from : 10 ≤ t.base_interval_s
  pub base_to : t.base_interval_s ≤ 300
  pub active_from : 10 ≤ t.active_interval_s
  pub active_to : t.active_interval_s ≤ 300
  pub slow : (not (t.status == "running") || leb 60 t.active_interval_s) ≡ true

set_status-IsPaced :
    (status task : String) (t : Thread) → IsPaced t → IsPaced (set_status status task t)
unfolding set_status
set_status-IsPaced status task t p = record {
  base_from = p.base_from;
  base_to = p.base_to;
  active_from = ground (arith, p.base_from);
  active_to = ground (arith, p.base_to);
  slow = elim (Bool-cases (status == "running")) [
    | inl runs ↦ rw runs (ground arith)
    | inr idle ↦ rw idle refl
  ];
}

set_interval-IsPaced : (seconds : ℕ) (t : Thread) → IsPaced t → IsPaced (set_interval seconds t)
unfolding set_interval
set_interval-IsPaced seconds t p = elim (Bool-cases (in_range seconds)) [
  | inl fits ↦ rw (fits) (record {
    base_from = ground (arith, fits);
    base_to = ground (arith, fits);
    active_from = ground (arith, fits, p.active_from);
    active_to = ground (arith, fits, p.active_to);
    slow = ground (arith, p.slow);
  })
  | inr off ↦ rw (off) p
]

sync_interval-IsPaced : (o : Option ℕ) (t : Thread) → IsPaced t → IsPaced (sync_interval o t)
unfolding sync_interval
sync_interval-IsPaced none t p = p
sync_interval-IsPaced (some n) t p = elim (Bool-cases (in_range n)) [
  | inl fits ↦ rw (fits) (record {
    base_from = ground (arith, fits);
    base_to = ground (arith, fits);
    active_from = ground (arith, fits);
    active_to = ground (arith, fits);
    slow = ground arith;
  })
  | inr off ↦ rw (off) p
]

module _ (w : Surroundings) where
  -- Anything else that the thread does leaves the intervals and the status alone.
  same_pace :
      (t t' : Thread)
      → t'.base_interval_s ≡ t.base_interval_s
      → t'.active_interval_s ≡ t.active_interval_s
      → t'.status ≡ t.status
      → IsPaced t
      → IsPaced t'
  same_pace t t' b a s p = record {
    base_from = omega (arith, b, p.base_from);
    base_to = omega (arith, b, p.base_to);
    active_from = omega (arith, a, p.active_from);
    active_to = omega (arith, a, p.active_to);
    slow = rw (a, s) p.slow;
  }

  Keeps-request : Keeps IsPaced (request w)
  unfolding request
  Keeps-request = record { keep = λ t p. same_pace t _ refl refl refl p }

  Keeps-call_register : Keeps IsPaced (call_register w)
  unfolding call_register
  Keeps-call_register = record { keep = λ t p. same_pace t _ refl refl refl p }

  Keeps-change_id : (new_id : String) → Keeps IsPaced (modify (change_id new_id))
  unfolding modify change_id
  Keeps-change_id new_id = record { keep = λ t p. same_pace t _ refl refl refl p }

  sync_id-IsPaced : (o : Option String) (t : Thread) → IsPaced t → IsPaced (sync_id w o t)
  unfolding sync_id change_id
  sync_id-IsPaced none t p = p
  sync_id-IsPaced (some canonical) t p = elim (Bool-cases (canonical == "")) [
    | inl empty ↦ rw (empty) p
    | inr given ↦ elim (Bool-cases (canonical == t.agent_id)) [
      | inl same ↦ rw (given, same) p
      | inr other ↦ rw (given, other) (same_pace t _ refl refl refl p)
    ]
  ]

  Keeps-sync_id : (o : Option String) → Keeps IsPaced (modify (sync_id w o))
  unfolding modify
  Keeps-sync_id o = record { keep = sync_id-IsPaced o }

  Keeps-retrying : Keeps IsPaced (modify (λ (t : Thread). record t { retrying = true }))
  unfolding modify
  Keeps-retrying = record { keep = λ t p. same_pace t _ refl refl refl p }

  Keeps-finally :
      (m : Exec Thread Reply)
      → Keeps IsPaced m
      → Keeps IsPaced (finally m (λ t. record t { retrying = false }))
  unfolding finally
  Keeps-finally m k = record { keep = λ t p. same_pace (m t).1 _ refl refl refl (k.keep t p) }

  ruleset pace_rules = (
    keeps_rules, Keeps-request, Keeps-call_register, Keeps-change_id, Keeps-sync_id, Keeps-retrying,
    Keeps-finally,
  )

  Keeps-with_new_id :
      (again : Exec Thread Reply) (r : Registration)
      → Keeps IsPaced again
      → Keeps IsPaced (with_new_id w again r)
  unfolding with_new_id
  Keeps-with_new_id again (given_id new_id) k = search pace_rules depth 9
  Keeps-with_new_id again no_id k = search pace_rules
  Keeps-with_new_id again register_raises k = search pace_rules

  Keeps-received :
      (again : Exec Thread Reply) (a : Answer)
      → Keeps IsPaced again
      → Keeps IsPaced (received w again a)
  unfolding received register_again
  Keeps-received again (answered reply) k = search pace_rules depth 9
  Keeps-received again (http_error code) k = search (pace_rules, Keeps-with_new_id) depth 12
  Keeps-received again unreachable k = search pace_rules

  Keeps-send_heartbeat : (n : ℕ) → Keeps IsPaced (send_heartbeat w n)
  unfolding send_heartbeat
  Keeps-send_heartbeat zero = search pace_rules
  Keeps-send_heartbeat (suc n) =
      let rest = Keeps-send_heartbeat n in search (pace_rules, Keeps-received) depth 9

  Keeps-hand_on : (b : Bool) (commands : List String) → Keeps IsPaced (modify (hand_on b commands))
  unfolding modify hand_on
  Keeps-hand_on true commands = record { keep = λ t p. same_pace t _ refl refl refl p }
  Keeps-hand_on false commands = record { keep = λ t p. p }

  Keeps-sync_interval : (o : Option ℕ) → Keeps IsPaced (modify (sync_interval o))
  unfolding modify
  Keeps-sync_interval o = record { keep = sync_interval-IsPaced o }

  Keeps-sync_settings :
      (settings : Option (List (String × String))) → Keeps IsPaced (sync_settings w settings)
  unfolding sync_settings
  Keeps-sync_settings none = search pace_rules
  Keeps-sync_settings (some settings) = search (pace_rules, Keeps-sync_interval) depth 9

  Keeps-beat : Keeps IsPaced (beat w)
  unfolding beat
  Keeps-beat =
      search (pace_rules, Keeps-send_heartbeat, Keeps-hand_on, Keeps-sync_settings) depth 12

-- What happens to the thread: a round of its loop, or a call of another thread.
pub data Step (w : Surroundings) : Thread → Thread → Type 0 where
  beats : (t : Thread) → Step w t (beat w t).1
  sets_status : (status task : String) (t : Thread) → Step w t (set_status status task t)
  sets_interval : (seconds : ℕ) (t : Thread) → Step w t (set_interval seconds t)

pub data Reach (w : Surroundings) (t : Thread) : Thread → Type 0 where
  here : Reach w t t
  next : {u v : Thread} → Reach w t u → Step w u v → Reach w t v

module _ (w : Surroundings) where
  Step-IsPaced : {t u : Thread} → Step w t u → IsPaced t → IsPaced u
  Step-IsPaced (Step.beats t) p = (Keeps-beat w).keep t p
  Step-IsPaced (Step.sets_status status task t) p = set_status-IsPaced status task t p
  Step-IsPaced (Step.sets_interval seconds t) p = set_interval-IsPaced seconds t p

  -- Where both intervals are from 10 to 300 seconds, and the active one at least 60 while a benchmark
  -- runs, they stay so through any rounds of the loop and calls of set_status and set_interval.
  pub Reach-IsPaced : {t u : Thread} → Reach w t u → IsPaced t → IsPaced u
  Reach-IsPaced Reach.here p = p
  Reach-IsPaced (Reach.next r step) p = Step-IsPaced step (Reach-IsPaced r p)
