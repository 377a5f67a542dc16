-- ===== src/Web/Events.antt =====
-- EventBus of src/kitt/web/services/event_bus.py: a bounded history and a bounded queue for each
-- subscriber. The lock makes each operation one step.
pub mod Bounds
use kitt.Prelude.{
  ℕ, zero, suc, ◌-◌, String, Bool, true, false, Option, none, some, List, [], ◌∷◌, ◌++◌, length,
  drop, select, map, ltb, leb, eqb, insert, remove, if◌then◌else◌, ◌==◌, ◌&&◌,
}
use kitt.Web.Database.{Event}

pub record Queue : Type 0 where
  pub max_size : ℕ
  pub waiting : List Event

pub record Bus : Type 0 where
  pub subscribers : List (String × Queue)
  pub history : List Event
  pub max_history : ℕ
  pub counter : ℕ

-- events[-n:], which is the whole list for n = 0
unfoldable pub last_events : ℕ → List Event → List Event
last_events n events = if eqb n 0 then events else drop (length events - n) events

-- put_nowait, where a full queue drops the event; a queue of size 0 has no bound.
unfoldable pub put_nowait : Event → Queue → Queue
put_nowait e q =
    if ltb 0 q.max_size && leb q.max_size (length q.waiting)
    then q
    else record q { waiting = q.waiting ++ e ∷ [] }

unfoldable pub remember : Event → Bus → List Event
remember e b =
    if ltb b.max_history (length (b.history ++ e ∷ []))
    then last_events b.max_history (b.history ++ e ∷ [])
    else b.history ++ e ∷ []

unfoldable pub publish_event : Event → Bus → Bus
publish_event e b = record b {
  history = remember e b;
  counter = suc b.counter;
  subscribers = map (λ (s : String × Queue). (s.0, put_nowait e s.1)) b.subscribers;
}

-- The registration of `subscribe`, and what its `finally` and `unsubscribe` undo.
unfoldable pub subscribe : String → ℕ → Bus → Bus
subscribe subscriber_id max_queue_size b = record b {
  subscribers =
      insert subscriber_id (record { max_size = max_queue_size; waiting = [] }) b.subscribers;
}

unfoldable pub unsubscribe : String → Bus → Bus
unsubscribe subscriber_id b = record b { subscribers = remove subscriber_id b.subscribers }

of_source : String → List Event → List Event
of_source source_id events =
    if source_id == "" then events else select (λ (e : Event). e.source_id == source_id) events

-- An empty source is no filter.
unfoldable pub get_history : String → ℕ → Bus → List Event
unfolding of_source
get_history source_id limit b = last_events limit (of_source source_id b.history)

unfoldable pub subscriber_count : Bus → ℕ
subscriber_count b = length b.subscribers
