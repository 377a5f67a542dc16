-- ===== src/Web/Events/Bounds.antt =====
-- The bounds of the history and of the queues.
use kitt.Prelude.{
  ℕ, zero, suc, ◌-◌, ◌≤◌, ◌<◌, String, true, false, List, [], ◌∷◌, ◌++◌, ◌≡◌, refl, arith, length,
  drop, select, map, All, ltb, leb, eqb, length-append, length-drop, ◌==◌, ◌&&◌, Bool-cases, inl,
  inr,
}
use kitt.Web.Database.{Event}
use kitt.Web.Events.{
  Queue, Bus, last_events, put_nowait, remember, publish_event, of_source, get_history,
}

length-last_events : (n : ℕ) (es : List Event) → 0 < n → length (last_events n es) ≤ n
unfolding last_events
length-last_events n es h =
    let not_zero : eqb n 0 ≡ false = ground (arith, h) in
    rw not_zero (omega (arith, length-drop (length es - n) es))

-- A queue with a bound holds at most that many events.
abbrev pub Fits : String × Queue → Type 0
Fits s = (0 < s.1.max_size) × (length s.1.waiting ≤ s.1.max_size)

-- The history and every queue are within their bounds.
pub record IsBounded (b : Bus) : Type 0 where
  pub history_fits : length b.history ≤ b.max_history
  pub queues_fit : All Fits b.subscribers

put_nowait-Fits : (e : Event) (s : String × Queue) → Fits s → Fits (s.0, put_nowait e s.1)
unfolding put_nowait
put_nowait-Fits e s h =
    elim (Bool-cases (ltb 0 s.1.max_size && leb s.1.max_size (length s.1.waiting))) [
      | inl full ↦ rw full h
      | inr room ↦ rw room (h.0, ground (arith, h.0, h.1, length-append s.1.waiting (e ∷ []), room))
    ]

All-put :
    (e : Event) (l : List (String × Queue))
    → All Fits l
    → All Fits (map (λ (s : String × Queue). (s.0, put_nowait e s.1)) l)
All-put e [] h = tt
All-put e (s ∷ l) h = (put_nowait-Fits e s h.0, All-put e l h.1)

-- Where the history has a positive bound, publishing keeps the history and every queue within its
-- bound and counts the event.
pub publish_event-IsBounded :
    (e : Event) (b : Bus)
    → 0 < b.max_history
    → IsBounded b
    → IsBounded (publish_event e b) × ((publish_event e b).counter ≡ suc b.counter)
unfolding publish_event remember
publish_event-IsBounded e b positive h = (
  record {
    history_fits = elim (Bool-cases (ltb b.max_history (length (b.history ++ e ∷ [])))) [
      | inl over ↦ rw over (length-last_events b.max_history (b.history ++ e ∷ []) positive)
      | inr under ↦ rw under (ground (arith, under))
    ];
    queues_fit = All-put e b.subscribers h.queues_fit;
  },
  refl,
)

All-drop : (P : Event → Type 0) (n : ℕ) (es : List Event) → All P es → All P (drop n es)
All-drop P zero es h = h
All-drop P (suc n) [] h = tt
All-drop P (suc n) (e ∷ es) h = All-drop P n es h.1

All-last_events :
    (P : Event → Type 0) (n : ℕ) (es : List Event) → All P es → All P (last_events n es)
unfolding last_events
All-last_events P n es h = elim (Bool-cases (eqb n 0)) [
  | inl none_asked ↦ rw none_asked h
  | inr some_asked ↦ rw some_asked (All-drop P (length es - n) es h)
]

abbrev FromSource : String → Event → Type 0
FromSource source_id e = (e.source_id == source_id) ≡ true

select-FromSource :
    (source_id : String) (es : List Event)
    → All (FromSource source_id) (select (λ (e : Event). e.source_id == source_id) es)
select-FromSource source_id [] = tt
select-FromSource source_id (e ∷ es) = elim (Bool-cases (e.source_id == source_id)) [
  | inl this ↦ rw this (this, select-FromSource source_id es)
  | inr other ↦ rw other (select-FromSource source_id es)
]

-- For a source and a positive limit, the history that is given has at most that many events, all of
-- the source.
get_history-bounded :
    (source_id : String) (limit : ℕ) (b : Bus)
    → (source_id == "") ≡ false
    → 0 < limit
    → (length (get_history source_id limit b) ≤ limit)
      × All (λ (e : Event). (e.source_id == source_id) ≡ true) (get_history source_id limit b)
unfolding get_history of_source
get_history-bounded source_id limit b named positive = rw named (
  length-last_events limit (select (λ (e : Event). e.source_id == source_id) b.history) positive,
  All-last_events (FromSource source_id) limit _ (select-FromSource source_id b.history),
)
