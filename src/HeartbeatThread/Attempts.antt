-- ===== src/HeartbeatThread/Attempts.antt =====
-- A heartbeat asks the server at most twice and registers at most once.
use kitt.Prelude.{
  ℕ, suc, ◌+◌, ◌≤◌, String, true, false, not, Option, none, some, [], ◌∷◌, ◌++◌, ◌≡◌, refl, ap, ◌∙◌,
  arith, length, length-append, eqb, ◌==◌, ◌&&◌, Bool-cases, inl, inr,
}
use kitt.Prelude.Exec.{Exec, Result, pure, raise, gets, modify, ◌>>=◌}
use kitt.HeartbeatThread.{
  Thread, Reply, Answer, answered, http_error, unreachable, Registration, given_id, no_id,
  register_raises, Surroundings, finally, request, call_register, sync_id, with_new_id,
  register_again, received, change_id, send_heartbeat,
}

module _ (w : Surroundings) where
  -- While a registration is under way, an error is not answered by another one.
  received-retrying :
      (again again' : Exec Thread Reply) (a : Answer) (t : Thread)
      → t.retrying ≡ true
      → received w again a t ≡ received w again' a t
  unfolding received gets ◌>>=◌
  received-retrying again again' (answered reply) t h = refl
  received-retrying again again' (http_error code) t h =
      let closed : (eqb code 404 && (w.has_register_fn && not t.retrying)) ≡ false =
        ground (arith, h) in
      rw (closed) refl
  received-retrying again again' unreachable t h = refl

  send-retrying :
      (n : ℕ) (t : Thread) → t.retrying ≡ true → send_heartbeat w (suc n) t ≡ send_heartbeat w 1 t
  unfolding send_heartbeat request ◌>>=◌
  send-retrying n t h = received-retrying _ _ (w.server (length t.requests) t.agent_id) _ h

  with_new_id-same :
      (n : ℕ) (r : Registration) (t : Thread)
      → t.retrying ≡ true
      → with_new_id w (send_heartbeat w (suc n)) r t ≡ with_new_id w (send_heartbeat w 1) r t
  unfolding with_new_id modify change_id ◌>>=◌
  with_new_id-same n (given_id new_id) t h = elim (Bool-cases (new_id == "")) [
    | inl empty ↦ rw empty refl
    | inr given ↦ rw given (send-retrying n (change_id new_id t) h)
  ]
  with_new_id-same n no_id t h = refl
  with_new_id-same n register_raises t h = refl

  register_again-same :
      (n : ℕ) (t : Thread)
      → t.retrying ≡ true
      → register_again w (send_heartbeat w (suc n)) t ≡ register_again w (send_heartbeat w 1) t
  unfolding register_again finally call_register ◌>>=◌
  register_again-same n t h =
      let after : Thread = record t { registrations = suc t.registrations } in
      ap (λ (p : Result Reply × Thread). (p.0, record p.1 { retrying = false }))
        (with_new_id-same n (w.register_fn t.registrations) after h)

  received-same :
      (n : ℕ) (a : Answer) (t : Thread)
      → received w (send_heartbeat w (suc n)) a t ≡ received w (send_heartbeat w 1) a t
  unfolding received gets modify ◌>>=◌
  received-same n (answered reply) t = refl
  received-same n (http_error code) t =
      elim (Bool-cases (eqb code 404 && (w.has_register_fn && not t.retrying))) [
        | inl allows ↦ rw (allows) (register_again-same n (record t { retrying = true }) refl)
        | inr closed ↦ rw (closed) refl
      ]
  received-same n unreachable t = refl

  -- What a part of a heartbeat does to the counts of requests and registrations.
  record IsModest (requests registrations : ℕ) (t t' : Thread) : Type 0 where
    few_requests : length t'.requests ≤ length t.requests + requests
    few_registrations : t'.registrations ≤ t.registrations + registrations

  sync_id-IsModest : (o : Option String) (t : Thread) → IsModest 0 0 t (sync_id w o t)
  unfolding sync_id change_id
  sync_id-IsModest none t = record { few_requests = omega arith; few_registrations = omega arith }
  sync_id-IsModest (some canonical) t = record {
    few_requests = ground arith;
    few_registrations = ground arith;
  }

  sync_id-retrying : (o : Option String) (t : Thread) → (sync_id w o t).retrying ≡ t.retrying
  unfolding sync_id change_id
  sync_id-retrying none t = refl
  sync_id-retrying (some canonical) t = ground arith

  retry-IsModest :
      (a : Answer) (again : Exec Thread Reply) (t : Thread)
      → t.retrying ≡ true
      → IsModest 0 0 t (received w again a t).1
  unfolding received gets modify raise pure ◌>>=◌
  retry-IsModest (answered reply) again t h = sync_id-IsModest reply.agent_id t
  retry-IsModest (http_error code) again t h =
      let closed : (eqb code 404 && (w.has_register_fn && not t.retrying)) ≡ false =
        ground (arith, h) in
      rw (closed) (record { few_requests = omega arith; few_registrations = omega arith })
  retry-IsModest unreachable again t h = record {
    few_requests = omega arith;
    few_registrations = omega arith;
  }

  send-IsModest : (t : Thread) → t.retrying ≡ true → IsModest 1 0 t (send_heartbeat w 1 t).1
  unfolding send_heartbeat request ◌>>=◌
  send-IsModest t h =
      let asked : Thread = record t { requests = t.requests ++ t.agent_id ∷ [] } in
      let m =
        retry-IsModest (w.server (length t.requests) t.agent_id) (send_heartbeat w 0) asked h in
      let longer : length (t.requests ++ t.agent_id ∷ []) ≡ length t.requests + 1 =
        length-append t.requests (t.agent_id ∷ []) in
      record {
        few_requests = omega (arith, m.few_requests, longer);
        few_registrations = m.few_registrations;
      }

  with_new_id-IsModest :
      (r : Registration) (t : Thread)
      → t.retrying ≡ true
      → IsModest 1 0 t (with_new_id w (send_heartbeat w 1) r t).1
  unfolding with_new_id modify change_id raise ◌>>=◌
  with_new_id-IsModest (given_id new_id) t h = elim (Bool-cases (new_id == "")) [
    | inl empty ↦ rw empty (record { few_requests = omega arith; few_registrations = omega arith })
    | inr given ↦
        let m = send-IsModest (change_id new_id t) h in
        rw given (record { few_requests = m.few_requests; few_registrations = m.few_registrations })
  ]
  with_new_id-IsModest no_id t h = record {
    few_requests = omega arith;
    few_registrations = omega arith;
  }
  with_new_id-IsModest register_raises t h = record {
    few_requests = omega arith;
    few_registrations = omega arith;
  }

  received-IsModest :
      (a : Answer) (t : Thread) → IsModest 1 1 t (received w (send_heartbeat w 1) a t).1
  unfolding received register_again finally call_register gets modify raise pure ◌>>=◌
  received-IsModest (answered reply) t =
      let m = sync_id-IsModest reply.agent_id t in
      record {
        few_requests = omega (arith, m.few_requests);
        few_registrations = omega (arith, m.few_registrations);
      }
  received-IsModest (http_error code) t =
      elim (Bool-cases (eqb code 404 && (w.has_register_fn && not t.retrying))) [
        | inl allows ↦
            let calling : Thread = record t {
              retrying = true;
              registrations = suc t.registrations;
            } in
            let m = with_new_id-IsModest (w.register_fn t.registrations) calling refl in
            rw (allows) (record {
              few_requests = m.few_requests;
              few_registrations = omega (arith, m.few_registrations);
            })
        | inr closed ↦
            rw (closed) (record { few_requests = omega arith; few_registrations = omega arith })
      ]
  received-IsModest unreachable t = record {
    few_requests = omega arith;
    few_registrations = omega arith;
  }

  received-settled :
      (a : Answer) (t : Thread)
      → t.retrying ≡ false
      → (received w (send_heartbeat w 1) a t).1.retrying ≡ false
  unfolding received register_again finally call_register gets modify raise pure ◌>>=◌
  received-settled (answered reply) t h = sync_id-retrying reply.agent_id t ∙ h
  received-settled (http_error code) t h =
      elim (Bool-cases (eqb code 404 && (w.has_register_fn && not t.retrying))) [
        | inl allows ↦ rw (allows) refl
        | inr closed ↦ rw (closed) h
      ]
  received-settled unreachable t h = h

  -- Where no registration is under way, a heartbeat with any number of attempts from two on does the
  -- same; it sends at most two requests, registers at most once, and leaves no registration under way.
  pub send_heartbeat-bounds :
      (n : ℕ) (t : Thread)
      → t.retrying ≡ false
      → (send_heartbeat w (suc (suc n)) t ≡ send_heartbeat w 2 t)
        × (length (send_heartbeat w 2 t).1.requests ≤ length t.requests + 2)
        × ((send_heartbeat w 2 t).1.registrations ≤ t.registrations + 1)
        × ((send_heartbeat w 2 t).1.retrying ≡ false)
  unfolding send_heartbeat request ◌>>=◌
  send_heartbeat-bounds n t h =
      let a = w.server (length t.requests) t.agent_id in
      let asked : Thread = record t { requests = t.requests ++ t.agent_id ∷ [] } in
      let m = received-IsModest a asked in
      let longer : length (t.requests ++ t.agent_id ∷ []) ≡ length t.requests + 1 =
        length-append t.requests (t.agent_id ∷ []) in
      (
        received-same n a asked,
        omega (arith, m.few_requests, longer),
        m.few_registrations,
        received-settled a asked h,
      )
