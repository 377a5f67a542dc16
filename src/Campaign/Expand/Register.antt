-- ===== src/Campaign/Expand/Register.antt =====
-- Registering enters every key, keeps the runs that stand there, and undoes no run.
use mathlib.Core.List.{Memᴰ}
use kitt.Prelude.{
  String, Bool, true, false, not, List, [], ◌∷◌, ◌≡◌, refl, arith, any, any-append, select, map,
  ◌||◌, ◌∙◌, sym, ap, ◌==◌, eq_refl, Bool-cases, inl, inr,
}
use kitt.Prelude.Floats.{Float}
use kitt.Campaign.Config.{CampaignRunSpec, spec_key}
use kitt.Campaign.State.{RunState, key, in_completed_keys}
use kitt.Campaign.Manager.Updates.{is_registered}
use kitt.Campaign.Expand.{new_run, register_runs}

-- A key that is done is registered.
pub done-is_registered :
    (k : String) (rs : List RunState) → in_completed_keys k rs ≡ true → is_registered k rs ≡ true
unfolding in_completed_keys
done-is_registered k [] h = cc
done-is_registered k (r ∷ rs) h = ground (arith, done-is_registered k rs)

or_true : (b : Bool) → (b || true) ≡ true
or_true true = refl
or_true false = refl

module _ (zero : Float) (runs : List RunState) where
  -- A key that the registered runs keep done stays done.
  pub done-register_runs :
      (k : String) (specs : List CampaignRunSpec)
      → in_completed_keys k runs ≡ true
      → in_completed_keys k (register_runs zero runs specs) ≡ true
  unfolding register_runs in_completed_keys
  done-register_runs k specs h = rw (any-append, h)

  abbrev is_new : CampaignRunSpec → Bool
  is_new r = not (any (λ x. key x == spec_key r) runs)

  added :
      (r : CampaignRunSpec) (specs : List CampaignRunSpec)
      → Memᴰ r specs
      → is_new r ≡ true
      → is_registered (spec_key r) (map (new_run zero) (select is_new specs)) ≡ true
  added r [] m new = elim m [ ]
  added r (x ∷ specs) (Memᴰ.head e) new =
      let new_x : is_new x ≡ true = ap is_new (sym e) ∙ new in
      rw new_x (rw e (rw (eq_refl (spec_key x))))
  added r (x ∷ specs) (Memᴰ.tail m) new = elim (Bool-cases (is_new x)) [
    | inl yes_new ↦ rw (yes_new, added r specs m new) (or_true _)
    | inr not_new ↦ rw (not_new, added r specs m new)
  ]

  -- Every run that is entered has its key among the registered ones.
  pub register_runs-is_registered :
      (r : CampaignRunSpec) (specs : List CampaignRunSpec)
      → Memᴰ r specs
      → is_registered (spec_key r) (register_runs zero runs specs) ≡ true
  unfolding register_runs
  register_runs-is_registered r specs m = elim (Bool-cases (is_registered (spec_key r) runs)) [
    | inl old ↦ rw (any-append, old)
    | inr fresh ↦ rw any-append (rw (added r specs m (rw fresh)) (or_true _))
  ]
