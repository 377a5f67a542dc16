-- ===== src/Campaign/Scheduler/Order.antt =====
-- `order_by_size` puts the smallest runs first and loses none; the size rule in terms of order.
use mathlib.Core.List.{Perm}
use mathlib.Core.List.Perm
use kitt.Prelude.{true, List, [], ◌∷◌, ◌≡◌, arith, inl, inr, Bool-cases, All}
use kitt.Prelude.Floats.{FloatOps, IsOrdered}
use kitt.Campaign.Config.{CampaignRunSpec}
use kitt.Campaign.Scheduler.{insert_by_size, order_by_size}

module _ (ops : FloatOps) where
  abbrev LeSize : CampaignRunSpec → CampaignRunSpec → Type 0
  LeSize a b = ops.fle a.estimated_size_gb b.estimated_size_gb ≡ true

  -- Every run is at most as large as all behind it.
  abbrev pub IsSorted : List CampaignRunSpec → Type 0
  IsSorted [] = Unit {0}
  IsSorted (r ∷ rs) = All (LeSize r) rs × IsSorted rs

  insert-perm :
      (r : CampaignRunSpec) (rs : List CampaignRunSpec) → Perm (insert_by_size ops r rs) (r ∷ rs)
  unfolding insert_by_size
  insert-perm r [] = Perm.refl _
  insert-perm r (x ∷ xs) = elim (Bool-cases (ops.flt x.estimated_size_gb r.estimated_size_gb)) [
    | inl lt ↦ rw lt (Perm.trans (Perm.cons x (insert-perm r xs)) (Perm.swap r x xs))
    | inr ge ↦ rw ge (Perm.refl _)
  ]

  -- Ordering loses, adds and repeats no run.
  order_by_size-perm : (rs : List CampaignRunSpec) → Perm (order_by_size ops rs) rs
  unfolding order_by_size
  order_by_size-perm [] = Perm.refl []
  order_by_size-perm (r ∷ rs) =
      Perm.trans (insert-perm r (order_by_size ops rs)) (Perm.cons r (order_by_size-perm rs))

  module _ (ordered : IsOrdered ops) where
    All-insert :
        (a r : CampaignRunSpec) (rs : List CampaignRunSpec)
        → LeSize a r
        → All (LeSize a) rs
        → All (LeSize a) (insert_by_size ops r rs)
    unfolding insert_by_size
    All-insert a r [] h all = (h, tt)
    All-insert a r (x ∷ xs) h all = ground (arith, All-insert a r xs)

    All-LeSize_trans :
        (a b : CampaignRunSpec) (rs : List CampaignRunSpec)
        → LeSize a b
        → All (LeSize b) rs
        → All (LeSize a) rs
    All-LeSize_trans a b [] h all = tt
    All-LeSize_trans a b (x ∷ xs) h all = (
      ordered.fle_trans a.estimated_size_gb b.estimated_size_gb x.estimated_size_gb h all.0,
      All-LeSize_trans a b xs h all.1,
    )

    insert-IsSorted :
        (r : CampaignRunSpec) (rs : List CampaignRunSpec)
        → IsSorted rs
        → IsSorted (insert_by_size ops r rs)
    unfolding insert_by_size
    insert-IsSorted r [] h = (tt, tt)
    insert-IsSorted r (x ∷ xs) h =
        elim (Bool-cases (ops.flt x.estimated_size_gb r.estimated_size_gb)) [
          | inl lt ↦
              rw lt (All-insert x r xs (ordered.fle_of_flt _ _ lt) h.0, insert-IsSorted r xs h.1)
          | inr ge ↦
              let le : LeSize r x = ordered.fle_of_not_flt _ _ ge in
              rw ge ((le, All-LeSize_trans r x xs le h.0), h)
        ]

    -- Where the sizes are ordered (no NaN among them), the runs come smallest first.
    order_by_size-IsSorted : (rs : List CampaignRunSpec) → IsSorted (order_by_size ops rs)
    unfolding order_by_size
    order_by_size-IsSorted [] = tt
    order_by_size-IsSorted (r ∷ rs) = insert-IsSorted r _ (order_by_size-IsSorted rs)
