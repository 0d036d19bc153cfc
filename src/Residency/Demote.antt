-- ===== src/Residency/Demote.antt =====
-- The loop that gives the protected segment back its share ends.
use mo_earc.Common.{◌≤◌, ◌≡◌, ◌⊎◌, true, false, some, List, contains, lookup}
use mo_earc.Cache.Types.{ExpertRef, expert_ref_eq}
use mo_earc.Residency.Types.{Seg, Cache}

-- What a demotion has done: within the share, or every protected resident is needed by the step; and an
-- expert keeps its segment, or it goes from the protected one to the probationary one unneeded.
pub record IsSettled (c : Cache) (pinned : List ExpertRef) (d : Cache) : Type 0 where
  pub resident : d.resident ≡ c.resident
  pub settled :
      (d.n_protected ≤ d.protected_cap)
      ⊎ ((x : ExpertRef)
          → contains d.resident x ≡ true
          → lookup x d.seg ≡ some Seg.protected
          → contains pinned x ≡ true)
  pub moves :
      (x : ExpertRef)
      → (lookup x d.seg ≡ lookup x c.seg)
        ⊎ ((lookup x c.seg ≡ some Seg.protected)
            × (lookup x d.seg ≡ some Seg.probation)
            × (contains pinned x ≡ false))
