-- ===== src/Residency/Candidates.antt =====
-- The experts that the loop of `demote_overflow` may take.
use mo_earc.Common.{
  ◌≤◌, ◌<◌, ◌≡◌, refl, ap, ◌∙◌, arith, Bool, true, false, not, ◌&&◌, Bool-cases, inl, inr,
  if◌then◌else◌, Option, none, some, List, [], ◌∷◌, length, contains, without, lookup, insert,
  lookup-insert, false≢true,
}
use mo_earc.Cache.Types.{ExpertRef, expert_eq, expert_eq_iff, expert_ref_eq}
use mo_earc.Residency.Types.{Seg, Cache}
use mo_earc.Residency.Segments.{
  stamp, inc, dec, dec_old, set_seg, is_exempt, seg_eq, is_in, in_seg, best_by,
}
use mo_earc.Residency.Total.{best_by_total}

-- The candidates of `demote_overflow`.
unfoldable pub protected_free : Cache → List ExpertRef → List ExpertRef
protected_free c pinned = in_seg c Seg.protected pinned none c.resident

dec_old-seg : (c : Cache) (o : Option Seg) → (dec_old c o).seg ≡ c.seg
unfolding dec_old dec
dec_old-seg c none = refl
dec_old-seg c (some Seg.window) = refl
dec_old-seg c (some Seg.probation) = refl
dec_old-seg c (some Seg.protected) = refl

pub relabel-seg :
    (c : Cache) (v : ExpertRef)
    → (stamp (set_seg c v Seg.probation) v).seg ≡ insert v Seg.probation c.seg
unfolding stamp set_seg inc
relabel-seg c v = dec_old-seg (record c { seg = insert v Seg.probation c.seg }) (lookup v c.seg)

is_in-relabel :
    (c : Cache) (v r : ExpertRef)
    → is_in (stamp (set_seg c v Seg.probation) v) Seg.protected r
      ≡ (is_in c Seg.protected r && not (expert_eq v r))
unfolding is_in seg_eq
is_in-relabel c v r =
    let looked : lookup r (stamp (set_seg c v Seg.probation) v).seg
        ≡ (if expert_eq v r then some Seg.probation else lookup r c.seg) =
      ap (λ m. lookup r m) (relabel-seg c v) ∙ lookup-insert v r Seg.probation c.seg in
    rw (looked, is_in)
      (elim (Bool-cases (expert_eq v r)) [
        | inl same ↦ rw same (ground arith)
        | inr differ ↦ rw differ (ground arith)
      ])

pub in_seg-relabel :
    (c : Cache) (v : ExpertRef) (pinned rs : List ExpertRef)
    → in_seg (stamp (set_seg c v Seg.probation) v) Seg.protected pinned none rs
      ≡ without v (in_seg c Seg.protected pinned none rs)
unfolding in_seg without
in_seg-relabel c v pinned [] = refl
in_seg-relabel c v pinned (r ∷ rs) =
    rw (is_in-relabel c v r, in_seg-relabel c v pinned rs)
      (ground (arith, expert_eq_iff v r, expert_eq_iff r v))

length-without_le : (v : ExpertRef) (xs : List ExpertRef) → length (without v xs) ≤ length xs
unfolding without
length-without_le v [] = omega arith
length-without_le v (x ∷ xs) = ground (arith, length-without_le v xs)

pub length-without_lt :
    (v : ExpertRef) (xs : List ExpertRef) → contains xs v ≡ true → length (without v xs) < length xs
unfolding without contains
length-without_lt v [] h = absurd (false≢true h)
length-without_lt v (x ∷ xs) h = ground (arith, length-without_lt v xs, length-without_le v xs)

pub best_by-contains :
    (replaces : ExpertRef → ExpertRef → Bool) (xs : List ExpertRef) {v : ExpertRef}
    → best_by replaces xs ≡ some v
    → contains xs v ≡ true
unfolding best_by
best_by-contains replaces [] h = cc
best_by-contains replaces (x ∷ xs) {v} h =
    let (u, chosen, inside) = best_by_total replaces x xs in
    let same : u ≡ v = cc in rw (← same) inside

pub best_by-nil :
    (replaces : ExpertRef → ExpertRef → Bool) (xs : List ExpertRef)
    → best_by replaces xs ≡ none
    → length xs ≡ 0
unfolding best_by
best_by-nil replaces [] h = refl
best_by-nil replaces (x ∷ xs) h = cc

pub is_in-lookup :
    (c : Cache) (x : ExpertRef)
    → is_in c Seg.protected x ≡ true
    → lookup x c.seg ≡ some Seg.protected
unfolding is_in seg_eq
is_in-lookup c x h = by_seg (lookup x c.seg) h
  where
    by_seg :
        (o : Option Seg)
        → (elim o as (λ y. Bool) [ none ↦ false | some t ↦ seg_eq t Seg.protected ]) ≡ true
        → o ≡ some Seg.protected
    by_seg none k = absurd (false≢true k)
    by_seg (some Seg.window) k = absurd (false≢true k)
    by_seg (some Seg.probation) k = absurd (false≢true k)
    by_seg (some Seg.protected) k = refl

pub lookup-is_in :
    (c : Cache) (x : ExpertRef)
    → lookup x c.seg ≡ some Seg.protected
    → is_in c Seg.protected x ≡ true
unfolding is_in seg_eq
lookup-is_in c x h = rw (h, is_in) refl

-- A candidate is protected, and the step does not need it.
pub in_seg-contains :
    (c : Cache) (s : Seg) (pinned rs : List ExpertRef) (v : ExpertRef)
    → contains (in_seg c s pinned none rs) v ≡ true
    → (contains pinned v ≡ false) × (is_in c s v ≡ true)
unfolding in_seg contains is_exempt
in_seg-contains c s pinned [] v h = absurd (false≢true h)
in_seg-contains c s pinned (r ∷ rs) v h =
    ground (arith, in_seg-contains c s pinned rs v, expert_eq_iff r v)

-- Where there is no candidate, the step needs every protected resident.
pub in_seg-nil :
    (c : Cache) (s : Seg) (pinned rs : List ExpertRef) (x : ExpertRef)
    → length (in_seg c s pinned none rs) ≡ 0
    → contains rs x ≡ true
    → is_in c s x ≡ true
    → contains pinned x ≡ true
unfolding in_seg contains is_exempt
in_seg-nil c s pinned [] x h k p = absurd (false≢true k)
in_seg-nil c s pinned (r ∷ rs) x h k p =
    ground (arith, in_seg-nil c s pinned rs x, expert_eq_iff r x)

pub length-in_seg :
    (c : Cache) (s : Seg) (pinned rs : List ExpertRef)
    → length (in_seg c s pinned none rs) ≤ length rs
unfolding in_seg
length-in_seg c s pinned [] = omega arith
length-in_seg c s pinned (r ∷ rs) = ground (arith, length-in_seg c s pinned rs)
