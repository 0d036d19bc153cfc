-- ===== src/Residency/Members.antt =====
-- Who is resident: what the methods of the cache keep, and the invariant that the list and the set of
-- residents agree and have no expert twice.
use mo_earc.Common.{
  ℕ, ◌+◌, ◌≡◌, refl, ◌∙◌, Bool, true, false, inl, inr, if◌then◌else◌, Option, none, some, List,
  length, lookup, insert, leb, ltb, ◌==◌, zero, suc, Option-cases,
}
use mo_earc.Cache.Types.{ExpertRef, expert_ref_eq}
use mo_earc.Residency.Types.{Policy, Order, Seg, Cache}
use mo_earc.Residency.Segments.{
  note_freq, note_access, is_tiny_lfu, stamp, inc, dec, dec_old, set_seg, is_in, push_ghost,
  oldest_in,
}
use mo_earc.Residency.Policies.{
  demote, demote_overflow, segmented_hit, hit_under, on_hit, admit_candidate,
}

-- The same residents, slots and policy.
pub record Keeps (c d : Cache) : Type 0 where
  pub resident : d.resident ≡ c.resident
  pub member : d.member ≡ c.member
  pub capacity : d.capacity ≡ c.capacity
  pub policy : d.policy ≡ c.policy
  pub next_use : d.next_use ≡ c.next_use

pub kept :
    {c d : Cache}
    → d.resident ≡ c.resident
    → d.member ≡ c.member
    → d.capacity ≡ c.capacity
    → d.policy ≡ c.policy
    → d.next_use ≡ c.next_use
    → Keeps c d
kept r m k p n = record { resident = r; member = m; capacity = k; policy = p; next_use = n }

pub Keeps-refl : (c : Cache) → Keeps c c
Keeps-refl c = kept refl refl refl refl refl

pub Keeps-trans : {c d e : Cache} → Keeps c d → Keeps d e → Keeps c e
Keeps-trans h k = record {
  resident = k.resident ∙ h.resident;
  member = k.member ∙ h.member;
  capacity = k.capacity ∙ h.capacity;
  policy = k.policy ∙ h.policy;
  next_use = k.next_use ∙ h.next_use;
}

pub if-Keeps : {c d e : Cache} (b : Bool) → Keeps c d → Keeps c e → Keeps c (if b then d else e)
if-Keeps true h k = h
if-Keeps false h k = k

pub stamp-Keeps : (c : Cache) (e : ExpertRef) → Keeps c (stamp c e)
unfolding stamp
stamp-Keeps c e = kept refl refl refl refl refl

pub inc-Keeps : (c : Cache) (s : Seg) → Keeps c (inc c s)
unfolding inc
inc-Keeps c Seg.window = kept refl refl refl refl refl
inc-Keeps c Seg.probation = Keeps-refl c
inc-Keeps c Seg.protected = kept refl refl refl refl refl

pub dec_old-Keeps : (c : Cache) (s : Option Seg) → Keeps c (dec_old c s)
unfolding dec_old dec
dec_old-Keeps c none = Keeps-refl c
dec_old-Keeps c (some Seg.window) = kept refl refl refl refl refl
dec_old-Keeps c (some Seg.probation) = Keeps-refl c
dec_old-Keeps c (some Seg.protected) = kept refl refl refl refl refl

pub set_seg-Keeps : (c : Cache) (e : ExpertRef) (s : Seg) → Keeps c (set_seg c e s)
unfolding set_seg
set_seg-Keeps c e s =
    let labelled : Cache = record c { seg = insert e s c.seg } in
    let first : Keeps c labelled = kept refl refl refl refl refl in
    Keeps-trans first (
      Keeps-trans (dec_old-Keeps labelled (lookup e c.seg))
        (inc-Keeps (dec_old labelled (lookup e c.seg)) s))

pub relabel-Keeps : (c : Cache) (e : ExpertRef) (s : Seg) → Keeps c (stamp (set_seg c e s) e)
relabel-Keeps c e s = Keeps-trans (set_seg-Keeps c e s) (stamp-Keeps (set_seg c e s) e)

pub admit_candidate-Keeps : (c : Cache) (e : ExpertRef) → Keeps c (admit_candidate c e)
unfolding admit_candidate
admit_candidate-Keeps c e = relabel-Keeps c e Seg.probation

pub note_access-Keeps : (c : Cache) (e : ExpertRef) (clock : ℕ) → Keeps c (note_access c e clock)
unfolding note_access note_freq
note_access-Keeps c e clock =
    if-Keeps (is_tiny_lfu c.policy)
      (if-Keeps (leb c.freq_window (c.freq_samples + 1)) (kept refl refl refl refl refl)
        (kept refl refl refl refl refl))
      (kept refl refl refl refl refl)

pub push_ghost-Keeps : (c : Cache) (e : ExpertRef) → Keeps c (push_ghost c e)
unfolding push_ghost
push_ghost-Keeps c e = if-Keeps (c.ghost_cap == 0) (Keeps-refl c) (kept refl refl refl refl refl)

pub demote-Keeps : (fuel : ℕ) (pinned : List ExpertRef) (c : Cache) → Keeps c (demote fuel pinned c)
unfolding demote
demote-Keeps zero pinned c = Keeps-refl c
demote-Keeps (suc fuel) pinned c =
    if-Keeps (ltb c.protected_cap c.n_protected)
      (elim (Option-cases (oldest_in c Seg.protected pinned Order.recency none)) [
        | inl nobody ↦ rw nobody (Keeps-refl c)
        | inr (v, found) ↦ rw found (
            Keeps-trans (relabel-Keeps c v Seg.probation)
              (demote-Keeps fuel pinned (stamp (set_seg c v Seg.probation) v)))
      ])
      (Keeps-refl c)

demote_overflow-Keeps : (c : Cache) (pinned : List ExpertRef) → Keeps c (demote_overflow c pinned)
unfolding demote_overflow
demote_overflow-Keeps c pinned = demote-Keeps (length c.resident) pinned c

segmented_hit-Keeps :
    (c : Cache) (e : ExpertRef) (pinned : List ExpertRef) → Keeps c (segmented_hit c e pinned)
unfolding segmented_hit
segmented_hit-Keeps c e pinned = by_seg (lookup e c.seg)
  where
    by_seg :
        (o : Option Seg)
        → Keeps c (elim o [
          | none ↦ c
          | some s ↦ elim s [
            | Seg.probation ↦ demote_overflow (stamp (set_seg c e Seg.protected) e) pinned
            | Seg.window ↦ stamp c e
            | Seg.protected ↦ stamp c e
          ]
        ])
    by_seg none = Keeps-refl c
    by_seg (some Seg.window) = stamp-Keeps c e
    by_seg (some Seg.protected) = stamp-Keeps c e
    by_seg (some Seg.probation) =
        Keeps-trans (relabel-Keeps c e Seg.protected)
          (demote_overflow-Keeps (stamp (set_seg c e Seg.protected) e) pinned)

hit_under-Keeps :
    (p : Policy) (c : Cache) (e : ExpertRef) (pinned : List ExpertRef)
    → Keeps c (hit_under p c e pinned)
unfolding hit_under
hit_under-Keeps Policy.lru c e pinned = Keeps-refl c
hit_under-Keeps Policy.lfu c e pinned = Keeps-refl c
hit_under-Keeps Policy.optimal c e pinned = Keeps-refl c
hit_under-Keeps (Policy.static_split l) c e pinned = Keeps-refl c
hit_under-Keeps (Policy.slru p) c e pinned = segmented_hit-Keeps c e pinned
hit_under-Keeps (Policy.two_q i o) c e pinned =
    if-Keeps (is_in c Seg.protected e) (stamp-Keeps c e) (Keeps-refl c)
hit_under-Keeps (Policy.lru_k k) c e pinned = Keeps-refl c
hit_under-Keeps (Policy.pinned_hot p w) c e pinned = Keeps-refl c
hit_under-Keeps Policy.phase_lru c e pinned = Keeps-refl c
hit_under-Keeps (Policy.w_tiny_lfu w p) c e pinned = segmented_hit-Keeps c e pinned

-- A hit changes neither the residents nor the slots.
pub on_hit-Keeps :
    (c : Cache) (e : ExpertRef) (pinned : List ExpertRef) → Keeps c (on_hit c e pinned)
unfolding on_hit
on_hit-Keeps c e pinned = hit_under-Keeps c.policy c e pinned
