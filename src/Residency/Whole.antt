-- ===== src/Residency/Whole.antt =====
-- The invariant of the residents, and that a miss keeps it under every policy: the fetched expert may
-- come in, and nobody else does.
use mo_earc.Common.{
  ◌≡◌, refl, ◌∙◌, arith, true, false, not, ◌&&◌, ◌||◌, Bool-cases, inl, inr, List, [], ◌∷◌, ◌++◌,
  contains, lookup, insert, remove, NoDup, without, contains-append, contains-without,
  without-NoDup, append_one-NoDup,
}
use mo_earc.Cache.Types.{ExpertRef, expert_eq, expert_eq_iff, expert_ref_eq}
use mo_earc.Residency.Types.{Seg, Cache}
use mo_earc.Residency.Segments.{set_insert, cache_insert, cache_remove}
use mo_earc.Residency.Members.{Keeps, inc-Keeps, dec_old-Keeps}

-- The list and the set of residents have the same experts, and no expert stands twice in the list.
pub record IsWhole (c : Cache) : Type 0 where
  pub agree : (x : ExpertRef) → contains c.member x ≡ contains c.resident x
  pub distinct : NoDup c.resident

-- `d` comes from `c` by changes in which at most the expert `e` came in.
pub record Admits (e : ExpertRef) (c d : Cache) : Type 0 where
  pub whole : IsWhole d
  pub old :
      (x : ExpertRef)
      → contains d.resident x ≡ true
      → (expert_eq e x || contains c.resident x) ≡ true
  pub capacity : d.capacity ≡ c.capacity
  pub policy : d.policy ≡ c.policy
  pub next_use : d.next_use ≡ c.next_use

pub Keeps-IsWhole : {c d : Cache} → Keeps c d → IsWhole c → IsWhole d
Keeps-IsWhole k w = record {
  agree = λ x. rw (k.member, k.resident) (w.agree x);
  distinct = rw k.resident w.distinct;
}

pub IsWhole-Admits : (e : ExpertRef) {c : Cache} → IsWhole c → Admits e c c
IsWhole-Admits e w = record {
  whole = w;
  old = λ x h. ground arith;
  capacity = refl;
  policy = refl;
  next_use = refl;
}

pub Admits-Keeps : {e : ExpertRef} {c d d' : Cache} → Admits e c d → Keeps d d' → Admits e c d'
Admits-Keeps a k = record {
  whole = Keeps-IsWhole k a.whole;
  old = λ x h. a.old x (rw k.resident at h);
  capacity = k.capacity ∙ a.capacity;
  policy = k.policy ∙ a.policy;
  next_use = k.next_use ∙ a.next_use;
}

-- What a removal leaves.
pub record Loses (v : ExpertRef) (c d : Cache) : Type 0 where
  pub resident : d.resident ≡ without v c.resident
  pub member : d.member ≡ without v c.member
  pub capacity : d.capacity ≡ c.capacity
  pub policy : d.policy ≡ c.policy
  pub next_use : d.next_use ≡ c.next_use

pub cache_remove-Loses : (c : Cache) (v : ExpertRef) → Loses v c (cache_remove c v)
unfolding cache_remove
cache_remove-Loses c v =
    let bare : Cache = record c {
      resident = without v c.resident;
      member = without v c.member;
      seg = remove v c.seg;
    } in
    let k = dec_old-Keeps bare (lookup v c.seg) in
    record {
      resident = k.resident;
      member = k.member;
      capacity = k.capacity;
      policy = k.policy;
      next_use = k.next_use;
    }

pub remove-Admits :
    {e : ExpertRef} {c d : Cache} (v : ExpertRef) → Admits e c d → Admits e c (cache_remove d v)
remove-Admits {e} {c} {d} v a =
    let l = cache_remove-Loses d v in
    record {
      whole = record {
        agree = λ x.
            rw
              (
                l.member,
                l.resident,
                contains-without v d.member x,
                contains-without v d.resident x,
                a.whole.agree x,
              )
              refl;
        distinct = rw l.resident (without-NoDup v d.resident a.whole.distinct);
      };
      old = λ x h.
          let here : (contains d.resident x && not (expert_eq v x)) ≡ true =
            rw (l.resident, contains-without v d.resident x) at h in
          a.old x (ground arith);
      capacity = l.capacity ∙ a.capacity;
      policy = l.policy ∙ a.policy;
      next_use = l.next_use ∙ a.next_use;
    }

-- What an insertion leaves.
pub record Gains (e : ExpertRef) (c d : Cache) : Type 0 where
  pub resident : d.resident ≡ c.resident ++ (e ∷ [])
  pub member : d.member ≡ set_insert e c.member
  pub capacity : d.capacity ≡ c.capacity
  pub policy : d.policy ≡ c.policy
  pub next_use : d.next_use ≡ c.next_use

pub cache_insert-Gains : (c : Cache) (e : ExpertRef) (s : Seg) → Gains e c (cache_insert c e s)
unfolding cache_insert
cache_insert-Gains c e s =
    let bare : Cache = record c {
      resident = c.resident ++ (e ∷ []);
      member = set_insert e c.member;
      seg = insert e s c.seg;
    } in
    let k = inc-Keeps bare s in
    record {
      resident = k.resident;
      member = k.member;
      capacity = k.capacity;
      policy = k.policy;
      next_use = k.next_use;
    }

contains-set_insert :
    (e : ExpertRef) (s : List ExpertRef) (x : ExpertRef)
    → contains (set_insert e s) x ≡ (contains s x || expert_eq e x)
unfolding set_insert contains
contains-set_insert e s x = elim (Bool-cases (contains s e)) [
  | inl known ↦ ground (arith, expert_eq_iff e x)
  | inr new ↦ ground arith
]

pub insert-Admits :
    {e : ExpertRef} {c d : Cache} (s : Seg)
    → Admits e c d
    → contains d.resident e ≡ false
    → Admits e c (cache_insert d e s)
unfolding contains
insert-Admits {e} {c} {d} s a absent =
    let g = cache_insert-Gains d e s in
    record {
      whole = record {
        agree = λ x.
            rw
              (
                g.member,
                g.resident,
                contains-set_insert e d.member x,
                contains-append d.resident (e ∷ []) x,
                a.whole.agree x,
              )
              (ground arith);
        distinct = rw g.resident (append_one-NoDup d.resident e a.whole.distinct absent);
      };
      old = λ x h.
          let here : (contains d.resident x || contains (e ∷ []) x) ≡ true =
            rw (g.resident, contains-append d.resident (e ∷ []) x) at h in
          ground (arith, a.old x);
      capacity = g.capacity ∙ a.capacity;
      policy = g.policy ∙ a.policy;
      next_use = g.next_use ∙ a.next_use;
    }
