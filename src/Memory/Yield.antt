-- ===== src/Memory/Yield.antt =====
-- The loop that gives slots back to reach a requested context, and the phase around it.
use mo_earc.Common.{
  ℕ, zero, suc, ◌≤◌, ◌<◌, ◌≡◌, ◌⊎◌, inl, inr, refl, arith, ltb, Bool-cases, ltb→lt, ltb→le,
}
use mo_earc.Memory.Planner.{Terms, pages_beside, give_back}

-- What the loop has done when it stops: the pages are those beside the slots that are left, it
-- stopped for a reason, and one slot fewer given back would not have been enough.
pub record GaveBack (t : Terms) (usable need from : ℕ) (out : ℕ × ℕ) : Type 0 where
  pub at_least : t.active_experts ≤ out.0
  pub at_most : out.0 ≤ from
  pub pages : out.1 ≡ pages_beside t usable out.0
  pub stopped : (need ≤ out.1) ⊎ (out.0 ≡ t.active_experts)
  pub no_more_than_needed : (r : ℕ) → out.0 < r → r ≤ from → pages_beside t usable r < need

GaveBack-step :
    (t : Terms) (usable need r : ℕ) (out : ℕ × ℕ)
    → pages_beside t usable (suc r) < need
    → GaveBack t usable need r out
    → GaveBack t usable need (suc r) out
GaveBack-step t usable need r out short g = record {
  at_least = g.at_least;
  at_most = omega (arith, g.at_most);
  pages = g.pages;
  stopped = g.stopped;
  no_more_than_needed = λ k above below. elim (ltb-cases k (suc r)) [
    | inl lt ↦ g.no_more_than_needed k above (omega arith)
    | inr ge ↦ rw (eq_of_bounds k r below ge) short
  ];
}
  where
    ltb-cases : (a b : ℕ) → (a < b) ⊎ (b ≤ a)
    ltb-cases a b = omega arith

    eq_of_bounds : (k r : ℕ) → k ≤ suc r → suc r ≤ k → k ≡ suc r
    eq_of_bounds k r a b = omega arith

GaveBack-stop :
    (t : Terms) (usable need r pages : ℕ)
    → t.active_experts ≤ r
    → pages ≡ pages_beside t usable r
    → (need ≤ pages) ⊎ (r ≡ t.active_experts)
    → GaveBack t usable need r (r, pages)
GaveBack-stop t usable need r pages lo e stop = record {
  at_least = lo;
  at_most = omega arith;
  pages = e;
  stopped = stop;
  no_more_than_needed = λ k above below. absurd (omega arith);
}

-- From at least the active experts, of which there are some, and the pages beside the slots: the loop
-- stops at the pages needed or at the active experts, with the pages beside the slots that are left,
-- and gives back no slot more than it needs.
pub give_back-GaveBack :
    (t : Terms) (usable need r pages : ℕ)
    → 0 < t.active_experts
    → t.active_experts ≤ r
    → pages ≡ pages_beside t usable r
    → GaveBack t usable need r (give_back t usable need r pages)
unfolding give_back
give_back-GaveBack t usable need zero pages pos lo e = absurd (omega arith)
give_back-GaveBack t usable need (suc r) pages pos lo e = elim (Bool-cases (ltb pages need)) [
  | inr enough ↦
      rw (enough, give_back)
        (GaveBack-stop t usable need (suc r) pages lo e (inl (ltb→le pages need enough)))
  | inl short ↦ elim (Bool-cases (ltb t.active_experts (suc r))) [
    | inr floor ↦
        rw (short, floor, give_back)
          (GaveBack-stop t usable need (suc r) pages lo e
            (inr (omega (arith, ltb→le t.active_experts (suc r) floor))))
    | inl above ↦
        rw (short, above, give_back)
          (GaveBack-step t usable need r _ (rw (← e) (ltb→lt pages need short)) (
            give_back-GaveBack t usable need r (pages_beside t usable r) pos
              (omega (arith, ltb→lt t.active_experts (suc r) above)) refl))
  ]
]
