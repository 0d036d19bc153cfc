-- ===== src/Residency/Segments.antt =====
-- The methods of the simulated cache that do not depend on the policy's choice of a victim.
use mo_earc.Common.{
  ℕ, ◌+◌, ◌/◌, sub64, Bool, true, false, not, ◌&&◌, ◌||◌, ltb, leb, ◌==◌, if◌then◌else◌, Option,
  none, some, List, [], ◌∷◌, ◌++◌, length, contains, lookup, insert, remove, without,
}
use mo_earc.Cache.Types.{ExpertRef, expert_eq, expert_ref_eq}
use mo_earc.Residency.Types.{Policy, Seg, Order, Cache}

-- A set's `insert`. `retain(|&r| r != e)` is `without`, which is also how a set loses an element.
unfoldable pub set_insert : ExpertRef → List ExpertRef → List ExpertRef
set_insert e s = if contains s e then s else e ∷ s

-- `get(…).copied().unwrap_or(0)`.
unfoldable pub count_of : List (ExpertRef × ℕ) → ExpertRef → ℕ
count_of m e = elim (lookup e m) [ none ↦ 0 | some n ↦ n ]

-- `*c /= 2; *c > 0`.
unfoldable pub halve : List (ExpertRef × ℕ) → List (ExpertRef × ℕ)
halve [] = []
halve ((e, c) ∷ m) = let rest = halve m in if ltb 0 (c / 2) then (e, c / 2) ∷ rest else rest

unfoldable pub is_tiny_lfu : Policy → Bool
is_tiny_lfu (Policy.w_tiny_lfu w p) = true
is_tiny_lfu other = false

-- The counters of TinyLFU.
unfoldable pub note_freq : Cache → ExpertRef → Cache
note_freq c e =
    let freq = insert e (count_of c.freq e + 1) c.freq in
    if leb c.freq_window (c.freq_samples + 1)
    then record c { freq = halve freq; freq_samples = 0 }
    else record c { freq = freq; freq_samples = c.freq_samples + 1 }

unfoldable pub note_access : Cache → ExpertRef → ℕ → Cache
note_access c e clock =
    let noted : Cache = record c {
      use_count = insert e (count_of c.use_count e + 1) c.use_count;
      step_used = insert e c.cur_step c.step_used;
      prev_used = insert e (count_of c.last_used e) c.prev_used;
      last_used = insert e clock c.last_used;
    } in
    if is_tiny_lfu c.policy then note_freq noted e else noted

unfoldable pub stamp : Cache → ExpertRef → Cache
stamp c e = record c { tick = c.tick + 1; seg_stamp = insert e (c.tick + 1) c.seg_stamp }

unfoldable pub inc : Cache → Seg → Cache
inc c Seg.window = record c { n_window = c.n_window + 1 }
inc c Seg.protected = record c { n_protected = c.n_protected + 1 }
inc c Seg.probation = c

unfoldable pub dec : Cache → Seg → Cache
dec c Seg.window = record c { n_window = sub64 c.n_window 1 }
dec c Seg.protected = record c { n_protected = sub64 c.n_protected 1 }
dec c Seg.probation = c

-- `if let Some(seg) = … { self.dec(seg) }`.
unfoldable pub dec_old : Cache → Option Seg → Cache
dec_old c none = c
dec_old c (some seg) = dec c seg

unfoldable pub set_seg : Cache → ExpertRef → Seg → Cache
set_seg c e seg = inc (dec_old (record c { seg = insert e seg c.seg }) (lookup e c.seg)) seg

unfoldable pub cache_insert : Cache → ExpertRef → Seg → Cache
cache_insert c e seg =
    let counted =
      inc
        (record c {
          resident = c.resident ++ (e ∷ []);
          member = set_insert e c.member;
          seg = insert e seg c.seg;
        })
        seg in
    record counted {
      tick = counted.tick + 1;
      seg_stamp = insert e (counted.tick + 1) counted.seg_stamp;
      arrival = insert e (counted.tick + 1) counted.arrival;
    }

unfoldable pub cache_remove : Cache → ExpertRef → Cache
cache_remove c e =
    dec_old
      (record c {
        resident = without e c.resident;
        member = without e c.member;
        seg = remove e c.seg;
      })
      (lookup e c.seg)

unfoldable pub evict_one : Cache → Option ExpertRef → Cache
evict_one c none = c
evict_one c (some v) = cache_remove c v

-- `min_by_key` and `max_by_key`, for a test of whether an expert replaces the best so far.
unfoldable pub best_from : (ExpertRef → ExpertRef → Bool) → ExpertRef → List ExpertRef → ExpertRef
best_from replaces best [] = best
best_from replaces best (e ∷ es) = best_from replaces (if replaces e best then e else best) es

unfoldable pub best_by : (ExpertRef → ExpertRef → Bool) → List ExpertRef → Option ExpertRef
best_by replaces [] = none
best_by replaces (e ∷ es) = some (best_from replaces e es)

-- The first of the least.
unfoldable pub lower : (ExpertRef → ℕ) → ExpertRef → ExpertRef → Bool
lower key e best = ltb (key e) (key best)

-- The first of the least, by the first key and then by the second.
unfoldable pub lower2 : (ExpertRef → ℕ) → (ExpertRef → ℕ) → ExpertRef → ExpertRef → Bool
lower2 key key2 e best = ltb (key e) (key best) || (key e == key best && ltb (key2 e) (key2 best))

-- The last of the greatest.
unfoldable pub not_lower : (ExpertRef → ℕ) → ExpertRef → ExpertRef → Bool
not_lower key e best = leb (key best) (key e)

unfoldable pub seg_eq : Seg → Seg → Bool
seg_eq Seg.window Seg.window = true
seg_eq Seg.probation Seg.probation = true
seg_eq Seg.protected Seg.protected = true
seg_eq a b = false

unfoldable pub is_in : Cache → Seg → ExpertRef → Bool
is_in c s r = elim (lookup r c.seg) [ none ↦ false | some t ↦ seg_eq t s ]

unfoldable pub is_exempt : Option ExpertRef → ExpertRef → Bool
is_exempt none r = false
is_exempt (some e) r = expert_eq e r

unfoldable pub in_seg :
    Cache → Seg → List ExpertRef → Option ExpertRef → List ExpertRef → List ExpertRef
in_seg c s pinned exempt [] = []
in_seg c s pinned exempt (r ∷ rs) =
    let rest = in_seg c s pinned exempt rs in
    if (is_exempt exempt r || not (contains pinned r)) && is_in c s r then r ∷ rest else rest

unfoldable pub stamps_of : Cache → Order → List (ExpertRef × ℕ)
stamps_of c Order.recency = c.seg_stamp
stamps_of c Order.arrival = c.arrival

-- It is called with a segment everywhere.
unfoldable pub oldest_in :
    Cache → Seg → List ExpertRef → Order → Option ExpertRef → Option ExpertRef
oldest_in c s pinned order exempt =
    best_by (lower (count_of (stamps_of c order))) (in_seg c s pinned exempt c.resident)

unfoldable pub freq_of : Cache → ExpertRef → ℕ
freq_of c e = count_of c.freq e

-- `while self.ghost.len() > self.ghost_cap { … }`
unfoldable pub trim : ℕ → List ExpertRef → List ExpertRef → List ExpertRef × List ExpertRef
trim cap [] set = ([], set)
trim cap (old ∷ ghost) set =
    let rest = trim cap ghost (without old set) in
    if ltb cap (length (old ∷ ghost)) then rest else (old ∷ ghost, set)

unfoldable pub push_ghost : Cache → ExpertRef → Cache
push_ghost c e =
    let ghost = if contains c.ghost_set e then c.ghost else c.ghost ++ (e ∷ []) in
    let (kept, set) = trim c.ghost_cap ghost (set_insert e c.ghost_set) in
    if c.ghost_cap == 0 then c else record c { ghost = kept; ghost_set = set }
