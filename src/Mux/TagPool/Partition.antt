-- ===== src/Mux/TagPool/Partition.antt =====
-- The tags of scales/mux/sink.py, class TagPool: none is given out twice.
use pynagle.Common.{
  ℕ, suc, ◌+◌, ◌-◌, ◌≤◌, ◌<◌, ◌≡◌, refl, ap, sym, ◌∙◌, subst, Bool, true, false, List, [], ◌∷◌, ltb,
  ◌==◌, if◌then◌else◌, contains, occ, erase, length, inl, inr, arith, occ-erase, length-erase, Run,
  ok, raised, Bool-cases,
}
use pynagle.Mux.TagPool.{TagPool, new_pool, allocate, pop_free, get, release}

-- Every tag from 2 up to `next` is either free or one of `leased`, and no other is either.
pub record IsPartition (p : TagPool) (leased : List ℕ) : Type 0 where
  pub once : (a : ℕ) → 2 ≤ a → a ≤ p.next → occ a p.free + occ a leased ≡ 1
  pub low : (a : ℕ) → a < 2 → occ a p.free + occ a leased ≡ 0
  pub high : (a : ℕ) → p.next < a → occ a p.free + occ a leased ≡ 0
  pub count : length p.free + length leased + 1 ≡ p.next
  pub bounded : p.next < p.max_tag

pub new_pool-IsPartition : (max_tag : ℕ) → 1 < max_tag → IsPartition (new_pool max_tag) []
unfolding new_pool
new_pool-IsPartition max_tag h = record {
  once = λ a lo hi. absurd (omega arith);
  low = λ a lo. refl;
  high = λ a hi. refl;
  count = refl;
  bounded = h;
}

pub contains-occ : (a : ℕ) (xs : List ℕ) → contains xs a ≡ ltb 0 (occ a xs)
contains-occ a [] = refl
contains-occ a (x ∷ xs) = ground (arith, contains-occ a xs)

-- The tag of a lease and what is left of the pool.
pub record Leased (p : TagPool) (leased : List ℕ) (got : ℕ × TagPool) : Type 0 where
  pub unused : occ got.0 leased ≡ 0
  pub lower : 2 ≤ got.0
  pub upper : got.0 < p.max_tag
  pub same_max : got.1.max_tag ≡ p.max_tag
  pub partition : IsPartition got.1 (got.0 ∷ leased)

-- A lease, or the exception of a pool whose tags are all given out.
pub data Get (p : TagPool) (leased : List ℕ) : Run (ℕ × TagPool) → Type 0 where
  leases : {got : ℕ × TagPool} → Leased p leased got → Get p leased (ok got)
  exhausted : length leased + 2 ≡ p.max_tag → length p.free ≡ 0 → Get p leased raised

allocate-Leased :
    (p : TagPool) (leased : List ℕ)
    → IsPartition p leased
    → (p.next == p.max_tag - 1) ≡ false
    → Leased p leased (suc p.next, record p { next = suc p.next })
allocate-Leased p leased s h =
    let b = s.bounded in
    let c = s.count in
    let top = s.high (suc p.next) (omega arith) in
    record {
      unused = omega arith;
      lower = omega arith;
      upper = ground arith;
      same_max = refl;
      partition = record {
        once = λ a lo hi. elim (Bool-cases (suc p.next == a)) [
          | inl e ↦
              let e' : suc p.next ≡ a = ground arith in
              let t = s.high a (omega arith) in ground arith
          | inr e ↦ let t = s.once a lo (ground arith) in ground arith
        ];
        low = λ a lo. let t = s.low a lo in ground arith;
        high = λ a hi. let t = s.high a (omega arith) in ground arith;
        count = omega arith;
        bounded = ground arith;
      };
    }

pop-Leased :
    (p : TagPool) (leased free : List ℕ) (tag : ℕ)
    → p.free ≡ free
    → IsPartition p leased
    → 0 < occ tag free
    → Leased p leased (tag, record p { free = erase tag free })
pop-Leased p leased free tag e s h =
    let c = s.count in
    let n = ap length e in
    let same = λ (a : ℕ). ap (occ a) e in
    let l = length-erase tag free h in
    let low : (tag < 2) → occ tag free ≡ 0 =
      λ k. let z = s.low tag k in let q = same tag in omega arith in
    let high : (p.next < tag) → occ tag free ≡ 0 =
      λ k. let z = s.high tag k in let q = same tag in omega arith in
    let lo : 2 ≤ tag = ground (arith, low) in
    let hi : tag ≤ p.next = ground (arith, high) in
    let o = s.once tag lo hi in
    let q = same tag in
    let b = s.bounded in
    record {
      unused = omega arith;
      lower = lo;
      upper = omega arith;
      same_max = refl;
      partition = record {
        once = λ a l h'.
            let t = s.once a l h' in
            let m = same a in let e = occ-erase tag a free h in ground arith;
        low = λ a l.
            let t = s.low a l in let m = same a in let e = occ-erase tag a free h in ground arith;
        high = λ a l.
            let t = s.high a l in let m = same a in let e = occ-erase tag a free h in ground arith;
        count = omega arith;
        bounded = b;
      };
    }

Get-test :
    {p : TagPool} {leased : List ℕ} {x y : Run (ℕ × TagPool)} (test : Bool)
    → (test ≡ true → Get p leased x)
    → (test ≡ false → Get p leased y)
    → Get p leased (if test then x else y)
Get-test true when_true when_false = when_true refl
Get-test false when_true when_false = when_false refl

-- set.pop takes an element of a set that is not empty.
module _ (choose : List ℕ → ℕ)
    (choose-mem : (xs : List ℕ) → 0 < length xs → 0 < occ (choose xs) xs) where
  allocate-Get :
      (p : TagPool) (leased : List ℕ)
      → IsPartition p leased
      → length p.free ≡ 0
      → Get p leased (allocate choose p)
  unfolding allocate
  allocate-Get p leased s none_free =
      let c = s.count in
      let b = s.bounded in
      Get-test (p.next == p.max_tag - 1) (λ e. exhausted (ground arith) none_free)
        (λ e. leases (allocate-Leased p leased s e))

  pop_free-Get :
      (free : List ℕ) (p : TagPool) (leased : List ℕ)
      → p.free ≡ free
      → IsPartition p leased
      → Get p leased (pop_free choose free p)
  unfolding pop_free
  pop_free-Get [] p leased e s = allocate-Get p leased s (ap length e)
  pop_free-Get (x ∷ free) p leased e s =
      leases (
        pop-Leased p leased (x ∷ free) (choose (x ∷ free)) e s
          (choose-mem (x ∷ free) (omega arith)))

  -- If set.pop takes an element of the set, a lease from a pool whose tags are accounted for gives a tag from 2 to max_tag - 1 that is not
  -- leased, and accounts for it; it raises only when no tag is free and max_tag - 2 are leased.
  pub get-Get : (p : TagPool) (leased : List ℕ) → IsPartition p leased → Get p leased (get choose p)
  unfolding get
  get-Get p leased s = pop_free-Get p.free p leased refl s

-- Giving a leased tag back accounts for it as a free one.
pub release-IsPartition :
    (p : TagPool) (leased : List ℕ) (tag : ℕ)
    → IsPartition p leased
    → 0 < occ tag leased
    → IsPartition (release tag p) (erase tag leased)
unfolding release
release-IsPartition p leased tag s h =
    let low : (tag < 2) → occ tag leased ≡ 0 = λ k. let z = s.low tag k in omega arith in
    let high : (p.next < tag) → occ tag leased ≡ 0 = λ k. let z = s.high tag k in omega arith in
    let o = s.once tag (ground (arith, low)) (ground (arith, high)) in
    let l = length-erase tag leased h in
    let c = s.count in
    let b = s.bounded in
    let absent : contains p.free tag ≡ false = contains-occ tag p.free ∙ ground arith in
    subst (λ t. IsPartition (if t then p else record p { free = tag ∷ p.free }) (erase tag leased))
      (sym absent)
      (record {
        once =
            λ a lo hi. let t = s.once a lo hi in let e = occ-erase tag a leased h in ground arith;
        low = λ a lo. let t = s.low a lo in let e = occ-erase tag a leased h in ground arith;
        high = λ a hi. let t = s.high a hi in let e = occ-erase tag a leased h in ground arith;
        count = omega arith;
        bounded = b;
      })

-- If set.pop takes an element of the set, a pool with no free tag takes any tag back, also one that
-- it never gave out, and the next lease gives that tag out.
get-release-stray :
    (choose : List ℕ → ℕ)
    → ((xs : List ℕ) → 0 < length xs → 0 < occ (choose xs) xs)
    → (p : TagPool) (tag : ℕ) → p.free ≡ []
    → get choose (release tag p) ≡ ok (tag, p)
unfolding get release pop_free
get-release-stray choose choose-mem p tag e =
    let m : 0 < occ (choose (tag ∷ [])) (tag ∷ []) = choose-mem (tag ∷ []) (omega arith) in
    let same : tag ≡ choose (tag ∷ []) = ground arith in
    let kept : erase tag (tag ∷ []) ≡ [] = ground arith in
    let lease : get choose (record p { free = tag ∷ [] }) ≡ ok (tag, record p { free = [] }) =
      subst
        (λ c.
          ◌≡◌ {A = Run (ℕ × TagPool)} (ok (c, record p { free = erase c (tag ∷ []) }))
            (ok (tag, record p { free = [] })))
        same (ap (λ xs. ok (tag, record p { free = xs })) kept) in
    subst
      (λ xs. get choose (release tag (record p { free = xs })) ≡ ok (tag, record p { free = xs }))
      (sym e) lease
