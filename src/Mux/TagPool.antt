-- ===== src/Mux/TagPool.antt =====
-- scales/mux/sink.py, class TagPool: the tags of the requests on a connection. Varz and logs are
-- left out.
pub mod Partition
use pynagle.Common.{
  ℕ, zero, suc, ◌+◌, ◌-◌, ◌≤◌, ◌<◌, ◌≡◌, refl, ap, sym, ◌∙◌, Bool, true, false, List, [], ◌∷◌, ltb,
  ◌==◌, if◌then◌else◌, contains, occ, erase, length, Option, none, some, Bool-cases, inl, inr,
  arith, occ-erase, length-erase, Run, ok, raised,
}

pub record TagPool : Type 0 where
  pub free : List ℕ
  pub next : ℕ
  pub max_tag : ℕ

-- __init__
unfoldable pub new_pool : ℕ → TagPool
new_pool max_tag = record { free = []; next = 1; max_tag = max_tag }

-- `choose` is the element that set.pop takes of a set that is not empty.
module _ (choose : List ℕ → ℕ) where
  -- Allocates a tag above all others, or raises.
  unfoldable pub allocate : TagPool → Run (ℕ × TagPool)
  allocate p =
      if p.next == p.max_tag - 1 then raised else ok (suc p.next, record p { next = suc p.next })

  unfoldable pub pop_free : List ℕ → TagPool → Run (ℕ × TagPool)
  unfolding allocate
  pop_free [] p = allocate p
  pop_free (x ∷ free) p =
      let tag = choose (x ∷ free) in ok (tag, record p { free = erase tag (x ∷ free) })

  -- get
  unfoldable pub get : TagPool → Run (ℕ × TagPool)
  unfolding pop_free
  get p = pop_free p.free p

-- release: adding to the set a tag that is in it changes nothing.
unfoldable pub release : ℕ → TagPool → TagPool
release tag p = if contains p.free tag then p else record p { free = tag ∷ p.free }
