-- ===== src/Mux/Transport/TagMap.antt =====
-- The dictionary _tag_map of scales/mux/sink.py: pairs of a tag and its request. Nothing depends
-- on the order.
use pynagle.Common.{
  ◌<◌, ℕ, ◌≡◌, ◌≢◌, refl, List, [], ◌∷◌, Option, none, some, occ, erase, ◌==◌, if◌then◌else◌, arith,
}

unfoldable pub lookup : ℕ → List (ℕ × ℕ) → Option ℕ
lookup t [] = none
lookup t ((k, r) ∷ m) = if k == t then some r else lookup t m

unfoldable pub remove : ℕ → List (ℕ × ℕ) → List (ℕ × ℕ)
remove t [] = []
remove t ((k, r) ∷ m) = if k == t then m else (k, r) ∷ remove t m

unfoldable pub insert : ℕ → ℕ → List (ℕ × ℕ) → List (ℕ × ℕ)
unfolding remove
insert t r m = (t, r) ∷ remove t m

unfoldable pub tags : List (ℕ × ℕ) → List ℕ
tags [] = []
tags ((k, r) ∷ m) = k ∷ tags m

-- _tag_map.values()
unfoldable pub requests_of : List (ℕ × ℕ) → List ℕ
requests_of [] = []
requests_of ((k, r) ∷ m) = r ∷ requests_of m

pub tags-remove : (t : ℕ) (m : List (ℕ × ℕ)) → tags (remove t m) ≡ erase t (tags m)
unfolding tags remove
tags-remove t [] = refl
tags-remove t ((k, r) ∷ m) = let h = tags-remove t m in ground arith

pub remove-absent : (t : ℕ) (m : List (ℕ × ℕ)) → occ t (tags m) ≡ 0 → remove t m ≡ m
unfolding tags remove
remove-absent t [] h = refl
remove-absent t ((k, r) ∷ m) h = let i = remove-absent t m in ground arith

pub lookup-occ : (t r : ℕ) (m : List (ℕ × ℕ)) → lookup t m ≡ some r → 0 < occ t (tags m)
unfolding tags lookup
lookup-occ t r [] h = absurd (ground arith)
lookup-occ t r ((k, s) ∷ m) h = let i = lookup-occ t r m in ground arith

pub occ-lookup : (t : ℕ) (m : List (ℕ × ℕ)) → lookup t m ≡ none → occ t (tags m) ≡ 0
unfolding tags lookup
occ-lookup t [] h = refl
occ-lookup t ((k, s) ∷ m) h = let i = occ-lookup t m in ground arith

pub lookup-remove : (t u : ℕ) (m : List (ℕ × ℕ)) → u ≢ t → lookup u (remove t m) ≡ lookup u m
unfolding lookup remove
lookup-remove t u [] h = refl
lookup-remove t u ((k, r) ∷ m) h = let i = lookup-remove t u m h in ground arith
