-- ===== src/Common/Perms.antt =====
-- Rearrangements of lists.
use mathlib.Core.Path.{◌≡◌, refl, ap, ◌∙◌}
use mathlib.Core.List.{List, [], ◌∷◌, map, Permᴰ}
use Prim.Native.Nat.{suc}
use pynagle.Common.Lists.{length}

pub length-Permᴰ : {A : Type 0} {xs ys : List A} → Permᴰ xs ys → length xs ≡ length ys
length-Permᴰ Permᴰ.nil = refl
length-Permᴰ (Permᴰ.cons e p) = ap suc (length-Permᴰ p)
length-Permᴰ (Permᴰ.swap e f) = refl
length-Permᴰ (Permᴰ.trans p q) = length-Permᴰ p ∙ length-Permᴰ q

-- A rearrangement of the values of a function comes from one of its arguments.
pub Permᴰ-unmap :
    {A B : Type 0} (g : A → B) {zs ws : List B} (ys : List A)
    → Permᴰ zs ws
    → ws ≡ map g ys
    → (xs : List A) × (zs ≡ map g xs) × Permᴰ xs ys
Permᴰ-unmap g [] Permᴰ.nil e = ([], refl, Permᴰ.nil)
Permᴰ-unmap g (y ∷ ys) Permᴰ.nil e = cc
Permᴰ-unmap g [] (Permᴰ.cons p r) e = cc
Permᴰ-unmap g (y ∷ ys) (Permᴰ.cons {l₁ = l₁} {l₂ = l₂} p r) e =
    let tail : l₂ ≡ map g ys = cc in
    let (xs, f, q) = Permᴰ-unmap g ys r tail in (y ∷ xs, cc, Permᴰ.cons refl q)
Permᴰ-unmap g [] (Permᴰ.swap p q) e = cc
Permᴰ-unmap g (y ∷ []) (Permᴰ.swap p q) e = cc
Permᴰ-unmap g (x ∷ y ∷ ys) (Permᴰ.swap p q) e = (y ∷ x ∷ ys, cc, Permᴰ.swap refl refl)
Permᴰ-unmap g ys (Permᴰ.trans p q) e =
    let (ms, f, r) = Permᴰ-unmap g ys q e in
    let (xs, f', r') = Permᴰ-unmap g ms p f in (xs, f', Permᴰ.trans r' r)
