-- ===== src/Common/Dicts.antt =====
-- A dict of Python as the list of its items in their order. A dict of pairs whose keys differ has
-- just those pairs.
use Prim.Native.Nat.{suc}
use mathlib.Core.Path.{◌≡◌, refl, subst, sym, ap, ◌∙◌}
use mathlib.Core.Bool.{Bool, true, false, not, ◌&&◌}
use mathlib.Core.Option.{Option, none, some}
use mathlib.Core.List.{List, [], ◌∷◌, ◌++◌, map}
use native.Mathlib.Omega.{arith}
use mathlib.Core.Logic.{inl, inr}
use pynagle.Common.Tests.{Bool-cases, if◌then◌else◌}
use pynagle.Common.Lists.{length, append_nil}

-- dict() of a list of pairs: a later pair with the same key replaces the value of the earlier.
unfoldable pub put_item : {K V : Type 0} → (K → K → Bool) → K → V → List (K × V) → List (K × V)
put_item eqb k v [] = (k, v) ∷ []
put_item eqb k v ((j, w) ∷ items) =
    if eqb j k then (j, v) ∷ items else (j, w) ∷ put_item eqb k v items

unfoldable pub put_items :
    {K V : Type 0} → (K → K → Bool) → List (K × V) → List (K × V) → List (K × V)
unfolding put_item
put_items eqb [] items = items
put_items eqb ((k, v) ∷ pairs) items = put_items eqb pairs (put_item eqb k v items)

unfoldable pub dict_of : {K V : Type 0} → (K → K → Bool) → List (K × V) → List (K × V)
unfolding put_items
dict_of eqb pairs = put_items eqb pairs []

pub append_shift {ℓ} :
    {A : Type ℓ} (before : List A) (v : A) (after : List A)
    → (before ++ v ∷ []) ++ after ≡ before ++ v ∷ after
append_shift [] v after = refl
append_shift (x ∷ before) v after = ap (λ xs. x ∷ xs) (append_shift before v after)

pub length_shift {ℓ} :
    {A : Type ℓ} (before : List A) (v : A) → length (before ++ v ∷ []) ≡ suc (length before)
length_shift [] v = refl
length_shift (x ∷ before) v = ap suc (length_shift before v)

-- Whether no key of a dict is `k`, and whether no pair has the key of a pair before it or of `items`.
unfoldable pub is_new : {K V : Type 0} → (K → K → Bool) → K → List (K × V) → Bool
is_new eqb k [] = true
is_new eqb k ((j, w) ∷ items) = not (eqb j k) && is_new eqb k items

unfoldable pub distinct : {K V : Type 0} → (K → K → Bool) → List (K × V) → List (K × V) → Bool
unfolding is_new
distinct eqb items [] = true
distinct eqb items ((k, v) ∷ pairs) =
    is_new eqb k items && distinct eqb (items ++ (k, v) ∷ []) pairs

put_new :
    {K V : Type 0} (eqb : K → K → Bool) (k : K) (v : V) (items : List (K × V))
    → is_new eqb k items ≡ true
    → put_item eqb k v items ≡ items ++ (k, v) ∷ []
unfolding put_item is_new
put_new eqb k v [] h = refl
put_new eqb k v ((j, w) ∷ items) h = ground (arith, put_new eqb k v items, h)

put_items-distinct :
    {K V : Type 0} (eqb : K → K → Bool) (pairs items : List (K × V))
    → distinct eqb items pairs ≡ true
    → put_items eqb pairs items ≡ items ++ pairs
unfolding put_items distinct
put_items-distinct eqb [] items h = sym (append_nil items)
put_items-distinct eqb ((k, v) ∷ pairs) items h =
    let new : is_new eqb k items ≡ true = ground (arith, h) in
    let others : distinct eqb (items ++ (k, v) ∷ []) pairs ≡ true = ground (arith, h) in
    ap (put_items eqb pairs) (put_new eqb k v items new)
    ∙ put_items-distinct eqb pairs (items ++ (k, v) ∷ []) others
    ∙ append_shift items (k, v) pairs

pub dict_of-distinct :
    {K V : Type 0} (eqb : K → K → Bool) (pairs : List (K × V))
    → distinct eqb [] pairs ≡ true
    → dict_of eqb pairs ≡ pairs
unfolding dict_of
dict_of-distinct eqb pairs h = put_items-distinct eqb pairs [] h

-- The value of a key, which need not be there.
unfoldable pub find : {K V : Type 0} → (K → K → Bool) → K → List (K × V) → Option V
find eqb k [] = none
find eqb k ((j, w) ∷ items) = if eqb j k then some w else find eqb k items

-- The last element that passes a test.
unfoldable pub last_with : {A : Type 0} → (A → Bool) → List A → Option A
last_with test [] = none
last_with test (x ∷ xs) = elim (last_with test xs) [
  | none ↦ if test x then some x else none
  | some y ↦ some y
]

module _ {K V : Type 0} (eqb : K → K → Bool) (sound : (a b : K) → eqb a b ≡ true → a ≡ b)
    (same : (a : K) → eqb a a ≡ true) where
  find-put_item :
      (k j : K) (v : V) (items : List (K × V))
      → find eqb k (put_item eqb j v items) ≡ (if eqb j k then some v else find eqb k items)
  unfolding find put_item
  find-put_item k j v [] = refl
  find-put_item k j v ((i, w) ∷ items) = elim (Bool-cases (eqb i j)) [
    | inl e ↦
        subst
          (λ x.
            find eqb k (put_item eqb x v ((i, w) ∷ items))
            ≡ (if eqb x k then some v else find eqb k ((i, w) ∷ items)))
          (sound i j e) (ground (arith, same i))
    | inr e ↦ elim (Bool-cases (eqb i k)) [
      | inl f ↦
          let other : eqb j k ≡ false = elim (Bool-cases (eqb j k)) [
            | inl g ↦ absurd (
                ground (
                  arith,
                  e,
                  subst (λ x. eqb i x ≡ true)
                      (sound i k f ∙ sym (sound i k f) ∙ sound i k f ∙ sym (sound j k g)) (same i),
                ))
            | inr g ↦ g
          ] in
          rw (e, f, other) refl
      | inr f ↦ rw (e, f) (find-put_item k j v items)
    ]
  ]

  find-put_items :
      {A : Type 0} (key : A → K) (val : A → V) (k : K) (xs : List A) (items : List (K × V))
      → find eqb k (put_items eqb (map (λ a. (key a, val a)) xs) items)
        ≡ elim (last_with (λ a. eqb (key a) k) xs) as (λ _. Option V) [
          | none ↦ find eqb k items
          | some a ↦ some (val a)
        ]
  unfolding put_items last_with
  find-put_items key val k [] items = refl
  find-put_items {A} key val k (x ∷ xs) items =
      find-put_items key val k xs (put_item eqb (key x) (val x) items)
      ∙ elim (last_with (λ a. eqb (key a) k) xs)
          as (λ o.
            (elim o as (λ _. Option V) [
              | none ↦ find eqb k (put_item eqb (key x) (val x) items)
              | some a ↦ some (val a)
            ])
            ≡ elim (elim o as (λ _. Option A) [
              | none ↦ if eqb (key x) k then some x else none
              | some y ↦ some y
            ])
                as (λ _. Option V) [ none ↦ find eqb k items | some a ↦ some (val a) ]) [
                  | none ↦
                      find-put_item k (key x) (val x) items
                      ∙ elim (eqb (key x) k)
                          as (λ b.
                            (if b then some (val x) else find eqb k items)
                            ≡ elim (if b then some x else none) as (λ _. Option V) [
                              | none ↦ find eqb k items
                              | some a ↦ some (val a)
                            ]) [ true ↦ refl | false ↦ refl ]
                  | some a ↦ refl
                ]

  -- A key of the dict of some elements has the value of the last element with that key.
  pub find-dict_of :
      {A : Type 0} (key : A → K) (val : A → V) (k : K) (xs : List A)
      → find eqb k (dict_of eqb (map (λ a. (key a, val a)) xs))
        ≡ elim (last_with (λ a. eqb (key a) k) xs) as (λ _. Option V) [
          | none ↦ none
          | some a ↦ some (val a)
        ]
  unfolding dict_of find
  find-dict_of key val k xs = find-put_items key val k xs []
