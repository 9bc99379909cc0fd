-- ===== src/Thrift/Json/Arrays.antt =====
-- What is written to an array is read from it.
use pynagle.Common.{
  ℕ, zero, suc, ◌+◌, ◌≡◌, refl, sym, ap, ◌∙◌, none, some, List, [], ◌∷◌, ◌++◌, length, get_elem?,
  append_nil, Run, ok, raised, ◌>>=◌, arith,
}
use pynagle.Common.Dicts.{append_shift, length_shift}
use pynagle.Thrift.Json.{ArrayContext, array_init, array_read, array_write}

zero_plus : (n : ℕ) → 0 + n ≡ n
zero_plus n = omega arith

module _ {V : Type 0} where
  unfoldable pub write_elements : List V → ArrayContext V → ArrayContext V
  unfolding array_write
  write_elements [] c = c
  write_elements (v ∷ vs) c = write_elements vs (array_write v c)

  unfoldable pub read_elements : ℕ → ArrayContext V → Run (List V × ArrayContext V)
  unfolding array_read
  read_elements zero c = ok ([], c)
  read_elements (suc n) c =
      array_read c >>= λ (v, d). read_elements n d >>= λ (vs, e). ok (v ∷ vs, e)

  pub get_elem?-middle :
      (before : List V) (v : V) (after : List V)
      → get_elem? (before ++ v ∷ after) (length before) ≡ some v
  get_elem?-middle [] v after = refl
  get_elem?-middle (x ∷ before) v after = get_elem?-middle before v after

  written :
      (vs : List V) (c : ArrayContext V)
      → write_elements vs c ≡ record { arr = c.arr ++ vs; idx = c.idx }
  unfolding write_elements array_write
  written [] c = ap (λ xs. record { arr = xs; idx = c.idx }) (sym (append_nil c.arr))
  written (v ∷ vs) c =
      written vs (array_write v c)
      ∙ ap (λ xs. record { arr = xs; idx = c.idx }) (append_shift c.arr v vs)

  past_end : (xs : List V) → get_elem? xs (length xs) ≡ none
  past_end [] = refl
  past_end (x ∷ xs) = past_end xs

  -- The element that follows `before`.
  pub get_elem?-at :
      (arr before : List V) (v : V) (after : List V) (i : ℕ)
      → arr ≡ before ++ v ∷ after
      → i ≡ length before
      → get_elem? arr i ≡ some v
  get_elem?-at arr before v after i e f =
      ap (λ xs. get_elem? xs i) e
      ∙ ap (get_elem? (before ++ v ∷ after)) f
      ∙ get_elem?-middle before v after

  pub get_elem?-end :
      (arr before : List V) (i : ℕ)
      → arr ≡ before ++ []
      → i ≡ length before
      → get_elem? arr i ≡ none
  get_elem?-end arr before i e f =
      ap (λ xs. get_elem? xs i) (e ∙ append_nil before) ∙ ap (get_elem? before) f ∙ past_end before

  read_back :
      (arr before vs : List V) (i : ℕ)
      → arr ≡ before ++ vs
      → i ≡ length before
      → read_elements (length vs) (record { arr = arr; idx = i })
        ≡ ok (vs, record { arr = arr; idx = i + length vs })
  unfolding read_elements array_read
  read_back arr before [] i e f =
      let same : i ≡ i + 0 = omega arith in ap (λ j. ok ([], record { arr = arr; idx = j })) same
  read_back arr before (v ∷ vs) i e f =
      let same : i + 1 + length vs ≡ i + suc (length vs) = omega arith in
      let rest =
        read_back arr (before ++ v ∷ []) vs (i + 1) (e ∙ sym (append_shift before v vs))
          (omega (arith, f, length_shift before v)) in
      ap
        (λ o.
          (elim o as (λ _. Run (V × ArrayContext V)) [
            | none ↦ raised
            | some x ↦ ok (x, record { arr = arr; idx = i + 1 })
          ])
          >>= λ (x, d). read_elements (length vs) d >>= λ (xs, c). ok (x ∷ xs, c))
        (get_elem?-at arr before v vs i e f)
      ∙ ap (λ r. r >>= λ (xs, c). ok (v ∷ xs, c)) rest
      ∙ ap (λ j. ok (v ∷ vs, record { arr = arr; idx = j })) same

  -- The elements that are written to a new array are read from it in their order.
  pub read_elements-write_elements :
      (vs : List V)
      → read_elements (length vs) (array_init (write_elements vs (array_init [])).arr)
        ≡ ok (vs, record { arr = vs; idx = length vs })
  unfolding array_init
  read_elements-write_elements vs =
      ap (λ c. read_elements (length vs) (record { arr = c.arr; idx = 0 }))
        (written vs (record { arr = []; idx = 0 }))
      ∙ read_back vs [] vs 0 refl refl
      ∙ ap (λ j. ok (vs, record { arr = vs; idx = j })) (zero_plus (length vs))
