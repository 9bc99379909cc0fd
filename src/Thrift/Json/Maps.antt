-- ===== src/Thrift/Json/Maps.antt =====
-- The pairs that are written to a map are read from it.
use pynagle.Common.{
  ℕ, zero, suc, ◌≡◌, refl, sym, ap, ◌∙◌, Option, List, [], ◌∷◌, ◌++◌, append_nil, Run, ok, ◌>>=◌,
}
use pynagle.Thrift.Json.{MapContext, map_read, set_last, map_write}
use pynagle.Common.Dicts.{append_shift}

module _ {V : Type 0} where
  unfoldable pub write_pairs : V → List (V × V) → MapContext V → Run (MapContext V)
  unfolding map_write
  write_pairs null [] c = ok c
  write_pairs null ((k, v) ∷ pairs) c =
      map_write null k c >>= λ d. map_write null v d >>= λ e. write_pairs null pairs e

  unfoldable pub read_pairs : ℕ → MapContext V → Run (List (V × V) × MapContext V)
  unfolding map_read
  read_pairs zero c = ok ([], c)
  read_pairs (suc n) c = map_read c >>= λ (k, d).
      map_read d >>= λ (v, e). read_pairs n e >>= λ (pairs, last). ok ((k, v) ∷ pairs, last)

  set_last_key :
      (map : List (V × V)) (k a b : V) → set_last 0 k (map ++ (a, b) ∷ []) ≡ ok (map ++ (k, b) ∷ [])
  unfolding set_last
  set_last_key [] k a b = refl
  set_last_key (p ∷ []) k a b = refl
  set_last_key (p ∷ q ∷ map) k a b =
      ap (λ r. r >>= λ rest. ok (p ∷ rest)) (set_last_key (q ∷ map) k a b)

  set_last_value :
      (map : List (V × V)) (v a b : V) → set_last 1 v (map ++ (a, b) ∷ []) ≡ ok (map ++ (a, v) ∷ [])
  unfolding set_last
  set_last_value [] v a b = refl
  set_last_value (p ∷ []) v a b = refl
  set_last_value (p ∷ q ∷ map) v a b =
      ap (λ r. r >>= λ rest. ok (p ∷ rest)) (set_last_value (q ∷ map) v a b)

  written :
      (null : V) (pairs map : List (V × V)) (i : ℕ) (o : Option (V × V))
      → write_pairs null pairs (record { map = map; map_idx = i; obj = o; idx = 0 })
        ≡ ok (record { map = map ++ pairs; map_idx = i; obj = o; idx = 0 })
  unfolding write_pairs map_write
  written null [] map i o =
      ap (λ xs. ok (record { map = xs; map_idx = i; obj = o; idx = 0 })) (sym (append_nil map))
  written null ((k, v) ∷ pairs) map i o =
      ap
        (λ r. (r >>= λ xs. ok (record { map = xs; map_idx = i; obj = o; idx = 1 })) >>= λ d.
          map_write null v d >>= λ e. write_pairs null pairs e)
        (set_last_key map k null null)
      ∙ ap
          (λ r. (r >>= λ xs. ok (record { map = xs; map_idx = i; obj = o; idx = 0 })) >>= λ e.
            write_pairs null pairs e)
          (set_last_value map v k null)
      ∙ written null pairs (map ++ (k, v) ∷ []) i o
      ∙ ap (λ xs. ok (record { map = xs; map_idx = i; obj = o; idx = 0 }))
          (append_shift map (k, v) pairs)
