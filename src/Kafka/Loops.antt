-- ===== src/Kafka/Loops.antt =====
-- The loops `for t in range(n)` of scales/kafka/protocol.py around a reader of one item.
use pynagle.Common.{
  ℕ, zero, suc, ◌≡◌, refl, ap, ◌∙◌, List, [], ◌∷◌, ◌++◌, length, map, Run, ok, ◌>>=◌,
}
use pynagle.Common.Int.{ℤ, pos, negsuc}
use pynagle.Kafka.Binary.{append_assoc}

module _ {ℓ} {A : Type ℓ} where
  -- `n` items, one after the other.
  unfoldable pub read_times : ℕ → (List ℕ → Run (A × List ℕ)) → List ℕ → Run (List A × List ℕ)
  read_times zero read xs = ok ([], xs)
  read_times (suc n) read xs =
      read xs >>= λ (a, rest). read_times n read rest >>= λ (items, after). ok (a ∷ items, after)

  -- range of a negative number is empty.
  unfoldable pub read_range : ℤ → (List ℕ → Run (A × List ℕ)) → List ℕ → Run (List A × List ℕ)
  unfolding read_times
  read_range (pos n) read xs = read_times n read xs
  read_range (negsuc n) read xs = ok ([], xs)

  -- The bytes of all items, by those of one.
  unfoldable pub all_bytes : (A → List ℕ) → List A → List ℕ
  all_bytes bytes [] = []
  all_bytes bytes (a ∷ items) = bytes a ++ all_bytes bytes items

  -- Every item of the list has the property.
  pub data All {κ} (P : A → Type κ) : List A → Type (ℓ ⊔ κ) where
    all_none : All P []
    all_more : {a : A} {items : List A} → P a → All P items → All P (a ∷ items)

  -- If every item that fits reads back from its bytes, all of them do.
  pub read_times-bytes {κ} :
      {Fits : A → Type κ} (bytes : A → List ℕ) (read : List ℕ → Run (A × List ℕ))
      → ((a : A) (rest : List ℕ) → Fits a → read (bytes a ++ rest) ≡ ok (a, rest))
      → (items : List A) (rest : List ℕ) → All Fits items
      → read_times (length items) read (all_bytes bytes items ++ rest) ≡ ok (items, rest)
  unfolding read_times all_bytes
  read_times-bytes bytes read back [] rest all_none = refl
  read_times-bytes bytes read back (a ∷ items) rest (all_more h hs) =
      ap
        (λ xs. read xs >>= λ (b, after).
          read_times (length items) read after >>= λ (bs, end). ok (b ∷ bs, end))
        (append_assoc (bytes a) (all_bytes bytes items) rest)
      ∙ (ap
            (λ r. r >>= λ (b, after).
              read_times (length items) read after >>= λ (bs, end). ok (b ∷ bs, end))
            (back a (all_bytes bytes items ++ rest) h)
          ∙ ap (λ r. r >>= λ (bs, end). ok (a ∷ bs, end))
              (read_times-bytes bytes read back items rest hs))

-- The same for items that are read as a value each.
pub read_times-values {ℓ ℓ' κ} :
    {A : Type ℓ} {B : Type ℓ'} {Fits : A → Type κ} (bytes : A → List ℕ)
    (read : List ℕ → Run (B × List ℕ)) (value : A → B)
    → ((a : A) (rest : List ℕ) → Fits a → read (bytes a ++ rest) ≡ ok (value a, rest))
    → (items : List A) (rest : List ℕ) → All Fits items
    → read_times (length items) read (all_bytes bytes items ++ rest) ≡ ok (map value items, rest)
unfolding read_times all_bytes
read_times-values bytes read value back [] rest all_none = refl
read_times-values bytes read value back (a ∷ items) rest (all_more h hs) =
    rw
      (
        append_assoc (bytes a) (all_bytes bytes items) rest,
        back a (all_bytes bytes items ++ rest) h,
        read_times-values bytes read value back items rest hs,
      )
      refl
