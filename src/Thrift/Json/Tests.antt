-- ===== src/Thrift/Json/Tests.antt =====
-- The contexts at concrete values.
use pynagle.Common.{
  ℕ, ◌+◌, ◌≡◌, Option, none, some, List, [], ◌∷◌, ◌++◌, ok, if◌then◌else◌, leb, ◌-◌,
}
use pynagle.Thrift.Json.{array_init}
use pynagle.Thrift.Json.Arrays.{write_elements, read_elements, read_elements-write_elements}

abbrev some_values : List ℕ
some_values = 4 ∷ 4 ∷ 9 ∷ []

read_elements-write_elements_example :
    read_elements 3 (array_init (write_elements some_values (array_init [])).arr)
    ≡ ok (some_values, record { arr = some_values; idx = 3 })
read_elements-write_elements_example = read_elements-write_elements some_values

-- The names of types, 20 more than their number.
abbrev type_name : ℕ → ℕ
type_name t = t + 20

abbrev type_of : ℕ → Option ℕ
type_of n = if leb 20 n then some (n - 20) else none

-- A dict that lists its items from the last to the first.
abbrev reverse {ℓ} : {A : Type ℓ} → List A → List A
reverse [] = []
reverse (x ∷ xs) = reverse xs ++ x ∷ []

abbrev two_fields : List (ℕ × (ℕ × ℕ))
two_fields = (1, (8, 50)) ∷ (2, (11, 51)) ∷ []

abbrev two_pairs : List (ℕ × ℕ)
two_pairs = (7, 70) ∷ (8, 70) ∷ []
