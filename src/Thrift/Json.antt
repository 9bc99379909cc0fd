-- ===== src/Thrift/Json.antt =====
-- scales/thrift/protocol.py: the contexts of TFastJSONProtocol, which read and write the values that
-- json gives and takes. Names of fields and types are numbers. A dict is a list of its items in
-- an order. CTYPES and JTYPES of thrift are arguments, and so are the equality of values and the
-- value None, and the order in which items() lists the items of a dict, which is not that of their
-- writing on Python 2. A context is read or written, and what would mix the two raises here.
pub mod Arrays
pub mod Objects
pub mod Maps
mod Tests
use pynagle.Common.Dicts.{dict_of}
use pynagle.Common.{
  ℕ, zero, suc, ◌+◌, Bool, true, false, Option, none, some, List, [], ◌∷◌, ◌++◌, ltb, ◌==◌,
  if◌then◌else◌, length, get_elem?, Run, ok, raised, ◌>>=◌,
}

-- ArrayContext
pub record ArrayContext (V : Type 0) : Type 0 where
  pub arr : List V
  pub idx : ℕ

-- The `field` of an ObjectContext: none, the item of the dict of a field that is read, or the field
-- that is written.
pub data Field (V : Type 0) : Type 0 where
  no_field : Field V
  read_field : ℕ → V → Field V
  written_field : ℕ → ℕ → V → Field V

-- ObjectContext: each name has the dict of its field, which has one item.
pub record ObjectContext (V : Type 0) : Type 0 where
  pub obj : List (ℕ × List (ℕ × V))
  pub field : Field V
  pub idx : ℕ

-- MapContext: `obj` is the pair that is read, if there was one.
pub record MapContext (V : Type 0) : Type 0 where
  pub map : List (V × V)
  pub map_idx : ℕ
  pub obj : Option (V × V)
  pub idx : ℕ

module _ {V : Type 0} where
  -- ArrayContext: __init__ of a list, read, write and get_buffer.
  unfoldable pub array_init : List V → ArrayContext V
  array_init array = record { arr = array; idx = 0 }

  unfoldable pub array_read : ArrayContext V → Run (V × ArrayContext V)
  array_read c = elim (get_elem? c.arr c.idx) as (λ _. Run (V × ArrayContext V)) [
    | none ↦ raised
    | some v ↦ ok (v, record c { idx = c.idx + 1 })
  ]

  unfoldable pub array_write : V → ArrayContext V → ArrayContext V
  array_write v c = record c { arr = c.arr ++ v ∷ [] }

  -- ObjectContext: __init__ of a dict and its methods.
  unfoldable pub object_init :
      (List (ℕ × List (ℕ × V)) → List (ℕ × List (ℕ × V)))
      → List (ℕ × List (ℕ × V))
      → ObjectContext V
  object_init order obj = record { obj = order obj; field = no_field; idx = 0 }

  -- The field of an entry, whose dict has one item, and its type, if JTYPES knows its name. `indexable`
  -- is whether items() is a list, as on Python 2: its index raises TypeError on Python 3.
  unfoldable pub begin_field :
      Bool
      → (ℕ → Option ℕ)
      → ℕ
      → List (ℕ × V)
      → ObjectContext V
      → Run (Option (ℕ × ℕ) × ObjectContext V)
  begin_field true jtypes id ((name, v) ∷ []) c =
      elim (jtypes name) as (λ _. Run (Option (ℕ × ℕ) × ObjectContext V)) [
        | none ↦ raised
        | some ttype ↦ ok (some (ttype, id), record c { field = read_field name v })
      ]
  begin_field _ jtypes id _ c = raised

  -- readFieldBegin: the type and the name of the next field, or none for TType.STOP.
  unfoldable pub read_field_begin :
      Bool → (ℕ → Option ℕ) → ObjectContext V → Run (Option (ℕ × ℕ) × ObjectContext V)
  unfolding begin_field
  read_field_begin indexable jtypes c =
      elim (get_elem? c.obj c.idx) as (λ _. Run (Option (ℕ × ℕ) × ObjectContext V)) [
        | none ↦ ok (none, c)
        | some (id, items) ↦ begin_field indexable jtypes id items c
      ]

  unfoldable pub read_field_end : ObjectContext V → ObjectContext V
  read_field_end c = record c { idx = c.idx + 1 }

  -- writeFieldBegin, with None for the value that is not written yet.
  unfoldable pub write_field_begin : V → (ℕ → ℕ) → ℕ → ℕ → ObjectContext V → ObjectContext V
  write_field_begin null ctypes ttype id c = record c {
    field = written_field id (ctypes ttype) null;
  }

  -- writeFieldEnd; without a field it raises.
  unfoldable pub end_field : Field V → ObjectContext V → Run (ObjectContext V)
  end_field (written_field id name v) c =
      ok (record c { obj = c.obj ++ (id, (name, v) ∷ []) ∷ []; field = no_field })
  end_field _ c = raised

  unfoldable pub write_field_end : ObjectContext V → Run (ObjectContext V)
  unfolding end_field
  write_field_end c = end_field c.field c

  unfoldable pub field_value : Field V → Run V
  field_value (read_field name v) = ok v
  field_value _ = raised

  unfoldable pub object_read : ObjectContext V → Run V
  unfolding field_value
  object_read c = field_value c.field

  unfoldable pub set_field : Field V → V → ObjectContext V → Run (ObjectContext V)
  set_field (written_field id name old) v c = ok (record c { field = written_field id name v })
  set_field _ v c = raised

  unfoldable pub object_write : V → ObjectContext V → Run (ObjectContext V)
  unfolding set_field
  object_write v c = set_field c.field v c

  unfoldable pub object_buffer : ObjectContext V → List (ℕ × List (ℕ × V))
  unfolding dict_of
  object_buffer c = dict_of (λ a b. a == b) c.obj

  -- MapContext: _read_next, __init__ of a dict, and read.
  unfoldable pub read_next : MapContext V → MapContext V
  read_next c = elim (get_elem? c.map c.map_idx) as (λ _. MapContext V) [
    | none ↦ c
    | some pair ↦ record c { obj = some pair; idx = 0; map_idx = c.map_idx + 1 }
  ]

  unfoldable pub map_init : (List (V × V) → List (V × V)) → List (V × V) → MapContext V
  unfolding read_next
  map_init order map = read_next (record { map = order map; map_idx = 0; obj = none; idx = 0 })

  -- The entry of a pair at an index, an IndexError for an index above 1.
  unfoldable pub entry : ℕ → V × V → Run V
  entry zero pair = ok pair.0
  entry (suc zero) pair = ok pair.1
  entry (suc (suc n)) pair = raised

  unfoldable pub map_read : MapContext V → Run (V × MapContext V)
  unfolding entry read_next
  map_read c = elim c.obj as (λ _. Run (V × MapContext V)) [
    | none ↦ raised
    | some pair ↦ entry c.idx pair >>= λ o.
        let next = record c { idx = c.idx + 1 } in
        ok (o, if c.idx + 1 == 2 then read_next next else next)
  ]

  -- self.map[-1][idx] = value
  unfoldable pub set_last : ℕ → V → List (V × V) → Run (List (V × V))
  set_last zero v ((a, b) ∷ []) = ok ((v, b) ∷ [])
  set_last (suc zero) v ((a, b) ∷ []) = ok ((a, v) ∷ [])
  set_last idx v (pair ∷ next ∷ map) = set_last idx v (next ∷ map) >>= λ rest. ok (pair ∷ rest)
  set_last _ v _ = raised

  unfoldable pub map_write : V → V → MapContext V → Run (MapContext V)
  unfolding set_last
  map_write null v c =
      let started = if c.idx == 0 then c.map ++ (null, null) ∷ [] else c.map in
      set_last c.idx v started >>= λ map.
      ok (record c { map = map; idx = if c.idx + 1 == 2 then 0 else c.idx + 1 })

  unfoldable pub map_buffer : (V → V → Bool) → MapContext V → List (V × V)
  unfolding dict_of
  map_buffer eqb c = dict_of eqb c.map
