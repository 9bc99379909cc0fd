-- ===== src/Thrift/Json/Objects.antt =====
-- The fields that are written to an object are read from it.
use pynagle.Common.{
  ℕ, zero, suc, ◌≡◌, refl, sym, ap, subst, ◌∙◌, true, Option, none, some, List, [], ◌∷◌, ◌++◌,
  length, map, Bool, false, ◌<◌, append_nil, Run, ok, raised, out_of_fuel, ◌>>=◌, Returns, returns,
  Returns-bind, arith,
}
use pynagle.Thrift.Json.{
  no_field, read_field, ObjectContext, begin_field, read_field_begin, read_field_end,
  write_field_begin, write_field_end, end_field, object_read, object_write, set_field, field_value,
}
use mathlib.Core.List.{Permᴰ}
use pynagle.Common.Perms.{length-Permᴰ}
use pynagle.Common.Dicts.{append_shift, length_shift}
use pynagle.Thrift.Json.Arrays.{get_elem?-at, get_elem?-end}

-- A dict with no items lists none.
pub no_items :
    {A : Type 0} (order : List A → List A)
    → ((items : List A) → Permᴰ (order items) items)
    → order [] ≡ []
no_items order rearranged =
    let same = length-Permᴰ (rearranged []) in
    elim (order []) as (λ xs. length xs ≡ 0 → xs ≡ []) [
      | [] ↦ λ e. refl
      | x ∷ xs ↦ λ e. absurd (omega (arith, e))
    ]
      same

module _ {V : Type 0} where
  -- Fields are written one after the other: each has a name, a type and a value.
  unfoldable pub write_fields :
      V → (ℕ → ℕ) → List (ℕ × (ℕ × V)) → ObjectContext V → Run (ObjectContext V)
  unfolding object_write write_field_begin write_field_end
  write_fields null ctypes [] c = ok c
  write_fields null ctypes ((id, (ttype, v)) ∷ fields) c =
      object_write v (write_field_begin null ctypes ttype id c) >>= λ d.
      write_field_end d >>= λ e. write_fields null ctypes fields e

  -- They are read until readFieldBegin gives TType.STOP.
  unfoldable pub read_fields :
      Bool → (ℕ → Option ℕ) → ℕ → ObjectContext V → Run (List (ℕ × (ℕ × V)) × ObjectContext V)
  unfolding read_field_begin object_read read_field_end
  read_fields indexable jtypes zero c = out_of_fuel
  read_fields indexable jtypes (suc n) c = read_field_begin indexable jtypes c >>= λ (found, d).
      elim found as (λ _. Run (List (ℕ × (ℕ × V)) × ObjectContext V)) [
        | none ↦ ok ([], d)
        | some (ttype, id) ↦ object_read d >>= λ v.
            read_fields indexable jtypes n (read_field_end d) >>= λ (fields, e).
            ok ((id, (ttype, v)) ∷ fields, e)
      ]

  unfoldable pub entries : (ℕ → ℕ) → List (ℕ × (ℕ × V)) → List (ℕ × List (ℕ × V))
  entries ctypes fields = map (λ (id, (ttype, v)). (id, (ctypes ttype, v) ∷ [])) fields

  written :
      (null : V) (ctypes : ℕ → ℕ) (fields : List (ℕ × (ℕ × V))) (obj : List (ℕ × List (ℕ × V)))
      (i : ℕ)
      → write_fields null ctypes fields (record { obj = obj; field = no_field; idx = i })
        ≡ ok (record { obj = obj ++ entries ctypes fields; field = no_field; idx = i })
  unfolding write_fields entries object_write write_field_begin write_field_end set_field end_field
  written null ctypes [] obj i =
      ap (λ xs. ok (record { obj = xs; field = no_field; idx = i })) (sym (append_nil obj))
  written null ctypes ((id, (ttype, v)) ∷ fields) obj i =
      let entry : ℕ × List (ℕ × V) = (id, (ctypes ttype, v) ∷ []) in
      written null ctypes fields (obj ++ entry ∷ []) i
      ∙ ap (λ xs. ok (record { obj = xs; field = no_field; idx = i }))
          (append_shift obj entry (entries ctypes fields))

  read_back :
      (ctypes : ℕ → ℕ) (jtypes : ℕ → Option ℕ)
      → ((t : ℕ) → jtypes (ctypes t) ≡ some t)
      → (fields : List (ℕ × (ℕ × V))) (c : ObjectContext V) (before : List (ℕ × List (ℕ × V)))
      → c.obj ≡ before ++ entries ctypes fields
      → c.idx ≡ length before
      → Returns (λ (read, d). read ≡ fields) (read_fields true jtypes (suc (length fields)) c)
  unfolding entries read_fields read_field_begin begin_field object_read field_value read_field_end
  read_back ctypes jtypes law [] c before e f =
      subst
        (λ o.
          Returns (λ (read, d). read ≡ [])
            ((elim o as (λ _. Run (Option (ℕ × ℕ) × ObjectContext V)) [
              | none ↦ ok (none, c)
              | some (id, items) ↦ begin_field true jtypes id items c
            ])
              >>= λ (found, d). elim found as (λ _. Run (List (ℕ × (ℕ × V)) × ObjectContext V)) [
                | none ↦ ok ([], d)
                | some (ttype, id) ↦ object_read d >>= λ v.
                    read_fields true jtypes 0 (read_field_end d) >>= λ (fields, e).
                    ok ((id, (ttype, v)) ∷ fields, e)
              ]))
        (sym (get_elem?-end c.obj before c.idx e f)) (returns refl)
  read_back ctypes jtypes law ((id, (ttype, v)) ∷ fields) c before e f =
      let entry : ℕ × List (ℕ × V) = (id, (ctypes ttype, v) ∷ []) in
      let d : ObjectContext V = record c { field = read_field (ctypes ttype) v } in
      let begun : read_field_begin true jtypes c ≡ ok (some (ttype, id), d) =
        ap
          (λ o. elim o as (λ _. Run (Option (ℕ × ℕ) × ObjectContext V)) [
            | none ↦ ok (none, c)
            | some (id, items) ↦ begin_field true jtypes id items c
          ])
          (get_elem?-at c.obj before entry (entries ctypes fields) c.idx e f)
        ∙ ap
            (λ o. elim o as (λ _. Run (Option (ℕ × ℕ) × ObjectContext V)) [
              | none ↦ raised
              | some t ↦ ok (some (t, id), d)
            ])
            (law ttype) in
      let rest =
        read_back ctypes jtypes law fields (read_field_end d) (before ++ entry ∷ [])
          (e ∙ sym (append_shift before entry (entries ctypes fields)))
          (omega (arith, f, length_shift before entry)) in
      subst
        (λ r.
          Returns (λ (read, d). read ≡ (id, (ttype, v)) ∷ fields)
            (r >>= λ (found, d). elim found as (λ _. Run (List (ℕ × (ℕ × V)) × ObjectContext V)) [
              | none ↦ ok ([], d)
              | some (ttype, id) ↦ object_read d >>= λ v.
                  read_fields true jtypes (suc (length fields)) (read_field_end d)
                  >>= λ (fields, e). ok ((id, (ttype, v)) ∷ fields, e)
            ]))
        (sym begun)
        (Returns-bind rest (λ (read, e) h. returns (ap (λ xs. (id, (ttype, v)) ∷ xs) h)))

  -- What is read of the fields of a dict: on Python 2 each of them once, in the order of the dict, and
  -- on Python 3 none, as the first of them raises.
  pub data ReadsBack (fields : List (ℕ × (ℕ × V)))
      : Bool → Run (List (ℕ × (ℕ × V)) × ObjectContext V) → Type 0 where
    reads :
        {read : List (ℕ × (ℕ × V))} {d : ObjectContext V}
        → Permᴰ read fields
        → ReadsBack fields true (ok (read, d))
    reads_none : {d : ObjectContext V} → fields ≡ [] → ReadsBack fields false (ok ([], d))
    fails : 0 < length fields → ReadsBack fields false raised

  all_read :
      (fields xs : List (ℕ × (ℕ × V))) {call : Run (List (ℕ × (ℕ × V)) × ObjectContext V)}
      → Permᴰ xs fields
      → Returns (λ (read, d). read ≡ xs) call
      → ReadsBack fields true call
  all_read fields xs p (returns {value = (read, d)} e) =
      reads (subst (λ ys. Permᴰ ys fields) (sym e) p)

  indexable :
      (ctypes : ℕ → ℕ) (jtypes : ℕ → Option ℕ)
      → ((t : ℕ) → jtypes (ctypes t) ≡ some t)
      → (fields xs : List (ℕ × (ℕ × V))) → Permᴰ xs fields
      → ReadsBack fields true (
          read_fields true jtypes
            (suc (length fields))
            (record { obj = entries ctypes xs; field = no_field; idx = 0 }))
  indexable ctypes jtypes law fields xs p =
      subst
        (λ n. ReadsBack fields true (
          read_fields true jtypes (suc n)
            (record { obj = entries ctypes xs; field = no_field; idx = 0 })))
        (length-Permᴰ p)
        (all_read fields xs p (
          read_back ctypes jtypes law xs
            (record { obj = entries ctypes xs; field = no_field; idx = 0 }) [] refl refl))
