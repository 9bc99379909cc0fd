-- ===== src/Mux/Serializer/Contexts.antt =====
-- A context that was written is skipped by the reader.
use pynagle.Common.{
  ℕ, zero, suc, ◌-◌, ◌/◌, ◌%◌, ◌^◌, ◌<◌, ◌≡◌, ◌≢◌, refl, ap, sym, ◌∙◌, subst, inl, inr, Bool, true,
  false, Bool-cases, if◌then◌else◌, List, [], ◌∷◌, ◌++◌, length, length-append, Run, ok, raised,
  ◌>>=◌, arith,
}
use pynagle.Common.Int.{ℤ, pos, negsuc, eqb_ℤ}
use pynagle.Kafka.Binary.{
  digits, read_string, written, Fits, pack_signed-written, read_signed-written, string_bytes,
  read_string-bytes, append_assoc,
}
use pynagle.Kafka.Loops.{All, all_none, all_more, all_bytes}
use pynagle.Mux.Serializer.{
  utf8, fixed, Value, text, deadline, unsupported, write_text, write_value, write_entries,
  write_context, read_context, read_contexts, skip_contexts, Reply, thrift_call, nack, server_error,
  error_reply, reply_of, unmarshal_rdispatch,
}

length-fixed : (n : ℕ) (bytes : List ℕ) → length (fixed n bytes) ≡ n
unfolding fixed
length-fixed zero bytes = refl
length-fixed (suc n) [] = ap suc (length-fixed n [])
length-fixed (suc n) (b ∷ bytes) = ap suc (length-fixed n bytes)

length-digits : (w n : ℕ) → length (digits w n) ≡ w
unfolding digits
length-digits zero n = refl
length-digits (suc w) n =
    length-append (digits w (n / 256)) (n % 256 ∷ []) ∙ omega (arith, length-digits w (n / 256))

length-written : (w : ℕ) (z : ℤ) → length (written w z) ≡ w
unfolding written
length-written w (pos n) = length-digits w n
length-written w (negsuc n) = length-digits w (256 ^ w - 1 - n)

-- The bytes of a value after their length.
unfoldable pub body : Value → List ℕ
body (text s) = fixed (length s) (utf8 s)
body (deadline ts timeout) = written 8 ts ++ written 8 timeout
body unsupported = []

-- A value that can be written.
unfoldable pub FitsValue : Value → Type 0
FitsValue (text s) = length s < 2 ^ 15
FitsValue (deadline ts timeout) = Fits 8 ts × Fits 8 timeout
FitsValue unsupported = 1 < 1

unfoldable pub entry_bytes : List ℕ × Value → List ℕ
unfolding body
entry_bytes (k, v) = string_bytes (body (text k)) ++ string_bytes (body v)

abbrev pub FitsEntry : List ℕ × Value → Type 0
FitsEntry (k, v) = (length k < 2 ^ 15) × FitsValue v

write_text-bytes :
    (s : List ℕ) → length s < 2 ^ 15 → write_text s ≡ ok (string_bytes (body (text s)))
unfolding write_text string_bytes body Fits
write_text-bytes s h =
    ap (λ r. r >>= λ size. ok (size ++ fixed (length s) (utf8 s)))
      (pack_signed-written 2 (pos (length s)) (omega arith))
    ∙ ap (λ n. ok (written 2 (pos n) ++ fixed (length s) (utf8 s)))
        (sym (length-fixed (length s) (utf8 s)))

write_value-bytes : (v : Value) → FitsValue v → write_value v ≡ ok (string_bytes (body v))
unfolding write_value FitsValue string_bytes body Fits
write_value-bytes (text s) h = write_text-bytes s h
write_value-bytes (deadline ts timeout) (a, b) =
    let l : length (written 8 ts ++ written 8 timeout) ≡ 16 = omega (
      arith,
      length-append (written 8 ts) (written 8 timeout),
      length-written 8 ts,
      length-written 8 timeout,
    ) in
    rw
      (
        pack_signed-written 2 (pos 16) (omega arith),
        pack_signed-written 8 ts a,
        pack_signed-written 8 timeout b,
      )
      (ap (λ n. ok (written 2 (pos n) ++ (written 8 ts ++ written 8 timeout))) (sym l))
write_value-bytes unsupported h = absurd (omega arith)

entry-bytes :
    (k : List ℕ) (v : Value) (more : Run (List ℕ)) (bytes : List ℕ)
    → FitsEntry (k, v)
    → more ≡ ok bytes
    → (write_text k >>= λ key.
        write_value v >>= λ value. more >>= λ rest. ok ((key ++ value) ++ rest))
      ≡ ok (entry_bytes (k, v) ++ bytes)
unfolding entry_bytes
entry-bytes k v more bytes (hk, hv) e = rw (write_text-bytes k hk, write_value-bytes v hv, e) refl

write_entries-bytes :
    (ctx : List (List ℕ × Value))
    → All FitsEntry ctx
    → write_entries ctx ≡ ok (all_bytes entry_bytes ctx)
unfolding write_entries all_bytes
write_entries-bytes [] all_none = refl
write_entries-bytes ((k, v) ∷ ctx) (all_more h hs) =
    entry-bytes k v (write_entries ctx) (all_bytes entry_bytes ctx) h (write_entries-bytes ctx hs)

-- The bytes of a context.
unfoldable pub context_bytes : List (List ℕ × Value) → List ℕ
context_bytes ctx = written 2 (pos (length ctx)) ++ all_bytes entry_bytes ctx

write_context-bytes :
    (ctx : List (List ℕ × Value))
    → length ctx < 2 ^ 15
    → All FitsEntry ctx
    → write_context ctx ≡ ok (context_bytes ctx)
unfolding write_context context_bytes Fits
write_context-bytes ctx h hs =
    rw (pack_signed-written 2 (pos (length ctx)) (omega arith), write_entries-bytes ctx hs) refl

FitsValue-body : (v : Value) → FitsValue v → length (body v) < 2 ^ 15
unfolding FitsValue body
FitsValue-body (text s) h = omega (arith, length-fixed (length s) (utf8 s))
FitsValue-body (deadline ts timeout) h = omega (
  arith,
  length-append (written 8 ts) (written 8 timeout),
  length-written 8 ts,
  length-written 8 timeout,
)
FitsValue-body unsupported h = absurd (omega arith)

read_context-entry :
    (k : List ℕ) (v : Value) (rest : List ℕ)
    → FitsEntry (k, v)
    → read_context (entry_bytes (k, v) ++ rest) ≡ ok rest
unfolding read_context entry_bytes body
read_context-entry k v rest (hk, hv) =
    let first = fixed (length k) (utf8 k) in
    let second = string_bytes (body v) in
    ap (λ xs. read_string xs >>= λ (key, after). read_string after >>= λ (value, end). ok end)
      (append_assoc (string_bytes first) second rest)
    ∙ (ap (λ r. r >>= λ (key, after). read_string after >>= λ (value, end). ok end)
          (read_string-bytes first (second ++ rest)
            (omega (arith, length-fixed (length k) (utf8 k))))
        ∙ ap (λ r. r >>= λ (value, end). ok end)
            (read_string-bytes (body v) rest (FitsValue-body v hv)))

read_contexts-entries :
    (ctx : List (List ℕ × Value)) (rest : List ℕ)
    → All FitsEntry ctx
    → read_contexts (length ctx) (all_bytes entry_bytes ctx ++ rest) ≡ ok rest
unfolding read_contexts all_bytes
read_contexts-entries [] rest all_none = refl
read_contexts-entries ((k, v) ∷ ctx) rest (all_more h hs) =
    ap (λ xs. read_context xs >>= read_contexts (length ctx))
      (append_assoc (entry_bytes (k, v)) (all_bytes entry_bytes ctx) rest)
    ∙ (ap (λ r. r >>= read_contexts (length ctx))
          (read_context-entry k v (all_bytes entry_bytes ctx ++ rest) h)
        ∙ read_contexts-entries ctx rest hs)

-- What a reply with this status and these bytes after its context is read as: OK is the bytes of
-- the thrift call, NACK an error of its own, and any other status the error that the bytes say, if
-- they are UTF-8, and an exception if not.
pub data Reads (decodes : List ℕ → Bool) : ℤ → List ℕ → Run Reply → Type 0 where
  reads_ok : {rest : List ℕ} → Reads decodes (pos 0) rest (ok (thrift_call rest))
  reads_nack : {rest : List ℕ} → Reads decodes (pos 2) rest (ok nack)
  reads_error :
      {status : ℤ} {rest : List ℕ}
      → status ≢ pos 0
      → status ≢ pos 2
      → decodes rest ≡ true
      → Reads decodes status rest (ok (server_error rest))
  fails :
      {status : ℤ} {rest : List ℕ}
      → status ≢ pos 0
      → status ≢ pos 2
      → decodes rest ≡ false
      → Reads decodes status rest raised

module _ (decodes : List ℕ → Bool) where
  error_reply-Reads :
      (status : ℤ) (rest : List ℕ)
      → status ≢ pos 0
      → status ≢ pos 2
      → Reads decodes status rest (error_reply decodes rest)
  unfolding error_reply
  error_reply-Reads status rest a b =
      elim (decodes rest)
          as (λ t.
            decodes rest ≡ t
            → Reads decodes status rest (if t then ok (server_error rest) else raised)) [
              | true ↦ λ d. reads_error a b d
              | false ↦ λ d. fails a b d
            ]
        refl

  reply_of-Reads :
      (status : ℤ) (rest : List ℕ) → Reads decodes status rest (reply_of decodes status rest)
  unfolding reply_of
  reply_of-Reads status rest = elim (Bool-cases (eqb_ℤ status (pos 0))) [
    | inl is_ok ↦
        let e : status ≡ pos 0 = ground arith in
        subst (λ x. Reads decodes x rest (reply_of decodes x rest)) (sym e) reads_ok
    | inr not_ok ↦ elim (Bool-cases (eqb_ℤ status (pos 2))) [
      | inl is_nack ↦
          let e : status ≡ pos 2 = ground arith in
          subst (λ x. Reads decodes x rest (reply_of decodes x rest)) (sym e) reads_nack
      | inr other ↦ rw (not_ok, other) (error_reply-Reads status rest (ground arith) (ground arith))
    ]
  ]

  unmarshal-contexts :
      (ctx : List (List ℕ × Value)) (status : ℤ) (rest : List ℕ)
      → length ctx < 2 ^ 15
      → All FitsEntry ctx
      → Fits 1 status
      → unmarshal_rdispatch decodes (written 1 status ++ (context_bytes ctx ++ rest))
        ≡ reply_of decodes status rest
  unfolding unmarshal_rdispatch context_bytes skip_contexts Fits
  unmarshal-contexts ctx status rest h hs f =
      let entries = all_bytes entry_bytes ctx in
      rw
        (
          read_signed-written 1 status (context_bytes ctx ++ rest) f,
          append_assoc (written 2 (pos (length ctx))) entries rest,
          read_signed-written 2 (pos (length ctx)) (entries ++ rest) (omega arith),
          read_contexts-entries ctx rest hs,
        )
        refl

  -- A context of less than 2^15 entries, whose keys are texts shorter than 2^15 and whose values are
  -- such texts or deadlines that fit their fields, is written, and a reply with a status of a byte,
  -- the context and any bytes is read to its end: the status OK gives the bytes after the context as
  -- the thrift call, NACK gives a NACK, and any other status gives those bytes as the server's error
  -- if they are UTF-8, and an exception if not.
  pub write_context-unmarshal :
      (ctx : List (List ℕ × Value)) (status : ℤ) (rest : List ℕ)
      → length ctx < 2 ^ 15
      → All FitsEntry ctx
      → Fits 1 status
      → (write_context ctx ≡ ok (context_bytes ctx))
        × Reads decodes status rest
            (unmarshal_rdispatch decodes (written 1 status ++ (context_bytes ctx ++ rest)))
  write_context-unmarshal ctx status rest h hs f = (
    write_context-bytes ctx h hs,
    subst (Reads decodes status rest) (sym (unmarshal-contexts ctx status rest h hs f))
        (reply_of-Reads status rest),
  )
