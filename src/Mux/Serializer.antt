-- ===== src/Mux/Serializer.antt =====
-- scales/thriftmux/serializer.py: calls and replies in the wire format of ThriftMux, on lists of
-- bytes. A text is a list of code points. The call itself, as bytes of thrift, is an argument.
pub mod Contexts
mod Tests
use pynagle.Common.{
  ℕ, zero, suc, ◌+◌, ◌*◌, ◌/◌, ◌%◌, ◌^◌, Bool, true, false, not, ◌&&◌, List, [], ◌∷◌, ◌++◌, length,
  ltb, ◌==◌, if◌then◌else◌, Run, ok, raised, ◌>>=◌,
}
use pynagle.Common.Int.{ℤ, pos, negsuc, eqb_ℤ}
use pynagle.Kafka.Binary.{pack_signed, read_signed, read_string}
use pynagle.Mux.Header.{encode_tag}

-- str.encode('utf-8') of a code point, and of a text.
unfoldable pub encode_point : ℕ → List ℕ
encode_point c =
    let last = 128 + c % 64 in
    let second = 128 + c / 64 % 64 in
    let third = 128 + c / 4096 % 64 in
    if ltb c 128
    then c ∷ []
    else (if ltb c 2048
        then (192 + c / 64) ∷ last ∷ []
        else (if ltb c 65536
            then (224 + c / 4096) ∷ second ∷ last ∷ []
            else (240 + c / 262144) ∷ third ∷ second ∷ last ∷ []))

unfoldable pub utf8 : List ℕ → List ℕ
unfolding encode_point
utf8 [] = []
utf8 (c ∷ text) = encode_point c ++ utf8 text

-- pack('%ds'), which cuts the bytes off or fills them up with zeros.
unfoldable pub fixed : ℕ → List ℕ → List ℕ
fixed zero bytes = []
fixed (suc n) [] = 0 ∷ fixed n []
fixed (suc n) (b ∷ bytes) = b ∷ fixed n bytes

-- What stands in a context: a text, a Deadline with its two times, or something else.
pub data Value : Type 0 where
  text : List ℕ → Value
  deadline : ℤ → ℤ → Value
  unsupported : Value

-- The length is that of the text, not of its bytes.
unfoldable pub write_text : List ℕ → Run (List ℕ)
unfolding fixed utf8
write_text s = pack_signed 2 (pos (length s)) >>= λ size. ok (size ++ fixed (length s) (utf8 s))

unfoldable pub write_value : Value → Run (List ℕ)
unfolding write_text
write_value (text s) = write_text s
write_value (deadline ts timeout) = pack_signed 2 (pos 16) >>= λ size.
    pack_signed 8 ts >>= λ first. pack_signed 8 timeout >>= λ second. ok (size ++ (first ++ second))
write_value unsupported = raised

-- The entries of a context, whose keys are texts.
unfoldable pub write_entries : List (List ℕ × Value) → Run (List ℕ)
unfolding write_value write_text
write_entries [] = ok []
write_entries ((k, v) ∷ ctx) = write_text k >>= λ key.
    write_value v >>= λ value. write_entries ctx >>= λ more. ok ((key ++ value) ++ more)

-- _WriteContext
unfoldable pub write_context : List (List ℕ × Value) → Run (List ℕ)
unfolding write_entries
write_context ctx = pack_signed 2 (pos (length ctx)) >>= λ size.
    write_entries ctx >>= λ entries. ok (size ++ entries)

-- Message.public_properties: those whose key does not start with two underscores.
unfoldable pub is_private : List ℕ → Bool
is_private [] = false
is_private (a ∷ []) = false
is_private (a ∷ b ∷ k) = (a == 95) && (b == 95)

unfoldable pub public_properties : List (List ℕ × Value) → List (List ℕ × Value)
unfolding is_private
public_properties [] = []
public_properties ((k, v) ∷ more) =
    let rest = public_properties more in if is_private k then rest else (k, v) ∷ rest

-- dict.update with one key, and with all of another dict.
unfoldable pub same_text : List ℕ → List ℕ → Bool
same_text [] [] = true
same_text [] (y ∷ ys) = false
same_text (x ∷ xs) [] = false
same_text (x ∷ xs) (y ∷ ys) = (x == y) && same_text xs ys

unfoldable pub put_key : List ℕ → Value → List (List ℕ × Value) → List (List ℕ × Value)
unfolding same_text
put_key k v [] = (k, v) ∷ []
put_key k v ((q, w) ∷ ctx) = if same_text q k then (q, v) ∷ ctx else (q, w) ∷ put_key k v ctx

unfoldable pub update_with : List (List ℕ × Value) → List (List ℕ × Value) → List (List ℕ × Value)
unfolding put_key
update_with ctx [] = ctx
update_with ctx ((k, v) ∷ more) = update_with (put_key k v ctx) more

-- _Marshal_Tdispatch: the message type that it sets in the headers, and the bytes.
unfoldable pub marshal_tdispatch :
    Run (List ℕ) → List (List ℕ × Value) → List (List ℕ × Value) → Run (ℤ × List ℕ)
unfolding write_context public_properties update_with
marshal_tdispatch call properties headers =
    write_context (update_with (public_properties properties) headers) >>= λ ctx.
    call >>= λ thrift. ok (pos 2, ctx ++ 0 ∷ 0 ∷ 0 ∷ 0 ∷ thrift)

-- _Marshal_Tdiscarded
unfoldable pub marshal_tdiscarded : ℕ → List ℕ → ℤ × List ℕ
unfolding utf8
marshal_tdiscarded which reason = (pos 66, encode_tag which ++ utf8 reason)

-- _ReadContext: two strings that are not looked at.
unfoldable pub read_context : List ℕ → Run (List ℕ)
read_context xs = read_string xs >>= λ (key, after). read_string after >>= λ (value, rest). ok rest

unfoldable pub read_contexts : ℕ → List ℕ → Run (List ℕ)
unfolding read_context
read_contexts zero xs = ok xs
read_contexts (suc n) xs = read_context xs >>= λ rest. read_contexts n rest

-- range of a negative number is empty.
unfoldable pub skip_contexts : ℤ → List ℕ → Run (List ℕ)
unfolding read_contexts
skip_contexts (pos n) xs = read_contexts n xs
skip_contexts (negsuc n) xs = ok xs

-- What a reply says: the bytes of the thrift call, a NACK, or the bytes of an error.
pub data Reply : Type 0 where
  thrift_call : List ℕ → Reply
  nack : Reply
  server_error : List ℕ → Reply

-- The part of a reply after the contexts. `decodes` says of bytes whether they are UTF-8: decode
-- raises on others.
module _ (decodes : List ℕ → Bool) where
  unfoldable pub error_reply : List ℕ → Run Reply
  error_reply rest = if decodes rest then ok (server_error rest) else raised

  unfoldable pub reply_of : ℤ → List ℕ → Run Reply
  unfolding error_reply
  reply_of status rest =
      if eqb_ℤ status (pos 0)
      then ok (thrift_call rest)
      else (if eqb_ℤ status (pos 2) then ok nack else error_reply rest)

  -- _Unmarshal_Rdispatch
  unfoldable pub unmarshal_rdispatch : List ℕ → Run Reply
  unfolding skip_contexts reply_of
  unmarshal_rdispatch xs = read_signed 1 xs >>= λ (status, after).
      read_signed 2 after >>= λ (nctx, contexts).
      skip_contexts nctx contexts >>= λ rest. reply_of status rest

  -- _Unmarshal_Rerror, and Unmarshal, whose map has no other message types.
  unfoldable pub unmarshal : ℤ → List ℕ → Run Reply
  unfolding unmarshal_rdispatch error_reply
  unmarshal (pos n) xs = if n == 127 then error_reply xs else raised
  unmarshal (negsuc n) xs =
      let reply = unmarshal_rdispatch xs in
      let failure = error_reply xs in
      if n == 1 then reply else (if n == 127 then failure else raised)
