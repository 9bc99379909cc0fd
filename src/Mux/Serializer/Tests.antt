-- ===== src/Mux/Serializer/Tests.antt =====
-- The serializer on small contexts.
use pynagle.Common.{ℕ, ◌≡◌, refl, Bool, true, ltb, ◌&&◌, List, [], ◌∷◌, ◌++◌, ok, raised, arith}
use pynagle.Common.Int.{pos, negsuc}
use pynagle.Kafka.Binary.{pack_signed, digits, written, Fits}
use pynagle.Kafka.Loops.{All, all_none, all_more}
use pynagle.Mux.Serializer.{
  Value, text, deadline, server_error, utf8, encode_point, fixed, write_text, write_context,
  public_properties, is_private, unmarshal, unmarshal_rdispatch, error_reply,
}
use pynagle.Mux.Serializer.Contexts.{
  FitsEntry, FitsValue, context_bytes, Reads, write_context-unmarshal,
}

-- A text of one code point of two bytes is written as the first of them.
test-write_text : write_text (233 ∷ []) ≡ ok (0 ∷ 1 ∷ 195 ∷ [])
unfolding write_text pack_signed digits fixed utf8 encode_point
test-write_text = refl

test-public_properties :
    public_properties ((95 ∷ 95 ∷ 68 ∷ [], text []) ∷ (95 ∷ 68 ∷ [], text []) ∷ [])
    ≡ (95 ∷ 68 ∷ [], text []) ∷ []
unfolding public_properties is_private
test-public_properties = refl

-- As if the bytes below 128 were all that decodes.
abbrev ascii : List ℕ → Bool
ascii [] = true
ascii (x ∷ xs) = ltb x 128 && ascii xs

test-unmarshal :
    (unmarshal ascii (negsuc 127) (104 ∷ []) ≡ ok (server_error (104 ∷ [])))
    × (unmarshal ascii (negsuc 127) (200 ∷ []) ≡ raised)
unfolding unmarshal error_reply
test-unmarshal = (refl, refl)

abbrev ctx : List (List ℕ × Value)
ctx = (104 ∷ [], text (233 ∷ [])) ∷ (105 ∷ [], deadline (pos 5) (negsuc 0)) ∷ []

ctx-Fits : All FitsEntry ctx
unfolding FitsValue Fits
ctx-Fits =
    all_more (omega arith, omega arith)
      (all_more (omega arith, (omega arith, omega arith)) all_none)

write_context-unmarshal_example :
    (write_context ctx ≡ ok (context_bytes ctx))
    × Reads ascii
        (pos 1)
        (7 ∷ [])
        (unmarshal_rdispatch ascii (written 1 (pos 1) ++ (context_bytes ctx ++ 7 ∷ [])))
unfolding Fits
write_context-unmarshal_example =
    write_context-unmarshal ascii ctx (pos 1) (7 ∷ []) (omega arith) ctx-Fits (omega arith)
