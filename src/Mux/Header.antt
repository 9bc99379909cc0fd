-- ===== src/Mux/Header.antt =====
-- The mux header: Tag.Encode of scales/mux/sink.py, and _EncodeTag, _BuildHeader and ReadHeader of
-- scales/thriftmux/sink.py.
use pynagle.Common.{
  ℕ, ◌+◌, ◌-◌, ◌*◌, ◌/◌, ◌%◌, ◌^◌, ◌<◌, ◌≡◌, ap, ◌∙◌, drop, List, [], ◌∷◌, ◌++◌, arith, Run, ok,
  raised,
}
use pynagle.Common.Int.{ℤ, pos, negsuc, ◌-ℤ◌}
use pynagle.Mux.Bytes.{shift_right, shift_left, low_bits, signed32, pattern8, pack_i32}

-- Tag.Encode and SocketTransportSink._EncodeTag
unfoldable pub encode_tag : ℕ → List ℕ
encode_tag tag = (tag / 2 ^ 16) % 256 ∷ (tag / 2 ^ 8) % 256 ∷ tag % 256 ∷ []

-- _BuildHeader: pack('!ibBBB', 1 + 3 + data_len, msg_type, *tag)
unfoldable pub build_header : ℕ → ℤ → ℕ → List ℕ
unfolding encode_tag pack_i32 pattern8
build_header tag msg_type data_len =
    pack_i32 (1 + 3 + data_len) ++ pattern8 msg_type ∷ encode_tag tag

-- ReadHeader of the number that unpack('!i') gives.
unfoldable pub read_word : ℤ → ℤ × ℕ
unfolding shift_right shift_left low_bits ◌-ℤ◌
read_word header = (
  pos 0 -ℤ pos (256 - low_bits (shift_right header 24) 8),
  low_bits (shift_left header 8) 32 / 2 ^ 8,
)

-- ReadHeader: a stream with fewer than four bytes raises.
unfoldable pub read_header : List ℕ → Run (ℤ × ℕ)
unfolding read_word signed32
read_header (a ∷ b ∷ c ∷ d ∷ rest) =
    ok (read_word (signed32 (a * 2 ^ 24 + b * 2 ^ 16 + c * 2 ^ 8 + d)))
read_header rest = raised

-- The message type that a first byte stands for in ReadHeader: the byte minus 256.
word_type : (w : ℕ) → w < 2 ^ 32 → (read_word (signed32 w)).0 ≡ negsuc (255 - w / 2 ^ 24)
unfolding read_word signed32
word_type w h = ground arith

word_tag : (w : ℕ) → w < 2 ^ 32 → (read_word (signed32 w)).1 ≡ w % 2 ^ 24
unfolding read_word signed32
word_tag w h = ground arith

pair_path : {x y : ℤ} {m n : ℕ} → x ≡ y → m ≡ n → ◌≡◌ {A = ℤ × ℕ} (x, m) (y, n)
pair_path e f = λ i. (e i, f i)

-- A header that _BuildHeader makes for a response type, -128 to -1, reads back to the type and the
-- tag, whatever follows it.
pub read_header-build_header :
    (tag k data_len : ℕ) (rest : List ℕ)
    → tag < 2 ^ 24
    → k < 128
    → read_header (drop 4 (build_header tag (negsuc k) data_len) ++ rest) ≡ ok (negsuc k, tag)
unfolding read_header build_header
read_header-build_header tag k data_len rest ht hk =
    let w : ℕ =
      (255 - k % 256) * 2 ^ 24
      + (tag / 2 ^ 16) % 256 * 2 ^ 16
      + (tag / 2 ^ 8) % 256 * 2 ^ 8
      + tag % 256 in
    let small : w < 2 ^ 32 = omega arith in
    let t : 255 - w / 2 ^ 24 ≡ k = omega arith in
    let g : w % 2 ^ 24 ≡ tag = omega arith in
    ap ok (pair_path (word_type w small ∙ ap negsuc t) (word_tag w small ∙ g))

-- ReadHeader of any four bytes gives the first byte minus 256, so never a type of 0 or more.
read_header-negative :
    (a b c d : ℕ) (rest : List ℕ)
    → a < 256
    → b < 256
    → c < 256
    → d < 256
    → read_header (a ∷ b ∷ c ∷ d ∷ rest) ≡ ok (negsuc (255 - a), b * 2 ^ 16 + c * 2 ^ 8 + d)
unfolding read_header
read_header-negative a b c d rest ha hb hc hd =
    let w : ℕ = a * 2 ^ 24 + b * 2 ^ 16 + c * 2 ^ 8 + d in
    let small : w < 2 ^ 32 = omega arith in
    let t : w / 2 ^ 24 ≡ a = omega arith in
    let g : w % 2 ^ 24 ≡ b * 2 ^ 16 + c * 2 ^ 8 + d = omega arith in
    ap ok (pair_path (word_type w small ∙ ap (λ x. negsuc (255 - x)) t) (word_tag w small ∙ g))
