-- ===== src/Socket/Reading.antt =====
-- The loops that read and write a number of bytes.
use pynagle.Common.{
  ℕ, zero, suc, ◌+◌, ◌-◌, ◌≤◌, ◌<◌, ◌≡◌, ◌⊎◌, inl, inr, refl, ap, sym, ◌∙◌, subst, Bool, true,
  false, List, [], ◌∷◌, ◌++◌, ltb, ◌==◌, if◌then◌else◌, length, take, drop, length-append,
  append_nil, take-drop, length-take, length-drop, take-length, drop-length, arith, Run, ok, raised,
  ◌>>=◌,
}
use pynagle.Kafka.Binary.{append_assoc}
use pynagle.Socket.{
  recv, read_chunks, write_at, read_into, zeros, read_all, read_all_into, write_all,
}

-- The bytes that arrive before the end, which is an empty segment or none.
unfoldable pub arriving : List (List ℕ) → List ℕ
arriving [] = []
arriving ([] ∷ segs) = []
arriving ((x ∷ seg) ∷ segs) = (x ∷ seg) ++ arriving segs

-- What one recv of at least a byte takes.
record Received (n : ℕ) (segs : List (List ℕ)) (got : List ℕ × List (List ℕ)) : Type 0 where
  bounded : length got.0 ≤ n
  taken :
      ((length got.0 ≡ 0) × (arriving segs ≡ []))
      ⊎ ((0 < length got.0) × (arriving segs ≡ got.0 ++ arriving got.1))

arriving-some :
    (xs : List ℕ) (segs : List (List ℕ))
    → 0 < length xs
    → arriving (xs ∷ segs) ≡ xs ++ arriving segs
unfolding arriving
arriving-some [] segs h = absurd (omega arith)
arriving-some (x ∷ xs) segs h = refl

-- A segment of at least a byte, taken in part or as a whole.
segment-Received :
    (n : ℕ) (seg : List ℕ) (segs : List (List ℕ)) (b : Bool)
    → 0 < n
    → 0 < length seg
    → ltb n (length seg) ≡ b
    → Received n (seg ∷ segs) (if b then (take n seg, drop n seg ∷ segs) else (seg, segs))
segment-Received n seg segs true hn h e =
    let lt : n < length seg = ground arith in
    let lt' = length-take n seg (omega arith) in
    let ld = length-drop n seg in
    record {
      bounded = omega arith;
      taken = inr (
        omega arith,
        arriving-some seg segs h
            ∙ (ap (λ t. t ++ arriving segs) (sym (take-drop n seg))
                ∙ (append_assoc (take n seg) (drop n seg) (arriving segs)
                    ∙ ap (λ t. take n seg ++ t)
                        (sym (arriving-some (drop n seg) segs (omega arith))))),
      );
    }
segment-Received n seg segs false hn h e = record {
  bounded = ground arith;
  taken = inr (h, arriving-some seg segs h);
}

recv-Received : (n : ℕ) (segs : List (List ℕ)) → 0 < n → Received n segs (recv n segs)
unfolding recv arriving
recv-Received n [] h = record { bounded = omega arith; taken = inl (refl, refl) }
recv-Received n ([] ∷ segs) h = record {
  bounded = ground arith;
  taken = inl (ground arith, ground arith);
}
recv-Received n ((x ∷ seg) ∷ segs) h =
    segment-Received n (x ∷ seg) segs (ltb n (length (x ∷ seg))) h (omega arith) refl

-- The first `n` bytes arrive and what comes after them is left, or they do not and the end is met.
pub data Reads (n : ℕ) (buff : List ℕ) (segs : List (List ℕ))
    : Run (List ℕ × List (List ℕ)) → Type 0 where
  whole :
      (bytes : List ℕ) (rest : List (List ℕ))
      → length bytes ≡ n
      → arriving segs ≡ bytes ++ arriving rest
      → Reads n buff segs (ok (buff ++ bytes, rest))
  short : length (arriving segs) < n → Reads n buff segs raised

-- A chunk first, and then the rest.
chunk-Reads :
    (n m : ℕ) (buff chunk : List ℕ) (segs rest : List (List ℕ)) (run : Run (List ℕ × List (List ℕ)))
    → n ≡ length chunk + m
    → arriving segs ≡ chunk ++ arriving rest
    → Reads m (buff ++ chunk) rest run
    → Reads n buff segs run
chunk-Reads n m buff chunk segs rest _ en e (whole bytes left el ea) =
    subst (λ t. Reads n buff segs (ok (t, left))) (sym (append_assoc buff chunk bytes))
      (whole (chunk ++ bytes) left (omega (arith, length-append chunk bytes))
        (e ∙ (ap (λ t. chunk ++ t) ea ∙ sym (append_assoc chunk bytes (arriving left)))))
chunk-Reads n m buff chunk segs rest _ en e (short lt) =
    short (let l = ap length e in omega (arith, length-append chunk (arriving rest)))

nil-Reads :
    (n : ℕ) (buff : List ℕ) (segs : List (List ℕ)) → n ≡ 0 → Reads n buff segs (ok (buff, segs))
nil-Reads n buff segs e =
    subst (λ t. Reads n buff segs (ok (t, segs))) (append_nil buff) (whole [] segs (sym e) refl)

-- A round of the loop that has bytes left to read.
round-Reads :
    (sz : ℕ) (buff : List ℕ) (segs : List (List ℕ)) (got : List ℕ × List (List ℕ))
    (run : Run (List ℕ × List (List ℕ)))
    → length buff < sz
    → Received (sz - length buff) segs got
    → (0 < length got.0 → Reads (sz - length (buff ++ got.0)) (buff ++ got.0) got.1 run)
    → Reads (sz - length buff) buff segs (if length got.0 == 0 then raised else run)
round-Reads sz buff segs got run h r more =
    elim r.taken
      as (λ _. Reads (sz - length buff) buff segs (if length got.0 == 0 then raised else run)) [
        | inl (z, e) ↦
            subst (λ b. Reads (sz - length buff) buff segs (if b then raised else run))
              (let t : true ≡ (length got.0 == 0) = ground arith in t)
              (short (let l = ap length e in omega arith))
        | inr (p, e) ↦
            subst (λ b. Reads (sz - length buff) buff segs (if b then raised else run))
              (let t : false ≡ (length got.0 == 0) = ground arith in t)
              (let l = length-append buff got.0 in
                let w = r.bounded in
                chunk-Reads (sz - length buff) (sz - length (buff ++ got.0)) buff got.0 segs got.1
                  run (omega arith) e (more p))
      ]

read_chunks-Reads :
    (fuel sz : ℕ) (buff : List ℕ) (segs : List (List ℕ))
    → length buff ≤ sz
    → sz < fuel + length buff
    → Reads (sz - length buff) buff segs (read_chunks fuel sz buff segs)
unfolding read_chunks
read_chunks-Reads zero sz buff segs h f = absurd (omega arith)
read_chunks-Reads (suc fuel) sz buff segs h f =
    let got = recv (sz - length buff) segs in
    let run = read_chunks fuel sz (buff ++ got.0) got.1 in
    let l = length-append buff got.0 in
    elim (ltb (length buff) sz)
        as (λ b.
          ltb (length buff) sz ≡ b
          → Reads (sz - length buff) buff segs
              (if b then (if length got.0 == 0 then raised else run) else ok (buff, segs))) [
                | true ↦ λ e.
                    let lt : length buff < sz = ground arith in
                    let r = recv-Received (sz - length buff) segs (omega arith) in
                    let w = r.bounded in
                    round-Reads sz buff segs got run lt r (λ p.
                      read_chunks-Reads fuel sz (buff ++ got.0) got.1 (omega arith) (omega arith))
                | false ↦ λ e. nil-Reads (sz - length buff) buff segs (ground arith)
              ]
      refl

-- ScalesSocket.readAll gives the first bytes that arrive and leaves those after them, however they
-- come in segments, and raises exactly if the end comes before them.
pub read_all-Reads : (sz : ℕ) (segs : List (List ℕ)) → Reads sz [] segs (read_all sz segs)
unfolding read_all
read_all-Reads sz segs =
    let e : sz - 0 ≡ sz = omega arith in
    subst (λ n. Reads n [] segs (read_all sz segs)) e
      (read_chunks-Reads (suc sz) sz [] segs (omega arith) (omega arith))

-- What a write after the first bytes leaves.
write_at-length :
    (buff chunk pad : List ℕ)
    → write_at (length buff) chunk (buff ++ pad) ≡ (buff ++ chunk) ++ drop (length chunk) pad
unfolding write_at
write_at-length buff chunk pad =
    ap (λ t. (t ++ chunk) ++ drop (length buff + length chunk) (buff ++ pad)) (take-length buff pad)
    ∙ ap (λ t. (buff ++ chunk) ++ t) (drop-length buff pad (length chunk))

empty : (pad : List ℕ) → length pad ≡ 0 → pad ≡ []
empty [] h = refl
empty (x ∷ pad) h = absurd (omega arith)

-- The loop over a bytearray whose first bytes are those read so far.
read_into-chunks :
    (fuel sz : ℕ) (buff pad : List ℕ) (segs : List (List ℕ))
    → length buff + length pad ≡ sz
    → read_into fuel sz (length buff) (buff ++ pad) segs ≡ read_chunks fuel sz buff segs
unfolding read_into read_chunks
read_into-chunks zero sz buff pad segs h = refl
read_into-chunks (suc fuel) sz buff pad segs h =
    let got = recv (sz - length buff) segs in
    let run = read_chunks fuel sz (buff ++ got.0) got.1 in
    let run' =
      read_into fuel sz (length buff + length got.0) (write_at (length buff) got.0 (buff ++ pad))
        got.1 in
    elim (ltb (length buff) sz)
        as (λ b.
          ltb (length buff) sz ≡ b
          → (if b then (if length got.0 == 0 then raised else run') else ok (buff ++ pad, segs))
            ≡ (if b then (if length got.0 == 0 then raised else run) else ok (buff, segs))) [
              | true ↦ λ e.
                  let lt : length buff < sz = ground arith in
                  let w = (recv-Received (sz - length buff) segs (omega arith)).bounded in
                  let l = length-append buff got.0 in
                  let ld = length-drop (length got.0) pad in
                  ap (λ r. if length got.0 == 0 then raised else r)
                    (ap (λ v. read_into fuel sz (length buff + length got.0) v got.1)
                        (write_at-length buff got.0 pad)
                      ∙ (ap
                            (λ n.
                              read_into fuel sz n ((buff ++ got.0) ++ drop (length got.0) pad)
                                got.1)
                            (sym l)
                          ∙ read_into-chunks fuel sz (buff ++ got.0) (drop (length got.0) pad) got.1
                              (omega arith)))
              | false ↦ λ e.
                  let ge : sz ≤ length buff = ground arith in
                  ap (λ t. ok (t, segs))
                    (ap (λ t. buff ++ t) (empty pad (omega arith)) ∙ append_nil buff)
            ]
      refl

length-zeros : (n : ℕ) → length (zeros n) ≡ n
unfolding zeros
length-zeros zero = refl
length-zeros (suc n) = ap suc (length-zeros n)

-- VarzSocketWrapper.readAll, which receives into a bytearray, does the same as ScalesSocket.readAll,
-- which joins the chunks, for every number of bytes and all segments.
pub read_all_into-read_all :
    (sz : ℕ) (segs : List (List ℕ)) → read_all_into sz segs ≡ read_all sz segs
unfolding read_all_into read_all
read_all_into-read_all sz segs =
    let l = length-zeros sz in read_into-chunks (suc sz) sz [] (zeros sz) segs (omega arith)

-- ScalesSocket.write ends with all bytes sent, in order, or raises, whatever each send takes.
pub write_all-all :
    (buff takes : List ℕ) → (write_all buff takes ≡ ok buff) ⊎ (write_all buff takes ≡ raised)
unfolding write_all
write_all-all [] takes = inl refl
write_all-all (b ∷ buff) [] = inr refl
write_all-all (b ∷ buff) (k ∷ takes) =
    elim (k == 0)
      as (λ z.
        ((if z
            then raised
            else write_all (drop k (b ∷ buff)) takes >>= λ sent. ok (take k (b ∷ buff) ++ sent))
          ≡ ok (b ∷ buff))
        ⊎ ((if z
              then raised
              else write_all (drop k (b ∷ buff)) takes >>= λ sent. ok (take k (b ∷ buff) ++ sent))
            ≡ raised)) [
              | true ↦ inr refl
              | false ↦ elim (write_all-all (drop k (b ∷ buff)) takes) [
                | inl e ↦ inl (
                    ap (λ r. r >>= λ sent. ok (take k (b ∷ buff) ++ sent)) e
                    ∙ ap (λ t. ok t) (take-drop k (b ∷ buff)))
                | inr e ↦ inr (ap (λ r. r >>= λ sent. ok (take k (b ∷ buff) ++ sent)) e)
              ]
            ]
