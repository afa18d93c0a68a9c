-- ===== src/Ymodem/Packets.antt =====
-- The packets of a file, and the file that they carry.
use brewblox_devcon_spark.Base.{
  ℕ, zero, suc, ◌+◌, ◌-◌, ◌*◌, ◌≤◌, ◌<◌, min, ◌≡◌, refl, ◌∙◌, ap, inl, inr, List, [], ◌∷◌, ◌++◌,
  append_assoc, append-nil, take, drop, replicate, length, length-append, length-take, length-drop,
  length-replicate, take-append-drop, arith, leb, leb→le, leb→gt, false, Bool-cases, map, ◌==◌,
}
use brewblox_devcon_spark.Base.Str.{concat}
use brewblox_devcon_spark.Ymodem.{data_len, packet_len, packet_of}

-- The packets of a file, numbered from `current` on.
unfoldable pub blocks : ℕ → ℕ → List ℕ → List (List ℕ)
blocks zero current file = []
blocks (suc left) current file =
    packet_of current (take data_len file) ∷ blocks left (current + 1) (drop data_len file)

-- The data of a packet, without its three control bytes and its checksum.
unfoldable pub payload : List ℕ → List ℕ
payload packet = take data_len (drop 3 packet)

packet_of_parts :
    (seq : ℕ) (bytes : List ℕ)
    → length (packet_of seq bytes) ≡ length bytes + (data_len - length bytes) + 5
unfolding packet_of
packet_of_parts seq bytes =
    rw
      (
        length-append (bytes ++ replicate (data_len - length bytes) 0) (0 ∷ 0 ∷ []),
        length-append bytes (replicate (data_len - length bytes) 0),
        length-replicate {A = ℕ} (data_len - length bytes) 0,
      )
      (omega arith)

pub length-packet_of :
    (seq : ℕ) (bytes : List ℕ) → length bytes ≤ data_len → length (packet_of seq bytes) ≡ packet_len
length-packet_of seq bytes h = omega (arith, packet_of_parts seq bytes)

above_ne : (n : ℕ) → packet_len < n → (n == packet_len) ≡ false
above_ne n h = ground arith

pub packet_of_too_long :
    (seq : ℕ) (bytes : List ℕ)
    → data_len < length bytes
    → (length (packet_of seq bytes) == packet_len) ≡ false
packet_of_too_long seq bytes h = above_ne _ (omega (arith, packet_of_parts seq bytes))

take_exact : (n : ℕ) (xs ys : List ℕ) → length xs ≡ n → take n (xs ++ ys) ≡ xs
take_exact zero [] ys h = refl
take_exact zero (x ∷ xs) ys h = absurd (omega (arith, h))
take_exact (suc n) [] ys h = absurd (omega (arith, h))
take_exact (suc n) (x ∷ xs) ys h = rw (take_exact n xs ys (omega (arith, h))) refl

take_over : (k m : ℕ) (xs ys : List ℕ) → k ≡ length xs + m → take k (xs ++ ys) ≡ xs ++ take m ys
take_over k m [] ys h = let same : k ≡ m = omega (arith, h) in rw same refl
take_over zero m (x ∷ xs) ys h = absurd (omega (arith, h))
take_over (suc k) m (x ∷ xs) ys h = rw (take_over k m xs ys (omega (arith, h))) refl

take_all : (n : ℕ) (xs : List ℕ) → length xs ≤ n → take n xs ≡ xs
take_all zero [] h = refl
take_all zero (x ∷ xs) h = absurd (omega (arith, h))
take_all (suc n) [] h = refl
take_all (suc n) (x ∷ xs) h = rw (take_all n xs (omega (arith, h))) refl

payload-packet_of :
    (seq : ℕ) (bytes : List ℕ)
    → length bytes ≤ data_len
    → payload (packet_of seq bytes) ≡ bytes ++ replicate (data_len - length bytes) 0
unfolding payload packet_of
payload-packet_of seq bytes h =
    take_exact data_len (bytes ++ replicate (data_len - length bytes) 0) (0 ∷ 0 ∷ []) (
      rw
        (
          length-append bytes (replicate (data_len - length bytes) 0),
          length-replicate {A = ℕ} (data_len - length bytes) 0,
        )
        (omega arith))

-- The data of the packets is the file, padded with zeros, if there are enough packets.
pub concat-blocks :
    (n current : ℕ) (file : List ℕ)
    → length file ≤ n * data_len
    → take (length file) (concat (map payload (blocks n current file))) ≡ file
unfolding concat blocks
concat-blocks zero current [] h = refl
concat-blocks zero current (b ∷ file) h = absurd (omega (arith, h))
concat-blocks (suc n) current file h =
    let part = take data_len file in
    let rest = drop data_len file in
    let others = concat (map payload (blocks n (current + 1) rest)) in
    let part_len : length part ≡ min data_len (length file) = length-take data_len file in
    let rest_len : length rest ≡ length file - data_len = length-drop data_len file in
    let fits : length part ≤ data_len = omega (arith, part_len) in
    let later : take (length rest) others ≡ rest =
      concat-blocks n (current + 1) rest (omega (arith, rest_len, h)) in
    elim (Bool-cases (leb (length file) data_len)) [
      | inl short ↦
          let all : part ≡ file = take_all data_len file (leb→le _ _ short) in
          rw
            (
              payload-packet_of current part fits,
              append_assoc part (replicate (data_len - length part) 0) others,
            )
            (take_exact (length file) part (replicate (data_len - length part) 0 ++ others)
                (ap length all)
              ∙ all)
      | inr long ↦
          let more : data_len < length file = leb→gt _ _ long in
          let full : length part ≡ data_len = omega (arith, part_len, more) in
          let pad : data_len - length part ≡ 0 = omega (arith, full) in
          rw (payload-packet_of current part fits, pad, append-nil)
            (take_over (length file) (length rest) part others (omega (arith, full, rest_len, more))
              ∙ ap (λ x. part ++ x) later
              ∙ take-append-drop data_len file)
    ]
