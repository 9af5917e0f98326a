-- ===== src/Ts/Gorilla/Delta.antt =====
-- The deltas of deltas of senko-ts/src/gorilla.rs: which of them come back.
use senko.Prelude.{
  ℕ, ◌-◌, ◌<◌, ◌≤◌, ◌≡◌, refl, ◌∙◌, List, [], ◌∷◌, ◌++◌, Bool, true, false, ◌||◌, ◌==◌,
  if◌then◌else◌, arith, u64_mod,
}
use senko.Ts.BitStream.{
  BitWriter, BitReader, Read, write_bits, write_i64_bits, read_bit, read_i64_bits, sign_extend,
}
use senko.Ts.BitStream.Stream.{
  bits, IsWriter, Writes, Writes-trans, Writes-write_bit, Writes-write_bits, Writes-write_i64_bits,
}
use senko.Ts.BitStream.Reading.{
  Ahead, Reads, Reads-and_then, Reads-read_bit, Reads-read_i64_bits, narrowed,
}
use senko.Ts.Gorilla.{encode_delta_of_delta, decode_delta_of_delta, between_i64, if_set}

-- A header, and a number of `n` bits.
abbrev pub prefixed : List Bool → ℕ → ℕ → List Bool
prefixed header n v = header ++ bits n v

-- The bits of a delta of deltas.
abbrev pub delta_bits : ℕ → List Bool
delta_bits dod =
    if dod == 0
    then false ∷ []
    else if between_i64 63 64 dod
    then prefixed (true ∷ false ∷ []) 7 dod
    else if between_i64 255 256 dod
    then prefixed (true ∷ true ∷ false ∷ []) 9 dod
    else if between_i64 2047 2048 dod
    then prefixed (true ∷ true ∷ true ∷ false ∷ []) 12 dod
    else prefixed (true ∷ true ∷ true ∷ true ∷ []) 64 dod

pub Writes-if :
    (w p q : BitWriter) (b : Bool) (xs ys : List Bool)
    → Writes w xs p
    → Writes w ys q
    → Writes w (if b then xs else ys) (if b then p else q)
Writes-if w p q true xs ys h k = h
Writes-if w p q false xs ys h k = k

Writes-prefixed :
    (w : BitWriter) (code width n v : ℕ)
    → IsWriter w
    → Writes w (prefixed (bits width code) n v) (write_i64_bits (write_bits w code width) v n)
Writes-prefixed w code width n v valid =
    let first = Writes-write_bits w code width valid in
    Writes-trans w _ _ (bits width code) (bits n v) first
      (Writes-write_i64_bits (write_bits w code width) v n first.still)

pub Writes-encode_delta_of_delta :
    (w : BitWriter) (dod : ℕ) → IsWriter w → Writes w (delta_bits dod) (encode_delta_of_delta w dod)
unfolding encode_delta_of_delta bits
Writes-encode_delta_of_delta w dod valid =
    Writes-if w _ _ (dod == 0) _ _ (Writes-write_bit w false valid) (
      Writes-if w _ _ (between_i64 63 64 dod) _ _ (Writes-prefixed w 2 2 7 dod valid) (
        Writes-if w _ _ (between_i64 255 256 dod) _ _ (Writes-prefixed w 6 3 9 dod valid) (
          Writes-if w _ _ (between_i64 2047 2048 dod) _ _ (Writes-prefixed w 14 4 12 dod valid)
            (Writes-prefixed w 15 4 64 dod valid))))

pub Reads-if_set :
    {A : Type 0} (r : BitReader) (set unset : BitReader → Read A) (b : Bool) (a : A)
    (xs ys : List Bool)
    → Ahead r (b ∷ xs)
    → ((r' : BitReader) → Ahead r' xs → Reads (if b then set r' else unset r') a ys)
    → Reads (if_set r set unset) a ys
Reads-if_set r set unset b a xs ys ahead k =
    Reads-and_then (read_bit r) _ b a xs ys (Reads-read_bit r b xs ahead) k

-- The number that the bits of a delta of deltas stand for.
abbrev pub restored : ℕ → ℕ
restored dod =
    if dod == 0
    then 0
    else if between_i64 63 64 dod
    then narrowed 7 dod
    else if between_i64 255 256 dod
    then narrowed 9 dod
    else if between_i64 2047 2048 dod
    then narrowed 12 dod
    else narrowed 64 dod

-- Whichever bits a test chose, the value that it chose is read.
pub Reads-if :
    {A : Type 0} (r : BitReader) (m : Read A) (b : Bool) (u v : A) (xs ys rest : List Bool)
    → (Ahead r (xs ++ rest) → Reads m u rest)
    → (Ahead r (ys ++ rest) → Reads m v rest)
    → Ahead r ((if b then xs else ys) ++ rest)
    → Reads m (if b then u else v) rest
Reads-if r m true u v xs ys rest h k ahead = h ahead
Reads-if r m false u v xs ys rest h k ahead = k ahead

module _ (dod : ℕ) (rest : List Bool) where
  -- The tail of the decoder once a code's last bit is read.
  at_7 :
      (r : BitReader)
      → Ahead r (prefixed (true ∷ false ∷ []) 7 dod ++ rest)
      → Reads (decode_delta_of_delta r) (narrowed 7 dod) rest
  unfolding decode_delta_of_delta
  at_7 r ahead = Reads-if_set r _ _ true _ _ rest ahead λ r1 a1.
      Reads-if_set r1 _ _ false _ _ rest a1
        λ r2 a2. Reads-read_i64_bits 7 dod r2 rest (omega arith) a2

  at_9 :
      (r : BitReader)
      → Ahead r (prefixed (true ∷ true ∷ false ∷ []) 9 dod ++ rest)
      → Reads (decode_delta_of_delta r) (narrowed 9 dod) rest
  unfolding decode_delta_of_delta
  at_9 r ahead = Reads-if_set r _ _ true _ _ rest ahead λ r1 a1.
      Reads-if_set r1 _ _ true _ _ rest a1 λ r2 a2.
        Reads-if_set r2 _ _ false _ _ rest a2
          λ r3 a3. Reads-read_i64_bits 9 dod r3 rest (omega arith) a3

  -- Codes of four bits, which the last one tells apart.
  at_four :
      (last : Bool) (n : ℕ) (r : BitReader)
      → n ≤ 64
      → ((r' : BitReader)
          → (if last then read_i64_bits 64 r' else read_i64_bits 12 r') ≡ read_i64_bits n r')
      → Ahead r (prefixed (true ∷ true ∷ true ∷ last ∷ []) n dod ++ rest)
      → Reads (decode_delta_of_delta r) (narrowed n dod) rest
  unfolding decode_delta_of_delta
  at_four last n r fits same ahead = Reads-if_set r _ _ true _ _ rest ahead λ r1 a1.
      Reads-if_set r1 _ _ true _ _ rest a1 λ r2 a2. Reads-if_set r2 _ _ true _ _ rest a2 λ r3 a3.
        Reads-if_set r3 _ _ last _ _ rest a3 λ r4 a4.
          let (r5, e, end) = Reads-read_i64_bits n dod r4 rest fits a4 in (r5, same r4 ∙ e, end)

  at_0 : (r : BitReader) → Ahead r ((false ∷ []) ++ rest) → Reads (decode_delta_of_delta r) 0 rest
  unfolding decode_delta_of_delta
  at_0 r ahead = Reads-if_set r _ _ false _ _ rest ahead λ r1 a1. (r1, refl, a1)

  pub Reads-decode_delta_of_delta :
      (r : BitReader)
      → Ahead r (delta_bits dod ++ rest)
      → Reads (decode_delta_of_delta r) (restored dod) rest
  Reads-decode_delta_of_delta r =
      let m = decode_delta_of_delta r in
      Reads-if r m (dod == 0) _ _ _ _ rest (at_0 r) (
        Reads-if r m (between_i64 63 64 dod) _ _ _ _ rest (at_7 r) (
          Reads-if r m (between_i64 255 256 dod) _ _ _ _ rest (at_9 r) (
            Reads-if r m (between_i64 2047 2048 dod) _ _ _ _ rest
              (at_four false 12 r (omega arith) (λ r'. refl))
              (at_four true 64 r (omega arith) (λ r'. refl)))))

-- The number that comes back for a delta of deltas.
abbrev pub sign_lost : ℕ → ℕ
sign_lost dod = if dod == 64 || dod == 256 || dod == 2048 then u64_mod - dod else dod

narrowed_7 :
    (dod : ℕ) → dod < u64_mod → between_i64 63 64 dod ≡ true → narrowed 7 dod ≡ sign_lost dod
unfolding sign_extend
narrowed_7 dod h near = ground arith

narrowed_9 :
    (dod : ℕ)
    → dod < u64_mod
    → between_i64 63 64 dod ≡ false
    → between_i64 255 256 dod ≡ true
    → narrowed 9 dod ≡ sign_lost dod
unfolding sign_extend
narrowed_9 dod h far near = ground arith

narrowed_12 :
    (dod : ℕ)
    → dod < u64_mod
    → between_i64 255 256 dod ≡ false
    → between_i64 2047 2048 dod ≡ true
    → narrowed 12 dod ≡ sign_lost dod
unfolding sign_extend
narrowed_12 dod h far near = ground arith

-- A delta of deltas comes back, but for 64, 256 and 2048, which come back negative.
pub restored_lem : (dod : ℕ) → dod < u64_mod → restored dod ≡ sign_lost dod
restored_lem dod h = ground (arith, narrowed_7 dod h, narrowed_9 dod h, narrowed_12 dod h)
