-- ===== src/Ts/BitStream/Reading.antt =====
-- Reading the bits of senko-ts/src/gorilla.rs back.
use senko.Prelude.{
  ℕ, zero, suc, ◌+◌, ◌-◌, ◌*◌, ◌/◌, ◌%◌, ◌^◌, ◌<◌, ◌≤◌, ◌≡◌, refl, sym, ap, ◌∙◌, List, [], ◌∷◌,
  ◌++◌, Bool, true, false, Option, none, some, ltb, ◌==◌, if◌then◌else◌, length, get_elem?, drop,
  bit_or, arith, u64_mod, Bool-cases, Option-cases, inl, inr, lt_of_get_elem?, lt→ltb,
}
use senko.Prelude.Bits.{shl, bit_or-shl, two-pow-pos}
use native.Mathlib.Nat.{
  div-add-mod', mod-lt, two-pow-succ, add-mul-mod_self_right, mod-eq_of_lt, add-mul, mul-add,
  mul_assoc, mul_comm, mul-le-mul_left, pow-le-pow_right, mul-le-mul_right,
}
use senko.Ts.BitStream.{
  BitReader, Read, bit_of, read_bit, from_bool, and_then, read_from, read_bits, read_i64_bits,
  sign_extend,
}
use senko.Ts.BitStream.Stream.{digit, bit_at-digit, bits, stream, from_bool-lt}

-- The bits that the reader has still to read.
abbrev pub Ahead : BitReader → List Bool → Type 0
Ahead r bs = drop r.bit_pos (stream r.buf) ≡ bs

-- A read gives the value, and leaves these bits to read.
abbrev pub Reads : {A : Type 0} → Read A → A → List Bool → Type 0
Reads m a rest = (r : BitReader) × (m ≡ some (a, r)) × Ahead r rest

pub Reads-and_then :
    {A B : Type 0} (m : Read A) (f : A → BitReader → Read B) (a : A) (b : B) (xs ys : List Bool)
    → Reads m a xs
    → ((r : BitReader) → Ahead r xs → Reads (f a r) b ys)
    → Reads (and_then m f) b ys
Reads-and_then m f a b xs ys (r, e, ahead) k =
    let (r', e', ahead') = k r ahead in (r', ap (λ m. and_then m f) e ∙ e', ahead')

get_elem?-bits :
    (n v i : ℕ) → get_elem? (bits n v) i ≡ (if ltb i n then some (digit v (n - 1 - i)) else none)
unfolding bits
get_elem?-bits zero v i = ground arith
get_elem?-bits (suc n) v zero = ground arith
get_elem?-bits (suc n) v (suc i) =
    let place : n - 1 - i ≡ suc n - 1 - suc i = omega arith in ground (arith, get_elem?-bits n v i)

abbrev bit_in : Option ℕ → ℕ → Option Bool
bit_in none k = none
bit_in (some byte) k = some (digit byte (7 - k))

get_elem?-stream :
    (bytes : List ℕ) (i : ℕ) → get_elem? (stream bytes) i ≡ bit_in (get_elem? bytes (i / 8)) (i % 8)
unfolding stream
get_elem?-stream [] i = ground arith
get_elem?-stream (b ∷ bytes) zero = refl
get_elem?-stream (b ∷ bytes) (suc zero) = refl
get_elem?-stream (b ∷ bytes) (suc (suc zero)) = refl
get_elem?-stream (b ∷ bytes) (suc (suc (suc zero))) = refl
get_elem?-stream (b ∷ bytes) (suc (suc (suc (suc zero)))) = refl
get_elem?-stream (b ∷ bytes) (suc (suc (suc (suc (suc zero))))) = refl
get_elem?-stream (b ∷ bytes) (suc (suc (suc (suc (suc (suc zero)))))) = refl
get_elem?-stream (b ∷ bytes) (suc (suc (suc (suc (suc (suc (suc zero))))))) = refl
get_elem?-stream (b ∷ bytes) (suc (suc (suc (suc (suc (suc (suc (suc i)))))))) =
    let byte : (suc (suc (suc (suc (suc (suc (suc (suc i)))))))) / 8 ≡ suc (i / 8) = omega arith in
    let place : (suc (suc (suc (suc (suc (suc (suc (suc i)))))))) % 8 ≡ i % 8 = omega arith in
    get_elem?-stream bytes i
    ∙ ap (bit_in (get_elem? bytes (i / 8))) (sym place)
    ∙ ap
        (λ n.
          bit_in (get_elem? (b ∷ bytes) n) ((suc (suc (suc (suc (suc (suc (suc (suc i)))))))) % 8))
        (sym byte)

drop-cons :
    (xs : List Bool) (i : ℕ) (b : Bool) (bs : List Bool)
    → drop i xs ≡ b ∷ bs
    → (get_elem? xs i ≡ some b) × (drop (suc i) xs ≡ bs)
drop-cons [] zero b bs h = ground arith
drop-cons [] (suc i) b bs h = ground arith
drop-cons (x ∷ xs) zero b bs h = (ground arith, ground arith)
drop-cons (x ∷ xs) (suc i) b bs h = drop-cons xs i b bs h

some-bit_in :
    (o : Option ℕ) (r : BitReader) (b : Bool)
    → bit_in o (r.bit_pos % 8) ≡ some b
    → bit_of o r ≡ some (b, record r { bit_pos = r.bit_pos + 1 })
some-bit_in none r b h = ground arith
some-bit_in (some byte) r b h = ground (arith, bit_at-digit byte (7 - r.bit_pos % 8))

in_range :
    (buf : List ℕ) (i : ℕ) (b : Bool)
    → bit_in (get_elem? buf (i / 8)) (i % 8) ≡ some b
    → i < length buf * 8
in_range buf i b h = elim (Option-cases (get_elem? buf (i / 8))) [
  | inl missing ↦
      let nothing : bit_in (get_elem? buf (i / 8)) (i % 8) ≡ none =
        ap (λ o. bit_in o (i % 8)) missing in
      ground (arith, nothing)
  | inr found ↦ omega (arith, lt_of_get_elem? buf (i / 8) found.0 found.1)
]

pub Reads-read_bit :
    (r : BitReader) (b : Bool) (bs : List Bool) → Ahead r (b ∷ bs) → Reads (read_bit r) b bs
unfolding read_bit
Reads-read_bit r b bs ahead =
    let (here, rest) = drop-cons (stream r.buf) r.bit_pos b bs ahead in
    let next : r.bit_pos + 1 ≡ suc r.bit_pos = omega arith in
    let found = sym (get_elem?-stream r.buf r.bit_pos) ∙ here in
    let inside = lt→ltb r.bit_pos (length r.buf * 8) (in_range r.buf r.bit_pos b found) in
    (
      record r { bit_pos = r.bit_pos + 1 },
      rw inside (some-bit_in (get_elem? r.buf (r.bit_pos / 8)) r b found),
      rw next rest,
    )

top_bit : (b : Bool) (v n : ℕ) → b ≡ digit v n → from_bool b ≡ v / 2 ^ n % 2
top_bit true v n e = ground arith
top_bit false v n e = ground arith

top_fits : (b p r : ℕ) → b < 2 → r < p → b * p + r < p + p
top_fits zero p r h k = omega arith
top_fits (suc zero) p r h k = omega arith
top_fits (suc (suc b)) p r h k = absurd (omega arith)

regroup : (h b p r : ℕ) → (h * 2 + b) * p + r ≡ b * p + r + h * (p + p)
regroup h b p r = omega (arith, add-mul (h * 2) b p, mul-add h p p, mul_assoc h 2 p, mul_comm 2 p)

-- The highest of `suc n` bits, and the ones below it.
mod-top : (v n : ℕ) → v % 2 ^ suc n ≡ v / 2 ^ n % 2 * 2 ^ n + v % 2 ^ n
mod-top v n =
    let p = 2 ^ n in
    let q = v / p in
    let power = two-pow-succ n in
    let low = mod-lt v (two-pow-pos n) in
    let small : q % 2 * p + v % p < 2 ^ suc n =
      rw power (top_fits (q % 2) p (v % p) (omega arith) low) in
    let halves : q / 2 * 2 + q % 2 ≡ q = omega arith in
    let whole : v ≡ (q % 2 * p + v % p) + q / 2 * 2 ^ suc n =
      sym (div-add-mod' v p)
      ∙ ap (λ t. t * p + v % p) (sym halves)
      ∙ regroup (q / 2) (q % 2) p (v % p)
      ∙ ap (λ t. q % 2 * p + v % p + q / 2 * t) (sym power) in
    ap (λ t. t % 2 ^ suc n) whole
    ∙ add-mul-mod_self_right (q % 2 * p + v % p) (q / 2) (2 ^ suc n)
    ∙ mod-eq_of_lt small

abbrev skip : BitReader → ℕ → BitReader
skip r n = record r { bit_pos = r.bit_pos + n }

accumulate :
    (acc : ℕ) (b : Bool)
    → acc * 2 < u64_mod
    → bit_or (shl acc 1 % u64_mod) (from_bool b) ≡ acc * 2 + from_bool b
accumulate acc b h =
    let fits : shl acc 1 % u64_mod ≡ shl acc 1 = mod-eq_of_lt h in
    rw fits (bit_or-shl 1 acc (from_bool b) (from_bool-lt b))

twice : (p : ℕ) → 2 * p ≡ p + p
twice p = omega arith

room_next : (acc b p m : ℕ) → b < 2 → (acc + 1) * (p + p) ≤ m → (acc * 2 + b + 1) * p ≤ m
room_next acc b p m h room =
    let above : (acc * 2 + b + 1) * p ≤ (acc + 1) * 2 * p = mul-le-mul_right p (omega (arith, h)) in
    let same : (acc + 1) * 2 * p ≡ (acc + 1) * (p + p) = omega (
      arith,
      mul_assoc (acc + 1) 2 p,
      mul-add (acc + 1) p p,
      mul_comm 2 p,
      mul-add (acc + 1) p p,
      ap (λ t. (acc + 1) * t) (twice p),
    ) in
    omega (arith, above, same, room)

double_small : (acc p m : ℕ) → 0 < p → (acc + 1) * (p + p) ≤ m → acc * 2 < m
double_small acc p m pos_p room =
    let below : (acc + 1) * 2 ≤ (acc + 1) * (p + p) =
      mul-le-mul_left (acc + 1) (omega (arith, pos_p)) in
    omega (arith, below, room)

next_value : (acc b p r : ℕ) → (acc * 2 + b) * p + r ≡ acc * (p + p) + (b * p + r)
next_value acc b p r = omega (arith, regroup acc b p r)

Reads-read_from :
    (n acc v : ℕ) (r : BitReader) (rest : List Bool)
    → (acc + 1) * 2 ^ n ≤ u64_mod
    → Ahead r (bits n v ++ rest)
    → Reads (read_from n acc r) (acc * 2 ^ n + v % 2 ^ n) rest
unfolding read_from bits
Reads-read_from zero acc v r rest room ahead = (
  r,
  ap (λ t. some (t, r)) (let plain : acc ≡ acc * 2 ^ 0 + v % 2 ^ 0 = omega arith in plain),
  ahead,
)
Reads-read_from (suc n) acc v r rest room ahead =
    Reads-and_then (read_bit r) _ (digit v n) _ (bits n v ++ rest) rest
      (Reads-read_bit r (digit v n) (bits n v ++ rest) ahead)
      λ r' ahead'.
        let b = from_bool (digit v n) in
        let power = two-pow-succ n in
        let wide : (acc + 1) * (2 ^ n + 2 ^ n) ≤ u64_mod = rw (sym power) room in
        let small = double_small acc (2 ^ n) u64_mod (two-pow-pos n) wide in
        let (last, e, end) =
          Reads-read_from n (acc * 2 + b) v r' rest
            (room_next acc b (2 ^ n) u64_mod (from_bool-lt (digit v n)) wide) ahead' in
        let value : (acc * 2 + b) * 2 ^ n + v % 2 ^ n ≡ acc * 2 ^ suc n + v % 2 ^ suc n =
          ap (λ t. (acc * 2 + t) * 2 ^ n + v % 2 ^ n) (top_bit (digit v n) v n refl)
          ∙ next_value acc (v / 2 ^ n % 2) (2 ^ n) (v % 2 ^ n)
          ∙ ap (λ t. acc * (2 ^ n + 2 ^ n) + t) (sym (mod-top v n))
          ∙ ap (λ t. acc * t + v % 2 ^ suc n) (sym power) in
        (
          last,
          ap (λ t. read_from n t r') (accumulate acc (digit v n) small)
              ∙ e
              ∙ ap (λ t. some (t, last)) value,
          end,
        )

-- Up to 64 bits are read as the number that was written, without its higher bits.
pub Reads-read_bits :
    (n v : ℕ) (r : BitReader) (rest : List Bool)
    → n ≤ 64
    → Ahead r (bits n v ++ rest)
    → Reads (read_bits n r) (v % 2 ^ n) rest
unfolding read_bits
Reads-read_bits n v r rest fits ahead =
    let bound : 2 ^ n ≤ 2 ^ 64 = pow-le-pow_right (omega arith) fits in
    let room : (0 + 1) * 2 ^ n ≤ u64_mod = omega (arith, bound) in
    let (r', e, end) = Reads-read_from n 0 v r rest room ahead in
    let value : 0 * 2 ^ n + v % 2 ^ n ≡ v % 2 ^ n = omega arith in
    (r', e ∙ ap (λ t. some (t, r')) value, end)

-- The number of 64 bits that is read where the low `n` bits of `v` were written.
abbrev pub narrowed : ℕ → ℕ → ℕ
narrowed n v = if n == 64 then v % u64_mod else sign_extend (v % 2 ^ n) n

pub Reads-read_i64_bits :
    (n v : ℕ) (r : BitReader) (rest : List Bool)
    → n ≤ 64
    → Ahead r (bits n v ++ rest)
    → Reads (read_i64_bits n r) (narrowed n v) rest
unfolding read_i64_bits
Reads-read_i64_bits n v r rest fits ahead = elim (Bool-cases (n == 64)) [
  | inl whole ↦
      let e : n ≡ 64 = ground arith in
      rw whole (Reads-read_bits 64 v r rest (omega arith) (ahead ∙ ap (λ t. bits t v ++ rest) e))
  | inr part ↦ rw part (
      Reads-and_then (read_bits n r) _ (v % 2 ^ n) _ rest rest
        (Reads-read_bits n v r rest fits ahead) λ r' ahead'. (r', refl, ahead'))
]

pub Reads-exact :
    (n v : ℕ) (r : BitReader) (rest : List Bool)
    → n ≤ 64
    → v < 2 ^ n
    → Ahead r (bits n v ++ rest)
    → Reads (read_bits n r) v rest
Reads-exact n v r rest fits small ahead =
    let (r', e, end) = Reads-read_bits n v r rest fits ahead in
    (r', e ∙ ap (λ t. some (t, r')) (mod-eq_of_lt small), end)
