-- ===== src/Ts/BitStream/Stream.antt =====
-- The bytes of senko-ts/src/gorilla.rs as a stream of bits: what is written is read back.
use senko.Prelude.{
  ℕ, zero, suc, ◌+◌, ◌-◌, ◌*◌, ◌/◌, ◌%◌, ◌^◌, ◌<◌, ◌≤◌, ◌≡◌, refl, sym, ap, ◌∙◌, List, [], ◌∷◌,
  ◌++◌, Bool, true, false, not, ltb, ◌==◌, bit_and, arith, Bool-cases, inl, inr,
}
use senko.Prelude.Bits.{shl, shr, bit_and_mask, bit_or-shl, mod-double}
use mathlib.Core.List.{append-nil, append_assoc}
use native.Mathlib.Nat.{two-pow-succ, div-div-eq-div-mul}
use senko.Ts.BitStream.{
  BitWriter, push_bit, write_bit, bit_at, write_bits, write_i64_bits, finish, from_bool,
}

-- The bit of a number at a place.
abbrev pub digit : ℕ → ℕ → Bool
digit v k = not (v / 2 ^ k % 2 == 0)

pub bit_at-digit : (v k : ℕ) → bit_at v k ≡ digit v k
bit_at-digit v k = ap (λ t. not (t == 0)) (bit_and_mask 1 (shr v k))

-- The low `n` bits of a number, the highest first.
unfoldable pub bits : ℕ → ℕ → List Bool
bits zero v = []
bits (suc n) v = digit v n ∷ bits n v

-- The bits of a list of bytes.
unfoldable pub stream : List ℕ → List Bool
unfolding bits
stream [] = []
stream (b ∷ bytes) = bits 8 b ++ stream bytes

-- What has been written.
abbrev pub written : BitWriter → List Bool
written w = stream w.buf ++ bits w.used_bits w.current

pub record IsWriter (w : BitWriter) : Type 0 where
  pub unfinished : w.used_bits < 8
  pub fits : w.current < 2 ^ w.used_bits

stream-append : (xs ys : List ℕ) → stream (xs ++ ys) ≡ stream xs ++ stream ys
unfolding stream
stream-append [] ys = refl
stream-append (x ∷ xs) ys = ap (λ l. bits 8 x ++ l) (stream-append xs ys)

digit-double : (c d k : ℕ) → d < 2 → digit (c * 2 + d) (suc k) ≡ digit c k
digit-double c d k h =
    let half : (c * 2 + d) / 2 ≡ c = omega arith in
    let twice : 2 ^ suc k ≡ 2 * 2 ^ k = omega (arith, two-pow-succ k) in
    ap (λ t. not (t % 2 == 0))
      (ap (λ p. (c * 2 + d) / p) twice
        ∙ sym (div-div-eq-div-mul (c * 2 + d) 2 (2 ^ k))
        ∙ ap (λ t. t / 2 ^ k) half)

-- A number doubled has its bits one place up.
bits-double : (n c d : ℕ) → d < 2 → bits (suc n) (c * 2 + d) ≡ bits n c ++ (not (d == 0) ∷ [])
unfolding bits
bits-double zero c d h =
    let same : (c * 2 + d) / 1 ≡ c * 2 + d = omega arith in
    let low : (c * 2 + d) / 1 % 2 ≡ d = omega arith in ap (λ t. not (t == 0) ∷ []) low
bits-double (suc n) c d h = ground (arith, digit-double c d n h, bits-double n c d h)

-- A number shifted up has its bits first, and something after them.
bits-shl : (u k c : ℕ) → (pad : List Bool) × (bits (u + k) (shl c k) ≡ bits u c ++ pad)
bits-shl u zero c =
    let none_added : u + 0 ≡ u = omega arith in
    let same : shl c 0 ≡ c = omega arith in
    ([], ap (λ n. bits n (shl c 0)) none_added ∙ ap (bits u) same ∙ sym (append-nil (bits u c)))
bits-shl u (suc k) c =
    let (pad, rest) = bits-shl u k c in
    let count : u + suc k ≡ suc (u + k) = omega arith in
    let value : shl c (suc k) ≡ shl c k * 2 + 0 = omega (arith, ap (λ t. c * t) (two-pow-succ k)) in
    (
      pad ++ (false ∷ []),
      ap (λ n. bits n (shl c (suc k))) count
          ∙ ap (bits (suc (u + k))) value
          ∙ bits-double (u + k) (shl c k) 0 (omega arith)
          ∙ ap (λ l. l ++ (false ∷ [])) rest
          ∙ append_assoc (bits u c) pad (false ∷ []),
    )

push_bit_lem : (c : ℕ) (b : Bool) → c < 128 → push_bit c b ≡ c * 2 + from_bool b
push_bit_lem c false h = omega arith
push_bit_lem c true h =
    let fits : shl c 1 % 256 ≡ shl c 1 = omega arith in rw fits (bit_or-shl 1 c 1 (omega arith))

from_bool-bit : (b : Bool) → not (from_bool b == 0) ≡ b
from_bool-bit true = refl
from_bool-bit false = refl

pub from_bool-lt : (b : Bool) → from_bool b < 2
from_bool-lt true = omega arith
from_bool-lt false = omega arith

power_le : (u : ℕ) → u < 8 → 2 ^ u ≤ 128
power_le zero h = omega arith
power_le (suc zero) h = omega arith
power_le (suc (suc zero)) h = omega arith
power_le (suc (suc (suc zero))) h = omega arith
power_le (suc (suc (suc (suc zero)))) h = omega arith
power_le (suc (suc (suc (suc (suc zero))))) h = omega arith
power_le (suc (suc (suc (suc (suc (suc zero)))))) h = omega arith
power_le (suc (suc (suc (suc (suc (suc (suc zero))))))) h = omega arith
power_le (suc (suc (suc (suc (suc (suc (suc (suc u)))))))) h = absurd (omega arith)

-- The writer after it has taken the bits, and that it has.
pub record Writes (w : BitWriter) (bs : List Bool) (w' : BitWriter) : Type 0 where
  pub still : IsWriter w'
  pub appended : written w' ≡ written w ++ bs

pushed_bits :
    (w : BitWriter) (b : Bool)
    → IsWriter w
    → bits (suc w.used_bits) (push_bit w.current b) ≡ bits w.used_bits w.current ++ (b ∷ [])
pushed_bits w b valid =
    let small : w.current < 128 =
      omega (arith, valid.fits, power_le w.used_bits valid.unfinished) in
    ap (bits (suc w.used_bits)) (push_bit_lem w.current b small)
    ∙ bits-double w.used_bits w.current (from_bool b) (from_bool-lt b)
    ∙ ap (λ t. bits w.used_bits w.current ++ (t ∷ [])) (from_bool-bit b)

-- The byte is not full, and it is.
stored_low : (w : BitWriter) (b : Bool) → IsWriter w → push_bit w.current b < 2 ^ suc w.used_bits
stored_low w b valid =
    let small : w.current < 128 =
      omega (arith, valid.fits, power_le w.used_bits valid.unfinished) in
    omega
      (arith, push_bit_lem w.current b small, from_bool-lt b, valid.fits, two-pow-succ w.used_bits)

stream_one : (b : ℕ) → stream (b ∷ []) ≡ bits 8 b
unfolding stream
stream_one b = append-nil (bits 8 b)

write_bit-full :
    (w : BitWriter) (b : Bool)
    → IsWriter w
    → suc w.used_bits ≡ 8
    → stream (w.buf ++ (push_bit w.current b ∷ [])) ++ [] ≡ written w ++ (b ∷ [])
write_bit-full w b valid full =
    append-nil (stream (w.buf ++ (push_bit w.current b ∷ [])))
    ∙ stream-append w.buf (push_bit w.current b ∷ [])
    ∙ ap (λ l. stream w.buf ++ l)
        (stream_one (push_bit w.current b)
          ∙ ap (λ n. bits n (push_bit w.current b)) (sym full)
          ∙ pushed_bits w b valid)
    ∙ sym (append_assoc (stream w.buf) (bits w.used_bits w.current) (b ∷ []))

write_bit-part :
    (w : BitWriter) (b : Bool)
    → IsWriter w
    → stream w.buf ++ bits (w.used_bits + 1) (push_bit w.current b) ≡ written w ++ (b ∷ [])
write_bit-part w b valid =
    let next : w.used_bits + 1 ≡ suc w.used_bits = omega arith in
    ap (λ n. stream w.buf ++ bits n (push_bit w.current b)) next
    ∙ ap (λ l. stream w.buf ++ l) (pushed_bits w b valid)
    ∙ sym (append_assoc (stream w.buf) (bits w.used_bits w.current) (b ∷ []))

fits_part : (w : BitWriter) (b : Bool) → IsWriter w → push_bit w.current b < 2 ^ (w.used_bits + 1)
fits_part w b valid =
    let next : w.used_bits + 1 ≡ suc w.used_bits = omega arith in rw next (stored_low w b valid)

pub Writes-write_bit : (w : BitWriter) (b : Bool) → IsWriter w → Writes w (b ∷ []) (write_bit w b)
unfolding write_bit bits
Writes-write_bit w b valid = elim (Bool-cases (w.used_bits + 1 == 8)) [
  | inl full ↦ rw full (record {
    still = record { unfinished = omega arith; fits = omega arith };
    appended = write_bit-full w b valid (ground arith);
  })
  | inr more ↦ rw more (record {
    still = record { unfinished = ground (arith, valid.unfinished); fits = fits_part w b valid };
    appended = write_bit-part w b valid;
  })
]

pub Writes-trans :
    (w w' w'' : BitWriter) (xs ys : List Bool)
    → Writes w xs w'
    → Writes w' ys w''
    → Writes w (xs ++ ys) w''
Writes-trans w w' w'' xs ys p q = record {
  still = q.still;
  appended = q.appended ∙ ap (λ l. l ++ ys) p.appended ∙ append_assoc (written w) xs ys;
}

pub Writes-write_bits :
    (w : BitWriter) (v n : ℕ) → IsWriter w → Writes w (bits n v) (write_bits w v n)
unfolding write_bits bits
Writes-write_bits w v zero valid = record { still = valid; appended = sym (append-nil (written w)) }
Writes-write_bits w v (suc n) valid =
    let first = Writes-write_bit w (bit_at v n) valid in
    let rest = Writes-write_bits (write_bit w (bit_at v n)) v n first.still in
    let both = Writes-trans w _ _ (bit_at v n ∷ []) (bits n v) first rest in
    record {
      still = both.still;
      appended = both.appended ∙ ap (λ t. written w ++ (t ∷ bits n v)) (bit_at-digit v n);
    }

pub bits-mod : (n v : ℕ) → bits n (v % 2 ^ n) ≡ bits n v
unfolding bits
bits-mod zero v = refl
bits-mod (suc n) v =
    let halves : v / 2 * 2 + v % 2 ≡ v = omega arith in
    let even : v % 2 < 2 = omega arith in
    ap (bits (suc n)) (mod-double n v)
    ∙ bits-double n (v / 2 % 2 ^ n) (v % 2) even
    ∙ ap (λ l. l ++ (not (v % 2 == 0) ∷ [])) (bits-mod n (v / 2))
    ∙ sym (bits-double n (v / 2) (v % 2) even)
    ∙ ap (bits (suc n)) halves

pub Writes-write_i64_bits :
    (w : BitWriter) (v n : ℕ) → IsWriter w → Writes w (bits n v) (write_i64_bits w v n)
unfolding write_i64_bits
Writes-write_i64_bits w v n valid = elim (Bool-cases (n == 64)) [
  | inl all_bits ↦
      let e : n ≡ 64 = ground arith in rw (all_bits, e) (Writes-write_bits w v 64 valid)
  | inr masked ↦
      let low = Writes-write_bits w (bit_and v (2 ^ n - 1)) n valid in
      rw masked (record {
        still = low.still;
        appended =
            low.appended
            ∙ ap (λ t. written w ++ bits n t) (bit_and_mask n v)
            ∙ ap (λ l. written w ++ l) (bits-mod n v);
      })
]

-- The bytes of a finished writer hold what was written, and then padding.
pub stream-finish :
    (w : BitWriter) → IsWriter w → (pad : List Bool) × (stream (finish w) ≡ written w ++ pad)
unfolding finish bits
stream-finish w valid = elim (Bool-cases (ltb 0 w.used_bits)) [
  | inl some_bits ↦
      let (pad, shifted) = bits-shl w.used_bits (8 - w.used_bits) w.current in
      let count : w.used_bits + (8 - w.used_bits) ≡ 8 = omega (arith, valid.unfinished) in
      let last = shl w.current (8 - w.used_bits) in
      (
        pad,
        rw some_bits (
            stream-append w.buf (last % 256 ∷ [])
            ∙ ap (λ l. stream w.buf ++ l)
                (stream_one (last % 256)
                  ∙ bits-mod 8 last
                  ∙ ap (λ n. bits n last) (sym count)
                  ∙ shifted)
            ∙ sym (append_assoc (stream w.buf) (bits w.used_bits w.current) pad)),
      )
  | inr no_bits ↦
      let none_used : w.used_bits ≡ 0 = ground arith in
      let nothing : bits w.used_bits w.current ≡ [] = ap (λ n. bits n w.current) none_used in
      (
        [],
        rw no_bits (
            sym (
              append-nil (written w)
              ∙ ap (λ l. stream w.buf ++ l) nothing
              ∙ append-nil (stream w.buf))),
      )
]
