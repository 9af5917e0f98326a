-- ===== src/Ts/Gorilla/Later.antt =====
-- The samples of a chunk of senko-ts/src/gorilla.rs after its second one come back.
use senko.Prelude.{
  ℕ, suc, ◌+◌, ◌^◌, ◌<◌, ◌≤◌, ◌≡◌, refl, sym, ap, ◌∙◌, List, [], ◌∷◌, ◌++◌, Bool, true, false, ◌||◌,
  Option, some, ◌==◌, arith, u64_mod, length,
}
use mathlib.Core.List.{append_assoc, append-nil}
use mathlib.Core.Path.{subst}
use senko.Ts.BitStream.{BitWriter, BitReader, Read}
use senko.Ts.BitStream.Stream.{IsWriter, written, Writes, Writes-trans}
use senko.Ts.BitStream.Reading.{Ahead, Reads}
use senko.Ts.Gorilla.{
  Window, Sample, CompressedChunk, sub_i64, add_i64, count_sample, encode_delta_of_delta,
  decode_delta_of_delta, decode_value_xor, compress_sample, store_value, compress_from, expect,
  cons_sample, decode_rest,
}
use senko.Ts.Gorilla.Delta.{
  delta_bits, restored, restored_lem, Writes-encode_delta_of_delta, Reads-decode_delta_of_delta,
}
use senko.Ts.Gorilla.Writing.{
  IsWindow, fits_window, value_bits, value_window, Writes-encode_value_xor,
}
use senko.Ts.Gorilla.Value.{Reads-decode_value_xor, value_window-IsWindow}

-- The samples after the second that the codec can hold, after one at `prev_ts` with the delta
-- `prev_delta` and the bits `prev`: the deltas of deltas are none of the three that lose their sign,
-- and each new window fits.
abbrev pub AreCodable : ℕ → ℕ → ℕ → Window → List Sample → Type 0
AreCodable prev_ts prev_delta prev old [] = Unit
AreCodable prev_ts prev_delta prev old ((ts, value) ∷ samples) =
    let delta = sub_i64 ts prev_ts in
    let dod = sub_i64 delta prev_delta in
    (ts < u64_mod)
    × (value < 2 ^ 64)
    × ((dod == 64 || dod == 256 || dod == 2048) ≡ false)
    × (fits_window old value prev ≡ true)
    × AreCodable ts delta value (value_window old value prev) samples

-- The bits of those samples.
abbrev pub rest_bits : ℕ → ℕ → ℕ → Window → List Sample → List Bool
rest_bits prev_ts prev_delta prev old [] = []
rest_bits prev_ts prev_delta prev old ((ts, value) ∷ samples) =
    let delta = sub_i64 ts prev_ts in
    delta_bits (sub_i64 delta prev_delta)
    ++ (value_bits old value prev ++ rest_bits ts delta value (value_window old value prev) samples)

pub add_sub_i64 : (a b : ℕ) → a < u64_mod → b < u64_mod → add_i64 b (sub_i64 a b) ≡ a
add_sub_i64 a b p q = omega arith

pub Reads-expect :
    {A B : Type 0} (m : Read A) (f : A → BitReader → Option B) (a : A) (b : Option B)
    (xs : List Bool)
    → Reads m a xs
    → ((r : BitReader) → Ahead r xs → f a r ≡ b)
    → expect m f ≡ b
Reads-expect m f a b xs (r, e, ahead) k = ap (λ m. expect m f) e ∙ k r ahead

pub sub_i64-lt : (a b : ℕ) → sub_i64 a b < u64_mod
sub_i64-lt a b = omega arith

Reads-delta :
    (r : BitReader) (dod : ℕ) (rest : List Bool)
    → dod < u64_mod
    → (dod == 64 || dod == 256 || dod == 2048) ≡ false
    → Ahead r (delta_bits dod ++ rest)
    → Reads (decode_delta_of_delta r) dod rest
Reads-delta r dod rest small kept ahead =
    let (r', e, end) = Reads-decode_delta_of_delta dod rest r ahead in
    let same : restored dod ≡ dod = restored_lem dod small ∙ rw kept refl in
    (r', e ∙ ap (λ d. some (d, r')) same, end)

pub decode_rest_lem :
    (samples : List Sample) (r : BitReader) (prev_ts prev_delta prev : ℕ) (old : Window)
    (pad : List Bool)
    → prev_ts < u64_mod
    → prev_delta < u64_mod
    → prev < 2 ^ 64
    → IsWindow old
    → AreCodable prev_ts prev_delta prev old samples
    → Ahead r (rest_bits prev_ts prev_delta prev old samples ++ pad)
    → decode_rest (length samples) r prev_ts prev_delta prev old ≡ some samples
unfolding decode_rest
decode_rest_lem [] r prev_ts prev_delta prev old pad p q s valid codable ahead = refl
decode_rest_lem ((ts, value) ∷ samples) r prev_ts prev_delta prev old pad p q s valid
      (ts_fits, value_fits, kept, fits, codable) ahead =
    let delta = sub_i64 ts prev_ts in
    let dod = sub_i64 delta prev_delta in
    let window' = value_window old value prev in
    let later = rest_bits ts delta value window' samples in
    let delta_back = add_sub_i64 delta prev_delta (sub_i64-lt ts prev_ts) q in
    Reads-expect (decode_delta_of_delta r) _ dod _ ((value_bits old value prev ++ later) ++ pad)
      (Reads-delta r dod ((value_bits old value prev ++ later) ++ pad) (sub_i64-lt delta prev_delta)
        kept (ahead ∙ append_assoc (delta_bits dod) (value_bits old value prev ++ later) pad))
      λ r1 a1.
        Reads-expect (decode_value_xor r1 prev old) _ (value, window') _ (later ++ pad)
          (Reads-decode_value_xor r1 value prev old (later ++ pad) value_fits s valid fits
            (a1 ∙ append_assoc (value_bits old value prev) later pad))
          λ r2 a2.
            ap
              (λ d.
                cons_sample (add_i64 prev_ts d, value)
                  (decode_rest (length samples) r2 (add_i64 prev_ts d) d value window'))
              delta_back
            ∙ ap
                (λ t.
                  cons_sample (t, value) (decode_rest (length samples) r2 t delta value window'))
                (add_sub_i64 ts prev_ts ts_fits p)
            ∙ ap (cons_sample (ts, value)) (
                decode_rest_lem samples r2 ts delta value window' pad ts_fits
                  (sub_i64-lt ts prev_ts) value_fits
                  (value_window-IsWindow value prev old value_fits s valid) codable a2)

compress_later :
    (c : CompressedChunk) (ts value : ℕ)
    → 2 ≤ c.sample_count
    → compress_sample c ts value
      ≡ store_value c
          (encode_delta_of_delta c.writer (sub_i64 (sub_i64 ts c.prev_ts) c.prev_delta))
          ts
          value
          (sub_i64 ts c.prev_ts)
unfolding compress_sample
compress_later c ts value two =
    let not_first : (c.sample_count == 0) ≡ false = ground arith in
    let not_second : (c.sample_count == 1) ≡ false = ground arith in rw (not_first, not_second) refl

counted : (n m : ℕ) → n + suc m ≤ 65535 → count_sample n ≡ n + 1
counted n m h = omega arith

-- A value after a delta.
pub Writes-store_value :
    (c : CompressedChunk) (w : BitWriter) (ts value delta : ℕ) (ds : List Bool)
    → Writes c.writer ds w
    → Writes c.writer
        (ds ++ value_bits c.window value c.prev_val_bits)
        (store_value c w ts value delta).writer
      × ((store_value c w ts value delta).window ≡ value_window c.window value c.prev_val_bits)
Writes-store_value c w ts value delta ds first =
    let (second, same) = Writes-encode_value_xor w value c.prev_val_bits c.window first.still in
    (Writes-trans c.writer w _ ds _ first second, same)

-- From the third sample on, each one appends its bits.
pub compress_rest :
    (samples : List Sample) (c : CompressedChunk)
    → IsWriter c.writer
    → 2 ≤ c.sample_count
    → c.sample_count + length samples ≤ 65535
    → Writes c.writer
        (rest_bits c.prev_ts c.prev_delta c.prev_val_bits c.window samples)
        (compress_from c samples).writer
      × ((compress_from c samples).sample_count ≡ c.sample_count + length samples)
unfolding compress_from
compress_rest [] c valid two few =
    (record { still = valid; appended = sym (append-nil (written c.writer)) }, omega arith)
compress_rest ((ts, value) ∷ samples) c valid two few =
    let delta = sub_i64 ts c.prev_ts in
    let dod = sub_i64 delta c.prev_delta in
    let ds = delta_bits dod in
    let vs = value_bits c.window value c.prev_val_bits in
    let w = encode_delta_of_delta c.writer dod in
    let c' = store_value c w ts value delta in
    let (first, same) =
      Writes-store_value c w ts value delta ds (Writes-encode_delta_of_delta c.writer dod valid) in
    let one_more = counted c.sample_count (length samples) few in
    let (later, total) =
      compress_rest samples c' first.still (omega (arith, one_more)) (omega (arith, one_more)) in
    let all = Writes-trans c.writer c'.writer _ (ds ++ vs) _ first later in
    let rest = rest_bits ts delta value c'.window samples in
    subst
      (λ d.
        Writes c.writer
          (rest_bits c.prev_ts c.prev_delta c.prev_val_bits c.window ((ts, value) ∷ samples))
          (compress_from d samples).writer
        × ((compress_from d samples).sample_count ≡ c.sample_count + suc (length samples)))
      (sym (compress_later c ts value two))
      (
        record {
          still = all.still;
          appended =
              all.appended
              ∙ ap (λ l. written c.writer ++ l) (append_assoc ds vs rest)
              ∙ ap (λ o. written c.writer ++ (ds ++ (vs ++ rest_bits ts delta value o samples)))
                  same;
        },
        omega (arith, total, one_more),
      )
