-- ===== src/Ts/Gorilla/Roundtrip.antt =====
-- A chunk of senko-ts/src/gorilla.rs gives back the samples that were put into it.
use senko.Prelude.{
  ℕ, suc, ◌+◌, ◌-◌, ◌^◌, ◌<◌, ◌≤◌, ◌≡◌, refl, sym, ap, ◌∙◌, List, [], ◌∷◌, ◌++◌, Bool, true, false,
  Option, some, ◌==◌, if◌then◌else◌, arith, u64_mod, length,
}
use mathlib.Core.List.{append_assoc, append-nil}
use native.Mathlib.Nat.{mod-eq_of_lt}
use senko.Ts.BitStream.{
  BitWriter, BitReader, new_writer, new_reader, write_i64_bits, write_bits, read_bits,
  read_i64_bits, finish, sign_extend,
}
use senko.Ts.BitStream.Stream.{
  bits, IsWriter, written, Writes, Writes-trans, Writes-write_bits, Writes-write_i64_bits,
  stream-finish, stream,
}
use senko.Ts.BitStream.Reading.{Ahead, Reads-exact, Reads-read_i64_bits, narrowed}
use senko.Ts.Gorilla.{
  Window, no_window, Sample, CompressedChunk, new_chunk, sub_i64, add_i64, decode_value_xor,
  compress_sample, store_value, compress_from, from_samples, expect, cons_sample, decode_rest,
  decode_second, decompress_all, between_i64,
}
use senko.Ts.Gorilla.Writing.{fits_window, value_bits, value_window}
use senko.Ts.Gorilla.Value.{Reads-decode_value_xor, value_window-IsWindow}
use senko.Ts.Gorilla.Later.{
  AreCodable, rest_bits, add_sub_i64, Reads-expect, sub_i64-lt, decode_rest_lem, Writes-store_value,
  compress_rest,
}

abbrev none_yet : Window
none_yet = record { leading = no_window; trailing = 0 }

-- The series that the codec can hold: stamps and values of 64 bits, a first delta of 14 bits, and
-- later samples as above.
abbrev pub IsSeries : List Sample → Type 0
IsSeries [] = Unit
IsSeries ((ts, value) ∷ []) = (ts < u64_mod) × (value < 2 ^ 64)
IsSeries ((ts, value) ∷ (ts', value') ∷ samples) =
    (ts < u64_mod)
    × (value < 2 ^ 64)
    × (ts' < u64_mod)
    × (value' < 2 ^ 64)
    × (between_i64 8192 8191 (sub_i64 ts' ts) ≡ true)
    × (fits_window none_yet value' value ≡ true)
    × AreCodable ts' (sub_i64 ts' ts) value' (value_window none_yet value' value) samples

narrowed_14 :
    (delta : ℕ) → delta < u64_mod → between_i64 8192 8191 delta ≡ true → narrowed 14 delta ≡ delta
unfolding sign_extend
narrowed_14 delta h near = ground arith

pub new_writer-IsWriter : IsWriter new_writer
new_writer-IsWriter = record { unfinished = omega arith; fits = omega arith }

-- The first sample, as it is written.
first_bits :
    (ts value : ℕ)
    → Writes new_writer
        (bits 64 ts ++ bits 64 value)
        (write_bits (write_i64_bits new_writer ts 64) value 64)
first_bits ts value =
    let first = Writes-write_i64_bits new_writer ts 64 new_writer-IsWriter in
    Writes-trans new_writer _ _ (bits 64 ts) (bits 64 value) first
      (Writes-write_bits (write_i64_bits new_writer ts 64) value 64 first.still)

-- A finished writer's bytes, read from the start.
pub read_start :
    (w : BitWriter) (bs : List Bool)
    → Writes new_writer bs w
    → (pad : List Bool) × Ahead (new_reader (finish w)) (bs ++ pad)
unfolding stream bits
read_start w bs done =
    let (pad, whole) = stream-finish w done.still in (pad, whole ∙ ap (λ l. l ++ pad) done.appended)

-- The first sample, read back.
decode_first :
    (w : BitWriter) (ts value : ℕ) (more : List Bool) (k : ℕ → ℕ → BitReader → Option (List Sample))
    (samples : List Sample)
    → ts < u64_mod
    → value < 2 ^ 64
    → Writes new_writer ((bits 64 ts ++ bits 64 value) ++ more) w
    → ((r : BitReader) (pad : List Bool) → Ahead r (more ++ pad) → k ts value r ≡ some samples)
    → (expect (read_i64_bits 64 (new_reader (finish w))) λ first r1.
        expect (read_bits 64 r1) λ val_bits r2. cons_sample (first, val_bits) (k first val_bits r2))
      ≡ some ((ts, value) ∷ samples)
decode_first w ts value more k samples p q done rest =
    let (pad, ahead) = read_start w ((bits 64 ts ++ bits 64 value) ++ more) done in
    let same : narrowed 64 ts ≡ ts = mod-eq_of_lt p in
    let (r1, e1, a1) =
      Reads-read_i64_bits 64 ts (new_reader (finish w)) (bits 64 value ++ (more ++ pad))
        (omega arith)
        (ahead
          ∙ append_assoc (bits 64 ts ++ bits 64 value) more pad
          ∙ append_assoc (bits 64 ts) (bits 64 value) (more ++ pad)) in
    Reads-expect (read_i64_bits 64 (new_reader (finish w))) _ ts _ (bits 64 value ++ (more ++ pad))
      (r1, e1 ∙ ap (λ t. some (t, r1)) same, a1)
      λ r2 a2.
        Reads-expect (read_bits 64 r2) _ value _ (more ++ pad)
          (Reads-exact 64 value r2 (more ++ pad) (omega arith) q a2)
          λ r3 a3. ap (cons_sample (ts, value)) (rest r3 pad a3)

-- The decoder of a chunk of `count` samples, with its tests.
abbrev decompress_tests : Bool → Bool → ℕ → CompressedChunk → Option (List Sample)
decompress_tests is_empty is_single count c =
    if is_empty
    then some []
    else expect (read_i64_bits 64 (new_reader (finish c.writer))) λ ts r1.
      expect (read_bits 64 r1) λ val_bits r2.
        cons_sample (ts, val_bits)
          (if is_single then some [] else decode_second count r2 ts val_bits)

decompress_all-many :
    (c : CompressedChunk) (n : ℕ)
    → c.sample_count ≡ suc (suc n)
    → decompress_all c ≡ decompress_tests false false (suc (suc n)) c
unfolding decompress_all
decompress_all-many c n e =
    let filled : (suc (suc n) == 0) ≡ false = ground arith in
    let several : (suc (suc n) == 1) ≡ false = ground arith in
    ap (λ count. decompress_tests (count == 0) (count == 1) count c) e
    ∙ ap (λ b. decompress_tests b (suc (suc n) == 1) (suc (suc n)) c) filled
    ∙ ap (λ b. decompress_tests false b (suc (suc n)) c) several

-- The second sample and the later ones, read back.
decode_second_lem :
    (ts value ts' value' : ℕ) (samples : List Sample) (r : BitReader) (pad : List Bool)
    → IsSeries ((ts, value) ∷ (ts', value') ∷ samples)
    → Ahead r (
        ((bits 14 (sub_i64 ts' ts) ++ value_bits none_yet value' value)
          ++ rest_bits ts' (sub_i64 ts' ts) value' (value_window none_yet value' value) samples)
        ++ pad)
    → decode_second (suc (suc (length samples))) r ts value ≡ some ((ts', value') ∷ samples)
decode_second_lem ts value ts' value' samples r pad (p, q, p', q', near, fits, codable) ahead =
    let delta = sub_i64 ts' ts in
    let window' = value_window none_yet value' value in
    let vs = value_bits none_yet value' value in
    let later = rest_bits ts' delta value' window' samples in
    let ts_back = add_sub_i64 ts' ts p' p in
    let (r1, e1, a1) = Reads-read_i64_bits 14 delta r (vs ++ (later ++ pad)) (omega arith) (
      ahead
      ∙ append_assoc (bits 14 delta ++ vs) later pad
      ∙ append_assoc (bits 14 delta) vs (later ++ pad)) in
    let same = narrowed_14 delta (sub_i64-lt ts' ts) near in
    let count : suc (suc (length samples)) - 2 ≡ length samples = omega arith in
    Reads-expect (read_i64_bits 14 r) _ delta _ (vs ++ (later ++ pad))
      (r1, e1 ∙ ap (λ t. some (t, r1)) same, a1)
      λ r2 a2.
        Reads-expect (decode_value_xor r2 value none_yet) _ (value', window') _ (later ++ pad)
          (Reads-decode_value_xor r2 value' value none_yet (later ++ pad) q' q refl fits a2)
          λ r3 a3.
            ap
              (λ n.
                cons_sample (add_i64 ts delta, value')
                  (decode_rest n r3 (add_i64 ts delta) delta value' window'))
              count
            ∙ ap
                (λ t.
                  cons_sample (t, value') (decode_rest (length samples) r3 t delta value' window'))
                ts_back
            ∙ ap (cons_sample (ts', value')) (
                decode_rest_lem samples r3 ts' delta value' window' pad p' (sub_i64-lt ts' ts) q'
                  (value_window-IsWindow value' value none_yet q' q refl) codable a3)

-- A series that the codec can hold, of at most 65535 samples, comes back from the chunk that holds
-- it, sample by sample and bit by bit, and no read panics.
pub decompress_all-from_samples :
    (samples : List Sample)
    → IsSeries samples
    → length samples ≤ 65535
    → decompress_all (from_samples samples) ≡ some samples
unfolding decompress_all from_samples compress_from compress_sample decode_rest
decompress_all-from_samples [] series few = refl
decompress_all-from_samples ((ts, value) ∷ []) (p, q) few =
    let done = first_bits ts value in
    let w = write_bits (write_i64_bits new_writer ts 64) value 64 in
    let same : Writes new_writer ((bits 64 ts ++ bits 64 value) ++ []) w = record {
      still = done.still;
      appended =
          done.appended
          ∙ ap (λ l. written new_writer ++ l) (sym (append-nil (bits 64 ts ++ bits 64 value)));
    } in
    decode_first w ts value [] (λ t v r. some []) [] p q same (λ r pad a. refl)
decompress_all-from_samples ((ts, value) ∷ (ts', value') ∷ samples)
      (p, q, p', q', near, fits, codable) few =
    let c1 = compress_sample new_chunk ts value in
    let delta = sub_i64 ts' ts in
    let vs = value_bits none_yet value' value in
    let head = write_i64_bits c1.writer delta 14 in
    let c2 = store_value c1 head ts' value' delta in
    let start = first_bits ts value in
    let second = Writes-write_i64_bits c1.writer delta 14 start.still in
    let (both, same) = Writes-store_value c1 head ts' value' delta (bits 14 delta) second in
    let (rest, total) = compress_rest samples c2 both.still (omega arith) (omega (arith, few)) in
    let final = compress_from c2 samples in
    let later = rest_bits ts' delta value' (value_window none_yet value' value) samples in
    let more = (bits 14 delta ++ vs) ++ later in
    let rest' : Writes c2.writer later final.writer = record {
      still = rest.still;
      appended =
          rest.appended ∙ ap (λ o. written c2.writer ++ rest_bits ts' delta value' o samples) same;
    } in
    let tail =
      Writes-trans c1.writer c2.writer final.writer (bits 14 delta ++ vs) later both rest' in
    let all =
      Writes-trans new_writer c1.writer final.writer (bits 64 ts ++ bits 64 value) more start
        tail in
    let two_more : 2 + length samples ≡ suc (suc (length samples)) = omega arith in
    decompress_all-many final (length samples) (total ∙ two_more)
    ∙ decode_first final.writer ts value more
        (λ t v r. decode_second (suc (suc (length samples))) r t v) ((ts', value') ∷ samples) p q
        all
        (λ r pad a.
          decode_second_lem ts value ts' value' samples r pad (p, q, p', q', near, fits, codable) a)
