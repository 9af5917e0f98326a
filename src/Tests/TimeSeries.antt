-- ===== src/Tests/TimeSeries.antt =====
-- The codec of time series.
use senko.Prelude.{◌≡◌, refl, List, [], ◌∷◌, some, ◌-◌, arith, u64_mod}
use senko.Ts.BitStream.{new_writer, finish, write_bit, write_bits, sign_extend}
use senko.Ts.Gorilla.{Sample, from_samples, decompress_all, leading_zeros, trailing_zeros}
use senko.Ts.Gorilla.Roundtrip.{decompress_all-from_samples, IsSeries}

-- The values 1.0, 2.0 and 3.0, at 1000, 1010 and 1021.
abbrev series : List Sample
series =
    (1000, 4607182418800017408) ∷ (1010, 4611686018427387904) ∷ (1021, 4613937818241073152) ∷ []

series-IsSeries : IsSeries series
unfolding leading_zeros trailing_zeros
series-IsSeries = (
  omega arith,
  omega arith,
  omega arith,
  omega arith,
  refl,
  refl,
  (omega arith, omega arith, refl, refl, tt),
)

decompress_all-from_samples_example : decompress_all (from_samples series) ≡ some series
decompress_all-from_samples_example =
    decompress_all-from_samples series series-IsSeries (omega arith)

-- The padded byte of three bits.
padded : finish (write_bits new_writer 5 3) ≡ 160 ∷ []
unfolding finish write_bits write_bit
padded = refl

negative : sign_extend 127 7 ≡ u64_mod - 1
unfolding sign_extend
negative = refl
