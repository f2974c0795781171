-- ===== src/Benchmark/Table/Tests.antt =====
-- Numbers of one, of six and of seven digits.
use astra_exchange.Base.{◌≡◌, refl, arith}
use astra_exchange.Benchmark.Table.Defs.{insert_at, insert_commas, fmt}
use astra_exchange.Benchmark.Table.Groups.{Grouped, fmt-Grouped}

one_digit : fmt "7" ≡ "7"
unfolding fmt insert_commas insert_at
one_digit = refl

six_digits : fmt "123456" ≡ "123,456"
unfolding fmt insert_commas insert_at
six_digits = refl

seven_digits : fmt "1234567" ≡ "1,234,567"
unfolding fmt insert_commas insert_at
seven_digits = refl

fmt-Grouped_example : Grouped "1234567" (fmt "1234567")
fmt-Grouped_example = fmt-Grouped "1234567" (omega arith)
