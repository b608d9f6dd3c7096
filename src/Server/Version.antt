-- ===== src/Server/Version.antt =====
-- pkg/server/compact.go, `EncodeVersion` and `DecodeVersion`: the version of the compact revision
-- key, kept in front of its value. `%d`, `strconv.ParseInt` and `bytes.Cut` are Go's. A version is a
-- natural number here, so a text with a minus sign reads as 0.
use harikube.Common.{
  ℕ, zero, suc, ◌+◌, ◌-◌, ◌*◌, ◌/◌, ◌%◌, ◌≤◌, ◌<◌, Bytes, codes, false, Option, none, some, [], ◌∷◌,
  ◌++◌, ◌≡◌, refl, ap, ◌∙◌, arith, ltb, ◌==◌, Bool-cases, inl, inr, if◌then◌else◌,
}

-- `%d`: the digits of `n` before `rest`, on fuel; `n + 1` is enough.
unfoldable pub decimal_before : ℕ → ℕ → Bytes → Bytes
decimal_before zero n rest = rest
decimal_before (suc fuel) n rest =
    let more = decimal_before fuel (n / 10) ((48 + n % 10) ∷ rest) in
    if ltb n 10 then (48 + n) ∷ rest else more

unfoldable pub decimal : ℕ → Bytes
decimal n = decimal_before (suc n) n []

-- `EncodeVersion`
unfoldable pub encode_version : ℕ → Bytes → Bytes
encode_version version value = decimal version ++ 124 ∷ value

abbrev pub max_int64 : ℕ
max_int64 = 9223372036854775807

abbrev pub max_uint64 : ℕ
max_uint64 = 18446744073709551615

-- The loop of `strconv.ParseUint` in base 10. A digit that overflows ends it with the largest
-- value, anything but a digit ends it with 0.
unfoldable pub parse_uint_from : ℕ → Bytes → ℕ
parse_uint_from n [] = n
parse_uint_from n (c ∷ s) =
    let n' = n * 10 + (c - 48) in
    let rest = parse_uint_from n' s in
    if ltb c 48 then 0 else if ltb 57 c then 0 else if ltb max_uint64 n' then max_uint64 else rest

abbrev pub clamp_int64 : ℕ → ℕ
clamp_int64 n = if ltb max_int64 n then max_int64 else n

-- The value that `strconv.ParseInt(s, 10, 64)` returns; its error is dropped.
unfoldable pub parse_int : Bytes → ℕ
parse_int [] = 0
parse_int (c ∷ s) =
    if c == 43
    then clamp_int64 (parse_uint_from 0 s)
    else if c == 45
    then 0
    else clamp_int64 (parse_uint_from 0 (c ∷ s))

abbrev before_cut : ℕ → Option (Bytes × Bytes) → Option (Bytes × Bytes)
before_cut c none = none
before_cut c (some (s, rest)) = some (c ∷ s, rest)

-- `bytes.Cut` at one byte
unfoldable pub cut : ℕ → Bytes → Option (Bytes × Bytes)
cut sep [] = none
cut sep (c ∷ s) = let rest = before_cut c (cut sep s) in if c == sep then some ([], s) else rest

decoded : Bytes → Option (Bytes × Bytes) → ℕ × Bytes
decoded value none = (parse_int value, codes "0")
decoded value (some (version, rest)) = (parse_int version, rest)

-- `DecodeVersion`
unfoldable pub decode_version : Bytes → ℕ × Bytes
unfolding decoded
decode_version value = decoded value (cut 124 value)

parse_uint_from-digit :
    (n d : ℕ) (rest : Bytes)
    → d ≤ 9
    → n * 10 + d ≤ max_int64
    → parse_uint_from n ((48 + d) ∷ rest) ≡ parse_uint_from (n * 10 + d) rest
unfolding parse_uint_from
parse_uint_from-digit n d rest p q =
    let value : n * 10 + (48 + d - 48) ≡ n * 10 + d = omega arith in ground (arith, value)

cut-digit :
    (d : ℕ) (s rest value : Bytes)
    → d ≤ 9
    → cut 124 s ≡ some (rest, value)
    → cut 124 ((48 + d) ∷ s) ≡ some ((48 + d) ∷ rest, value)
unfolding cut
cut-digit d s rest value p q = let other : ((48 + d) == 124) ≡ false = ground arith in rw (other, q)

parse-decimal :
    (fuel n : ℕ) (rest : Bytes)
    → n < fuel
    → n ≤ max_int64
    → parse_uint_from 0 (decimal_before fuel n rest) ≡ parse_uint_from n rest
unfolding decimal_before
parse-decimal zero n rest p q = absurd (omega arith)
parse-decimal (suc fuel) n rest p q = elim (Bool-cases (ltb n 10)) [
  | inl small ↦ rw small (
      parse_uint_from-digit 0 n rest (ground arith) (omega arith)
      ∙ ap (λ x. parse_uint_from x rest) (omega arith))
  | inr large ↦ rw large (
      parse-decimal fuel (n / 10) ((48 + n % 10) ∷ rest) (ground arith) (omega arith)
      ∙ parse_uint_from-digit (n / 10) (n % 10) rest (omega arith) (omega arith)
      ∙ ap (λ x. parse_uint_from x rest) (omega arith))
]

cut-decimal :
    (fuel n : ℕ) (rest value : Bytes)
    → cut 124 (rest ++ 124 ∷ value) ≡ some (rest, value)
    → cut 124 (decimal_before fuel n rest ++ 124 ∷ value) ≡ some (decimal_before fuel n rest, value)
unfolding decimal_before
cut-decimal zero n rest value p = p
cut-decimal (suc fuel) n rest value p = elim (Bool-cases (ltb n 10)) [
  | inl small ↦ rw small (cut-digit n _ rest value (ground arith) p)
  | inr large ↦ rw large (
      cut-decimal fuel (n / 10) ((48 + n % 10) ∷ rest) value
        (cut-digit (n % 10) _ rest value (omega arith) p))
]

parse_int-digit :
    (d : ℕ) (s : Bytes)
    → d ≤ 9
    → parse_int ((48 + d) ∷ s) ≡ clamp_int64 (parse_uint_from 0 ((48 + d) ∷ s))
unfolding parse_int
parse_int-digit d s p =
    let no_plus : ((48 + d) == 43) ≡ false = ground arith in
    let no_minus : ((48 + d) == 45) ≡ false = ground arith in rw (no_plus, no_minus)

-- A printed number starts with a digit.
parse_int-decimal :
    (fuel n : ℕ) (rest : Bytes)
    → n < fuel
    → parse_int (decimal_before fuel n rest)
      ≡ clamp_int64 (parse_uint_from 0 (decimal_before fuel n rest))
unfolding decimal_before
parse_int-decimal zero n rest p = absurd (omega arith)
parse_int-decimal (suc fuel) n rest p = elim (Bool-cases (ltb n 10)) [
  | inl small ↦ rw small (parse_int-digit n rest (ground arith))
  | inr large ↦ rw large (parse_int-decimal fuel (n / 10) ((48 + n % 10) ∷ rest) (ground arith))
]

-- `DecodeVersion` returns the version and the value that `EncodeVersion` was given, for every
-- version that fits an int64 and every value.
pub decode_version-encode_version :
    (version : ℕ) (value : Bytes)
    → version ≤ max_int64
    → decode_version (encode_version version value) ≡ (version, value)
unfolding decode_version encode_version decimal cut parse_uint_from
decode_version-encode_version version value p =
    let found = cut-decimal (suc version) version [] value refl in
    let parsed : parse_int (decimal_before (suc version) version []) ≡ clamp_int64 version =
      parse_int-decimal (suc version) version [] (omega arith)
      ∙ ap clamp_int64 (parse-decimal (suc version) version [] (omega arith) p) in
    rw (found, parsed) (ground arith)
