-- ===== src/Nats/Codec.antt =====
-- pkg/drivers/nats/codec.go: keys as subjects of NATS. The Base58 encoding is a parameter. The only
-- error of `Encode` is `ErrInvalidKey`, and those of `Decode` are not told apart.
pub mod RoundTrip
use harikube.Common.{
  ℕ, Bytes, codes, bytes_eq, bytes_eq_iff, has_prefix, split, join, has_byte, Without,
  split-Without, join-split, split-join, Bool, true, false, ◌||◌, Option, none, some, List, [], ◌∷◌,
  ◌++◌, map, ◌≡◌, refl, ap, sym, ◌∙◌, arith, ◌==◌, if◌then◌else◌, Bool-cases, inl, inr,
}

pub record Base58 : Type 0 where
  pub encode : Bytes → Bytes
  pub decode : Bytes → Option Bytes

-- Decoding takes back an encoding, which has no dot.
pub record Base58Laws (B : Base58) : Type 0 where
  pub decode-encode : (b : Bytes) → B.decode (B.encode b) ≡ some b
  pub no_dot : (b : Bytes) → has_byte 46 (B.encode b) ≡ false

abbrev pub no_root_prefix : Bytes
no_root_prefix = codes "meta"

abbrev pub slash : ℕ
slash = 47

abbrev pub dot : ℕ
dot = 46

-- `strings.TrimPrefix(key, "/")`
unfoldable pub trim_prefix : Bytes → Bytes
trim_prefix [] = []
trim_prefix (c ∷ s) = if c == slash then s else c ∷ s

-- `strings.TrimSuffix(prefix, "/")`
unfoldable pub trim_suffix : Bytes → Bytes
trim_suffix [] = []
trim_suffix (c ∷ []) = if c == slash then [] else c ∷ []
trim_suffix (c ∷ d ∷ s) = c ∷ trim_suffix (d ∷ s)

abbrev pub or_slash : Bytes → Bytes
or_slash [] = slash ∷ []
or_slash (c ∷ s) = c ∷ s

joined_parts : List Bytes → Option Bytes
joined_parts [] = none
joined_parts (p ∷ ps) = some (join dot (p ∷ ps))

abbrev un_slash : Bytes → Bytes
un_slash part = if bytes_eq part (slash ∷ []) then [] else part

cons_part : Bytes → Option (List Bytes) → Option (List Bytes)
cons_part p none = none
cons_part p (some ps) = some (un_slash p ∷ ps)

decoded_part : Option Bytes → Option (List Bytes) → Option (List Bytes)
unfolding cons_part
decoded_part none rest = none
decoded_part (some p) rest = cons_part p rest

with_root : Bool → Option (List Bytes) → Option Bytes
with_root root none = none
with_root root (some []) = none
with_root root (some (p ∷ ps)) =
    some (if root then slash ∷ join slash (p ∷ ps) else join slash (p ∷ ps))

module _ (B : Base58) where
  -- The loop over the parts of a key
  unfoldable pub encode_parts : Bytes → List Bytes
  encode_parts key = map (λ p. B.encode (or_slash p)) (split slash (trim_prefix key))

  -- `Encode` of `keyCodec`
  unfoldable pub encode : Bytes → Option Bytes
  unfolding encode_parts joined_parts
  encode key =
      if bytes_eq key [] || bytes_eq key (slash ∷ [])
      then none
      else joined_parts (
          if has_prefix (slash ∷ []) key
          then encode_parts key
          else no_root_prefix ∷ encode_parts key)

  -- The loop over the parts of a subject
  unfoldable pub decode_parts : List Bytes → Option (List Bytes)
  unfolding decoded_part
  decode_parts [] = some []
  decode_parts (s ∷ l) =
      let rest = decode_parts l in
      if bytes_eq s no_root_prefix then rest else decoded_part (B.decode s) rest

  -- `Decode` of `keyCodec`
  unfoldable pub decode : Bytes → Option Bytes
  unfolding decode_parts with_root
  decode key =
      with_root (if has_prefix no_root_prefix key then false else true)
        (decode_parts (split dot key))

  encoded_range : Option Bytes → Option Bytes
  encoded_range none = none
  encoded_range (some ek) = some (ek ++ codes ".>")

  -- `EncodeRange` of `keyCodec`
  unfoldable pub encode_range : Bytes → Option Bytes
  unfolding encoded_range
  encode_range prefix =
      if bytes_eq prefix (slash ∷ [])
      then some (codes ">")
      else if bytes_eq prefix no_root_prefix
      then some (codes "meta.>")
      else encoded_range (encode (trim_suffix prefix))

-- No part is encoded as the prefix of keys without a leading slash.
abbrev pub Distinct : List Bytes → Type 0
Distinct [] = Unit
Distinct (p ∷ l) = (bytes_eq p no_root_prefix ≡ false) × Distinct l
