-- ===== src/Nats/Codec/RoundTrip.antt =====
-- `Decode` takes back what `Encode` makes of a key.
use harikube.Common.{
  Bytes, bytes_eq, has_prefix, split, join, has_byte, Without, split-Without, split-some,
  join-split, split-join, true, false, ◌&&◌, some, List, [], ◌∷◌, map, ◌≡◌, refl, ap, sym, ◌∙◌,
  arith, ◌==◌, Bool-cases, inl, inr, subst,
}
use harikube.Nats.Codec.{
  Base58, Base58Laws, no_root_prefix, slash, dot, trim_prefix, or_slash, un_slash, joined_parts,
  cons_part, decoded_part, with_root, encode_parts, encode, decode_parts, decode, Distinct,
}

-- A part of a split key is not a slash.
un_slash-or_slash : (p : Bytes) → has_byte slash p ≡ false → un_slash (or_slash p) ≡ p
unfolding bytes_eq has_byte
un_slash-or_slash [] h = refl
un_slash-or_slash (c ∷ p) h = let other : (c == slash) ≡ false = ground arith in simp other refl

module _ {B : Base58} (laws : Base58Laws B) where
  encoded-Without : (l : List Bytes) → Without dot (map (λ p. B.encode (or_slash p)) l)
  encoded-Without [] = tt
  encoded-Without (p ∷ l) = (laws.no_dot (or_slash p), encoded-Without l)

  decode_parts-encode :
      (l : List Bytes)
      → Without slash l
      → Distinct (map (λ p. B.encode (or_slash p)) l)
      → decode_parts B (map (λ p. B.encode (or_slash p)) l) ≡ some l
  unfolding decode_parts decoded_part cons_part
  decode_parts-encode [] w d = refl
  decode_parts-encode (p ∷ l) w d =
      simp (d.0, laws.decode-encode, decode_parts-encode l w.1 d.1)
        (ap (λ x. some (x ∷ l)) (un_slash-or_slash p w.0))

  -- The parts of a subject that is made of the parts `p ∷ l` of a key.
  decode_parts-join :
      (p : Bytes) (l : List Bytes)
      → Without slash (p ∷ l)
      → Distinct (map (λ q. B.encode (or_slash q)) (p ∷ l))
      → decode_parts B (split dot (join dot (map (λ q. B.encode (or_slash q)) (p ∷ l))))
        ≡ some (p ∷ l)
  decode_parts-join p l w d =
      ap (decode_parts B) (split-join dot _ _ (encoded-Without (p ∷ l)))
      ∙ decode_parts-encode (p ∷ l) w d

  parts_of :
      (s enc p : Bytes) (l : List Bytes)
      → split slash s ≡ p ∷ l
      → Distinct (map (λ q. B.encode (or_slash q)) (split slash s))
      → join dot (map (λ q. B.encode (or_slash q)) (split slash s)) ≡ enc
      → decode_parts B (split dot enc) ≡ some (p ∷ l)
  parts_of s enc p l e d j =
      subst (λ x. decode_parts B (split dot x) ≡ some (p ∷ l))
        (ap (λ x. join dot (map (λ q. B.encode (or_slash q)) x)) (sym e) ∙ j)
        (decode_parts-join p l (subst (Without slash) e (split-Without slash s))
          (subst (λ x. Distinct (map (λ q. B.encode (or_slash q)) x)) e d))

  rooted :
      (s enc p : Bytes) (l : List Bytes)
      → split slash s ≡ p ∷ l
      → Distinct (map (λ q. B.encode (or_slash q)) (split slash s))
      → join dot (map (λ q. B.encode (or_slash q)) (split slash s)) ≡ enc
      → has_prefix no_root_prefix enc ≡ false
      → decode B enc ≡ some (slash ∷ s)
  unfolding decode with_root
  rooted s enc p l e d j root =
      let parts : decode_parts B (split dot enc) ≡ some (p ∷ l) = parts_of s enc p l e d j in
      simp (root, parts) (ap (λ x. some (slash ∷ x)) (ap (join slash) (sym e) ∙ join-split slash s))

  unrooted :
      (key enc p : Bytes) (l : List Bytes)
      → split slash key ≡ p ∷ l
      → Distinct (map (λ q. B.encode (or_slash q)) (split slash key))
      → join dot (no_root_prefix ∷ map (λ q. B.encode (or_slash q)) (split slash key)) ≡ enc
      → decode B enc ≡ some key
  unfolding decode with_root decode_parts join has_prefix has_byte bytes_eq
  unrooted key enc p l e d j =
      let fs = map (λ q. B.encode (or_slash q)) (p ∷ l) in
      let subject : join dot (no_root_prefix ∷ fs) ≡ enc =
        ap (λ x. join dot (no_root_prefix ∷ map (λ q. B.encode (or_slash q)) x)) (sym e) ∙ j in
      let meta : has_prefix no_root_prefix enc ≡ true =
        subst (λ x. has_prefix no_root_prefix x ≡ true) subject refl in
      let all : decode_parts B (split dot (join dot (no_root_prefix ∷ fs))) ≡ some (p ∷ l) =
        ap (decode_parts B) (split-join dot no_root_prefix fs (refl, encoded-Without (p ∷ l)))
        ∙ decode_parts-encode (p ∷ l) (subst (Without slash) e (split-Without slash key))
            (subst (λ x. Distinct (map (λ q. B.encode (or_slash q)) x)) e d) in
      let parts : decode_parts B (split dot enc) ≡ some (p ∷ l) =
        subst (λ x. decode_parts B (split dot x) ≡ some (p ∷ l)) subject all in
      simp (meta, parts) (ap some (ap (join slash) (sym e) ∙ join-split slash key))

  joined-some :
      (f : Bytes → Bytes) (key enc p : Bytes) (l : List Bytes)
      → split slash key ≡ p ∷ l
      → joined_parts (map f (split slash key)) ≡ some enc
      → join dot (map f (split slash key)) ≡ enc
  unfolding joined_parts
  joined-some f key enc p l e q = rw e (cc (rw e at q))

  -- `Decode` of what `Encode` gives for a key is the key, if no part of the key is encoded as `meta` and
  -- the subject of a key with a leading slash does not begin with it.
  pub decode-encode :
      (key enc : Bytes)
      → encode B key ≡ some enc
      → Distinct (encode_parts B key)
      → (has_prefix (slash ∷ []) key ≡ true → has_prefix no_root_prefix enc ≡ false)
      → decode B enc ≡ some key
  unfolding encode encode_parts trim_prefix has_prefix
  decode-encode [] enc q d root =
      let empty : bytes_eq [] [] ≡ true = (unfold bytes_eq in refl) in absurd (cc (simp empty at q))
  decode-encode (c ∷ s) enc q d root =
      let (p, l, e) = split-some slash s in
      let (p', l', e') = split-some slash (c ∷ s) in
      let nonempty : bytes_eq (c ∷ s) [] ≡ false = (unfold bytes_eq in refl) in
      elim (Bool-cases (bytes_eq (c ∷ s) (slash ∷ []))) [
        | inl bare ↦ absurd (cc (simp (nonempty, bare) at q))
        | inr long ↦ elim (Bool-cases (c == slash)) [
          | inl here ↦
              let same : slash ≡ c = ground arith in
              let here' : (slash == c && true) ≡ true = ground arith in
              let j =
                joined-some (λ q. B.encode (or_slash q)) s enc p l e
                  (simp (nonempty, long, here, here') at q) in
              subst (λ x. decode B enc ≡ some (x ∷ s)) same
                (rooted s enc p l e (simp here at d) j (root here'))
          | inr other ↦
              let other' : (slash == c && true) ≡ false = ground arith in
              let fs = map (λ q. B.encode (or_slash q)) (split slash (c ∷ s)) in
              let q' : some (join dot (no_root_prefix ∷ fs)) ≡ some enc =
                unfold joined_parts in (simp (nonempty, long, other, other') at q) in
              unrooted (c ∷ s) enc p' l' e' (simp other at d) (cc q')
        ]
      ]

  -- A key with a leading slash whose subject begins with `meta`, as the encoding of its first part does,
  -- is decoded without the slash, if no part of the key is encoded as `meta`.
  pub decode-encode_meta :
      (s enc : Bytes)
      → encode B (slash ∷ s) ≡ some enc
      → Distinct (encode_parts B (slash ∷ s))
      → has_prefix no_root_prefix enc ≡ true
      → decode B enc ≡ some s
  unfolding encode encode_parts trim_prefix has_prefix decode with_root
  decode-encode_meta s enc q d meta = elim (Bool-cases (bytes_eq (slash ∷ s) (slash ∷ []))) [
    | inl bare ↦ absurd (cc (simp (nonempty, bare) at q))
    | inr long ↦
        let (p, l, e) = split-some slash s in
        let j = joined-some (λ r. B.encode (or_slash r)) s enc p l e (simp (nonempty, long) at q) in
        let parts : decode_parts B (split dot enc) ≡ some (p ∷ l) = parts_of s enc p l e d j in
        simp (meta, parts) (ap some (ap (join slash) (sym e) ∙ join-split slash s))
  ]
    where
      nonempty : bytes_eq (slash ∷ s) [] ≡ false
      nonempty = unfold bytes_eq in refl
