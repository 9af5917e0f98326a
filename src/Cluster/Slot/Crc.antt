-- ===== src/Cluster/Slot/Crc.antt =====
-- The hash tag and the hash slot of a key (`hash_tag`, `crc16_ccitt`, `crc16_slot` of
-- senko-cluster/src/slot.rs).
use senko.Prelude.{
  ℕ, zero, suc, ◌+◌, ◌%◌, ◌<◌, ◌≡◌, ◌≢◌, refl, List, [], ◌∷◌, ◌++◌, Option, some, ltb, lt→ltb,
  Option-cases, Bool-cases, inl, inr, length, get_elem?, take, drop, arith, bit_and, bit_xor, false,
  take-length, u16_mod,
}
use senko.Prelude.Bits.{shl, shr, bit_and_mask, bit_xor-lt}
use senko.Prelude.Equality.{bytes_eq, nat_eq}
use senko.Prelude.Maps
use senko.Prelude.Search.{FindsFirst, position-append}
use senko.Cluster.Node.{AreBytes}
use senko.Cluster.Slot.{
  hash_tag, tag_in, crc_bit, crc_bits, build_table_from, crc16_ccitt_table, crc16_from, crc16_ccitt,
  crc16_slot, slot_mask, slot_count,
}

drop-suc-length : (xs ys : List ℕ) (c : ℕ) → drop (length xs + 1) (xs ++ (c ∷ ys)) ≡ ys
drop-suc-length [] ys c = refl
drop-suc-length (x ∷ xs) ys c =
    let next : suc (length xs) + 1 ≡ suc (length xs + 1) = omega arith in
    rw next (drop-suc-length xs ys c)

module _ (memchr : ℕ → List ℕ → Option ℕ) (first : FindsFirst memchr) where
  -- The tag of `before{tag}after` is `tag`, if it is not empty, `before` has no `{`, `tag` no `}`.
  pub hash_tag-braces :
      (before tag after : List ℕ)
      → Maps.contains before b'{' ≡ false
      → Maps.contains tag b'}' ≡ false
      → tag ≢ []
      → hash_tag memchr (before ++ (b'{' ∷ tag ++ (b'}' ∷ after))) ≡ tag
  unfolding hash_tag
  hash_tag-braces before [] after p q filled = absurd (filled refl)
  hash_tag-braces before (c ∷ tag) after p q filled =
      rw
        (
          hash_tag,
          first b'{' (before ++ (b'{' ∷ (c ∷ tag) ++ (b'}' ∷ after))),
          position-append b'{' before ((c ∷ tag) ++ (b'}' ∷ after)) p,
          tag_in,
          drop-suc-length before ((c ∷ tag) ++ (b'}' ∷ after)) b'{',
          first b'}' ((c ∷ tag) ++ (b'}' ∷ after)),
          position-append b'}' (c ∷ tag) after q,
          lt→ltb 0 (length (c ∷ tag)) (omega arith),
          drop-suc-length before ((c ∷ tag) ++ (b'}' ∷ after)) b'{',
        )
        (take-length (c ∷ tag) (b'}' ∷ after))

  -- Keys `before{tag}after` with one tag have one slot, if the tag is not empty and has no `}`,
  -- and what stands before it has no `{`.
  pub crc16_slot-same_tag :
      (before tag after before' after' : List ℕ)
      → Maps.contains before b'{' ≡ false
      → Maps.contains before' b'{' ≡ false
      → Maps.contains tag b'}' ≡ false
      → tag ≢ []
      → crc16_slot memchr (before ++ (b'{' ∷ tag ++ (b'}' ∷ after)))
        ≡ crc16_slot memchr (before' ++ (b'{' ∷ tag ++ (b'}' ∷ after')))
  unfolding crc16_slot
  crc16_slot-same_tag before tag after before' after' p p' q filled = rw (
    crc16_slot,
    hash_tag-braces before tag after p q filled,
    hash_tag-braces before' tag after' p' q filled,
  )

crc_bit-lt : (crc : ℕ) → crc_bit crc < u16_mod
unfolding crc_bit
crc_bit-lt crc =
    ground (arith, bit_xor-lt 16 (shl crc 1 % u16_mod) 0x1021 (omega arith) (omega arith))

crc_bits-lt : (n crc : ℕ) → crc < u16_mod → crc_bits n crc < u16_mod
unfolding crc_bits
crc_bits-lt zero crc h = h
crc_bits-lt (suc n) crc h = crc_bits-lt n (crc_bit crc) (crc_bit-lt crc)

table_entry :
    (n i j : ℕ) → j < n → (t : ℕ) × (get_elem? (build_table_from n i) j ≡ some t) × (t < u16_mod)
unfolding build_table_from
table_entry zero i j h = absurd (omega arith)
table_entry (suc n) i zero h =
    (crc_bits 8 (shl i 8 % u16_mod), refl, crc_bits-lt 8 (shl i 8 % u16_mod) (omega arith))
table_entry (suc n) i (suc j) h = table_entry n (suc i) j (omega arith)

-- No lookup leaves the table, and the register stays a `u16`.
crc16_from-total :
    (crc : ℕ) (input : List ℕ)
    → crc < u16_mod
    → AreBytes input
    → (r : ℕ) × (crc16_from crc input ≡ some r) × (r < u16_mod)
unfolding crc16_from crc16_ccitt_table
crc16_from-total crc [] h bytes = (crc, refl, h)
crc16_from-total crc (byte ∷ input) h bytes =
    let index_fits = bit_xor-lt 8 (shr crc 8 % 256) byte (omega arith) (omega arith) in
    let (t, found, fits) = table_entry 256 0 (bit_xor (shr crc 8 % 256) byte) index_fits in
    let next_fits = bit_xor-lt 16 (shl crc 8 % u16_mod) t (omega arith) fits in
    rw (crc16_from, found)
      (crc16_from-total (bit_xor (shl crc 8 % u16_mod) t) input next_fits bytes.1)

AreBytes-take : (n : ℕ) (xs : List ℕ) → AreBytes xs → AreBytes (take n xs)
AreBytes-take zero xs h = tt
AreBytes-take (suc n) [] h = tt
AreBytes-take (suc n) (x ∷ xs) h = (h.0, AreBytes-take n xs h.1)

AreBytes-drop : (n : ℕ) (xs : List ℕ) → AreBytes xs → AreBytes (drop n xs)
AreBytes-drop zero xs h = h
AreBytes-drop (suc n) [] h = tt
AreBytes-drop (suc n) (x ∷ xs) h = AreBytes-drop n xs h.1

module _ (memchr : ℕ → List ℕ → Option ℕ) where
  AreBytes-tag_in :
      (key rest : List ℕ) → AreBytes key → AreBytes rest → AreBytes (tag_in memchr key rest)
  unfolding tag_in
  AreBytes-tag_in key rest p q = elim (Option-cases (memchr b'}' rest)) [
    | inl missing ↦ rw (tag_in, missing) p
    | inr found ↦
        rw (tag_in, found.1)
          (elim (Bool-cases (ltb 0 found.0)) [
            | inl filled ↦ rw filled (AreBytes-take found.0 rest q)
            | inr hollow ↦ rw hollow p
          ])
  ]

  AreBytes-hash_tag : (key : List ℕ) → AreBytes key → AreBytes (hash_tag memchr key)
  unfolding hash_tag
  AreBytes-hash_tag key p = elim (Option-cases (memchr b'{' key)) [
    | inl missing ↦ rw (hash_tag, missing) p
    | inr found ↦
        rw (hash_tag, found.1)
          (AreBytes-tag_in key (drop (found.0 + 1) key) p (AreBytes-drop (found.0 + 1) key p))
  ]

  -- Every key of bytes has a slot, below the slot count.
  pub crc16_slot-lt :
      (key : List ℕ)
      → AreBytes key
      → (slot : ℕ) × (crc16_slot memchr key ≡ some slot) × (slot < slot_count)
  unfolding crc16_slot crc16_ccitt
  crc16_slot-lt key bytes =
      let (crc, found, fits) =
        crc16_from-total 0 (hash_tag memchr key) (omega arith) (AreBytes-hash_tag key bytes) in
      (bit_and crc slot_mask, rw (crc16_slot, found), omega (arith, bit_and_mask 14 crc))
