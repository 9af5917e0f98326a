-- ===== src/Cluster/Node/Hex.antt =====
-- The hex text of a node id (`Display` and `FromStr` of senko-cluster/src/node.rs).
use senko.Prelude.{
  ℕ, suc, ◌+◌, ◌-◌, ◌*◌, ◌/◌, ◌%◌, ◌<◌, ◌≤◌, ◌≡◌, refl, List, [], ◌∷◌, Option, none, some, leb,
  ◌==◌, ==_iff, if◌then◌else◌, length, get_elem?, arith, bit_or, ◌&&◌, inl, inr, Bool-cases, true,
  map,
}
use senko.Prelude.Bits.{shl, bit_or-shl}
use senko.Cluster.Node.{
  NodeId, IsNodeId, AreBytes, Parsed, ok, err, invalid_hex, hex_digit, display, decode_nibble,
  decode_high, decode_chunks, from_str, node_id_hex_len,
}

decode-hex_digit : (n : ℕ) → n < 16 → decode_nibble (hex_digit n) ≡ some n
unfolding decode_nibble
decode-hex_digit n h = ground arith

decode_nibble-lt : (b n : ℕ) → decode_nibble b ≡ some n → n < 16
unfolding decode_nibble
decode_nibble-lt b n h = ground arith

nibbles : (h l : ℕ) → h < 16 → l < 16 → bit_or (shl h 4 % 256) l ≡ h * 16 + l
nibbles h l p q =
    let inside : shl h 4 % 256 ≡ shl h 4 = omega arith in rw inside (bit_or-shl 4 h l q)

length-display : (id : NodeId) → length (display id) ≡ 2 * length id
unfolding display
length-display [] = refl
length-display (b ∷ bs) = omega (arith, length-display bs)

decode_chunks-display :
    (index : ℕ) (id : NodeId) → AreBytes id → decode_chunks index (display id) ≡ ok id
unfolding decode_chunks display
decode_chunks-display index [] h = refl
decode_chunks-display index (b ∷ bs) h =
    let high : decode_nibble (hex_digit (b / 16)) ≡ some (b / 16) =
      decode-hex_digit (b / 16) (omega arith) in
    let low : decode_nibble (hex_digit (b % 16)) ≡ some (b % 16) =
      decode-hex_digit (b % 16) (omega arith) in
    let byte : bit_or (shl (b / 16) 4 % 256) (b % 16) ≡ b =
      omega (arith, nibbles (b / 16) (b % 16) (omega arith) (omega arith)) in
    rw (high, low, decode_chunks-display (suc index) bs h.1, byte)

-- The text of a node id of twenty bytes is read back as the id.
pub from_str-display : (id : NodeId) → IsNodeId id → from_str (display id) ≡ ok id
unfolding from_str
from_str-display id h =
    let size : (length (display id) == node_id_hex_len) ≡ true =
      (==_iff _ _).1 (omega (arith, length-display id, h.sized)) in
    rw size (decode_chunks-display 0 id h.bytes)

-- A byte of hex text in the form that `display` writes.
abbrev pub to_lower : ℕ → ℕ
to_lower b = if leb b'A' b && leb b b'F' then b + 32 else b

hex_digit-decode : (b n : ℕ) → decode_nibble b ≡ some n → hex_digit n ≡ to_lower b
unfolding decode_nibble
hex_digit-decode b n h = ground arith

-- What a successful turn of the loop has read.
chunk_inversion :
    (index first second : ℕ) (rest : Parsed) (id : NodeId)
    → decode_high index first second (decode_nibble first) rest ≡ ok id
    → (high : ℕ) × (low : ℕ) × (bytes : NodeId) × (decode_nibble first ≡ some high)
      × (decode_nibble second ≡ some low)
      × (rest ≡ ok bytes)
      × (id ≡ bit_or (shl high 4 % 256) low ∷ bytes)
chunk_inversion index first second (err e) id h = ground arith
chunk_inversion index first second (ok bytes) id h = ground arith

display-decode_chunks :
    (index : ℕ) (s : List ℕ) (id : NodeId)
    → length s % 2 ≡ 0
    → decode_chunks index s ≡ ok id
    → display id ≡ map to_lower s
unfolding decode_chunks display
display-decode_chunks index [] id even h = ground arith
display-decode_chunks index (first ∷ []) id even h = absurd (omega arith)
display-decode_chunks index (first ∷ second ∷ s) id even h =
    let (high, low, bytes, e1, e2, e3, e4) =
      chunk_inversion index first second (decode_chunks (suc index) s) id h in
    ground (
      arith,
      e4,
      nibbles high low (decode_nibble-lt first high e1) (decode_nibble-lt second low e2),
      decode_nibble-lt first high e1,
      decode_nibble-lt second low e2,
      hex_digit-decode first high e1,
      hex_digit-decode second low e2,
      display-decode_chunks (suc index) s bytes (omega arith) e3,
    )

-- Text that is accepted is the id's text, up to the case of its letters.
pub display-from_str : (s : List ℕ) (id : NodeId) → from_str s ≡ ok id → display id ≡ map to_lower s
unfolding from_str
display-from_str s id h = elim (Bool-cases (length s == node_id_hex_len)) [
  | inl size ↦
      display-decode_chunks 0 s id (omega (arith, (==_iff (length s) node_id_hex_len).0 size))
        (rw size at h)
  | inr other ↦ ground arith
]

-- The chunk at `index` is refused, or a later one: `later` is the claim about those.
bad_chunk :
    (index first second : ℕ) (s : List ℕ) (high low : Option ℕ) (rest : Parsed) (i b : ℕ)
    → decode_nibble first ≡ high
    → decode_nibble second ≡ low
    → (rest ≡ err (invalid_hex i b)
        → (suc index * 2 ≤ i)
          × (get_elem? s (i - suc index * 2) ≡ some b)
          × (decode_nibble b ≡ none))
    → decode_high index first second high rest ≡ err (invalid_hex i b)
    → (index * 2 ≤ i)
      × (get_elem? (first ∷ second ∷ s) (i - index * 2) ≡ some b)
      × (decode_nibble b ≡ none)
bad_chunk index first second s none low rest i b e1 e2 later h =
    let here : i ≡ index * 2 = ground arith in ground arith
bad_chunk index first second s (some high) none rest i b e1 e2 later h =
    let here : i ≡ index * 2 + 1 = ground arith in ground arith
bad_chunk index first second s (some high) (some low) (ok bytes) i b e1 e2 later h = ground arith
bad_chunk index first second s (some high) (some low) (err e) i b e1 e2 later h =
    let (past, found, bad) = later (ground arith) in
    let two : i - index * 2 ≡ suc (suc (i - suc index * 2)) = omega arith in
    (omega arith, rw two found, bad)

first_bad :
    (index : ℕ) (s : List ℕ) (i b : ℕ)
    → decode_chunks index s ≡ err (invalid_hex i b)
    → (index * 2 ≤ i) × (get_elem? s (i - index * 2) ≡ some b) × (decode_nibble b ≡ none)
unfolding decode_chunks
first_bad index [] i b h = ground arith
first_bad index (first ∷ []) i b h = ground arith
first_bad index (first ∷ second ∷ s) i b h =
    bad_chunk index first second s (decode_nibble first) (decode_nibble second)
      (decode_chunks (suc index) s) i b refl refl (first_bad (suc index) s i b) h

-- A refusal names a byte of the text that is no hex digit, by its place.
pub from_str-invalid_hex :
    (s : List ℕ) (i b : ℕ)
    → from_str s ≡ err (invalid_hex i b)
    → (get_elem? s i ≡ some b) × (decode_nibble b ≡ none)
unfolding from_str
from_str-invalid_hex s i b h = elim (Bool-cases (length s == node_id_hex_len)) [
  | inl size ↦
      let (_, found, bad) = first_bad 0 s i b (rw size at h) in
      let place : i - 0 * 2 ≡ i = omega arith in (rw place at found, bad)
  | inr other ↦ ground arith
]
