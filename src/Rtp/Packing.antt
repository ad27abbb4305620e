-- ===== src/Rtp/Packing.antt =====
-- The length-prefixed aggregate of RFC 6184 (STAP-A) and RFC 7798 (AP), as a sender writes it,
-- and what reading one round of it at an offset gives.
use ezviz_stream_bridge.Prelude.{
  ℕ, ◌+◌, ◌-◌, ◌/◌, ◌%◌, ◌≤◌, ◌<◌, ◌≡◌, refl, sym, ap, ◌∙◌, List, [], ◌∷◌, ◌++◌, Bytes, arith,
  length, take, drop, slice, from_bytes, length-append, length-drop, take-length, drop-length,
  drop-drop, append_assoc, slice_len,
}
use ezviz_stream_bridge.Rtp.Constants.{start_code}

-- A unit that an aggregate can carry: not empty, and its size fits the 16-bit length field.
abbrev pub IsSized : Bytes → Type 0
IsSized unit = (1 ≤ length unit) × (length unit < 65536)

abbrev pub prefixed : Bytes → Bytes
prefixed unit = (length unit / 256) ∷ (length unit % 256) ∷ unit

abbrev pub join_units : List Bytes → Bytes
join_units [] = []
join_units (unit ∷ units) = prefixed unit ++ join_units units

-- The Annex-B stream of some NAL units.
abbrev pub annex_b : List Bytes → Bytes
annex_b [] = []
annex_b (unit ∷ units) = start_code ++ (unit ++ annex_b units)

pub annex_b-append : (us vs : List Bytes) → annex_b (us ++ vs) ≡ annex_b us ++ annex_b vs
annex_b-append [] vs = refl
annex_b-append (u ∷ us) vs =
    ap (λ t. start_code ++ (u ++ t)) (annex_b-append us vs)
    ∙ ap (λ t. start_code ++ t) (sym (append_assoc u (annex_b us) (annex_b vs)))

module _ (payload : Bytes) (offset : ℕ) where
  pub length-rest :
      (rest : Bytes) → drop offset payload ≡ rest → length rest ≡ length payload - offset
  length-rest rest e = omega (arith, ap length e, length-drop offset payload)

module _ (payload : Bytes) (offset : ℕ) (unit rest : Bytes)
    (here : drop offset payload ≡ prefixed unit ++ rest) where
  pub read_size : from_bytes (slice payload offset (offset + 2)) ≡ length unit
  read_size =
      ap from_bytes (slice_len payload offset 2)
      ∙ ap (λ xs. from_bytes (take 2 xs)) here
      ∙ omega arith

  past_size : drop (offset + 2) payload ≡ unit ++ rest
  past_size = sym (drop-drop offset 2 payload) ∙ ap (drop 2) here

  pub read_unit : (n : ℕ) → n ≡ length unit → slice payload (offset + 2) (offset + 2 + n) ≡ unit
  read_unit n e =
      slice_len payload (offset + 2) n
      ∙ ap (take n) past_size
      ∙ ap (λ k. take k (unit ++ rest)) e
      ∙ take-length unit rest

  pub read_rest : (n : ℕ) → n ≡ length unit → drop (offset + (2 + n)) payload ≡ rest
  read_rest n e =
      let sum : offset + (2 + n) ≡ offset + 2 + length unit = omega arith in
      ap (λ k. drop k payload) sum
      ∙ sym (drop-drop (offset + 2) (length unit) payload)
      ∙ ap (drop (length unit)) past_size
      ∙ drop-length unit rest

  pub room : offset + 2 + length unit + length rest ≤ length payload
  room = omega (arith, length-rest payload offset _ here, length-append unit rest)
