-- ===== src/Aac/Section.antt =====
-- ezviz_stream_bridge/rtp.py, lines 95 to 106 and 547 to 588: `parse_au_section`.
pub mod Exact
pub mod RoundTrip
use ezviz_stream_bridge.Prelude.{
  ℕ, zero, suc, ◌+◌, ◌/◌, ◌%◌, Bool, true, false, not, ◌||◌, Option, none, some, List, [], ◌∷◌,
  Bytes, length, slice, take, from_bytes, ltb, ◌==◌, if◌then◌else◌,
}

abbrev pub aac_size_length : ℕ
aac_size_length = 13

abbrev pub aac_index_length : ℕ
aac_index_length = 3

abbrev pub aac_au_header_bits : ℕ
aac_au_header_bits = aac_size_length + aac_index_length

abbrev pub au_headers_length_bytes : ℕ
au_headers_length_bytes = 2

abbrev pub sum : List ℕ → ℕ
sum [] = 0
sum (size ∷ sizes) = size + sum sizes

-- `any(size == 0 for size in sizes)`
abbrev pub some_zero : List ℕ → Bool
some_zero [] = false
some_zero (size ∷ sizes) = size == 0 || some_zero sizes

-- The first loop: `count` sizes, read from `offset` on.
unfoldable pub read_sizes : ℕ → Bytes → ℕ → List ℕ
read_sizes zero payload offset = []
read_sizes (suc count) payload offset =
    from_bytes (slice payload offset (offset + 2)) / 8 ∷ read_sizes count payload (offset + 2)

-- The second loop: the units of these sizes, cut from `offset` on.
unfoldable pub cut_units : List ℕ → Bytes → ℕ → List Bytes
cut_units [] payload offset = []
cut_units (size ∷ sizes) payload offset =
    slice payload offset (offset + size) ∷ cut_units sizes payload (offset + size)

-- The end of `parse_au_section`, once the section's size is known to fit.
unfoldable pub cut_section : ℕ → ℕ → Bytes → Option (List Bytes)
cut_section count section_bytes payload =
    let sizes = read_sizes count payload au_headers_length_bytes in
    if some_zero sizes || not (section_bytes + sum sizes == length payload)
    then none
    else some (cut_units sizes payload section_bytes)

-- The second loop of the source goes on from the first one's `offset`, which is then
-- `2 + 2 * count`, and so `section_bytes`, since the section is a whole number of 16-bit headers.
unfoldable pub parse_au_section : Bytes → Option (List Bytes)
parse_au_section payload =
    let section_bits = from_bytes (take au_headers_length_bytes payload) in
    let count = section_bits / aac_au_header_bits in
    let section_bytes = au_headers_length_bytes + section_bits / 8 in
    if ltb (length payload) au_headers_length_bytes
    then none
    else if ltb section_bits aac_au_header_bits || not (section_bits % aac_au_header_bits == 0)
    then none
    else if ltb (length payload) section_bytes
    then none
    else cut_section count section_bytes payload
