-- ===== src/Aac/Section/RoundTrip.antt =====
-- What a camera sends in `AAC-hbr` mode, beside `parse_au_section`.
use ezviz_stream_bridge.Prelude.{
  ℕ, ◌+◌, ◌*◌, ◌/◌, ◌%◌, ◌≤◌, ◌<◌, ◌≡◌, refl, sym, ap, ◌∙◌, false, some, List, [], ◌∷◌, ◌++◌, Bytes,
  All, arith, length, take, drop, slice, from_bytes, concat, length-append, drop-drop, take-length,
  drop-length, slice_len,
}
use ezviz_stream_bridge.Aac.Section.{
  sum, some_zero, read_sizes, cut_units, cut_section, parse_au_section,
}

-- An Access Unit with the three-bit index that its header carries.
pub record AccessUnit : Type 0 where
  pub index : ℕ
  pub unit : Bytes

-- The index fits three bits, and the unit is not empty and its size fits thirteen.
pub record IsAccessUnit (au : AccessUnit) : Type 0 where
  pub index_fits : au.index < 8
  pub some_bytes : 1 ≤ length au.unit
  pub size_fits : length au.unit < 8192

abbrev pub units_of : List AccessUnit → List Bytes
units_of [] = []
units_of (au ∷ aus) = au.unit ∷ units_of aus

abbrev pub lengths : List Bytes → List ℕ
lengths [] = []
lengths (unit ∷ units) = length unit ∷ lengths units

abbrev au_header : AccessUnit → ℕ
au_header au = length au.unit * 8 + au.index

abbrev pub au_headers : List AccessUnit → Bytes
au_headers [] = []
au_headers (au ∷ aus) = (au_header au / 256) ∷ (au_header au % 256) ∷ au_headers aus

-- The payload: the section's length in bits, the headers, and the units.
abbrev pub au_payload : List AccessUnit → Bytes
au_payload aus =
    (16 * length aus / 256) ∷ (16 * length aus % 256) ∷ (au_headers aus ++ concat (units_of aus))

read_sizes-au_headers :
    (aus : List AccessUnit) (payload : Bytes) (offset : ℕ) (rest : Bytes)
    → All IsAccessUnit aus
    → drop offset payload ≡ au_headers aus ++ rest
    → read_sizes (length aus) payload offset ≡ lengths (units_of aus)
unfolding read_sizes
read_sizes-au_headers [] payload offset rest fit here = refl
read_sizes-au_headers (au ∷ aus) payload offset rest (fit, fits) here =
    let index : au.index < 8 = fit.index_fits in
    let size : from_bytes (slice payload offset (offset + 2)) ≡ au_header au =
      ap from_bytes (slice_len payload offset 2)
      ∙ ap (λ xs. from_bytes (take 2 xs)) here
      ∙ omega arith in
    let first : from_bytes (slice payload offset (offset + 2)) / 8 ≡ length au.unit = omega arith in
    ap (λ n. n ∷ read_sizes (length aus) payload (offset + 2)) first
    ∙ ap (λ ns. length au.unit ∷ ns)
        (read_sizes-au_headers aus payload (offset + 2) rest fits
          (sym (drop-drop offset 2 payload) ∙ ap (drop 2) here))

cut_units-concat :
    (units : List Bytes) (payload : Bytes) (offset : ℕ)
    → drop offset payload ≡ concat units
    → cut_units (lengths units) payload offset ≡ units
unfolding cut_units
cut_units-concat [] payload offset here = refl
cut_units-concat (u ∷ us) payload offset here =
    ap (λ t. t ∷ cut_units (lengths us) payload (offset + length u))
      (slice_len payload offset (length u) ∙ ap (take (length u)) here ∙ take-length u (concat us))
    ∙ ap (λ t. u ∷ t)
        (cut_units-concat us payload (offset + length u) (
          sym (drop-drop offset (length u) payload)
          ∙ ap (drop (length u)) here
          ∙ drop-length u (concat us)))

length-au_headers : (aus : List AccessUnit) → length (au_headers aus) ≡ 2 * length aus
length-au_headers [] = omega arith
length-au_headers (au ∷ aus) = omega (arith, length-au_headers aus)

length-concat : (units : List Bytes) → length (concat units) ≡ sum (lengths units)
length-concat [] = refl
length-concat (u ∷ us) = omega (arith, length-append u (concat us), length-concat us)

no_zero :
    (aus : List AccessUnit) → All IsAccessUnit aus → some_zero (lengths (units_of aus)) ≡ false
no_zero [] fits = refl
no_zero (au ∷ aus) (fit, fits) = ground (arith, fit.some_bytes, no_zero aus fits)

module _ (aus : List AccessUnit) (fits : All IsAccessUnit aus) where
  past_headers : drop (2 + 2 * length aus) (au_payload aus) ≡ concat (units_of aus)
  past_headers =
      let e : 2 + 2 * length aus ≡ 2 + length (au_headers aus) =
        omega (arith, length-au_headers aus) in
      ap (λ n. drop n (au_payload aus)) e
      ∙ sym (drop-drop 2 (length (au_headers aus)) (au_payload aus))
      ∙ drop-length (au_headers aus) (concat (units_of aus))

  length-au_payload : length (au_payload aus) ≡ 2 + 2 * length aus + sum (lengths (units_of aus))
  length-au_payload = omega (
    arith,
    length-append (au_headers aus) (concat (units_of aus)),
    length-au_headers aus,
    length-concat (units_of aus),
  )

  cut_section-au_payload :
      cut_section (length aus) (2 + 2 * length aus) (au_payload aus) ≡ some (units_of aus)
  unfolding cut_section
  cut_section-au_payload = ground (
    arith,
    read_sizes-au_headers aus (au_payload aus) 2 (concat (units_of aus)) fits refl,
    cut_units-concat (units_of aus) (au_payload aus) (2 + 2 * length aus) past_headers,
    no_zero aus fits,
    length-au_payload,
  )

-- `parse_au_section` reads back every payload that `AAC-hbr` allows: at least one Access Unit,
-- none empty, each size in 13 bits, each index in 3, and a section length in 16.
pub parse_au_section-au_payload :
    (aus : List AccessUnit)
    → All IsAccessUnit aus
    → 1 ≤ length aus
    → length aus < 4096
    → parse_au_section (au_payload aus) ≡ some (units_of aus)
unfolding parse_au_section
parse_au_section-au_payload aus fits some_unit few =
    let bits : from_bytes (take 2 (au_payload aus)) ≡ 16 * length aus = omega arith in
    let count : from_bytes (take 2 (au_payload aus)) / 16 ≡ length aus = omega arith in
    let header : 2 + from_bytes (take 2 (au_payload aus)) / 8 ≡ 2 + 2 * length aus = omega arith in
    ground (arith, cut_section-au_payload aus fits, length-au_payload aus fits)
