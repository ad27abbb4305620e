-- ===== src/Aac/Section/Exact.antt =====
-- About the payloads that `parse_au_section` accepts.
use ezviz_stream_bridge.Prelude.{
  ℕ, zero, suc, ◌+◌, ◌*◌, ◌/◌, ◌%◌, ◌≤◌, ◌≡◌, refl, sym, ap, ◌∙◌, false, some, List, [], ◌∷◌, ◌++◌,
  Bytes, All, arith, length, take, drop, from_bytes, concat, length-drop, drop-drop,
  take-append-drop, length-take, drop-nil_of_le, passed_guard, or_false, not-false, ==→eq, ltb,
  ltb_false→le, slice_len,
}
use mathlib.Core.Path.{subst}
use mathlib.Core.Option.{some-injective}
use ezviz_stream_bridge.Aac.Section.{
  sum, some_zero, read_sizes, cut_units, cut_section, parse_au_section,
}

-- Cut from `offset` to the very end, the units are the rest of the payload.
concat-cut_units :
    (sizes : List ℕ) (payload : Bytes) (offset : ℕ)
    → offset + sum sizes ≡ length payload
    → concat (cut_units sizes payload offset) ≡ drop offset payload
unfolding cut_units
concat-cut_units [] payload offset whole = sym (drop-nil_of_le offset payload (omega arith))
concat-cut_units (n ∷ sizes) payload offset whole =
    ap (λ t. t ++ concat (cut_units sizes payload (offset + n))) (slice_len payload offset n)
    ∙ ap (λ t. take n (drop offset payload) ++ t)
        (concat-cut_units sizes payload (offset + n) (omega arith)
          ∙ sym (drop-drop offset n payload))
    ∙ take-append-drop n (drop offset payload)

cut_units_nonempty :
    (sizes : List ℕ) (payload : Bytes) (offset : ℕ)
    → offset + sum sizes ≡ length payload
    → some_zero sizes ≡ false
    → All (λ unit. 1 ≤ length unit) (cut_units sizes payload offset)
unfolding cut_units
cut_units_nonempty [] payload offset whole positive = tt
cut_units_nonempty (n ∷ sizes) payload offset whole positive = (
  ground (
    arith,
    slice_len payload offset n,
    length-take n (drop offset payload),
    length-drop offset payload,
  ),
  cut_units_nonempty sizes payload (offset + n) (omega arith) (ground arith),
)

length-read_sizes :
    (count : ℕ) (payload : Bytes) (offset : ℕ) → length (read_sizes count payload offset) ≡ count
unfolding read_sizes
length-read_sizes zero payload offset = refl
length-read_sizes (suc count) payload offset = ap suc (length-read_sizes count payload (offset + 2))

length-cut_units :
    (sizes : List ℕ) (payload : Bytes) (offset : ℕ)
    → length (cut_units sizes payload offset) ≡ length sizes
unfolding cut_units
length-cut_units [] payload offset = refl
length-cut_units (n ∷ sizes) payload offset = ap suc (length-cut_units sizes payload (offset + n))

cut_section_exact :
    (count : ℕ) (payload : Bytes) (units : List Bytes)
    → cut_section count (2 + 2 * count) payload ≡ some units
    → (length units ≡ count)
      × (concat units ≡ drop (2 + 2 * count) payload)
      × All (λ unit. 1 ≤ length unit) units
unfolding cut_section
cut_section_exact count payload units e =
    let sizes = read_sizes count payload 2 in
    let (adds_up, cut) = passed_guard _ (some (cut_units sizes payload (2 + 2 * count))) units e in
    let (positive, whole) = or_false (some_zero sizes) _ adds_up in
    let total : 2 + 2 * count + sum sizes ≡ length payload = ==→eq _ _ (not-false _ whole) in
    subst
      (λ us.
        (length us ≡ count)
        × (concat us ≡ drop (2 + 2 * count) payload)
        × All (λ unit. 1 ≤ length unit) us)
      (some-injective _ _ cut)
      (
        length-cut_units sizes payload (2 + 2 * count) ∙ length-read_sizes count payload 2,
        concat-cut_units sizes payload (2 + 2 * count) total,
        cut_units_nonempty sizes payload (2 + 2 * count) total positive,
      )

-- An accepted payload is an Access Unit header section of two bytes and one 16-bit header for each
-- unit, at least one of them, followed by the units and nothing else; no unit is empty.
pub parse_au_section_exact :
    (payload : Bytes) (units : List Bytes)
    → parse_au_section payload ≡ some units
    → (1 ≤ length units)
      × (16 * length units ≡ from_bytes (take 2 payload))
      × (payload ≡ take (2 + 2 * length units) payload ++ concat units)
      × All (λ unit. 1 ≤ length unit) units
unfolding parse_au_section
parse_au_section_exact payload units e =
    let bits = from_bytes (take 2 payload) in
    let (_, e₁) = passed_guard _ _ units e in
    let (shape, e₂) = passed_guard _ _ units e₁ in
    let (fits, e₃) = passed_guard _ _ units e₂ in
    let (large, even) = or_false (ltb bits 16) _ shape in
    let whole : bits % 16 ≡ 0 = ==→eq _ _ (not-false _ even) in
    let enough : 16 ≤ bits = ltb_false→le bits 16 large in
    let header : 2 + bits / 8 ≡ 2 + 2 * (bits / 16) = omega arith in
    let (count, parts, nonempty) =
      cut_section_exact (bits / 16) payload units
        (ap (λ n. cut_section (bits / 16) n payload) (sym header) ∙ e₃) in
    let size : 2 + 2 * (bits / 16) ≡ 2 + 2 * length units = omega (arith, count) in
    (
      omega (arith, count),
      omega (arith, count),
      sym (take-append-drop (2 + 2 * length units) payload)
          ∙ ap (λ t. take (2 + 2 * length units) payload ++ t)
              (ap (λ n. drop n payload) (sym size) ∙ sym parts),
      nonempty,
    )
