-- ===== src/Rtp/ParameterSets/Wire.antt =====
-- About `parameter_sets` on what a sender writes.
use ezviz_stream_bridge.Prelude.{
  ℕ, zero, suc, ◌+◌, ◌*◌, ◌≤◌, ◌<◌, ◌≡◌, refl, sym, ap, ◌∙◌, Bool, true, false, Option, none, some,
  List, [], ◌∷◌, ◌++◌, Bytes, All, arith, length, drop, find, find-later, find-here, find-none,
  starts_with, starts_with-long, shift, take-length, drop-length, append_assoc, append-nil,
  length-append, ◌/◌, ◌%◌, ◌&&◌, ◌||◌, not, ◌==◌, bit_and, ltb, ltb-false, if◌then◌else◌,
}
use ezviz_stream_bridge.Prelude.Bits.Words.{
  bit_and_step, bit_and-1, bit_and-7, bit_and-31, bit_and-63,
}
use ezviz_stream_bridge.Rtp.Constants.{Codec, h264, hevc, start_code, hevc_nal_header}
use ezviz_stream_bridge.Rtp.Detect.{contains}
use ezviz_stream_bridge.Rtp.Packing.{annex_b}
use ezviz_stream_bridge.Rtp.Depacketizer.{new_depacketizer}
use ezviz_stream_bridge.Rtp.Depacketizer.Wire.{Wire}
use ezviz_stream_bridge.Rtp.Depacketizer.Refine.{feed_all-Delivered}
use ezviz_stream_bridge.Rtp.ParameterSets.{
  annex_b_head, up_to, is_parameter_set, prelude_loop, parameter_sets,
}

-- A NAL unit with no start code in it, which its emulation prevention sees to.
abbrev pub IsClean : Bytes → Type 0
IsClean unit = find start_code unit ≡ none

-- A start code behind a unit does not begin inside the unit.
starts_behind :
    (x : ℕ) (unit rest : Bytes)
    → starts_with start_code (x ∷ unit) ≡ false
    → starts_with start_code (x ∷ (unit ++ (start_code ++ rest))) ≡ false
starts_behind x [] rest h = unfold starts_with in ground arith
starts_behind x (y ∷ []) rest h = unfold starts_with in ground arith
starts_behind x (y ∷ z ∷ []) rest h = unfold starts_with in ground arith
starts_behind x (y ∷ z ∷ w ∷ unit) rest h =
    starts_with-long start_code (x ∷ y ∷ z ∷ w ∷ unit) (start_code ++ rest) (omega arith) ∙ h

find-clean :
    (unit rest : Bytes)
    → IsClean unit
    → find start_code (unit ++ (start_code ++ rest)) ≡ some (length unit)
find-clean [] rest clean = find-here start_code (start_code ++ rest) (unfold starts_with in refl)
find-clean (x ∷ unit) rest clean =
    let (here, later) = find-none start_code x unit clean in
    find-later start_code x (unit ++ (start_code ++ rest)) (starts_behind x unit rest here)
    ∙ ap (shift 1) (find-clean unit rest later)
    ∙ ap some (omega arith)

-- A parameter set, by the NAL unit types of the standards: 7 and 8 in the low five bits of the first
-- byte for H.264; for HEVC, 32, 33 or 34 in the six bits behind the forbidden bit, which is clear as is the first
-- bit of the layer's number, and a temporal identifier that is not 0.
abbrev pub is_set_type : Codec → Bytes → Bool
is_set_type codec [] = false
is_set_type h264 (first ∷ rest) = first % 32 == 7 || first % 32 == 8
is_set_type hevc (first ∷ []) = false
is_set_type hevc (first ∷ second ∷ rest) =
    first / 128 % 2 == 0
    && (first / 2 % 64 == 32 || first / 2 % 64 == 33 || first / 2 % 64 == 34)
    && first % 2 == 0
    && not (second % 8 == 0)

-- The parameter sets among the units.
abbrev pub sets_among : Codec → List Bytes → List Bytes
sets_among codec [] = []
sets_among codec (unit ∷ units) =
    if is_set_type codec unit then unit ∷ sets_among codec units else sets_among codec units

or_false : (b : Bool) → (b || false) ≡ b
or_false true = refl
or_false false = refl

-- A test of a bit at its place, and at the lowest one.
top_bit : (n : ℕ) → not (not (n % 2 * 128 == 0)) ≡ (n % 2 == 0)
top_bit n = ground arith

not-not : (b : Bool) → not (not b) ≡ b
not-not true = refl
not-not false = refl

any_of : (a b c : Bool) → (a || (b || (c || false))) ≡ (a || b || c)
any_of true b c = refl
any_of false true c = refl
any_of false false true = refl
any_of false false false = refl

joined :
    (top a b c low rest : Bool)
    → (top && (a || (b || (c || false))) && not (not low) && rest)
      ≡ (top && (a || b || c) && low && rest)
joined top a b c low rest = rw (any_of a b c, not-not low) refl

-- The bits of a byte, one after the other.
bit_and-2 : (a : ℕ) → bit_and a 2 ≡ a / 2 % 2 * 2
bit_and-2 a = omega (arith, bit_and_step a 2, bit_and-1 (a / 2))

bit_and-4 : (a : ℕ) → bit_and a 4 ≡ a / 4 % 2 * 4
bit_and-4 a = omega (arith, bit_and_step a 4, bit_and-2 (a / 2))

bit_and-8 : (a : ℕ) → bit_and a 8 ≡ a / 8 % 2 * 8
bit_and-8 a = omega (arith, bit_and_step a 8, bit_and-4 (a / 2))

bit_and-16 : (a : ℕ) → bit_and a 16 ≡ a / 16 % 2 * 16
bit_and-16 a = omega (arith, bit_and_step a 16, bit_and-8 (a / 2))

bit_and-32 : (a : ℕ) → bit_and a 32 ≡ a / 32 % 2 * 32
bit_and-32 a = omega (arith, bit_and_step a 32, bit_and-16 (a / 2))

bit_and-64 : (a : ℕ) → bit_and a 64 ≡ a / 64 % 2 * 64
bit_and-64 a = omega (arith, bit_and_step a 64, bit_and-32 (a / 2))

bit_and-128 : (a : ℕ) → bit_and a 128 ≡ a / 128 % 2 * 128
bit_and-128 a = omega (arith, bit_and_step a 128, bit_and-64 (a / 2))

is_parameter_set-is_set_type :
    (codec : Codec) (unit : Bytes) → is_parameter_set codec unit ≡ is_set_type codec unit
unfolding is_parameter_set contains
is_parameter_set-is_set_type codec [] = refl
is_parameter_set-is_set_type h264 (first ∷ rest) =
    ap (λ t. t == 7 || (t == 8 || false)) (bit_and-31 first)
    ∙ ap (λ t. (first % 32 == 7) || t) (or_false (first % 32 == 8))
is_parameter_set-is_set_type hevc (first ∷ []) = refl
is_parameter_set-is_set_type hevc (first ∷ second ∷ rest) =
    let top = bit_and-128 first in
    let low = bit_and-1 first in
    let kind = bit_and-63 (first / 2) in
    let layer = bit_and-7 second in
    let long : ltb (length (first ∷ second ∷ rest)) hevc_nal_header ≡ false =
      ltb-false _ _ (omega arith) in
    rw (long, top, low, kind, layer)
      (ap
          (λ t.
            t
            && (first / 2 % 64 == 32 || (first / 2 % 64 == 33 || (first / 2 % 64 == 34 || false)))
            && not (not (first % 2 == 0))
            && not (second % 8 == 0))
          (top_bit (first / 128))
        ∙ joined (first / 128 % 2 == 0) (first / 2 % 64 == 32) (first / 2 % 64 == 33)
            (first / 2 % 64 == 34) (first % 2 == 0) (not (second % 8 == 0)))

next_start :
    (unit : Bytes) (units : List Bytes)
    → IsClean unit
    → up_to (unit ++ annex_b units) (find start_code (unit ++ annex_b units)) ≡ unit
next_start unit [] clean =
    ap (λ t. up_to t (find start_code t)) (append-nil unit) ∙ ap (up_to unit) clean
next_start unit (v ∷ units) clean =
    ap (up_to (unit ++ annex_b (v ∷ units))) (find-clean unit (v ++ annex_b units) clean)
    ∙ take-length unit (annex_b (v ∷ units))

at_start : (rest : Bytes) → find start_code (start_code ++ rest) ≡ some 0
at_start rest = find-here start_code (start_code ++ rest) (unfold starts_with in refl)

head_found :
    (stream : Bytes) (start : ℕ)
    → find start_code stream ≡ some start
    → annex_b_head stream
      ≡ some (up_to (drop (start + 4) stream) (find start_code (drop (start + 4) stream)))
unfolding annex_b_head
head_found stream start e = rw (e, annex_b_head) refl

annex_b_head-annex_b :
    (unit : Bytes) (units : List Bytes)
    → IsClean unit
    → annex_b_head (annex_b (unit ∷ units)) ≡ some unit
annex_b_head-annex_b unit units clean =
    head_found (annex_b (unit ∷ units)) 0 (at_start (unit ++ annex_b units))
    ∙ ap some (next_start unit units clean)

round :
    (fuel : ℕ) (codec : Codec) (stream prelude unit : Bytes) (start : ℕ)
    → annex_b_head stream ≡ some unit
    → find start_code stream ≡ some start
    → prelude_loop (suc fuel) codec stream prelude ≡ (
        let rest = drop (start + length unit + 4) stream in
        if is_parameter_set codec unit
        then prelude_loop fuel codec rest (prelude ++ (start_code ++ unit))
        else prelude_loop fuel codec rest prelude)
unfolding prelude_loop
round fuel codec stream prelude unit start e f = rw (e, f, prelude_loop) refl

no_round :
    (fuel : ℕ) (codec : Codec) (prelude : Bytes)
    → prelude_loop (suc fuel) codec [] prelude ≡ prelude
unfolding prelude_loop annex_b_head find starts_with
no_round fuel codec prelude = refl

past_unit :
    (unit : Bytes) (units : List Bytes)
    → drop (0 + length unit + 4) (annex_b (unit ∷ units)) ≡ annex_b units
past_unit unit units =
    let e : 0 + length unit + 4 ≡ suc (suc (suc (suc (length unit)))) = omega arith in
    ap (λ n. drop n (annex_b (unit ∷ units))) e ∙ drop-length unit (annex_b units)

loop-annex_b :
    (fuel : ℕ) (codec : Codec) (units : List Bytes) (prelude : Bytes)
    → All IsClean units
    → length units < fuel
    → prelude_loop fuel codec (annex_b units) prelude ≡ prelude ++ annex_b (sets_among codec units)
loop-annex_b zero codec units prelude clean enough = absurd (omega arith)
loop-annex_b (suc fuel) codec [] prelude clean enough =
    no_round fuel codec prelude ∙ sym (append-nil prelude)
loop-annex_b (suc fuel) codec (unit ∷ units) prelude (clean, cleans) enough =
    let rest = drop (0 + length unit + 4) (annex_b (unit ∷ units)) in
    let kept = prelude_loop fuel codec rest (prelude ++ (start_code ++ unit)) in
    let skipped = prelude_loop fuel codec rest prelude in
    round fuel codec (annex_b (unit ∷ units)) prelude unit 0 (annex_b_head-annex_b unit units clean)
      (at_start (unit ++ annex_b units))
    ∙ ap (λ b. if b then kept else skipped) (is_parameter_set-is_set_type codec unit)
    ∙ go (is_set_type codec unit) (λ prelude'.
      ap (λ t. prelude_loop fuel codec t prelude') (past_unit unit units)
      ∙ loop-annex_b fuel codec units prelude' cleans (omega arith))
  where
    go :
        (b : Bool)
        → ((prelude' : Bytes)
            → prelude_loop fuel codec (drop (0 + length unit + 4) (annex_b (unit ∷ units))) prelude'
              ≡ prelude' ++ annex_b (sets_among codec units))
        → (let rest = drop (0 + length unit + 4) (annex_b (unit ∷ units)) in
            if b
            then prelude_loop fuel codec rest (prelude ++ (start_code ++ unit))
            else prelude_loop fuel codec rest prelude)
          ≡ prelude ++ annex_b (if b then unit ∷ sets_among codec units else sets_among codec units)
    go true again =
        again (prelude ++ (start_code ++ unit))
        ∙ append_assoc prelude (start_code ++ unit) (annex_b (sets_among codec units))
        ∙ ap (λ t. prelude ++ (start_code ++ t)) refl
    go false again = again prelude

length-annex_b : (units : List Bytes) → length units ≤ length (annex_b units)
length-annex_b [] = omega arith
length-annex_b (unit ∷ units) =
    omega (arith, length-annex_b units, length-append unit (annex_b units))

-- From the packets that a sender writes for some NAL units, `parameter_sets` returns the Annex-B
-- stream of exactly the parameter sets among them, in order, as long as no unit holds a start code.
pub parameter_sets-Wire :
    (rtp_payload : Bytes → Option Bytes) (codec : Codec) (pt : ℕ) (packets nals : List Bytes)
    → Wire rtp_payload codec (some pt) none packets nals
    → All IsClean nals
    → parameter_sets rtp_payload packets codec pt ≡ annex_b (sets_among codec nals)
unfolding parameter_sets
parameter_sets-Wire rtp_payload codec pt packets nals w clean =
    let d = new_depacketizer codec (some pt) in
    let stream = (feed_all-Delivered rtp_payload codec (some pt) w).stream in
    ap (λ t. prelude_loop (suc (length t)) codec t []) stream
    ∙ loop-annex_b (suc (length (annex_b nals))) codec nals [] clean
        (omega (arith, length-annex_b nals))
