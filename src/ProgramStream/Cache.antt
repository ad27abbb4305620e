-- ===== src/ProgramStream/Cache.antt =====
-- About the units that `_inspect_nal` caches.
use ezviz_stream_bridge.Prelude.{
  ◌+◌, ◌/◌, ◌≤◌, ◌<◌, ◌≡◌, refl, Bool, true, false, ◌||◌, Option, none, some, List, [], ◌∷◌, ◌++◌,
  Bytes, All, arith, length, byte_at, ltb, leb, ◌==◌, bit_and, length-append, Bool-cases, inl, inr,
  if◌then◌else◌,
}
use ezviz_stream_bridge.Rtp.Constants.{hevc}
use ezviz_stream_bridge.Rtp.Detect.{contains, has_bits, detect_parameter_set}
use ezviz_stream_bridge.ProgramStream.{
  max_parameter_set, max_parameter_sets_per_type, max_parameter_sets_bytes, SetName, vps, sps, pps,
  hevc_name, Sets, group_of, add_unit, sum_sizes, cached_size, same_bytes, holds_unit, cache_unit,
  inspect_nal,
}

-- No unit is there twice.
abbrev pub IsDistinct : List Bytes → Type 0
IsDistinct [] = Unit {0}
IsDistinct (unit ∷ units) = (holds_unit unit units ≡ false) × IsDistinct units

-- A parameter set of the named type, which the RTP half reads as one as well.
pub record IsParameterSet (name : SetName) (unit : Bytes) : Type 0 where
  pub named : hevc_name (bit_and (byte_at unit 0 / 2) 0x3F) ≡ some name
  pub detected : detect_parameter_set unit ≡ some hevc

pub record IsGroup (name : SetName) (units : List Bytes) : Type 0 where
  pub few : length units ≤ max_parameter_sets_per_type
  pub distinct : IsDistinct units
  pub parameter_sets : All (IsParameterSet name) units

pub record IsCache (sets : Sets) : Type 0 where
  pub small : cached_size sets ≤ max_parameter_sets_bytes
  pub groups : (name : SetName) → IsGroup name (group_of sets name)

same_bytes_sym : (xs ys : Bytes) → same_bytes xs ys ≡ same_bytes ys xs
same_bytes_sym [] [] = refl
same_bytes_sym [] (b ∷ ys) = refl
same_bytes_sym (a ∷ xs) [] = refl
same_bytes_sym (a ∷ xs) (b ∷ ys) = ground (arith, same_bytes_sym xs ys)

holds_unit-append :
    (u unit : Bytes) (units : List Bytes)
    → holds_unit u units ≡ false
    → same_bytes u unit ≡ false
    → holds_unit u (units ++ (unit ∷ [])) ≡ false
holds_unit-append u unit [] h e = ground arith
holds_unit-append u unit (v ∷ units) h e = ground (arith, holds_unit-append u unit units)

IsDistinct-append :
    (units : List Bytes) (unit : Bytes)
    → IsDistinct units
    → holds_unit unit units ≡ false
    → IsDistinct (units ++ (unit ∷ []))
IsDistinct-append [] unit h e = (refl, tt)
IsDistinct-append (v ∷ units) unit (d, ds) e = (
  holds_unit-append v unit units d (ground (arith, same_bytes_sym unit v)),
  IsDistinct-append units unit ds (ground arith),
)

All-append :
    (P : Bytes → Type 0) (xs : List Bytes) (x : Bytes) → All P xs → P x → All P (xs ++ (x ∷ []))
All-append P [] x h k = (k, tt)
All-append P (y ∷ xs) x (h, hs) k = (h, All-append P xs x hs k)

sum_sizes-append :
    (units : List Bytes) (unit : Bytes)
    → sum_sizes (units ++ (unit ∷ [])) ≡ sum_sizes units + length unit
sum_sizes-append [] unit = omega arith
sum_sizes-append (u ∷ units) unit = omega (arith, sum_sizes-append units unit)

grown-IsGroup :
    (name : SetName) (units : List Bytes) (unit : Bytes)
    → IsGroup name units
    → IsParameterSet name unit
    → holds_unit unit units ≡ false
    → length units < max_parameter_sets_per_type
    → IsGroup name (units ++ (unit ∷ []))
grown-IsGroup name units unit h set fresh room = record {
  few = omega (arith, length-append units (unit ∷ []));
  distinct = IsDistinct-append units unit h.distinct fresh;
  parameter_sets = All-append (IsParameterSet name) units unit h.parameter_sets set;
}

add_unit-IsCache :
    (sets : Sets) (name : SetName) (unit : Bytes)
    → IsCache sets
    → IsParameterSet name unit
    → holds_unit unit (group_of sets name) ≡ false
    → length (group_of sets name) < max_parameter_sets_per_type
    → cached_size sets + length unit ≤ max_parameter_sets_bytes
    → IsCache (add_unit sets name unit)
add_unit-IsCache sets vps unit h set fresh room fits = record {
  small = omega (arith, sum_sizes-append sets.vps_units unit);
  groups = elim [
    | vps ↦ grown-IsGroup vps sets.vps_units unit (h.groups vps) set fresh room
    | sps ↦ h.groups sps
    | pps ↦ h.groups pps
  ];
}
add_unit-IsCache sets sps unit h set fresh room fits = record {
  small = omega (arith, sum_sizes-append sets.sps_units unit);
  groups = elim [
    | vps ↦ h.groups vps
    | sps ↦ grown-IsGroup sps sets.sps_units unit (h.groups sps) set fresh room
    | pps ↦ h.groups pps
  ];
}
add_unit-IsCache sets pps unit h set fresh room fits = record {
  small = omega (arith, sum_sizes-append sets.pps_units unit);
  groups = elim [
    | vps ↦ h.groups vps
    | sps ↦ h.groups sps
    | pps ↦ grown-IsGroup pps sets.pps_units unit (h.groups pps) set fresh room
  ];
}

cache_unit-IsCache :
    (sets : Sets) (name : SetName) (unit : Bytes)
    → IsCache sets
    → IsParameterSet name unit
    → IsCache (cache_unit sets name unit)
unfolding cache_unit
cache_unit-IsCache sets name unit h set = ground (arith, add_unit-IsCache sets name unit h set)

-- The units that pass the tests of `_inspect_nal` are the parameter sets.
passed-IsParameterSet :
    (unit : Bytes) (name : SetName)
    → (ltb (length unit) 2
        || has_bits (byte_at unit 0) 0x80
        || has_bits (byte_at unit 0) 0x01
        || bit_and (byte_at unit 1) 0x07 == 0)
      ≡ false
    → hevc_name (bit_and (byte_at unit 0 / 2) 0x3F) ≡ some name
    → IsParameterSet name unit
unfolding detect_parameter_set contains
passed-IsParameterSet unit name e f = record { named = f; detected = ground arith }

pub inspect_nal-IsCache :
    (sets : Sets) (unit : Bytes) → IsCache sets → IsCache (inspect_nal sets unit)
unfolding inspect_nal
inspect_nal-IsCache sets unit h = go _ refl (hevc_name (bit_and (byte_at unit 0 / 2) 0x3F)) refl
  where
    go :
        (rejected : Bool)
        → (ltb (length unit) 2
            || has_bits (byte_at unit 0) 0x80
            || has_bits (byte_at unit 0) 0x01
            || bit_and (byte_at unit 1) 0x07 == 0)
          ≡ rejected
        → (o : Option SetName) → hevc_name (bit_and (byte_at unit 0 / 2) 0x3F) ≡ o
        → IsCache (
            if rejected then sets else elim o [
              | none ↦ sets
              | some name ↦
                  if leb (length unit) max_parameter_set then cache_unit sets name unit else sets
            ])
    go true e o f = h
    go false e none f = h
    go false e (some name) f = elim (Bool-cases (leb (length unit) max_parameter_set)) [
      | inl fits ↦
          rw fits (cache_unit-IsCache sets name unit h (passed-IsParameterSet unit name e f))
      | inr long ↦ rw long h
    ]
