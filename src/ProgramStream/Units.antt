-- ===== src/ProgramStream/Units.antt =====
-- ezviz_stream_bridge/mpeg_ps.py, lines 14 to 66 and 186 to 204: the parameter sets, their prelude and
-- the cache of them.
use ezviz_stream_bridge.Prelude.{
  ℕ, ◌+◌, ◌*◌, ◌/◌, ◌%◌, Bool, true, false, not, ◌&&◌, ◌||◌, Option, none, some, List, [], ◌∷◌,
  ◌++◌, Bytes, length, byte_at, ltb, leb, ◌==◌, bit_and, if◌then◌else◌,
}
use ezviz_stream_bridge.Rtp.Constants.{hevc_vps, hevc_sps, hevc_pps}
use ezviz_stream_bridge.Rtp.Detect.{has_bits}

abbrev pub start_prefix : Bytes
start_prefix = 0 ∷ 0 ∷ 1 ∷ []

abbrev pub pack_code : ℕ
pack_code = 0xBA

abbrev pub video_min : ℕ
video_min = 0xE0

abbrev pub video_max : ℕ
video_max = 0xEF

abbrev pub max_pending : ℕ
max_pending = 2 * 1024 * 1024

abbrev pub max_parameter_set : ℕ
max_parameter_set = 1024 * 1024

abbrev pub max_parameter_sets_per_type : ℕ
max_parameter_sets_per_type = 64

abbrev pub max_parameter_sets_bytes : ℕ
max_parameter_sets_bytes = 1024 * 1024

abbrev pub pes_packet_length_max : ℕ
pes_packet_length_max = 0xFFFF

-- The names of `_HEVC_TYPES`.
pub data SetName : Type 0 where
  vps sps pps : SetName

-- `_HEVC_TYPES.get(kind)`
abbrev pub hevc_name : ℕ → Option SetName
hevc_name kind =
    if kind == hevc_vps
    then some vps
    else if kind == hevc_sps
    then some sps
    else if kind == hevc_pps
    then some pps
    else none

-- The dict `_sets`, which holds a list for each of the three names.
pub record Sets : Type 0 where
  pub vps_units : List Bytes
  pub sps_units : List Bytes
  pub pps_units : List Bytes

abbrev pub no_sets : Sets
no_sets = record { vps_units = []; sps_units = []; pps_units = [] }

-- `self._sets[name]`
abbrev pub group_of : Sets → SetName → List Bytes
group_of sets vps = sets.vps_units
group_of sets sps = sets.sps_units
group_of sets pps = sets.pps_units

-- `group.append(unit)`
abbrev pub add_unit : Sets → SetName → Bytes → Sets
add_unit sets vps unit = record sets { vps_units = sets.vps_units ++ (unit ∷ []) }
add_unit sets sps unit = record sets { sps_units = sets.sps_units ++ (unit ∷ []) }
add_unit sets pps unit = record sets { pps_units = sets.pps_units ++ (unit ∷ []) }

abbrev pub sum_sizes : List Bytes → ℕ
sum_sizes [] = 0
sum_sizes (unit ∷ units) = length unit + sum_sizes units

-- The `cached_size` of `_inspect_nal`.
abbrev pub cached_size : Sets → ℕ
cached_size sets = sum_sizes sets.vps_units + sum_sizes sets.sps_units + sum_sizes sets.pps_units

-- `ParameterSets`
pub record ParameterSets : Type 0 where
  pub stream_id : ℕ
  pub pack_header : Bytes
  pub sets : Sets

abbrev pub some_units : List Bytes → Bool
some_units [] = false
some_units (unit ∷ units) = true

-- `ParameterSets.complete`
abbrev pub all_names : Sets → Bool
all_names sets = some_units sets.vps_units && some_units sets.sps_units && some_units sets.pps_units

-- The join over one group in `as_annex_b`.
abbrev pub join_annex_b : List Bytes → Bytes
join_annex_b [] = []
join_annex_b (unit ∷ units) = (0 ∷ start_prefix) ++ (unit ++ join_annex_b units)

unfoldable pub as_annex_b : Sets → Bytes
as_annex_b sets =
    join_annex_b sets.vps_units ++ (join_annex_b sets.sps_units ++ join_annex_b sets.pps_units)

abbrev pub is_video : ℕ → Bool
is_video code = leb video_min code && leb code video_max

-- `make_prelude`
unfoldable pub make_prelude : ParameterSets → Bytes
make_prelude cached =
    let elementary = as_annex_b cached.sets in
    let packet_length = length elementary + 8 in
    let encoded_length =
      if leb packet_length pes_packet_length_max
      then packet_length / 256 ∷ packet_length % 256 ∷ []
      else 0 ∷ 0 ∷ [] in
    if not (all_names cached.sets) || not (is_video cached.stream_id)
    then []
    else cached.pack_header
      ++ (start_prefix
          ++ (cached.stream_id
              ∷ (encoded_length
                  ++ (0x80 ∷ 0x80 ∷ 0x05 ∷ 0x21 ∷ 0x00 ∷ 0x01 ∷ 0x00 ∷ 0x01 ∷ elementary))))

abbrev pub same_bytes : Bytes → Bytes → Bool
same_bytes [] [] = true
same_bytes (a ∷ xs) (b ∷ ys) = a == b && same_bytes xs ys
same_bytes _ _ = false

-- `unit in group`
abbrev pub holds_unit : Bytes → List Bytes → Bool
holds_unit unit [] = false
holds_unit unit (cached ∷ group) = same_bytes unit cached || holds_unit unit group

-- The bounds of `_inspect_nal` on a unit of a known type.
unfoldable pub cache_unit : Sets → SetName → Bytes → Sets
cache_unit sets name unit =
    let group = group_of sets name in
    if not (holds_unit unit group)
      && ltb (length group) max_parameter_sets_per_type
      && leb (cached_size sets + length unit) max_parameter_sets_bytes
    then add_unit sets name unit
    else sets

-- `_inspect_nal`
unfoldable pub inspect_nal : Sets → Bytes → Sets
unfolding cache_unit
inspect_nal sets unit =
    let first = byte_at unit 0 in
    let second = byte_at unit 1 in
    if ltb (length unit) 2 || has_bits first 0x80 || has_bits first 0x01 || bit_and second 0x07 == 0
    then sets
    else elim (hevc_name (bit_and (first / 2) 0x3F)) [
      | none ↦ sets
      | some name ↦ if leb (length unit) max_parameter_set then cache_unit sets name unit else sets
    ]
