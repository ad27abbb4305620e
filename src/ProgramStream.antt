-- ===== src/ProgramStream.antt =====
-- ezviz_stream_bridge/mpeg_ps.py: `ParameterSets`, `make_prelude` and `ProgramStreamInspector`.
mod Units
mod Rounds
mod Stable
pub mod Chunks
pub mod Cache
pub mod Bounds
pub mod MakePrelude
use ezviz_stream_bridge.Prelude.{
  ℕ, zero, suc, ◌+◌, ◌-◌, ◌*◌, ◌/◌, ◌%◌, Bool, true, false, not, ◌&&◌, ◌||◌, Option, none, some,
  List, [], ◌∷◌, ◌++◌, Bytes, length, take, drop, byte_at, slice, from_bytes, ltb, leb, ◌==◌,
  bit_and, find, find_from, keep_last, if◌then◌else◌,
}
use ezviz_stream_bridge.Rtp.Constants.{hevc_vps, hevc_sps, hevc_pps}
use ezviz_stream_bridge.Rtp.Detect.{has_bits}
unfoldable pub use Units.*

-- `ProgramStreamInspector`; an empty `pack_header` is one that was not seen.
pub record Inspector : Type 0 where
  pub pending : Bytes
  pub pack_header : Bytes
  pub video_stream_id : Option ℕ
  pub elementary : Bytes
  pub sets : Sets

abbrev pub new_inspector : Inspector
new_inspector = record {
  pending = [];
  pack_header = [];
  video_stream_id = none;
  elementary = [];
  sets = no_sets;
}

-- What the loop of `_feed_elementary` leaves: the units it inspected are in the sets.
pub record Scanned : Type 0 where
  pub rest : Bytes
  pub cached : Sets

abbrev pub clear_long : Bytes → Bytes
clear_long bytes = if ltb max_parameter_set (length bytes) then [] else bytes

-- The loop of `_feed_elementary`: each round that goes on takes at least three bytes off.
unfoldable pub scan_elementary : ℕ → Bytes → Sets → Scanned
scan_elementary zero elementary sets = record { rest = elementary; cached = sets }
scan_elementary (suc fuel) elementary sets = elim (find start_prefix elementary) [
  | none ↦ record { rest = clear_long elementary; cached = sets }
  | some first ↦ elim (find_from start_prefix elementary (first + 3)) [
    | none ↦ record { rest = clear_long (drop first elementary); cached = sets }
    | some second ↦
        scan_elementary fuel (drop second elementary)
          (inspect_nal sets (slice elementary (first + 3) second))
  ]
]

-- `_feed_elementary`
unfoldable pub feed_elementary : Inspector → Bytes → Inspector
feed_elementary s payload =
    let elementary = s.elementary ++ payload in
    let scanned = scan_elementary (suc (length elementary)) elementary s.sets in
    record s { elementary = scanned.rest; sets = scanned.cached }

-- The loop over the stuffing bytes of an MPEG-1 header.
unfoldable pub skip_stuffing : ℕ → Bytes → ℕ
skip_stuffing position [] = position
skip_stuffing position (b ∷ rest) =
    let further = skip_stuffing (position + 1) rest in if b == 0xFF then further else position

-- The rest of an MPEG-1 header, after its stuffing and its buffer size.
unfoldable pub mpeg1_payload : Bytes → ℕ → Bytes
mpeg1_payload packet position =
    let flag = byte_at packet position / 16 in
    let past =
      if flag == 2
      then position + 5
      else if flag == 3
      then position + 10
      else if byte_at packet position == 0x0F
      then position + 1
      else position in
    if leb (length packet) position then [] else drop past packet

-- `_pes_payload`; `packet[position:]` is empty where the position is past the end.
unfoldable pub pes_payload : Bytes → Bytes
pes_payload packet =
    let stuffed = skip_stuffing 6 (drop 6 packet) in
    let sized =
      if ltb stuffed (length packet) && bit_and (byte_at packet stuffed) 0xC0 == 0x40
      then stuffed + 2
      else stuffed in
    if leb (length packet) 6
    then []
    else if bit_and (byte_at packet 6) 0xC0 == 0x80
    then (if ltb (length packet) 9 then [] else drop (9 + byte_at packet 8) packet)
    else mpeg1_payload packet sized

abbrev pub is_system_code : ℕ → Bool
is_system_code code =
    (leb 0xB9 code && leb code 0xBC) || code == 0xBE || code == 0xBF || leb 0xC0 code

-- `_next_system_start`; `none` is its -1. Each round goes on three bytes further.
unfoldable pub next_system_start : ℕ → Bytes → ℕ → Option ℕ
next_system_start zero bytes position = none
next_system_start (suc fuel) bytes position = elim (find_from start_prefix bytes position) [
  | none ↦ none
  | some found ↦
      let further = next_system_start fuel bytes (found + 3) in
      if leb (length bytes) (found + 3)
      then none
      else if is_system_code (byte_at bytes (found + 3))
      then some found
      else further
]

-- One round of the loop of `_parse`: it returns, or goes on.
pub data Round : Type 0 where
  waits goes_on : Inspector → Round

abbrev pub is_pes_code : ℕ → Bool
is_pes_code code = code == 0xBB || code == 0xBC || code == 0xBE || code == 0xBF || leb 0xC0 code

-- The size of a pack header; `none` where more bytes are needed to know it.
unfoldable pub pack_size : Bytes → Option ℕ
pack_size pending =
    if ltb (length pending) 5
    then none
    else if bit_and (byte_at pending 4) 0xC0 == 0x40
    then (if ltb (length pending) 14 then none else some (14 + bit_and (byte_at pending 13) 0x07))
    else some 12

-- The size of a PES packet, likewise.
unfoldable pub pes_size : Bytes → ℕ → Option ℕ
pes_size pending code =
    let size = from_bytes (slice pending 4 6) in
    if ltb (length pending) 6
    then none
    else if size == 0 && is_video code
    then next_system_start (length pending) pending 6
    else some (6 + size)

-- `if payload: self._feed_elementary(payload)`
abbrev pub feed_payload : Inspector → Bytes → Inspector
feed_payload s [] = s
feed_payload s (b ∷ rest) = feed_elementary s (b ∷ rest)

-- What a whole PES packet does.
unfoldable pub take_pes : Inspector → ℕ → Bytes → Inspector
take_pes s code packet =
    if is_video code
    then feed_payload (record s { video_stream_id = some code }) (pes_payload packet)
    else s

-- The branch of a round that takes `total` bytes, once they are there.
abbrev pub when_whole : Inspector → Option ℕ → (ℕ → Inspector) → Round
when_whole s none whole = waits s
when_whole s (some total) whole =
    if ltb (length s.pending) total then waits s else goes_on (whole total)

-- A round on a buffer that begins with a start code.
unfoldable pub parse_code : Inspector → Round
parse_code s =
    let code = byte_at s.pending 3 in
    if ltb (length s.pending) 4
    then waits s
    else if code == pack_code
    then when_whole s (pack_size s.pending)
        (λ size. record s { pack_header = take size s.pending; pending = drop size s.pending })
    else if code == 0xB9
    then goes_on (record s { pending = drop 4 s.pending })
    else if is_pes_code code
    then when_whole s (pes_size s.pending code) (λ total.
      record (take_pes s code (take total s.pending)) { pending = drop total s.pending })
    else goes_on (record s { pending = drop 4 s.pending })

unfoldable pub parse_round : Inspector → Round
parse_round s = elim (find start_prefix s.pending) [
  | none ↦ waits (record s { pending = keep_last 3 s.pending })
  | some start ↦ parse_code (record s { pending = drop start s.pending })
]

-- The loop of `_parse`: each round that goes on takes at least four bytes off.
unfoldable pub parse_loop : ℕ → Inspector → Inspector
parse_loop zero s = s
parse_loop (suc fuel) s = elim (parse_round s) [ waits s' ↦ s' | goes_on s' ↦ parse_loop fuel s' ]

-- `_parse`
unfoldable pub parse : Inspector → Inspector
parse s = parse_loop (suc (length s.pending)) s

abbrev pub nonempty : Bytes → Bool
nonempty [] = false
nonempty (b ∷ rest) = true

-- `complete`
abbrev pub is_complete : Inspector → Bool
is_complete s = all_names s.sets && nonempty s.pack_header

-- `snapshot`
unfoldable pub snapshot : Inspector → Option ParameterSets
snapshot s =
    if is_complete s
    then elim s.video_stream_id [
      | none ↦ none
      | some id ↦ some (record { stream_id = id; pack_header = s.pack_header; sets = s.sets })
    ]
    else none

-- The bound on the buffer in `feed`.
unfoldable pub receive : Inspector → Bytes → Inspector
receive s chunk =
    let pending = s.pending ++ chunk in
    if ltb max_pending (length pending)
    then record s { pending = keep_last 4 pending; elementary = [] }
    else record s { pending = pending }

-- `feed`, which returns a snapshot once the sets are complete.
unfoldable pub feed : Inspector → Bytes → Inspector × Option ParameterSets
unfolding receive parse
feed s chunk = let s' = parse (receive s chunk) in (s', snapshot s')

-- What `flush` does to the buffer of the elementary stream.
unfoldable pub flush_elementary : Inspector → Inspector
flush_elementary s = elim (find start_prefix s.elementary) [
  | none ↦ record s { elementary = [] }
  | some start ↦ record s {
    sets = inspect_nal s.sets (drop (start + 3) s.elementary);
    elementary = [];
  }
]

-- `flush`
unfoldable pub flush : Inspector → Inspector × Option ParameterSets
unfolding flush_elementary
flush s = let s' = flush_elementary s in (s', snapshot s')
