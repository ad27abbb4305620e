-- ===== src/Tests/Remux.antt =====
-- ezviz_stream_bridge/session.py: a whole session, whose picture ends behind the leading packets.
use ezviz_stream_bridge.Prelude.{
  ◌≡◌, refl, ap, ◌∙◌, inr, Bool, true, false, none, some, List, [], ◌∷◌, ◌++◌, Bytes, All, map,
  ◌||◌, find, starts_with, arith,
}
use ezviz_stream_bridge.Rtp.Constants.{h264}
use ezviz_stream_bridge.Rtp.Packing.{annex_b}
use ezviz_stream_bridge.Rtp.Detect.{
  detect_codec, detect_parameter_set, aggregated_codec, aggregated_codec_loop, contains,
}
use ezviz_stream_bridge.Rtp.Depacketizer.Wire.{Single, Start, More, Carries, Wire}
use ezviz_stream_bridge.Session.Prefix.{
  classify_payload, find_sync, looks_like_mpeg_ts, sync_repeats, payload_type_of, codec_of,
  carries_media,
}
use ezviz_stream_bridge.Session.Plan.{
  Caches, codec_plan, remember_parameter_sets, named_codec, decide,
}
use ezviz_stream_bridge.Session.Accept.{Metrics, new_metrics, accept, count_video, note_media}
use ezviz_stream_bridge.Session.Reading.{
  Item, yields, raises, finishes, plan_prefix, plan_audio, prefix_loop, with_audio, read_prefix,
}
use ezviz_stream_bridge.Session.Reading.Kept.{IsCalm, IsBroken, at_raise, at_locked, behind, bodies}
use ezviz_stream_bridge.Session.Pump.{Pumped}
use ezviz_stream_bridge.Session.Pump.Delivers.{Serves}
use ezviz_stream_bridge.Session.Remux.{Surroundings, remuxed, remux}
use ezviz_stream_bridge.Session.Remux.EndToEnd.{remux-Serves}
use ezviz_stream_bridge.Tests.Rtp.{
  unwrap, packet, sps, picture, first_fragment, last_fragment, payload_type-packet,
}
use ezviz_stream_bridge.Tests.Plan.{empty_caches}

abbrev arrival : Bytes → Item
arrival body = yields (record {
  cancelled = false;
  is_stream = true;
  encrypted = false;
  body = body;
  elapsed = 40;
  recorded = 41;
  now = 140;
  cancelled_after = false;
})

abbrev prefix : List Bytes
prefix =
    packet sps
    ∷ packet []
    ∷ packet []
    ∷ packet []
    ∷ packet []
    ∷ packet []
    ∷ packet []
    ∷ packet first_fragment
    ∷ []

abbrev rest : List Item
rest = arrival (packet last_fragment) ∷ []

abbrev sent : List Bytes
sent = prefix ++ (packet last_fragment ∷ [])

abbrev items : List Item
items = map arrival sent

abbrev metrics : Metrics
metrics = record {
  first_video_at = some 41;
  video_packets = 8;
  media = (some 96, record { first = 40; last = 40; span_packets = 2 }) ∷ [];
}

prefix_read : prefix_loop unwrap items [] new_metrics ≡ finishes prefix metrics rest
unfolding prefix_loop accept count_video note_media carries_media payload_type_of unwrap
prefix_read = refl

abbrev caches : Caches
caches = remember_parameter_sets unwrap 7 prefix h264 (some 96) empty_caches

decided : decide unwrap 7 prefix empty_caches ≡ (codec_plan h264 (some 96) prefix [], caches)
unfolding decide classify_payload find starts_with find_sync looks_like_mpeg_ts sync_repeats
    named_codec codec_of unwrap payload_type_of detect_codec detect_parameter_set aggregated_codec
    aggregated_codec_loop contains
decided = refl

is_read :
    read_prefix unwrap 7 0 100 false empty_caches items new_metrics
    ≡ (finishes (codec_plan h264 (some 96) prefix []) metrics rest, caches)
unfolding read_prefix with_audio
is_read =
    ap (plan_prefix unwrap 7 0 100 false empty_caches) prefix_read
    ∙ ap (λ r. (plan_audio unwrap 0 100 r.0 r.0.codec rest metrics, r.1)) decided

abbrev around : Surroundings
around = record {
  audio_answers = [];
  video_answers = [];
  stdin_failing = [];
  races = λ n. record { in_unpack = false; before_flush = false; now = 0 };
  begins = 0;
  is_gone = false;
  cancelled = false;
}

arrival-IsCalm : (bodies_ : List Bytes) → All IsCalm (map arrival bodies_)
arrival-IsCalm [] = tt
arrival-IsCalm (body ∷ bodies_) = ((refl, refl), arrival-IsCalm bodies_)

abbrev has_fault : List Item → Bool
has_fault [] = false
has_fault (yields a ∷ later) = a.encrypted || has_fault later
has_fault (raises cancelled ∷ later) = true

has_fault-later :
    (item : Item) (later : List Item) → has_fault later ≡ true → has_fault (item ∷ later) ≡ true
has_fault-later (yields a) later e = ground arith
has_fault-later (raises cancelled) later e = refl

IsBroken-has_fault : {later : List Item} → IsBroken later → has_fault later ≡ true
IsBroken-has_fault (at_raise cancelled later) = refl
IsBroken-has_fault (at_locked a later is_stream locked) = ap (λ b. b || has_fault later) locked
IsBroken-has_fault (behind item later broken) =
    has_fault-later item later (IsBroken-has_fault broken)

has_fault-arrival : (bodies_ : List Bytes) → has_fault (map arrival bodies_) ≡ false
has_fault-arrival [] = refl
has_fault-arrival (body ∷ bodies_) = has_fault-arrival bodies_

arrival-IsBroken : (bodies_ : List Bytes) → IsBroken (map arrival bodies_) → ⊥
arrival-IsBroken bodies_ broken =
    let fault = IsBroken-has_fault broken in let clear = has_fault-arrival bodies_ in cc

empty_packet :
    {packets nals : List Bytes}
    → Wire unwrap h264 (some 96) none packets nals
    → Wire unwrap h264 (some 96) none (packet [] ∷ packets) nals
unfolding unwrap
empty_packet w = Wire.no_media (packet []) refl w

carries : (payload : Bytes) → Carries unwrap h264 (some 96) (packet payload) payload
unfolding unwrap
carries payload = record { unwraps = ground arith; is_ours = inr (payload_type-packet payload) }

Wire-items : Wire unwrap h264 (some 96) none (bodies items) (sps ∷ picture ∷ [])
Wire-items =
    Wire.single (packet sps) sps
      (Single.h264_single 103 (77 ∷ 0 ∷ 41 ∷ []) (omega arith) (omega arith) (omega arith))
      (carries sps)
      (empty_packet (
        empty_packet (
          empty_packet (
            empty_packet (
              empty_packet (
                empty_packet (
                  Wire.starts (packet first_fragment) first_fragment (101 ∷ 10 ∷ 20 ∷ [])
                    (Start.fu_a 101 (10 ∷ 20 ∷ []) (omega arith)) (omega arith)
                    (carries first_fragment)
                    (Wire.finishes (packet last_fragment) last_fragment (101 ∷ 10 ∷ 20 ∷ [])
                      (30 ∷ []) (More.fu_a 101 true (30 ∷ []) (omega arith)) (omega arith)
                      (carries last_fragment) Wire.ends))))))))

remux-Serves_example :
    (pumped : Pumped) × (remux unwrap around 7 0 100 false false empty_caches items new_metrics
      ≡ remuxed (codec_plan h264 (some 96) prefix []) pumped)
    × Serves (([] ++ []) ++ annex_b (sps ∷ picture ∷ [])) pumped
remux-Serves_example =
    remux-Serves unwrap around 7 h264 0 100 empty_caches caches items rest new_metrics metrics
      (codec_plan h264 (some 96) prefix []) (arrival-IsCalm sent) (arrival-IsBroken sent) refl
      is_read refl refl Wire-items
