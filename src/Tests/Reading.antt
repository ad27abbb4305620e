-- ===== src/Tests/Reading.antt =====
-- ezviz_stream_bridge/session.py: the leading packets of one session.
use ezviz_stream_bridge.Prelude.{refl, Bool, true, false, List, [], ◌∷◌, Bytes, All}
use ezviz_stream_bridge.Session.Plan.{Caches}
use ezviz_stream_bridge.Session.Accept.{new_metrics}
use ezviz_stream_bridge.Session.Reading.{Item, yields, read_prefix}
use ezviz_stream_bridge.Session.Reading.Kept.{IsCalm}
use ezviz_stream_bridge.Session.Reading.Whole.{IsRead, read_prefix-IsRead}
use ezviz_stream_bridge.Tests.Rtp.{unwrap, packet, sps, first_fragment, last_fragment}

-- A packet, of a stream channel or of another one.
abbrev arrival : Bool → Bytes → Item
arrival is_stream body = yields (record {
  cancelled = false;
  is_stream = is_stream;
  encrypted = false;
  body = body;
  elapsed = 40;
  recorded = 41;
  now = 140;
  cancelled_after = false;
})

abbrev items : List Item
items =
    arrival true (packet sps)
    ∷ arrival false (1 ∷ [])
    ∷ arrival true []
    ∷ arrival true (packet first_fragment)
    ∷ arrival true (packet last_fragment)
    ∷ []

abbrev no_caches : Caches
no_caches = record { rtp_sets = []; ps_sets = [] }

IsCalm-items : All IsCalm items
IsCalm-items = ((refl, refl), ((refl, refl), ((refl, refl), ((refl, refl), ((refl, refl), tt)))))

read_prefix-IsRead_example :
    IsRead unwrap [] new_metrics items
      (read_prefix unwrap 7 2000 100 false no_caches items new_metrics).0
read_prefix-IsRead_example =
    read_prefix-IsRead unwrap 7 2000 100 no_caches items new_metrics IsCalm-items
