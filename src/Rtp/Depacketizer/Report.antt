-- ===== src/Rtp/Depacketizer/Report.antt =====
-- About the property `payload_types`.
use mathlib.Core.List.{Perm}
use mathlib.Core.List.Perm
use ezviz_stream_bridge.Prelude.{
  ℕ, ◌+◌, ◌≤◌, ◌≡◌, refl, Option, List, [], ◌∷◌, Bytes, All, arith, leb, Bool-cases, inl, inr,
}
use ezviz_stream_bridge.Rtp.Constants.{Codec}
use ezviz_stream_bridge.Rtp.Depacketizer.{
  PayloadTypeStat, new_depacketizer, feed_all, insert_stat, sort_stats, payload_types,
}
use ezviz_stream_bridge.Rtp.Depacketizer.Account.{
  IsStat, counted, accepted, feed_all-counted, feed_all-IsStat,
}

-- Every later entry has at most `bound` packets, and so on down the list.
abbrev pub IsDescending : List PayloadTypeStat → Type 0
IsDescending [] = Unit {0}
IsDescending (stat ∷ stats) = All (λ s. s.packets ≤ stat.packets) stats × IsDescending stats

module _ {ℓ} (P : PayloadTypeStat → Type ℓ) where
  insert_stat-All :
      (stat : PayloadTypeStat) (stats : List PayloadTypeStat)
      → P stat
      → All P stats
      → All P (insert_stat stat stats)
  unfolding insert_stat
  insert_stat-All stat [] h hs = (h, hs)
  insert_stat-All stat (next ∷ stats) h hs = elim (Bool-cases (leb next.packets stat.packets)) [
    | inl before ↦ rw before (h, hs)
    | inr after ↦ rw after (hs.0, insert_stat-All stat stats h hs.1)
  ]

  sort_stats-All : (stats : List PayloadTypeStat) → All P stats → All P (sort_stats stats)
  unfolding sort_stats
  sort_stats-All [] h = h
  sort_stats-All (stat ∷ stats) h =
      insert_stat-All stat (sort_stats stats) h.0 (sort_stats-All stats h.1)

All-weaken :
    (n m : ℕ) (stats : List PayloadTypeStat)
    → n ≤ m
    → All (λ s. s.packets ≤ n) stats
    → All (λ s. s.packets ≤ m) stats
All-weaken n m [] h hs = tt
All-weaken n m (stat ∷ stats) h hs = (omega (arith, hs.0), All-weaken n m stats h hs.1)

insert_stat-IsDescending :
    (stat : PayloadTypeStat) (stats : List PayloadTypeStat)
    → IsDescending stats
    → IsDescending (insert_stat stat stats)
unfolding insert_stat
insert_stat-IsDescending stat [] h = (tt, tt)
insert_stat-IsDescending stat (next ∷ stats) h = elim (Bool-cases (leb next.packets stat.packets)) [
  | inl before ↦
      let le : next.packets ≤ stat.packets = ground arith in
      rw before ((le, All-weaken next.packets stat.packets stats le h.0), h)
  | inr after ↦ rw after (
    insert_stat-All (λ s. s.packets ≤ next.packets) stat stats (ground arith) h.0,
    insert_stat-IsDescending stat stats h.1,
  )
]

sort_stats-IsDescending : (stats : List PayloadTypeStat) → IsDescending (sort_stats stats)
unfolding sort_stats
sort_stats-IsDescending [] = tt
sort_stats-IsDescending (stat ∷ stats) =
    insert_stat-IsDescending stat (sort_stats stats) (sort_stats-IsDescending stats)

insert_stat-perm :
    (stat : PayloadTypeStat) (stats : List PayloadTypeStat)
    → Perm (insert_stat stat stats) (stat ∷ stats)
unfolding insert_stat
insert_stat-perm stat [] = Perm.refl _
insert_stat-perm stat (next ∷ stats) = elim (Bool-cases (leb next.packets stat.packets)) [
  | inl before ↦ rw before (Perm.refl _)
  | inr after ↦
      rw after (Perm.trans (Perm.cons next (insert_stat-perm stat stats)) (Perm.swap _ _ _))
]

sort_stats-perm : (stats : List PayloadTypeStat) → Perm (sort_stats stats) stats
unfolding sort_stats
sort_stats-perm [] = Perm.refl []
sort_stats-perm (stat ∷ stats) =
    Perm.trans (insert_stat-perm stat (sort_stats stats)) (Perm.cons stat (sort_stats-perm stats))

counted-insert_stat :
    (stat : PayloadTypeStat) (stats : List PayloadTypeStat)
    → counted (insert_stat stat stats) ≡ stat.packets + counted stats
unfolding insert_stat
counted-insert_stat stat [] = refl
counted-insert_stat stat (next ∷ stats) = ground (arith, counted-insert_stat stat stats)

counted-sort_stats : (stats : List PayloadTypeStat) → counted (sort_stats stats) ≡ counted stats
unfolding sort_stats
counted-sort_stats [] = refl
counted-sort_stats (stat ∷ stats) =
    omega (arith, counted-insert_stat stat (sort_stats stats), counted-sort_stats stats)

-- After any packets the report lists the entries of the breakdown, the busiest first; their counts
-- add up to the packets that the unwrap accepted, and each entry is well formed.
pub payload_types_report :
    (rtp_payload : Bytes → Option Bytes) (codec : Codec) (expected : Option ℕ)
    (packets : List Bytes)
    → (let d = (feed_all rtp_payload (new_depacketizer codec expected) packets []).0 in
        Perm (payload_types d) d.types
        × IsDescending (payload_types d)
        × (counted (payload_types d) ≡ accepted rtp_payload packets)
        × All IsStat (payload_types d))
unfolding payload_types
payload_types_report rtp_payload codec expected packets =
    let d = (feed_all rtp_payload (new_depacketizer codec expected) packets []).0 in
    (
      sort_stats-perm d.types,
      sort_stats-IsDescending d.types,
      omega (
        arith,
        counted-sort_stats d.types,
        feed_all-counted rtp_payload packets (new_depacketizer codec expected) [],
      ),
      sort_stats-All IsStat d.types
          (feed_all-IsStat rtp_payload packets (new_depacketizer codec expected) [] tt),
    )
