-- ===== src/Mold/Gaps.antt =====
-- The gap tracker of include/pricetime/moldudp64.hpp.
use pricetime.Common.{ℕ, ◌+◌, ◌≤◌, ◌<◌, ◌≡◌, true, arith, u64, if◌then◌else◌, ◌%◌}
use pricetime.Mold.{Header, GapTracker, carries, on_packet}

-- The messages that a packet carries.
abbrev pub carried : Header → ℕ
carried hdr = if carries hdr then hdr.count else 0

-- Once the tracker has started, and for a packet whose last sequence number is below 2 ^ 64: the
-- position never goes back; for a packet at or after the position, it advances by what was
-- missed and what the packet carries; a packet from the past changes nothing and counts nothing;
-- and the total grows by what was missed, modulo 2 ^ 64.
pub on_packet_advances :
    (t : GapTracker) (hdr : Header)
    → t.started ≡ true
    → hdr.sequence + hdr.count < u64
    → let (t', missed) = on_packet t hdr in
      (t.next ≤ t'.next)
      × (t.next ≤ hdr.sequence → t'.next ≡ t.next + missed + carried hdr)
      × (hdr.sequence < t.next → (t'.next ≡ t.next) × (missed ≡ 0))
      × (t'.started ≡ true)
      × (t'.total_missed ≡ (t.total_missed + missed) % u64)
unfolding on_packet
on_packet_advances t hdr s h =
    (ground arith, λ k. ground arith, λ k. (ground arith, ground arith), ground arith, ground arith)
