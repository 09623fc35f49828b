-- ===== src/Engine/Datagrams.antt =====
-- `md_loop` of include/pricetime/engine.hpp on the messages that it takes off its queue, oldest first:
-- one MoldUDP64 packet for each, and one for the end of the session. Whether the socket sends a packet
-- is an argument.
use pricetime.Common.{
  ℕ, ◌+◌, ◌≤◌, ◌<◌, ◌-◌, length-drop, ◌/◌, ◌%◌, ◌≡◌, refl, ap, ◌∙◌, subst, List, [], ◌∷◌, ◌++◌,
  append_assoc, append-nil, Bool, true, false, Option, some, ltb, ◌&&◌, if◌then◌else◌, All, length,
  drop, take, arith, add_u64, u64, u16,
}
use pricetime.Itch.{be16, be64}
use pricetime.Itch.Stream.{frame}
use pricetime.Mold.{
  Packer, Header, new_packer, begin, add, seal, seal_end_of_session, unpack, unpack_blocks,
  read_header, end_of_session,
}
use pricetime.Mold.Blocks.{numbered, unpack_blocks-stream}
use pricetime.Engine.Rebuild.{payloads}

pub record MdThread : Type 0 where
  pub packer : Packer
  pub seq : ℕ
  pub md_datagrams : ℕ
  pub packets : List (List ℕ)

-- The session name that the packer takes if none is given.
abbrev pub session_name : List ℕ
session_name = b'P' ∷ b'R' ∷ b'I' ∷ b'C' ∷ b'E' ∷ b'T' ∷ b'I' ∷ b'M' ∷ b'E' ∷ b' ' ∷ []

abbrev pub new_thread : MdThread
new_thread = record { packer = new_packer session_name; seq = 1; md_datagrams = 0; packets = [] }

module _ (sends : List ℕ → Bool) where
  -- The packet is offered to the socket, and counted if it was sent.
  unfoldable pub send_packet : MdThread → List ℕ → MdThread
  send_packet t pkt = record t {
    packets = t.packets ++ pkt ∷ [];
    md_datagrams = if sends pkt then add_u64 t.md_datagrams 1 else t.md_datagrams;
  }

  -- One framed message, whose own length prefix is left out.
  unfoldable pub publish : MdThread → List ℕ → MdThread
  unfolding send_packet
  publish t m =
      let p = begin t.packer t.seq in
      let (q, ok) = add p (drop 2 m) in
      if ltb (length m) 2
      then record t { packer = p }
      else if ok
      then send_packet (record t { packer = q; seq = add_u64 t.seq q.count }) (seal q)
      else record t { packer = q }

  unfoldable pub md_loop : Bool → List (List ℕ) → MdThread → MdThread
  unfolding publish
  md_loop enabled [] t = if enabled then send_packet t (seal_end_of_session t.packer t.seq) else t
  md_loop enabled (m ∷ ms) t = md_loop enabled ms (publish t m)

-- What a receiver makes of packets: the calls of its handler, and whether all were well formed.
unfoldable pub receive : List (List ℕ) → List (ℕ × List ℕ) × Bool
receive [] = ([], true)
receive (pkt ∷ pkts) =
    let (hdr, calls, good) = unpack pkt in
    let (later, all_good) = receive pkts in (calls ++ later, good && all_good)

sequence_bytes : ℕ → List ℕ
sequence_bytes v =
    (v / 0x100000000000000 % 256)
    ∷ (v / 0x1000000000000 % 256)
    ∷ (v / 0x10000000000 % 256)
    ∷ (v / 0x100000000 % 256)
    ∷ (v / 0x1000000 % 256)
    ∷ (v / 0x10000 % 256)
    ∷ (v / 0x100 % 256)
    ∷ (v % 256)
    ∷ []

be64-sequence_bytes : (v : ℕ) → v < u64 → be64 (sequence_bytes v) 0 ≡ v
unfolding sequence_bytes
be64-sequence_bytes v h = omega arith

-- A packer that holds one message.
holding : ℕ → List ℕ → Packer
holding seq m = record { session = session_name; blocks = frame m; count = 1; first_seq = seq }

abbrev as_header : ℕ → Header
as_header v = record { session = session_name; sequence = v; count = 1 }

by_header :
    (pkt : List ℕ) (seq : ℕ) (calls : List (ℕ × List ℕ))
    → 20 ≤ length pkt
    → read_header pkt ≡ record { session = session_name; sequence = seq; count = 1 }
    → unpack_blocks 1 seq (drop 20 pkt) ≡ (calls, true)
    → unpack pkt
      ≡ (some (record { session = session_name; sequence = seq; count = 1 }), calls, true)
unfolding unpack
by_header pkt seq calls l e b =
    let counted : be16 pkt 18 ≡ 1 = ap (λ h. h.count) e in
    let numbering : be64 pkt 10 ≡ seq = ap (λ h. h.sequence) e in
    let named : take 10 pkt ≡ session_name = ap (λ h. h.session) e in
    let short : ltb (length pkt) 20 ≡ false = ground arith in
    rw (short, counted, numbering, named, b) refl

holding-unpack :
    (seq : ℕ) (m : List ℕ)
    → seq < u64
    → 0 < length m
    → length m < u16
    → unpack (seal (holding seq m))
      ≡ (some (record { session = session_name; sequence = seq; count = 1 }), (seq, m) ∷ [], true)
unfolding holding seal sequence_bytes
holding-unpack seq m h k l =
    let found : be64 (sequence_bytes seq) 0 ≡ seq = be64-sequence_bytes seq h in
    let blocks : unpack_blocks 1 seq (frame m) ≡ ((seq, m) ∷ [], true) =
      subst (λ b. unpack_blocks 1 seq b ≡ ((seq, m) ∷ [], true)) (append-nil (frame m))
        (unpack_blocks-stream (m ∷ []) seq ((k, l), tt)) in
    let header : read_header (seal (holding seq m))
        ≡ record { session = session_name; sequence = seq; count = 1 } =
      ap as_header found in
    by_header (seal (holding seq m)) seq ((seq, m) ∷ []) (omega arith) header blocks

receive-append :
    (ps : List (List ℕ)) (pkt : List ℕ) (hdr : Option Header) (calls : List (ℕ × List ℕ))
    → unpack pkt ≡ (hdr, calls, true)
    → receive (ps ++ pkt ∷ []) ≡ ((receive ps).0 ++ calls, (receive ps).1)
unfolding receive
receive-append [] pkt hdr calls e = rw e (let z = append-nil calls in rw z refl)
receive-append (p ∷ ps) pkt hdr calls e =
    let ih = receive-append ps pkt hdr calls e in
    let z = append_assoc (unpack p).1 (receive ps).0 calls in rw ih (rw z refl)

abbrev closing : ℕ → Option Header × List (ℕ × List ℕ) × Bool
closing v =
    (some (record { session = session_name; sequence = v; count = end_of_session }), [], true)

end-unpack :
    (p : Packer) (seq : ℕ)
    → p.session ≡ session_name
    → seq < u64
    → unpack (seal_end_of_session p seq)
      ≡ (some (record { session = session_name; sequence = seq; count = end_of_session }), [], true)
unfolding seal_end_of_session unpack sequence_bytes
end-unpack p seq e h =
    let found : be64 (sequence_bytes seq) 0 ≡ seq = be64-sequence_bytes seq h in
    rw e (ap closing found)

-- What one message does to a thread.
record IsPublished (t : MdThread) (m : List ℕ) (t' : MdThread) : Type 0 where
  named : t'.packer.session ≡ session_name
  advanced : t'.seq ≡ t.seq + 1
  packed : t'.packets ≡ t.packets ++ seal (holding t.seq (drop 2 m)) ∷ []

abbrev then_all : List (ℕ × List ℕ) → List (ℕ × List ℕ) × Bool → List (ℕ × List ℕ) × Bool
then_all cs r = (r.0 ++ cs, r.1)

abbrev pub FitsPacket : List ℕ → Type 0
FitsPacket m = (2 < length m) × (length m ≤ 1380)

module _ (sends : List ℕ → Bool) where
  publish-IsPublished :
      (t : MdThread) (m : List ℕ)
      → t.packer.session ≡ session_name
      → t.seq + 1 < u64
      → FitsPacket m
      → IsPublished t m (publish sends t m)
  unfolding publish send_packet begin add holding
  publish-IsPublished t m e h f =
      let long : ltb (length m) 2 ≡ false = ground (arith, f) in
      let cut : length (drop 2 m) ≡ length m - 2 = length-drop 2 m in
      let room : ltb 1400 (20 + 0 + 2 + length (drop 2 m)) ≡ false = ground (arith, f, cut) in
      rw (long, room) (record { named = e; advanced = omega arith; packed = rw e refl })

  receive-md_loop_from :
      (ms : List (List ℕ)) (t : MdThread)
      → t.packer.session ≡ session_name
      → t.seq + length ms < u64
      → All FitsPacket ms
      → let t' = md_loop sends true ms t in
        (receive t'.packets
          ≡ ((receive t.packets).0 ++ numbered t.seq (payloads ms), (receive t.packets).1))
        × (t'.seq ≡ t.seq + length ms)
  unfolding md_loop send_packet
  receive-md_loop_from [] t e h v =
      let closed = end-unpack t.packer t.seq e (omega arith) in
      (receive-append t.packets (seal_end_of_session t.packer t.seq) _ [] closed, omega arith)
  receive-md_loop_from (m ∷ ms) t e h v =
      let p = publish-IsPublished t m e (omega arith) v.0 in
      let t1 = publish sends t m in
      let body = drop 2 m in
      let cut : length body ≡ length m - 2 = length-drop 2 m in
      let read =
        holding-unpack t.seq body (omega arith) (omega (arith, cut, v.0))
          (omega (arith, cut, v.0)) in
      let one =
        ap receive p.packed
        ∙ receive-append t.packets (seal (holding t.seq body)) _ ((t.seq, body) ∷ []) read in
      let (rest, counted) = receive-md_loop_from ms t1 p.named (omega (arith, p.advanced, h)) v.1 in
      let next : t1.seq ≡ add_u64 t.seq 1 = omega (arith, p.advanced, h) in
      let glued =
        append_assoc (receive t.packets).0 ((t.seq, body) ∷ []) (numbered t1.seq (payloads ms))
        ∙ ap (λ n. (receive t.packets).0 ++ (t.seq, body) ∷ numbered n (payloads ms)) next in
      (
        rest
            ∙ ap (then_all (numbered t1.seq (payloads ms))) one
            ∙ ap (λ cs. (cs, (receive t.packets).1)) glued,
        omega (arith, counted, p.advanced),
      )

-- Whatever the socket sends: from framed messages of 3 to 1,380 bytes, fewer than 2 ^ 64 - 1 of
-- them, the market-data loop makes packets, the closing one included, that `unpack` accepts and
-- reads back as exactly these messages without their lengths, in order, numbered from 1; and the
-- sequence number ends behind the last.
pub receive-md_loop :
    (sends : List ℕ → Bool) (ms : List (List ℕ))
    → 1 + length ms < u64
    → All FitsPacket ms
    → let t = md_loop sends true ms new_thread in
      (receive t.packets ≡ (numbered 1 (payloads ms), true)) × (t.seq ≡ 1 + length ms)
unfolding receive new_packer
receive-md_loop sends ms h v = receive-md_loop_from sends ms new_thread refl h v
