-- ===== src/Mold.antt =====
-- include/pricetime/moldudp64.hpp: the packets, and the tracker of what UDP dropped.
pub mod Gaps
pub mod Blocks
use pricetime.Common.{
  ℕ, zero, suc, ◌+◌, ◌-◌, ◌*◌, ◌/◌, ◌%◌, List, [], ◌∷◌, ◌++◌, Bool, true, false, ◌&&◌, ◌||◌, not,
  Option, none, some, ltb, ◌==◌, if◌then◌else◌, length, take, drop, get_or, u64, u16, add_u64,
  sub_u64, replicate,
}
use pricetime.Itch.{be16, be64}

abbrev pub header_size : ℕ
header_size = 20

abbrev pub heartbeat : ℕ
heartbeat = 0

abbrev pub end_of_session : ℕ
end_of_session = 0xFFFF

-- `sizeof(buf_)` of the packer.
abbrev pub max_packet : ℕ
max_packet = 1400

pub record Header : Type 0 where
  pub session : List ℕ
  pub sequence : ℕ
  pub count : ℕ

-- The blocks are what the buffer holds behind the header; `len_` is 20 and their number of bytes.
pub record Packer : Type 0 where
  pub session : List ℕ
  pub blocks : List ℕ
  pub count : ℕ
  pub first_seq : ℕ

-- The session name padded with spaces or cut to ten bytes.
unfoldable pub new_packer : List ℕ → Packer
new_packer name = record {
  session = take 10 (name ++ replicate 10 b' ');
  blocks = [];
  count = 0;
  first_seq = 0;
}

unfoldable pub begin : Packer → ℕ → Packer
begin p first_sequence = record p { blocks = []; count = 0; first_seq = first_sequence }

-- Appends one message if it fits.
unfoldable pub add : Packer → List ℕ → Packer × Bool
add p msg =
    let len = length msg in
    if ltb max_packet (header_size + length p.blocks + 2 + len) then (p, false) else (
      record p {
        blocks = p.blocks ++ ((len / 0x100 % 256) ∷ (len % 256) ∷ msg);
        count = (p.count + 1) % u16;
      },
      true,
    )

abbrev write_header : Packer → ℕ → List ℕ
write_header p count =
    let v = p.first_seq in
    p.session
    ++ ((v / 0x100000000000000 % 256)
        ∷ (v / 0x1000000000000 % 256)
        ∷ (v / 0x10000000000 % 256)
        ∷ (v / 0x100000000 % 256)
        ∷ (v / 0x1000000 % 256)
        ∷ (v / 0x10000 % 256)
        ∷ (v / 0x100 % 256)
        ∷ (v % 256)
        ∷ (count / 0x100 % 256)
        ∷ (count % 256)
        ∷ [])

-- The packet's bytes once it is sealed.
unfoldable pub seal : Packer → List ℕ
seal p = write_header p p.count ++ p.blocks

unfoldable pub seal_heartbeat : Packer → ℕ → List ℕ
seal_heartbeat p next = write_header (record p { first_seq = next }) heartbeat

unfoldable pub seal_end_of_session : Packer → ℕ → List ℕ
seal_end_of_session p next = write_header (record p { first_seq = next }) end_of_session

-- The blocks of a packet: the handler's calls, and whether the packet was well formed.
unfoldable pub unpack_blocks : ℕ → ℕ → List ℕ → List (ℕ × List ℕ) × Bool
unpack_blocks zero seq bytes = ([], length bytes == 0)
unpack_blocks (suc n) seq bytes =
    let len = be16 bytes 0 in
    let body = drop 2 bytes in
    let (calls, good) = unpack_blocks n (add_u64 seq 1) (drop len body) in
    if ltb (length bytes) 2
    then ([], false)
    else if len == 0 || ltb (length bytes - 2) len
    then ([], false)
    else ((seq, take len body) ∷ calls, good)

abbrev pub read_header : List ℕ → Header
read_header pkt = record { session = take 10 pkt; sequence = be64 pkt 10; count = be16 pkt 18 }

-- `unpack`: the header if the packet has one, the calls, and the result.
unfoldable pub unpack : List ℕ → Option Header × List (ℕ × List ℕ) × Bool
unpack pkt =
    let hdr = read_header pkt in
    let (calls, good) = unpack_blocks hdr.count hdr.sequence (drop header_size pkt) in
    if ltb (length pkt) header_size
    then (none, [], false)
    else if hdr.count == heartbeat || hdr.count == end_of_session
    then (some hdr, [], length pkt == header_size)
    else (some hdr, calls, good)

pub record GapTracker : Type 0 where
  pub started : Bool
  pub next : ℕ
  pub total_missed : ℕ

abbrev pub new_tracker : GapTracker
new_tracker = record { started = false; next = 1; total_missed = 0 }

-- Heartbeats and the end of the session carry no message.
abbrev pub carries : Header → Bool
carries hdr = not (hdr.count == heartbeat) && not (hdr.count == end_of_session)

unfoldable pub on_packet : GapTracker → Header → GapTracker × ℕ
on_packet t hdr =
    let missed = if t.started && ltb t.next hdr.sequence then hdr.sequence - t.next else 0 in
    let ahead = if ltb t.next hdr.sequence then hdr.sequence else t.next in
    let t' : GapTracker =
      if not t.started || not (ltb hdr.sequence t.next)
      then record t {
        started = true;
        next = if carries hdr then add_u64 hdr.sequence hdr.count else ahead;
      }
      else t in
    (record t' { total_missed = add_u64 t.total_missed missed }, missed)
