-- ===== src/Tests/Feeds.antt =====
-- The properties of the feed's and the wire's formats at concrete messages.
use pricetime.Common.{
  All, ℕ, ◌+◌, ◌≤◌, ◌<◌, ◌≡◌, ◌%◌, refl, pos, negsuc, List, [], ◌∷◌, true, false, some, arith,
  length, u64, inl, ◌⊎◌,
}
use pricetime.Types.{ask}
use pricetime.Symbol.{Symbol, from_text}
use pricetime.Itch.{
  message_length, decode_add_order, decode_order_executed, decode_order_cancel, decode_order_delete,
  decode_order_replace,
}
use pricetime.Itch.Writer.{
  add_order_mpid, cleared, add_order, order_executed, order_executed_with_price, order_cancel,
  order_delete, order_replace,
}
use pricetime.Itch.RoundTrip.{payload}
use pricetime.Itch.Reader.{for_each_framed_message, at, ok}
use pricetime.Itch.Stream.{stream, for_each_framed_message-stream}
use pricetime.Wire.{
  Response, encode_response, decode_response, Request, encode_request, decode_request,
}
use pricetime.Wire.RoundTrip.{decode-encode_response, decode-encode_request}
use pricetime.Mold.{Header, GapTracker, on_packet}
use pricetime.Engine.Batches.{send_loop, concat, encoded, FitsBuffer, concat-send_loop}
use pricetime.Mold.Gaps.{carried, on_packet_advances}
use pricetime.Itch.Orders.{decode-written}
use pricetime.Itch.Reader.{Walk}
use pricetime.Itch.Chunks.{finished, overrun, for_each_framed_stream}
use pricetime.Itch.Chunks.Outcome.{Long}
use pricetime.Itch.Chunks.Whole.{for_each_framed_stream-whole, for_each_framed_stream-stream}
use pricetime.Itch.RawStream.{joined, for_each_raw_message-joined}
use pricetime.Itch.Reader.{for_each_raw_message}

abbrev acme : Symbol
acme = from_text (b'A' ∷ b'C' ∷ b'M' ∷ b'E' ∷ [])

-- A message of an unknown type, then one of two bytes.
abbrev two_messages : List (List ℕ)
two_messages = (b'z' ∷ []) ∷ (b'y' ∷ 7 ∷ []) ∷ []

for_each_framed_message-stream_example :
    for_each_framed_message (stream two_messages)
    ≡ some (at ok (length two_messages) (length (stream two_messages)), two_messages)
unfolding message_length
for_each_framed_message-stream_example = for_each_framed_message-stream two_messages (
  record { filled = omega arith; fits = omega arith; typed = inl refl },
  (record { filled = omega arith; fits = omega arith; typed = inl refl }, tt),
)

abbrev request : Request
request = record {
  kind = b'E';
  side = 1;
  qty = 500;
  price = negsuc 4;
  id = 21;
  new_id = 0;
  client_ts = 99;
}

decode-encode_request_example : decode_request (encode_request request) ≡ some request
decode-encode_request_example = decode-encode_request request (record {
  kind = omega arith;
  side = omega arith;
  qty = omega arith;
  price = omega arith;
  id = omega arith;
  new_id = omega arith;
  client_ts = omega arith;
})

abbrev tracker : GapTracker
tracker = record { started = true; next = 5; total_missed = 0 }

abbrev packet : Header
packet = record { session = []; sequence = 8; count = 2 }

on_packet_advances_example :
    let (t', missed) = on_packet tracker packet in
    (5 ≤ t'.next)
    × (5 ≤ 8 → t'.next ≡ 5 + missed + carried packet)
    × (8 < 5 → (t'.next ≡ 5) × (missed ≡ 0))
    × (t'.started ≡ true)
    × (t'.total_missed ≡ (0 + missed) % u64)
on_packet_advances_example = on_packet_advances tracker packet refl (omega arith)

abbrev response : Response
response = record {
  kind = b'F';
  code = 0;
  qty = 500;
  price = negsuc 4;
  id = 21;
  peer = 22;
  client_ts = 99;
}

decode-encode_response_example : decode_response (encode_response response) ≡ some response
decode-encode_response_example = decode-encode_response response (record {
  kind = omega arith;
  code = omega arith;
  qty = omega arith;
  price = omega arith;
  id = omega arith;
  peer = omega arith;
  client_ts = omega arith;
})

for_each_framed_stream-whole_example :
    ((w : Walk) × (for_each_framed_stream (some (stream two_messages)) 4 ≡ some (finished w))
      × (for_each_framed_message (stream two_messages) ≡ some w))
    ⊎ ((for_each_framed_stream (some (stream two_messages)) 4 ≡ some overrun)
        × Long (stream two_messages))
for_each_framed_stream-whole_example =
    for_each_framed_stream-whole (stream two_messages) 4 (omega arith)

-- Chunks of four bytes cut the second message.
for_each_framed_stream-stream_example :
    for_each_framed_stream (some (stream two_messages)) 4
    ≡ some (finished (at ok (length two_messages) (length (stream two_messages)), two_messages))
unfolding message_length
for_each_framed_stream-stream_example =
    for_each_framed_stream-stream two_messages 4
      (
        record { filled = omega arith; fits = omega arith; typed = inl refl },
        (record { filled = omega arith; fits = omega arith; typed = inl refl }, tt),
      )
      (omega arith, (omega arith, tt)) (omega arith)

decode-written_example :
    (decode_add_order (payload (add_order cleared 34200 17 ask 300 acme (pos 125000))) ≡ record {
      timestamp = 34200;
      reference = 17;
      side = ask;
      shares = 300;
      symbol = acme;
      price = pos 125000;
    })
    × (decode_add_order
          (payload (add_order_mpid cleared 34200 17 ask 300 acme (pos 125000) (b'M' ∷ [])))
        ≡ record {
          timestamp = 34200;
          reference = 17;
          side = ask;
          shares = 300;
          symbol = acme;
          price = pos 125000;
        })
    × (decode_order_executed (payload (order_executed cleared 34200 17 300 9)) ≡ record {
      timestamp = 34200;
      reference = 17;
      shares = 300;
      match_number = 9;
      has_price = false;
      printable = true;
      price = pos 0;
    })
    × (decode_order_executed
          (payload (order_executed_with_price cleared 34200 17 300 9 false (pos 125000)))
        ≡ record {
          timestamp = 34200;
          reference = 17;
          shares = 300;
          match_number = 9;
          has_price = true;
          printable = false;
          price = pos 125000;
        })
    × (decode_order_cancel (payload (order_cancel cleared 34200 17 300))
        ≡ record { timestamp = 34200; reference = 17; shares = 300 })
    × (decode_order_delete (payload (order_delete cleared 34200 17))
        ≡ record { timestamp = 34200; reference = 17 })
    × (decode_order_replace (payload (order_replace cleared 34200 17 18 300 (pos 125000)))
        ≡ record {
          timestamp = 34200;
          original_reference = 17;
          new_reference = 18;
          shares = 300;
          price = pos 125000;
        })
decode-written_example =
    decode-written 34200 17 18 300 9 125000 ask acme false (b'M' ∷ []) (omega arith) (omega arith)
      (omega arith) (omega arith) (omega arith) (omega arith)

-- An order is canceled in part, then deleted.
abbrev raw_messages : List (List ℕ)
raw_messages =
    payload (order_cancel cleared 34202 17 50) ∷ payload (order_delete cleared 34203 17) ∷ []

for_each_raw_message-joined_example :
    for_each_raw_message (joined raw_messages)
    ≡ some (at ok (length raw_messages) (length (joined raw_messages)), raw_messages)
unfolding message_length order_cancel order_delete
for_each_raw_message-joined_example =
    for_each_raw_message-joined raw_messages ((omega arith, refl), ((omega arith, refl), tt))

concat-send_loop_example :
    let batches = send_loop (λ sent b. true) (response ∷ response ∷ []) in
    (concat batches ≡ encoded (response ∷ response ∷ [])) × All FitsBuffer batches
concat-send_loop_example =
    concat-send_loop (λ sent b. true) (λ sent b. refl) (response ∷ response ∷ [])
