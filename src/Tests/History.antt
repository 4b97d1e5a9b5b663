-- ===== src/Tests/History.antt =====
-- wifi2uart.c and the whole way to the host: a packet comes in from the Wi-Fi interface, and two
-- calls of `wifi2uart` send its frame, with room for 8 bytes and then for all.
use esp8266_hosted_linux.Base.{
  poke, ℕ, zero, suc, ◌<◌, ◌≡◌, refl, arith, true, none, List, [], ◌∷◌, ◌++◌, Bytes, length, concat,
}
use esp8266_hosted_linux.Frame.{split_data, frame, frames, max_frame_len}
use esp8266_hosted_linux.Esp.Queue.{
  Heap, queue_init, queue_enqueue, append_element, write, set_next, queue_dequeue, remove_head,
}
use esp8266_hosted_linux.Esp.Queue.Refine.{Holds}
use esp8266_hosted_linux.Esp.Send.{
  Sender, ok, corrupted, Event, recv, send, perform, copy_count, send_some, load_frame, refill,
  wifi2uart, store_queue, uart_wifi_recv,
}
use esp8266_hosted_linux.Esp.Send.Buffer.{waiting}
use esp8266_hosted_linux.Esp.Send.Stream.{IsSender, stream, wifi2uart-stream, wifi2uart-sends}
use esp8266_hosted_linux.Tests.Esp.{full_queue, full_heap, full-Holds}
use esp8266_hosted_linux.Esp.Send.History.{
  start, Leads, stay, next, Chosen, Returns, sent-frames, perform-Returns,
}
use esp8266_hosted_linux.Driver.Receive.{Receiver, returned, receive_chunks}
use esp8266_hosted_linux.Driver.Receive.Stream.{IsIdle}
use esp8266_hosted_linux.Link.EspToHost.{drained-delivers}
use esp8266_hosted_linux.Tests.{ip, ip_chunks, fresh_receiver}

abbrev empty_heap : Heap
empty_heap p = none

abbrev zeros : ℕ → Bytes
zeros zero = []
zeros (suc n) = 0 ∷ zeros n

abbrev reset_sender : Sender
reset_sender = start empty_heap (zeros max_frame_len)

-- The state that a call leaves.
abbrev after : Event → Sender → Sender
after e s = elim (perform e s) [ ok t ↦ t | corrupted ↦ s ]

abbrev ip_in : Event
ip_in = recv true 5 true ip

abbrev received : Sender
received = after ip_in reset_sender

abbrev begun : Sender
begun = after (send true 120) received

abbrev drained : Sender
drained = after (send true 0) begun

abbrev events : List Event
events = ip_in ∷ send true 120 ∷ send true 0 ∷ []

to_drained : Leads reset_sender events drained
unfolding perform uart_wifi_recv queue_enqueue append_element write set_next store_queue queue_init
    wifi2uart queue_dequeue remove_head refill load_frame poke send_some copy_count
to_drained =
    next ip_in (omega arith, omega arith, λ _. refl) refl
      (next (send true 120) (omega arith) refl (next (send true 0) (omega arith) refl stay))

zeros_full : length (zeros max_frame_len) ≡ max_frame_len
zeros_full = refl

sent-frames_example :
    (new left : List Bytes) × Chosen events new
    × Holds drained.queue drained.heap left
    × (drained.sent ++ (waiting drained ++ frames split_data left) ≡ frames split_data new)
sent-frames_example = sent-frames zeros_full to_drained

perform-Returns_example : Returns (perform (send true 3) drained)
perform-Returns_example = perform-Returns zeros_full to_drained (send true 3) (omega arith)

-- A sender whose queue holds one packet
abbrev loaded : Sender
loaded = record reset_sender { queue = full_queue; heap = full_heap }

loaded-IsSender : IsSender loaded (ip ∷ [])
loaded-IsSender = record {
  queued = full-Holds;
  buffer = record { size = zeros_full; inside = omega arith };
  small = (omega arith, tt);
}

wifi2uart-stream_example :
    (s : Sender) × (ds : List Bytes) × (wifi2uart true 120 loaded ≡ ok s)
    × IsSender s ds
    × (stream s ds ≡ frame split_data ip ++ [])
unfolding frames
wifi2uart-stream_example = wifi2uart-stream loaded (ip ∷ []) true 120 loaded-IsSender (omega arith)

wifi2uart-sends_example : (s : Sender) × (wifi2uart true 120 loaded ≡ ok s) × (0 < length s.sent)
unfolding frames frame
wifi2uart-sends_example =
    wifi2uart-sends loaded (ip ∷ []) true 120 loaded-IsSender (omega arith) refl (omega arith)
      (omega arith)

line_of_drained : concat ip_chunks ≡ drained.sent
unfolding perform uart_wifi_recv queue_enqueue append_element write set_next store_queue queue_init
    wifi2uart queue_dequeue remove_head refill load_frame poke send_some copy_count
line_of_drained = refl

drained-delivers_example :
    (new : List Bytes) × (n : ℕ) × (s : Receiver) × Chosen events new
    × (receive_chunks (λ _. true) fresh_receiver ip_chunks ≡ returned n s)
    × (s.packets ≡ new)
    × IsIdle s
unfolding perform uart_wifi_recv queue_enqueue append_element write set_next store_queue queue_init
    wifi2uart queue_dequeue remove_head refill load_frame poke send_some copy_count
drained-delivers_example =
    drained-delivers (λ _. true) ip_chunks fresh_receiver (λ _. refl) zeros_full
      ((omega arith, omega arith, tt)) to_drained refl refl line_of_drained tt
