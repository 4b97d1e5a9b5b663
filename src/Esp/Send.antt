-- ===== src/Esp/Send.antt =====
-- The sending half of uart_wifi_passthrough/main/wifi2uart.c: `uart_wifi_recv` queues the packets that
-- come from the Wi-Fi interface, and `wifi2uart`, which the main loop calls for ever, moves their frames
-- to the transmit FIFO of the serial port, as far as there is room.
pub mod Buffer
pub mod History
pub mod Stream
pub mod Sync
use esp8266_hosted_linux.Base.{
  ℕ, zero, suc, ◌+◌, ◌-◌, ◌%◌, ◌/◌, ◌^◌, Bool, true, false, Option, none, some, List, [], ◌∷◌, ◌++◌,
  Bytes, length, take, poke, drop, ltb, leb, ◌==◌, if◌then◌else◌,
}
use esp8266_hosted_linux.Frame.{split_data, max_frame_len}
use esp8266_hosted_linux.Esp.Uart.{uart_fifo_len}
use esp8266_hosted_linux.Esp.Queue.{
  Ptr, Heap, Queue, Code, Run, ret, fault, Taken, queue_enqueue, queue_dequeue,
}

-- `uartSendPtr` is an offset into `uartSendbuffer`; `sent` are the bytes written to the FIFO register.
pub record Sender : Type 0 where
  pub queue : Queue
  pub heap : Heap
  pub send_len : ℕ
  pub send_ptr : ℕ
  pub send_buffer : Bytes
  pub sent : Bytes

-- A call returns, or it reads a dangling pointer or writes behind `uartSendbuffer`.
pub data Outcome : Type 0 where
  ok : Sender → Outcome
  corrupted : Outcome

-- How much `uart0_fill_txfifo` copies while `txfifo_cnt` bytes are in the FIFO: uint8_t arithmetic.
unfoldable pub copy_count : (txfifo_cnt len : ℕ) → ℕ
copy_count txfifo_cnt len =
    let remain = (uart_fifo_len + 2 ^ 8 - txfifo_cnt) % 2 ^ 8 in
    if leb remain len then remain else len

-- The last lines of `wifi2uart`: what fits goes to the FIFO, and the rest waits.
unfoldable pub send_some : ℕ → Sender → Sender
unfolding copy_count
send_some txfifo_cnt s =
    if s.send_len == 0
    then s
    else let n = copy_count txfifo_cnt s.send_len in
      record s {
        sent = s.sent ++ take n (drop s.send_ptr s.send_buffer);
        send_len = (s.send_len + 2 ^ 16 - n) % 2 ^ 16;
        send_ptr = s.send_ptr + n;
      }

-- A packet of the queue becomes the frame in the send buffer.
unfoldable pub load_frame : Queue → Heap → Bytes → ℕ → Sender → Outcome
unfolding poke
load_frame q h packet len s =
    if ltb max_frame_len (len + 3)
    then corrupted
    else let copied = poke 2 (take len packet) s.send_buffer in
      let headed = poke 0 ((len % 256) ∷ (len / 256 % 256) ∷ []) copied in
      let total = (len + 3) % 2 ^ 16 in
      ok (record {
        queue = q;
        heap = h;
        send_len = total;
        send_ptr = 0;
        send_buffer = poke (total - 1) (split_data ∷ []) headed;
        sent = s.sent;
      })

-- The first lines of `wifi2uart`, when nothing waits: the next packet is taken, if there is one.
unfoldable pub refill : Run Taken → Sender → Outcome
unfolding load_frame
refill fault s = corrupted
refill (ret none q h) s = ok (record s { queue = q; heap = h })
refill (ret (some (packet, len)) q h) s = load_frame q h packet len s

unfoldable pub wifi2uart : (taken : Bool) (txfifo_cnt : ℕ) → Sender → Outcome
unfolding refill send_some
wifi2uart taken txfifo_cnt s =
    if s.send_len == 0
    then elim (refill (queue_dequeue taken s.queue s.heap) s) [
      | ok s' ↦ ok (send_some txfifo_cnt s')
      | corrupted ↦ corrupted
    ]
    else ok (send_some txfifo_cnt s)

-- The Wi-Fi side hands over `p->len` bytes at `p->payload`; a refusal is only logged.
unfoldable pub store_queue : Run Code → Sender → Outcome
store_queue fault s = corrupted
store_queue (ret code q h) s = ok (record s { queue = q; heap = h })

unfoldable pub uart_wifi_recv :
    (taken : Bool) (fresh : Ptr) (memory : Bool) → Bytes → Sender → Outcome
unfolding store_queue
uart_wifi_recv taken fresh memory payload s =
    store_queue (queue_enqueue taken fresh memory s.queue s.heap (some payload) (length payload)) s

-- What the program does with the queue, in the order in which it happens.
pub data Event : Type 0 where
  recv : (taken : Bool) (fresh : Ptr) (memory : Bool) (payload : Bytes) → Event
  send : (taken : Bool) (txfifo_cnt : ℕ) → Event

unfoldable pub perform : Event → Sender → Outcome
unfolding uart_wifi_recv wifi2uart
perform (recv taken fresh memory payload) s = uart_wifi_recv taken fresh memory payload s
perform (send taken txfifo_cnt) s = wifi2uart taken txfifo_cnt s

-- `send_to_uart0_sync`: it fills the FIFO until all bytes are written. The list gives `txfifo_cnt` at
-- each turn; it returns the bytes written and those that are left when the list ends.
unfoldable pub send_to_uart0_sync : List ℕ → Bytes → Bytes × Bytes
unfolding copy_count
send_to_uart0_sync counts [] = ([], [])
send_to_uart0_sync [] bytes = ([], bytes)
send_to_uart0_sync (c ∷ counts) (b ∷ bytes) =
    let n = copy_count c (length (b ∷ bytes)) in
    let (written, left) = send_to_uart0_sync counts (drop n (b ∷ bytes)) in
    (take n (b ∷ bytes) ++ written, left)
