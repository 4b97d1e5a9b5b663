-- ===== src/Driver/Receive.antt =====
-- `ttyio_receive_data` and `alloc_new_skb_to_recv` of uart_wifi_driver/uart.c: the line discipline's
-- state machine that cuts the bytes of the serial port into IP packets.
--
-- One round of the `restart:` loop is one `step`; a fall through into the next `case` is a call.
-- `*skb` is the list of its `len` bytes; this skb has no fragments. Of the calls of `dump` and
-- `recv_dump_skb` what counts is whether they write behind their array; their text and the other log
-- lines are left out.
pub mod Bounds
pub mod Search
pub mod Resync
pub mod Step
pub mod Stream
use esp8266_hosted_linux.Base.{
  ℕ, zero, suc, ◌+◌, ◌-◌, ◌*◌, ◌%◌, ◌^◌, min, Bool, true, false, Option, none, some, List, [], ◌∷◌,
  ◌++◌, Bytes, length, get_or, take, drop, ltb, ◌==◌, if◌then◌else◌,
}
use esp8266_hosted_linux.Dump.{dump_overflows}
use esp8266_hosted_linux.Frame.{
  Status, status_len, status_data, status_split, split_data, mtu_len, read16, out_of_range,
  skip_past,
}

-- The fields of `struct uart_wifi_struct` that the receiver uses, with what it has done so far: the
-- packets handed to `netif_rx_ni`, in order, and how often it has asked for an skb.
pub record Receiver : Type 0 where
  pub recv_skb : Option Bytes
  pub uart_recv_status : Status
  pub uart_data_len : ℕ
  pub packets : List Bytes
  pub rx_packets : ℕ
  pub rx_bytes : ℕ
  pub allocs : ℕ

-- The variables of a call while its loop runs; `skb` is not NULL there.
pub record Rx : Type 0 where
  pub skb : Bytes
  pub status : Status
  pub data_len : ℕ
  pub processed : ℕ
  pub surplus : ℕ
  pub packets : List Bytes
  pub rx_packets : ℕ
  pub rx_bytes : ℕ
  pub allocs : ℕ

-- How a round ends: `goto restart`, `goto exit`, `goto exit` with `recv_skb` NULL, or with memory that is
-- overwritten: by a dump behind its array, or by the next copy, whose length is an `int surplus` below
-- zero.
pub data Next : Type 0 where
  restart exit exit_no_skb : Rx → Next
  overrun : Next

-- A call returns the number of bytes processed and the new state.
pub data Outcome : Type 0 where
  returned : ℕ → Receiver → Outcome
  corrupted : Outcome
  no_fuel : Outcome

-- `actualcopy = min(surplus, want)` and `__skb_put_data`
unfoldable pub copy : Bytes → ℕ → Rx → Rx
copy cp want m =
    let n = min m.surplus want in
    record m {
      skb = m.skb ++ take n (drop m.processed cp);
      surplus = m.surplus - n;
      processed = m.processed + n;
    }

-- The copy of STATUS_LEN and STATUS_DATA: `goto exit` when the chunk is used up.
unfoldable pub fill : Bytes → ℕ → Rx → Next
unfolding copy
fill cp want m = if m.surplus == 0 then exit m else restart (copy cp want m)

-- STATUS_SPLIT, second loop: the split byte is looked for in the chunk. `skip` starts at
-- `processed`, and `processed` and `surplus` move by the whole of `skip`; before that the whole chunk is
-- dumped.
unfoldable pub skip_chunk : Bytes → Rx → Next
skip_chunk cp m = elim (skip_past split_data (drop m.processed cp)) [
  | none ↦ exit (record m { processed = length cp; skb = [] })
  | some k ↦
      if dump_overflows cp
      then overrun
      else if ltb m.surplus (m.processed + k)
      then overrun
      else restart (record m {
        skb = [];
        surplus = m.surplus - (m.processed + k);
        processed = m.processed + (m.processed + k);
        status = status_len;
      })
]

-- STATUS_SPLIT, first loop: the split byte is looked for in the skb, which is dumped as it was and as it
-- becomes.
unfoldable pub step_split : Bytes → Rx → Next
unfolding skip_chunk
step_split cp m = elim (skip_past split_data m.skb) [
  | some k ↦
      if dump_overflows m.skb
      then overrun
      else if dump_overflows (drop k m.skb)
      then overrun
      else restart (record m { skb = drop k m.skb; status = status_len })
  | none ↦ skip_chunk cp m
]

-- What `data += 2; tail -= 1; len -= 3` leaves of the skb.
abbrev pub payload : Bytes → Bytes
payload skb = take (length skb - 3) (drop 2 skb)

-- `exit:` stores the local status and length.
abbrev pub stored : Option Bytes → Rx → Receiver
stored skb m = record {
  recv_skb = skb;
  uart_recv_status = m.status;
  uart_data_len = m.data_len;
  packets = m.packets;
  rx_packets = m.rx_packets;
  rx_bytes = m.rx_bytes;
  allocs = m.allocs;
}

-- The locals at `restart:`, for the skb that is there.
abbrev pub entry : Bytes → Receiver → Bytes → Rx
entry skb s cp = record {
  skb = skb;
  status = s.uart_recv_status;
  data_len = s.uart_data_len;
  processed = 0;
  surplus = length cp;
  packets = s.packets;
  rx_packets = s.rx_packets;
  rx_bytes = s.rx_bytes;
  allocs = s.allocs;
}

-- The fuel of a call: a copy uses up bytes of the chunk, a search bytes of the skb.
abbrev pub rounds : Rx → ℕ
rounds m = 4 * m.surplus + 2 * length m.skb + 2

module _ (can_alloc : ℕ → Bool) where
  -- The packet goes up, the counters of 64 bits move, and a new skb is asked for: `can_alloc n` is
  -- the answer to the request after `n` others.
  unfoldable pub deliver : Rx → Next
  deliver m =
      let done = record m {
        packets = m.packets ++ (payload m.skb ∷ []);
        rx_packets = (m.rx_packets + 1) % 2 ^ 64;
        rx_bytes = (m.rx_bytes + length (payload m.skb)) % 2 ^ 64;
        allocs = m.allocs + 1;
      } in
      if can_alloc m.allocs
      then restart (record done { skb = []; status = status_len })
      else exit_no_skb done

  unfoldable pub step_data : Bytes → Rx → Next
  unfolding fill deliver step_split
  step_data cp m =
      if ltb (length m.skb) (m.data_len + 3)
      then fill cp (m.data_len + 3 - length m.skb) m
      else if get_or m.skb (m.data_len + 2) 0 == split_data
      then deliver m
      else step_split cp (record m { status = status_split })

  unfoldable pub step_len : Bytes → Rx → Next
  unfolding fill step_data
  step_len cp m =
      if ltb (length m.skb) 2
      then fill cp (2 - length m.skb) m
      else if out_of_range 20 mtu_len (read16 m.skb)
      then restart (record m { data_len = read16 m.skb; status = status_split })
      else step_data cp (record m { data_len = read16 m.skb; status = status_data })

  unfoldable pub step : Status → Bytes → Rx → Next
  unfolding step_len step_data step_split
  step status_len cp m = step_len cp m
  step status_data cp m = step_data cp m
  step status_split cp m = step_split cp m

  unfoldable pub run : ℕ → Bytes → Rx → Outcome
  run zero cp m = no_fuel
  run (suc fuel) cp m = elim (step m.status cp m) [
    | restart m' ↦ run fuel cp m'
    | exit m' ↦ returned m'.processed (stored (some m'.skb) m')
    | exit_no_skb m' ↦ returned m'.processed (stored none m')
    | overrun ↦ corrupted
  ]

  -- A call, by `recv_skb`: where that is NULL a new skb is asked for first.
  unfoldable pub receive_with : Option Bytes → Receiver → Bytes → Outcome
  unfolding run
  receive_with (some skb) s cp = let m = entry skb s cp in run (rounds m) cp m
  receive_with none s cp =
      let asked = record s { allocs = s.allocs + 1 } in
      let m = record (entry [] asked cp) { status = status_len } in
      let loop = run (rounds m) cp m in if can_alloc s.allocs then loop else returned 0 asked

  unfoldable pub receive_data : Receiver → Bytes → Outcome
  unfolding receive_with
  receive_data s cp = receive_with s.recv_skb s cp

  -- The tty layer's calls, one chunk after the other. The list holds what each call is offered; the
  -- tty layer offers the bytes that a call has left unread again, in the next.
  unfoldable pub receive_chunks : Receiver → List Bytes → Outcome
  unfolding receive_data
  receive_chunks s [] = returned 0 s
  receive_chunks s (cp ∷ cps) = elim (receive_data s cp) [
    | returned n s' ↦ receive_chunks s' cps
    | corrupted ↦ corrupted
    | no_fuel ↦ no_fuel
  ]
