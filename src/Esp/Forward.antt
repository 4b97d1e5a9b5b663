-- ===== src/Esp/Forward.antt =====
-- `uart2wifi` of uart_wifi_passthrough/main/uart2wifi.c, which the main loop calls for ever: it takes
-- what the FIFO holds, and sends at most one packet to the Wi-Fi interface. It never waits.
pub mod Bounds
pub mod Step
pub mod Stream
use esp8266_hosted_linux.Base.{
  ℕ, zero, suc, ◌+◌, ◌*◌, Bool, true, false, not, List, [], ◌∷◌, ◌++◌, Bytes, Option, none, some,
  length, get_or, take, drop, ltb, ◌==◌, if◌then◌else◌,
}
use esp8266_hosted_linux.Frame.{
  Status, status_len, status_data, status_split, split_data, mtu_len, read16, out_of_range,
}
use esp8266_hosted_linux.Esp.Uart.{Uart, uart0_recv_data, relocate}

-- `send_pbuf` is NULL or holds a packet that could not be sent yet; `sent` are the packets that
-- `target_wifi_netif->output` has taken, in order.
pub record Wifi : Type 0 where
  pub uart : Uart
  pub open uart use *
  pub send_pbuf : Option Bytes
  pub sent : List Bytes

abbrev pub set_uart : Wifi → Uart → Wifi
set_uart s u = record s { uart = u }

-- How a round ends: `goto restart`, `return`, or a write behind the buffer.
pub data Round : Type 0 where
  again leave : Wifi → List Bytes → Round
  overflow no_fuel : Round

-- `ret = uart0_recv_data(…); if (ret <= 0) return;`
unfoldable pub read : Wifi → List Bytes → Round
unfolding uart0_recv_data
read s [] = leave s []
read s ([] ∷ cs) = leave s cs
read s (c ∷ cs) = elim (uart0_recv_data s.uart c) [
  | none ↦ overflow
  | some u ↦ again (set_uart s u) cs
]

abbrev pub next_bytes : List Bytes → ℕ
next_bytes [] = 0
next_bytes (c ∷ cs) = 2 * length c + next_bytes cs

-- The fuel of a call: two rounds for each byte that is in the buffer or the FIFO.
abbrev pub rounds : Wifi → List Bytes → ℕ
rounds s fifo = 2 * (next_bytes fifo + length s.buf) + 2

-- The search: `goto restart` behind a split byte, and a return when there is none.
unfoldable pub seek : Wifi → List Bytes → Round
unfolding relocate
seek s fifo =
    let s' = set_uart s (relocate split_data s.uart) in
    elim s'.status [ status_len ↦ again s' fifo | _ ↦ leave s' fifo ]

-- The answers that the call gets: `alloc` says whether `pbuf_alloc` succeeds, `output` whether
-- `target_wifi_netif->output` takes the packet.
module _ (alloc output : Bool) where
  unfoldable pub emit : Wifi → Bytes → Wifi
  emit s q =
      if output
      then record {
        uart = record (s.uart) { buf = drop (s.data_len + 3) s.buf; status = status_len };
        send_pbuf = none;
        sent = s.sent ++ (q ∷ []);
      }
      else record s { send_pbuf = some q }

  -- A packet that waits in `send_pbuf` is tried again as it is.
  unfoldable pub forward : Wifi → Wifi
  unfolding emit
  forward s = elim s.send_pbuf [
    | some q ↦ emit s q
    | none ↦ if alloc then emit s (take s.data_len (drop 2 s.buf)) else s
  ]

  unfoldable pub step_data : Wifi → List Bytes → Round
  unfolding read forward
  step_data s fifo =
      if ltb (length s.buf) (s.data_len + 3)
      then read s fifo
      else if not (get_or s.buf (s.data_len + 2) 0 == split_data)
      then again (set_uart s (record (s.uart) { status = status_split })) fifo
      else leave (forward s) fifo

  unfoldable pub step_len : Wifi → List Bytes → Round
  unfolding read step_data
  step_len s fifo =
      if ltb (length s.buf) 2
      then read s fifo
      else if out_of_range 20 mtu_len (read16 s.buf)
      then again (set_uart s (record (s.uart) { data_len = read16 s.buf; status = status_split }))
          fifo
      else step_data
          (set_uart s (record (s.uart) { data_len = read16 s.buf; status = status_data })) fifo

  unfoldable pub step_split : Wifi → List Bytes → Round
  unfolding read seek
  step_split s fifo =
      if length s.buf == 0
      then elim (read s fifo) [ again s' fifo' ↦ seek s' fifo' | r ↦ r ]
      else seek s fifo

  unfoldable pub step : Status → Wifi → List Bytes → Round
  unfolding step_len step_data step_split
  step status_len s fifo = step_len s fifo
  step status_data s fifo = step_data s fifo
  step status_split s fifo = step_split s fifo

  unfoldable pub run : ℕ → Wifi → List Bytes → Round
  unfolding step
  run zero s fifo = no_fuel
  run (suc fuel) s fifo = elim (step s.status s fifo) [ again s' fifo' ↦ run fuel s' fifo' | r ↦ r ]

  unfoldable pub uart2wifi : Wifi → List Bytes → Round
  unfolding run
  uart2wifi s fifo = run (rounds s fifo) s fifo

-- The calls that the main loop makes, with the answers that each gets.
unfoldable pub calls : List (Bool × Bool) → Wifi → List Bytes → Round
unfolding uart2wifi
calls [] s fifo = leave s fifo
calls ((alloc, output) ∷ answers) s fifo = elim (uart2wifi alloc output s fifo) [
  | leave s' fifo' ↦ calls answers s' fifo'
  | r ↦ r
]
