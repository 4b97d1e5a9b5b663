-- ===== src/Esp/Config.antt =====
-- `recv_ssid`, `recv_passwd` and `recv_netif_info` of uart_wifi_passthrough/main/uart2wifi.c: three
-- copies of one loop that busily waits for a frame. They differ in two tests, which `recv_frame`
-- takes as arguments. One round of `restart:` is one `step`.
pub mod Bounds
pub mod Setup
pub mod Stream
use esp8266_hosted_linux.Base.{
  ℕ, zero, suc, ◌+◌, ◌*◌, Bool, true, false, not, ◌&&◌, ◌||◌, List, [], ◌∷◌, Bytes, Option, none,
  some, length, get_or, take, drop, ltb, ◌==◌, if◌then◌else◌,
}
use esp8266_hosted_linux.Frame.{
  Status, status_len, status_data, status_split, split_cmd, read16, out_of_range,
}
use esp8266_hosted_linux.Esp.Uart.{Uart, uart0_recv_data, relocate}

-- How a round ends: `goto restart`; a return with the frame's data; waiting for ever, when no byte
-- comes any more; or a write behind the buffer.
pub data Round : Type 0 where
  again : Uart → List Bytes → Round
  done : Bytes → Uart → List Bytes → Round
  blocked : Uart → Round
  overflow no_fuel : Round

-- `ret = uart0_recv_data(…)`; with nothing received `goto restart` changes nothing.
unfoldable pub read : Uart → List Bytes → Round
unfolding uart0_recv_data
read u [] = blocked u
read u (c ∷ cs) = elim (uart0_recv_data u c) [ none ↦ overflow | some u' ↦ again u' cs ]

abbrev pub next_bytes : List Bytes → ℕ
next_bytes [] = 0
next_bytes (c ∷ cs) = 2 * length c + 1 + next_bytes cs

-- The fuel of a call: two rounds for each byte that is in the buffer or still comes.
abbrev pub rounds : Uart → List Bytes → ℕ
rounds u fifo = 2 * (next_bytes fifo + length u.buf) + 2

module _ (bad_len : ℕ → Bool) (bad_frame : Bytes → ℕ → Bool) where
  -- The frame is handed over, and what follows it moves to the front of the buffer.
  abbrev pub accept : Uart → List Bytes → Round
  accept u fifo =
      done (take u.data_len (drop 2 u.buf))
        (record u { buf = drop (u.data_len + 3) u.buf; status = status_len }) fifo

  unfoldable pub step_data : Uart → List Bytes → Round
  unfolding read
  step_data u fifo =
      if ltb (length u.buf) (u.data_len + 3)
      then read u fifo
      else if bad_frame u.buf u.data_len
      then again (record u { status = status_split }) fifo
      else accept u fifo

  unfoldable pub step_len : Uart → List Bytes → Round
  unfolding read step_data
  step_len u fifo =
      if ltb (length u.buf) 2
      then read u fifo
      else if bad_len (read16 u.buf)
      then again (record u { data_len = read16 u.buf; status = status_split }) fifo
      else step_data (record u { data_len = read16 u.buf; status = status_data }) fifo

  -- An empty buffer is filled first; the search of a buffer that is still empty finds nothing.
  unfoldable pub step_split : Uart → List Bytes → Round
  unfolding read relocate
  step_split u fifo =
      if length u.buf == 0
      then elim (read u fifo) [ again u' fifo' ↦ again (relocate split_cmd u') fifo' | r ↦ r ]
      else again (relocate split_cmd u) fifo

  unfoldable pub step : Status → Uart → List Bytes → Round
  unfolding step_len step_data step_split
  step status_len u fifo = step_len u fifo
  step status_data u fifo = step_data u fifo
  step status_split u fifo = step_split u fifo

  unfoldable pub run : ℕ → Uart → List Bytes → Round
  unfolding step
  run zero u fifo = no_fuel
  run (suc fuel) u fifo = elim (step u.status u fifo) [ again u' fifo' ↦ run fuel u' fifo' | r ↦ r ]

  unfoldable pub recv_frame : Uart → List Bytes → Round
  unfolding run
  recv_frame u fifo = run (rounds u fifo) u fifo

abbrev pub wpa_max_ssid_len : ℕ
wpa_max_ssid_len = 32

abbrev pub wpa_max_passwd_len : ℕ
wpa_max_passwd_len = 64

-- `uartRecvBuffer[uartDataLen+1]!='\0' && uartRecvBuffer[uartDataLen+2] != SPLIT_CMD`
abbrev pub bad_text : Bytes → ℕ → Bool
bad_text buf w = not (get_or buf (w + 1) 0 == 0) && not (get_or buf (w + 2) 0 == split_cmd)

unfoldable pub recv_ssid : Uart → List Bytes → Round
unfolding recv_frame
recv_ssid = recv_frame (out_of_range 1 wpa_max_ssid_len) bad_text

unfoldable pub recv_passwd : Uart → List Bytes → Round
unfolding recv_frame
recv_passwd = recv_frame (out_of_range 8 wpa_max_passwd_len) bad_text

-- `memcmp` of the first `n` bytes; an end of either list counts as a byte 0.
unfoldable pub memcmp_differs : ℕ → Bytes → Bytes → Bool
memcmp_differs zero a b = false
memcmp_differs (suc n) a b =
    not (get_or a 0 0 == get_or b 0 0) || memcmp_differs n (drop 1 a) (drop 1 b)

abbrev pub bad_info : Bytes → ℕ → Bytes → ℕ → Bool
bad_info netif_info total_len buf w =
    not (get_or buf (w + 2) 0 == split_cmd) || memcmp_differs total_len buf netif_info

-- The host's echo of `netif_info` is waited for; the frame's data is not used.
unfoldable pub recv_netif_info : Bytes → ℕ → Uart → List Bytes → Round
unfolding recv_frame memcmp_differs
recv_netif_info netif_info total_len =
    recv_frame (λ w. not (w == read16 netif_info)) (bad_info netif_info total_len)
