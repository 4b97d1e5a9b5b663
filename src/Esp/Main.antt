-- ===== src/Esp/Main.antt =====
-- uart_wifi_passthrough/main/main.c: the start of the firmware, the handler of Wi-Fi events, and the
-- main loop. What the SDK does is left out, but for the events that it delivers.
--
-- `start_hock` waits in two busy loops: the list `counts` gives the fill of the transmit FIFO at each
-- turn of the first, `fifo` the bytes that the second reads.
pub mod Start
pub mod Safety
pub mod Sound
use esp8266_hosted_linux.Base.{
  ℕ, zero, suc, ◌+◌, ◌/◌, ◌%◌, ◌^◌, ◌≤◌, ◌≡◌, ◌≢◌, Bool, true, false, Option, none, some, List, [],
  ◌∷◌, ◌++◌, Bytes, length, take, drop, ◌==◌, if◌then◌else◌,
}
use esp8266_hosted_linux.Frame.{status_len, split_cmd, max_frame_len}
use esp8266_hosted_linux.Esp.Uart.{Uart, FitsFifo, uart_fifo_len}
use esp8266_hosted_linux.Esp.Config as Config
use esp8266_hosted_linux.Esp.Config.{recv_ssid, recv_passwd, recv_netif_info}
use esp8266_hosted_linux.Esp.Forward as Forward
use esp8266_hosted_linux.Esp.Forward.{uart2wifi}
use esp8266_hosted_linux.Esp.Queue.{Ptr}
use esp8266_hosted_linux.Esp.Send as Send
use esp8266_hosted_linux.Esp.Send.{Sender, Event, recv, send, perform, send_to_uart0_sync}
use esp8266_hosted_linux.Esp.Send.History as History
use esp8266_hosted_linux.Esp.Send.History.{Allowed}

-- An interface of lwIP's `netif_list`; an address is a word of 32 bits.
pub record Netif : Type 0 where
  pub ip_addr : ℕ
  pub netmask : ℕ
  pub gw : ℕ

-- The globals: `runFlag`, the level of GPIO 5, which the host watches, `target_wifi_netif`, the block
-- `netif_info`, the semaphore `uart_wifi_mutex`, the state of the receivers and of the sender, the bytes that
-- `start_hock` has sent, and how often `esp_wifi_connect` has been called.
pub record Globals : Type 0 where
  pub run_flag : Bool
  pub gpio5 : Bool
  pub target_wifi_netif : Option Netif
  pub netif_info : Bytes
  pub semaphore : Bool
  pub wifi : Forward.Wifi
  pub sender : Sender
  pub sync_sent : Bytes
  pub connects : ℕ

-- A call returns with what is left of the FIFO's bytes, waits for ever in a busy loop, or writes behind a buffer.
pub data Outcome : Type 0 where
  finished : Globals → List Bytes → Outcome
  waits : Globals → Outcome
  overflow : Outcome

-- `memcpy(…, &addr, 4)` on a little endian machine
abbrev pub word_bytes : ℕ → Bytes
word_bytes w = (w % 256) ∷ (w / 256 % 256) ∷ (w / 2 ^ 16 % 256) ∷ (w / 2 ^ 24 % 256) ∷ []

-- The loop over `netif_list`
unfoldable pub find_netif : ℕ → List Netif → Option Netif
find_netif ip [] = none
find_netif ip (n ∷ ns) = if n.ip_addr == ip then some n else find_netif ip ns

abbrev pub addresses : Netif → Bytes
addresses n = word_bytes n.ip_addr ++ (word_bytes n.netmask ++ word_bytes n.gw)

abbrev pub info_block : Netif → Bytes
info_block n = 12 ∷ 0 ∷ (addresses n ++ (split_cmd ∷ []))

-- The last lines of `start_hock`
abbrev pub hocked : Netif → Globals → Globals
hocked n g = record g {
  target_wifi_netif = some n;
  gpio5 = false;
  run_flag = true;
  semaphore = true;
}

abbrev pub set_uart : Globals → Uart → Globals
set_uart g u = record g { wifi = Forward.set_uart g.wifi u }

-- `recv_netif_info` and what follows it
unfoldable pub await_echo : Netif → Globals → List Bytes → Outcome
unfolding recv_netif_info
await_echo n g fifo = elim (recv_netif_info g.netif_info 15 g.wifi.uart fifo) [
  | Config.done p u fifo' ↦ finished (hocked n (set_uart g u)) fifo'
  | Config.blocked u ↦ waits (set_uart g u)
  | _ ↦ overflow
]

-- `send_to_uart0_sync` and what follows it
unfoldable pub handshake : Netif → List ℕ → Globals → List Bytes → Outcome
unfolding send_to_uart0_sync await_echo
handshake n counts g fifo =
    let (sent, left) = send_to_uart0_sync counts g.netif_info in
    let g' = record g { sync_sent = g.sync_sent ++ sent } in
    elim left [ [] ↦ await_echo n g' fifo | _ ∷ _ ↦ waits g' ]

unfoldable pub start_hock : ℕ → List Netif → List ℕ → Globals → List Bytes → Outcome
unfolding find_netif handshake
start_hock ip netif_list counts g fifo = elim (find_netif ip netif_list) [
  | none ↦ finished g fifo
  | some n ↦ handshake n counts (record g { netif_info = info_block n }) fifo
]

-- The events that `wifi_event_handler` tells apart; the address is that of IP_EVENT_STA_GOT_IP.
pub data WifiEvent : Type 0 where
  sta_start sta_connected sta_disconnected sta_authmode_change other_event : WifiEvent
  got_ip : ℕ → WifiEvent

unfoldable pub wifi_event_handler : WifiEvent → List Netif → List ℕ → Globals → List Bytes → Outcome
unfolding start_hock
wifi_event_handler sta_start netif_list counts g fifo =
    finished (record g { connects = g.connects + 1 }) fifo
wifi_event_handler sta_connected netif_list counts g fifo = finished g fifo
wifi_event_handler sta_disconnected netif_list counts g fifo =
    finished (record g { run_flag = false }) fifo
wifi_event_handler sta_authmode_change netif_list counts g fifo = finished g fifo
wifi_event_handler other_event netif_list counts g fifo = finished g fifo
wifi_event_handler (got_ip ip) netif_list counts g fifo = start_hock ip netif_list counts g fifo

-- Where `app_main` stands: in `init` before SSID and password are there, in `init` waiting for the
-- semaphore, in the main loop, or in the loop that drops the host's bytes.
pub data Phase : Type 0 where
  configuring waiting looping dropping : Phase

pub record Main : Type 0 where
  pub phase : Phase
  pub globals : Globals

-- `read_uart0`: the buffer is the list of its first `uartRecvLen` bytes.
abbrev pub dropped : Bytes → Uart → Uart
dropped c u = record u { buf = take (length u.buf) (c ++ drop (length c) u.buf) }

-- One step of the main task or of the task that delivers events. A step of a task that waits for ever is
-- no step.
pub data Step (s : Main) : Main → Type 0 where
  -- `init` cannot get its semaphore or its queue.
  init_failed :
      s.phase ≡ configuring
      → Step s (record { phase = dropping; globals = record (s.globals) { gpio5 = true } })
  configured :
      (ssid passwd : Bytes) (u v : Uart) (fifo rest left : List Bytes)
      → s.phase ≡ configuring
      → FitsFifo fifo
      → FitsFifo rest
      → recv_ssid s.globals.wifi.uart fifo ≡ Config.done ssid u rest
      → recv_passwd u rest ≡ Config.done passwd v left
      → Step s (record { phase = waiting; globals = set_uart s.globals v })
  -- Events come once Wi-Fi is started.
  event :
      (e : WifiEvent) (netif_list : List Netif) (counts : List ℕ) (fifo left : List Bytes)
      (g : Globals)
      → s.phase ≢ configuring
      → FitsFifo fifo
      → wifi_event_handler e netif_list counts s.globals fifo ≡ finished g left
      → Step s (record { phase = s.phase; globals = g })
  take_semaphore :
      s.phase ≡ waiting
      → s.globals.semaphore ≡ true
      → Step s (record { phase = looping; globals = record (s.globals) { semaphore = false } })
  -- A turn of `while(runFlag)`
  turn :
      (alloc output taken : Bool) (txfifo_cnt : ℕ) (fifo left : List Bytes) (w : Forward.Wifi)
      (sender : Sender)
      → s.phase ≡ looping
      → s.globals.run_flag ≡ true
      → FitsFifo fifo
      → uart2wifi alloc output s.globals.wifi fifo ≡ Forward.leave w left
      → Allowed (send taken txfifo_cnt) s.globals.sender
      → perform (send taken txfifo_cnt) s.globals.sender ≡ Send.ok sender
      → Step s
          (record { phase = looping; globals = record (s.globals) { wifi = w; sender = sender } })
  -- Once there is a target, lwIP hands its packets to `uart_wifi_recv`.
  packet :
      (taken : Bool) (fresh : Ptr) (memory : Bool) (payload : Bytes) (sender : Sender)
      → s.globals.target_wifi_netif ≢ none
      → Allowed (recv taken fresh memory payload) s.globals.sender
      → perform (recv taken fresh memory payload) s.globals.sender ≡ Send.ok sender
      → Step s (record { phase = s.phase; globals = record (s.globals) { sender = sender } })
  leave_loop :
      s.phase ≡ looping
      → s.globals.run_flag ≡ false
      → Step s (record { phase = dropping; globals = record (s.globals) { gpio5 = true } })
  -- `read_uart0` of the last loop: the bytes overwrite the front of the buffer, and `uartRecvLen` stays.
  drops :
      (c : Bytes)
      → s.phase ≡ dropping
      → length c ≤ uart_fifo_len
      → Step s (record {
        phase = dropping;
        globals = set_uart s.globals (dropped c s.globals.wifi.uart);
      })

-- What a static array holds at reset
unfoldable pub zero_bytes : ℕ → Bytes
zero_bytes zero = []
zero_bytes (suc n) = 0 ∷ zero_bytes n

-- The state at reset: the globals are zero, `init` sets GPIO 5 high, and `buffer` is empty.
abbrev pub reset_globals : Globals
reset_globals = record {
  run_flag = false;
  gpio5 = true;
  target_wifi_netif = none;
  netif_info = 0 ∷ 0 ∷ 0 ∷ 0 ∷ 0 ∷ 0 ∷ 0 ∷ 0 ∷ 0 ∷ 0 ∷ 0 ∷ 0 ∷ 0 ∷ 0 ∷ 0 ∷ [];
  semaphore = false;
  wifi = record {
    uart = record { status = status_len; data_len = 0; buf = [] };
    send_pbuf = none;
    sent = [];
  };
  sender = History.start (λ _. none) (zero_bytes max_frame_len);
  sync_sent = [];
  connects = 0;
}

abbrev pub reset : Main
reset = record { phase = configuring; globals = reset_globals }

pub data Reach : Main → Type 0 where
  start : Reach reset
  later : (s t : Main) → Reach s → Step s t → Reach t
