-- ===== src/Tests.antt =====
-- The theorems at concrete inputs: `Driver` for uart_wifi_driver, `Esp` for uart_wifi_passthrough,
-- `History` and `Settings` for the two together, `Info`, `Start` and `Probe` for the start, `Dump` for
-- the dumps. Their shared data is here.
pub mod Driver
pub mod Dump
pub mod Esp
pub mod History
pub mod Info
pub mod Start
pub mod Probe
pub mod Settings
use esp8266_hosted_linux.Base.{
  ℕ, zero, suc, List, [], ◌∷◌, ◌++◌, Bytes, none, false, true, Bool, take, drop,
}
use esp8266_hosted_linux.Frame.{status_len, split_data, frame}
use esp8266_hosted_linux.Driver.Receive.{Receiver}

-- An IP header
abbrev pub ip : Bytes
ip =
    69 ∷ 0 ∷ 0 ∷ 20 ∷ 0 ∷ 1 ∷ 0 ∷ 0 ∷ 64 ∷ 1 ∷ 85 ∷ 170 ∷ 192 ∷ 168 ∷ 1 ∷ 2 ∷ 192 ∷ 168 ∷ 1 ∷ 3 ∷ []

-- Its frame, as the line carries it.
abbrev pub ip_line : Bytes
ip_line = 20 ∷ 0 ∷ (ip ++ (85 ∷ []))

abbrev pub ip_chunks : List Bytes
ip_chunks = take 1 ip_line ∷ take 15 (drop 1 ip_line) ∷ drop 16 ip_line ∷ []

-- The driver after `probe`: no skb yet.
abbrev pub fresh_receiver : Receiver
fresh_receiver = record {
  recv_skb = none;
  uart_recv_status = status_len;
  uart_data_len = 0;
  packets = [];
  rx_packets = 0;
  rx_bytes = 0;
  allocs = 0;
}
