-- ===== src/Tests/Settings.antt =====
-- The settings of the driver: an SSID "ab" and a password "12345678" on their way to the firmware, and
-- data packets after them.
use esp8266_hosted_linux.Base.{
  ℕ, zero, suc, ◌-◌, ◌≤◌, ◌≡◌, refl, arith, true, false, none, List, [], ◌∷◌, ◌++◌, Bytes, length,
  length-append, take, drop, concat, poke,
}
use esp8266_hosted_linux.Frame.{status_len, split_cmd, split_data, frame, frames}
use esp8266_hosted_linux.Driver.Settings.{
  Settings, Attribute, attr_ssid, attr_password, attr_tty_name, stored, einval, out_of_bounds,
  str_store, store_text, strncpy, checked, setup_bytes, written_text,
}
use esp8266_hosted_linux.Driver.Settings.Frames.{
  NoNul, IsSettings, Kept, str_store-Kept, str_store-ssid, str_store-password,
}
use esp8266_hosted_linux.Driver.Xmit.{
  TtyOps, Skb, NetDevice, xmit_all, uart_wifi_xmit, write_frame, write_frags,
}
use esp8266_hosted_linux.Driver.Xmit.Frames.{packets}
use esp8266_hosted_linux.Esp.Uart.{Uart}
use esp8266_hosted_linux.Esp.Config.{done, recv_ssid, recv_passwd}
use esp8266_hosted_linux.Esp.Config.Setup.{Receives}
use esp8266_hosted_linux.Esp.Forward.{Wifi, leave, calls}
use esp8266_hosted_linux.Link.Setup.{settings-received}
use esp8266_hosted_linux.Link.HostToEsp.{xmitted-arrive}
use esp8266_hosted_linux.Tests.{ip, ip_chunks}

abbrev zeros : ℕ → Bytes
zeros zero = []
zeros (suc n) = 0 ∷ zeros n

abbrev no_settings : Settings
no_settings = record { tty_name = zeros 10; ssid = zeros 35; password = zeros 67 }

no_settings-IsSettings : IsSettings no_settings
no_settings-IsSettings = record { tty_name = refl; ssid = refl; password = refl }

str_store-Kept_example : Kept 3 (str_store attr_tty_name (97 ∷ 98 ∷ 10 ∷ []) no_settings)
str_store-Kept_example =
    str_store-Kept attr_tty_name (97 ∷ 98 ∷ 10 ∷ []) no_settings no_settings-IsSettings
      (omega arith)

str_store-ssid_example :
    (s : Settings) × (str_store attr_ssid (97 ∷ 98 ∷ 10 ∷ []) no_settings ≡ stored 3 s)
    × IsSettings s
    × (written_text s.ssid ≡ frame split_cmd (97 ∷ 98 ∷ 0 ∷ []))
    × (s.password ≡ zeros 67)
    × (s.tty_name ≡ zeros 10)
str_store-ssid_example =
    str_store-ssid no_settings no_settings-IsSettings (97 ∷ 98 ∷ [])
      (omega arith, (omega arith, tt)) (omega arith)

abbrev word : Bytes
word = 49 ∷ 50 ∷ 51 ∷ 52 ∷ 53 ∷ 54 ∷ 55 ∷ 56 ∷ []

word-NoNul : NoNul word
word-NoNul = (
  omega arith,
  (
    omega arith,
    (omega arith, (omega arith, (omega arith, (omega arith, (omega arith, (omega arith, tt)))))),
  ),
)

str_store-password_example :
    (s : Settings) × (str_store attr_password (word ++ (10 ∷ [])) no_settings ≡ stored 9 s)
    × IsSettings s
    × (written_text s.password ≡ frame split_cmd (word ++ (0 ∷ [])))
    × (s.ssid ≡ zeros 35)
    × (s.tty_name ≡ zeros 10)
str_store-password_example =
    str_store-password no_settings no_settings-IsSettings word word-NoNul (omega arith)

abbrev after : Attribute → Bytes → Settings → Settings
after attr line s = elim (str_store attr line s) [
  | stored n s' ↦ s'
  | einval ↦ s
  | out_of_bounds ↦ s
]

abbrev named : Settings
named = after attr_ssid (97 ∷ 98 ∷ 10 ∷ []) no_settings

abbrev ready : Settings
ready = after attr_password (word ++ (10 ∷ [])) named

abbrev setup_line : Bytes
setup_line = 3 ∷ 0 ∷ 97 ∷ 98 ∷ 0 ∷ 170 ∷ 9 ∷ 0 ∷ (word ++ (0 ∷ 170 ∷ []))

abbrev reset_uart : Uart
reset_uart = record { status = status_len; data_len = 0; buf = [] }

is_named : str_store attr_ssid (97 ∷ 98 ∷ 10 ∷ []) no_settings ≡ stored 3 named
unfolding str_store store_text strncpy checked poke
is_named = refl

is_ready : str_store attr_password (word ++ (10 ∷ [])) named ≡ stored 9 ready
unfolding str_store store_text strncpy checked poke
is_ready = refl

line_of_ready : [] ++ concat (take 7 setup_line ∷ drop 7 setup_line ∷ []) ≡ setup_bytes ready ++ []
unfolding str_store store_text strncpy checked poke setup_bytes
line_of_ready = refl

settings-received_example :
    (u : Uart) × (fifo : List Bytes) × (recv_ssid reset_uart
        (take 7 setup_line ∷ drop 7 setup_line ∷ [])
      ≡ done (97 ∷ 98 ∷ 0 ∷ []) u fifo)
    × Receives (word ++ (0 ∷ [])) [] (recv_passwd u fifo)
settings-received_example =
    settings-received no_settings named ready 3 9 (97 ∷ 98 ∷ []) word [] reset_uart
      (take 7 setup_line ∷ drop 7 setup_line ∷ []) no_settings-IsSettings
      (omega arith, (omega arith, tt)) word-NoNul (omega arith) (omega arith, omega arith) is_named
      is_ready refl (omega arith, (omega arith, tt)) line_of_ready

-- A tty that keeps what is written, with room for 100 bytes in all.
abbrev small_tty : TtyOps
small_tty = record {
  Tty = Bytes;
  write_room = λ t. 100 - length t;
  written = λ t. t;
  write = λ t b. t ++ b;
  write_whole = λ t b h. (refl, omega (arith, length-append t b));
}

abbrev ip_skb : Skb
ip_skb = record {
  head = 1 ∷ 2 ∷ 3 ∷ 4 ∷ 5 ∷ 6 ∷ 7 ∷ 8 ∷ 9 ∷ 10 ∷ 11 ∷ 12 ∷ 8 ∷ 0 ∷ take 6 ip;
  frags = drop 6 ip ∷ [];
}

abbrev device : NetDevice
device = record {
  stopped = false;
  write_wakeup = false;
  carrier = true;
  tx_packets = 0;
  tx_bytes = 0;
}

abbrev reset_wifi : Wifi
reset_wifi = record { uart = reset_uart; send_pbuf = none; sent = [] }

room_of_ip : length (frames split_data (packets (ip_skb ∷ []))) ≤ 100
unfolding frames frame
room_of_ip = omega arith

line_of_ip : concat ip_chunks ++ [] ≡ (xmit_all small_tty (ip_skb ∷ []) device []).2
unfolding xmit_all uart_wifi_xmit write_frame write_frags
line_of_ip = refl

xmitted-arrive_example :
    (s : Wifi) × (fifo rest : List Bytes) × (calls
        ((true, false) ∷ (true, true) ∷ [])
        reset_wifi
        ip_chunks
      ≡ leave s fifo)
    × (s.sent ++ rest ≡ ip ∷ [])
xmitted-arrive_example =
    xmitted-arrive small_tty (ip_skb ∷ []) device [] ((true, false) ∷ (true, true) ∷ []) reset_wifi
      ip_chunks [] (record { header = omega arith; fits = omega arith }, tt)
      ((omega arith, omega arith), tt) room_of_ip refl line_of_ip
      (omega arith, (omega arith, (omega arith, tt))) (refl, refl, refl, refl)
