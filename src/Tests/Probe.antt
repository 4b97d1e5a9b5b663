-- ===== src/Tests/Probe.antt =====
-- A device tree with a password of 64 bytes, which is one too many with its NUL; and the SSID "ab", which
-- is written to its file and read again.
use esp8266_hosted_linux.Base.{
  ℕ, zero, suc, ◌≡◌, refl, arith, true, none, some, [], ◌∷◌, Bytes, take,
}
use esp8266_hosted_linux.Driver.Settings.{Settings, attr_ssid, stored, str_store, shown, str_show}
use esp8266_hosted_linux.Driver.Settings.Show.{line_shown, str_store-str_show}
use esp8266_hosted_linux.Driver.Device.{success}
use esp8266_hosted_linux.Driver.Probe.{Answers, uart_wifi_probe, zeroed, zeros}
use esp8266_hosted_linux.Driver.Probe.Outcome.{Outcome, uart_wifi_probe-Outcome}

abbrev ones : ℕ → Bytes
ones zero = []
ones (suc n) = 49 ∷ ones n

abbrev long_password : Answers
long_password = record {
  allocated = true;
  request_reset = success;
  output_reset = success;
  request_intr = success;
  input_intr = success;
  irq_num = success;
  tty_name = none;
  ssid = some (97 ∷ 98 ∷ []);
  password = some (ones 64);
  create_tty_name = success;
  create_ssid = success;
  create_password = success;
  create_netif_info = success;
  netdev_allocated = true;
  netdev_registered = success;
}

uart_wifi_probe-Outcome_example : Outcome long_password (uart_wifi_probe long_password)
uart_wifi_probe-Outcome_example = uart_wifi_probe-Outcome long_password

str_store-str_show_example :
    (s' : Settings) × (page' : Bytes) × (str_store attr_ssid (97 ∷ 98 ∷ 10 ∷ []) zeroed.settings
      ≡ stored 3 s')
    × (str_show attr_ssid s' (zeros 4096) ≡ shown 3 page')
    × (take 3 page' ≡ line_shown 32 (97 ∷ 98 ∷ []))
str_store-str_show_example =
    str_store-str_show attr_ssid zeroed.settings (97 ∷ 98 ∷ []) (zeros 4096)
      (record { tty_name = refl; ssid = refl; password = refl }) (omega arith, (omega arith, tt))
      (omega arith)
