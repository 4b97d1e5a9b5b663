-- ===== src/Driver/Probe.antt =====
-- `uart_wifi_probe`, `uart_wifi_remove`, `uart_wifi_drv_init` and `uart_wifi_drv_exit` of
-- uart_wifi_driver/main.c, `netdev_init` and `uart_wifi_stats64` of netdev.c.
--
-- What the kernel and the device tree answer comes as an argument; a property of the device tree is a
-- text without its NUL. The stores of a text come one after the other, and the length is the first.
pub mod Outcome
pub mod Texts
use esp8266_hosted_linux.Base.{
  ℕ, zero, suc, ◌+◌, ◌/◌, ◌%◌, Bool, true, false, not, Option, none, some, List, [], ◌∷◌, ◌++◌,
  Bytes, length, poke, ltb, if◌then◌else◌,
}
use esp8266_hosted_linux.Frame.{status_len, split_cmd}
use esp8266_hosted_linux.Driver.Settings.{
  Settings, tty_name_size, ssid_size, password_size, wpa_max_ssid_len,
}
use esp8266_hosted_linux.Driver.Xmit.{NetDevice}
use esp8266_hosted_linux.Driver.Receive.{Receiver}
use esp8266_hosted_linux.Driver.Info.{Info, LineDiscipline, netif_info_size}
use esp8266_hosted_linux.Driver.Device.{Ret, success, error, Tty, Device}

abbrev pub zeros : ℕ → Bytes
zeros zero = []
zeros (suc n) = 0 ∷ zeros n

-- `devm_kzalloc`: all fields are zero, and nothing is done with the port yet.
abbrev pub zeroed : Device
zeroed = record {
  settings = record {
    tty_name = zeros tty_name_size;
    ssid = zeros ssid_size;
    password = zeros password_size;
  };
  line = record {
    attached = false;
    receiver = record {
      recv_skb = none;
      uart_recv_status = status_len;
      uart_data_len = 0;
      packets = [];
      rx_packets = 0;
      rx_bytes = 0;
      allocs = 0;
    };
    info = record {
      netif_info = zeros netif_info_size;
      netif_info_recv_len = 0;
      netif_info_vaild = false;
      writes = [];
      wakeups = 0;
    };
  };
  net = record {
    stopped = false;
    write_wakeup = false;
    carrier = true;
    tx_packets = 0;
    tx_bytes = 0;
  };
  tty = record {
    kopened = false;
    locked = false;
    opened = false;
    hupped = false;
    termios = none;
    ldisc = false;
  };
  gpio_reset = false;
  force_reset = false;
  work_hold = false;
  irq = false;
  scheduled = false;
  flushes = 0;
}

-- The statistics of the interface
pub record Stats : Type 0 where
  pub tx_packets : ℕ
  pub tx_bytes : ℕ
  pub rx_packets : ℕ
  pub rx_bytes : ℕ

unfoldable pub uart_wifi_stats64 : Device → Stats
uart_wifi_stats64 d = record {
  tx_packets = d.net.tx_packets;
  tx_bytes = d.net.tx_bytes;
  rx_packets = d.line.receiver.rx_packets;
  rx_bytes = d.line.receiver.rx_bytes;
}

-- The answers to `devm_alloc_etherdev` and `register_netdev`; -1 is `error 1`.
unfoldable pub netdev_init : Bool → Ret → Device → Ret × Device
netdev_init allocated registered d =
    let d' = record d {
      net = record (d.net) { tx_packets = 0; tx_bytes = 0 };
      line = record (d.line) {
        receiver = record (d.line.receiver) { rx_packets = 0; rx_bytes = 0 };
      };
    } in
    if allocated
    then elim registered [ error _ ↦ (error 1, d') | success ↦ (success, d') ]
    else (error 1, d')

-- The stores for a missing property, or for one that is too long
abbrev pub no_text : Bytes → Bytes
no_text array = poke 3 (split_cmd ∷ []) (poke 2 (0 ∷ []) (poke 0 (0 ∷ 0 ∷ []) array))

abbrev pub some_text : Bytes → Bytes → Bytes
some_text text array =
    let count = length text + 1 in
    poke (2 + count) (split_cmd ∷ [])
      (poke 2 (text ++ (0 ∷ [])) (poke 0 ((count % 256) ∷ (count / 256 % 256) ∷ []) array))

-- A property into its array; `none` when SPLIT_CMD is written behind the array.
unfoldable pub probe_text : ℕ → Option Bytes → Bytes → Option Bytes
probe_text limit none array = some (no_text array)
probe_text limit (some text) array =
    if ltb limit (length text + 1)
    then some (no_text array)
    else if ltb (length array) (length text + 1 + 3)
    then none
    else some (some_text text array)

unfoldable pub probe_tty_name : Option Bytes → Bytes → Bytes
probe_tty_name none array = poke 0 (0 ∷ []) array
probe_tty_name (some text) array =
    if ltb (length array) (length text + 1)
    then poke 0 (0 ∷ []) array
    else poke 0 (text ++ (0 ∷ [])) array

-- The sysfs files
pub data File : Type 0 where
  file_tty_name file_ssid file_password file_netif_info : File

pub record Answers : Type 0 where
  pub allocated : Bool
  pub request_reset : Ret
  pub output_reset : Ret
  pub request_intr : Ret
  pub input_intr : Ret
  pub irq_num : Ret
  pub tty_name : Option Bytes
  pub ssid : Option Bytes
  pub password : Option Bytes
  pub create_tty_name : Ret
  pub create_ssid : Ret
  pub create_password : Ret
  pub create_netif_info : Ret
  pub netdev_allocated : Bool
  pub netdev_registered : Ret

-- A call of `uart_wifi_probe` returns with the state, the files made, and whether the interface is
-- registered; or it writes behind an array.
pub data Probed : Type 0 where
  returned : Ret → Device → List File → Bool → Probed
  out_of_bounds : Probed

-- `if (ret) return ret;`
unfoldable pub check : Ret → Device → List File → Probed → Probed
check (error n) d files next = returned (error n) d files false
check success d files next = next

abbrev pub enomem : ℕ
enomem = 12

-- From `netdev_init` on: `ret` is still 0 there.
unfoldable pub register : Answers → Device → Probed
unfolding netdev_init
register a d =
    let files = file_tty_name ∷ file_ssid ∷ file_password ∷ file_netif_info ∷ [] in
    let (r, d') = netdev_init a.netdev_allocated a.netdev_registered d in
    elim r [ error _ ↦ returned success d' files false | success ↦ returned success d' files true ]

unfoldable pub create_files : Answers → Device → Probed
unfolding check register
create_files a d = check a.create_tty_name d [] (
    check a.create_ssid d (file_tty_name ∷ []) (
      check a.create_password d (file_tty_name ∷ file_ssid ∷ []) (
        check a.create_netif_info d (file_tty_name ∷ file_ssid ∷ file_password ∷ [])
          (register a d))))

-- The texts of the device tree
unfoldable pub read_properties : Answers → Device → Probed
unfolding probe_text probe_tty_name create_files
read_properties a d = elim (probe_text wpa_max_ssid_len a.ssid d.settings.ssid) [
  | none ↦ out_of_bounds
  | some ssid ↦ elim (probe_text password_size a.password d.settings.password) [
    | none ↦ out_of_bounds
    | some password ↦ create_files a (record d {
      settings = record {
        tty_name = probe_tty_name a.tty_name d.settings.tty_name;
        ssid = ssid;
        password = password;
      };
    })
  ]
]

unfoldable pub uart_wifi_probe : Answers → Probed
unfolding check read_properties
uart_wifi_probe a =
    if a.allocated
    then check a.request_reset zeroed [] (
        check a.output_reset zeroed [] (
          check a.request_intr zeroed []
            (check a.input_intr zeroed [] (check a.irq_num zeroed [] (read_properties a zeroed)))))
    else returned (error enomem) zeroed [] false

-- `uart_wifi_remove` takes away the interface and three of the files.
unfoldable pub uart_wifi_remove : List File → List File
uart_wifi_remove [] = []
uart_wifi_remove (f ∷ fs) =
    let rest = uart_wifi_remove fs in elim f [ file_netif_info ↦ file_netif_info ∷ rest | _ ↦ rest ]

-- The results of `tty_register_ldisc` and `platform_driver_register`, and whether the line discipline
-- stays registered.
unfoldable pub uart_wifi_drv_init : Ret → Ret → Ret × Bool
uart_wifi_drv_init (error n) driver = (error n, false)
uart_wifi_drv_init success driver = (driver, true)

-- The result of `tty_unregister_ldisc`
unfoldable pub uart_wifi_drv_exit : Ret → Bool
uart_wifi_drv_exit success = false
uart_wifi_drv_exit (error n) = true
