-- ===== src/Driver/Device.antt =====
-- The network device of uart_wifi_driver/netdev.c: `uart_wifi_open`, `uart_wifi_stop`, the handler of
-- the GPIO interrupt, and the work that resets the firmware; `ttyio_init` of uart.c.
--
-- What the kernel answers comes as an argument. The work sleeps and can be interrupted by everything
-- else there, so one step of it goes to the next sleep or to the head of its loop, and `uart_wifi_stop`, during which the
-- work may still run, is a list of statements.
pub mod Run
pub mod Safety
pub mod Turn
pub mod Watch
pub mod Resets
pub mod Open
use esp8266_hosted_linux.Base.{
  ℕ, zero, suc, ◌+◌, Bool, true, false, Option, none, some, List, [], ◌∷◌, ◌++◌, Bytes, take, ◌==◌,
  if◌then◌else◌,
}
use esp8266_hosted_linux.Frame.{status_len, read16}
use esp8266_hosted_linux.Driver.Settings.{Settings}
use esp8266_hosted_linux.Driver.Xmit.{NetDevice}
use esp8266_hosted_linux.Driver.Info.{LineDiscipline}

-- A C function's result: 0, or a negative number, given without its sign.
pub data Ret : Type 0 where
  success : Ret
  error : ℕ → Ret

abbrev pub einval : ℕ
einval = 22

abbrev pub enodev : ℕ
enodev = 19

-- The fields of `struct ktermios` that `ttyio_init` sets; the others are zero.
pub record Ktermios : Type 0 where
  pub cread : Bool
  pub clocal : Bool
  pub crtscts : Bool
  pub data_bits : ℕ
  pub parity : Bool
  pub two_stop_bits : Bool
  pub baud_rate : ℕ

abbrev pub newtio : Ktermios
newtio = record {
  cread = true;
  clocal = true;
  crtscts = true;
  data_bits = 8;
  parity = false;
  two_stop_bits = false;
  baud_rate = 921600;
}

-- The serial port: between `tty_kopen` and `tty_kclose`, locked, opened by its driver, TTY_HUPPED, its
-- settings, and whether the driver's line discipline is set.
pub record Tty : Type 0 where
  pub kopened : Bool
  pub locked : Bool
  pub opened : Bool
  pub hupped : Bool
  pub termios : Option Ktermios
  pub ldisc : Bool

-- The fields of `struct uart_wifi_struct` that matter here, with the port, the level that the driver
-- puts on the reset pin, whether the interrupt is requested and the work scheduled, and the number of
-- calls of `flush_buffer`.
pub record Device : Type 0 where
  pub settings : Settings
  pub line : LineDiscipline
  pub net : NetDevice
  pub tty : Tty
  pub gpio_reset : Bool
  pub force_reset : Bool
  pub work_hold : Bool
  pub irq : Bool
  pub scheduled : Bool
  pub flushes : ℕ

-- The kernel's answers to `ttyio_init`; `has_ops` says that the port has `write` and `open`.
pub record TtyAnswers : Type 0 where
  pub kopen : Ret
  pub has_ops : Bool
  pub open_port : Ret
  pub set_ldisc : Ret

abbrev pub set_tty : Device → Tty → Device
set_tty d t = record d { tty = t }

-- From `tty_set_ldisc` on
unfoldable pub attach : Ret → Device → Ret × Device
attach (error n) d = (error n, d)
attach success d = (
  success,
  record d { tty = record (d.tty) { ldisc = true }; line = record (d.line) { attached = true } },
)

-- From the test of `tty->ops->open` on
unfoldable pub configure_port : Ret → Ret → Device → Ret × Device
unfolding attach
configure_port (error n) set_ldisc d = (error n, set_tty d (record (d.tty) { locked = false }))
configure_port success set_ldisc d = attach set_ldisc (
    set_tty d
      (record (d.tty) { opened = true; hupped = false; termios = some newtio; locked = false }))

unfoldable pub ttyio_init : TtyAnswers → Device → Ret × Device
unfolding configure_port
ttyio_init a d = elim a.kopen [
  | error n ↦ (error n, d)
  | success ↦
      configure_port (if a.has_ops then a.open_port else error enodev) a.set_ldisc
        (set_tty d (record (d.tty) { kopened = true; locked = true }))
]

-- `netif_carrier_off`, and the start of a wait for the firmware's addresses
abbrev pub carrier_off : Device → Device
carrier_off d = record d { net = record (d.net) { carrier = false } }

abbrev pub forget_info : LineDiscipline → LineDiscipline
forget_info l = record l {
  receiver = record (l.receiver) { uart_recv_status = status_len };
  info = record (l.info) { netif_info_recv_len = 0; netif_info_vaild = false };
}

-- From `work_hold = 1` on; `ret` is the answer of `request_irq`.
unfoldable pub start_work : Ret → Device → Ret × Device
start_work ret d =
    let d' = record d { work_hold = true; force_reset = true; line = forget_info d.line } in
    elim ret [
      | error n ↦ (error n, d')
      | success ↦ (success, record d' { irq = true; scheduled = true })
    ]

-- From the test of the result of `ttyio_init` on
unfoldable pub after_init : Ret → Ret × Device → Ret × Device
unfolding start_work
after_init ret (error _, d) = (error einval, d)
after_init ret (success, d) = start_work ret d

unfoldable pub uart_wifi_open : TtyAnswers → Ret → Device → Ret × Device
unfolding ttyio_init after_init
uart_wifi_open a ret d =
    if read16 d.settings.ssid == 0
    then (error einval, d)
    else if read16 d.settings.password == 0
    then (error einval, d)
    else after_init ret (ttyio_init a (carrier_off d))

unfoldable pub gpio_irq_handler : Device → Device
gpio_irq_handler d = record d { scheduled = true }

-- Where the work stands: not running; at the head of its loop; asleep with the reset pin low; asleep
-- with the pin high again; or asleep after the settings have been written, with some of the ten seconds
-- left. It keeps the lengths of SSID and password that it read at its start.
pub data Work : Type 0 where
  idle : Work
  head pin_low pin_high : ℕ → ℕ → Work
  hold : ℕ → ℕ → ℕ → Work

unfoldable pub begin_work : Device → Work × Device
begin_work d =
    (head (read16 d.settings.ssid) (read16 d.settings.password), record d { scheduled = false })

abbrev pub write : Bytes → LineDiscipline → LineDiscipline
write bytes l = record l { info = record (l.info) { writes = l.info.writes ++ (bytes ∷ []) } }

-- `flush_buffer` and the reset pin's low level
unfoldable pub pull_low : Device → Device
pull_low d = record d { flushes = d.flushes + 1; gpio_reset = false }

unfoldable pub link_up : Device → Device
link_up d = record d { net = record (d.net) { carrier = true; stopped = false } }

-- `gpio_value` is the level of the firmware's GPIO 5 where the work reads it.
unfoldable pub esp8266ex_init_work_handler : Bool → Work → Device → Work × Device
unfolding pull_low link_up
esp8266ex_init_work_handler gpio_value idle d = (idle, d)
esp8266ex_init_work_handler gpio_value (head n m) d =
    if d.force_reset
    then (pin_low n m, pull_low (record d { force_reset = false }))
    else if gpio_value
    then (pin_low n m, pull_low (record d { line = forget_info d.line }))
    else (idle, link_up d)
esp8266ex_init_work_handler gpio_value (pin_low n m) d =
    (pin_high n m, record d { gpio_reset = true })
esp8266ex_init_work_handler gpio_value (pin_high n m) d = (
  hold n m 10,
  record d {
    line = write (take (m + 3) d.settings.password) (write (take (n + 3) d.settings.ssid) d.line);
  },
)
esp8266ex_init_work_handler gpio_value (hold n m zero) d = (head n m, d)
esp8266ex_init_work_handler gpio_value (hold n m (suc left)) d =
    if d.work_hold then (hold n m left, d) else (idle, d)

-- The work's next steps, with the level of GPIO 5 at each.
unfoldable pub run_work : List Bool → Work → Device → Work × Device
unfolding esp8266ex_init_work_handler
run_work [] w d = (w, d)
run_work (g ∷ gs) w d = let (w', d') = esp8266ex_init_work_handler g w d in run_work gs w' d'

-- What `uart_wifi_stop` has still to do.
pub data Stop : Type 0 where
  reset_low release_irq carrier_down stop_queue drop_info drop_hold cancel_work close_tty done :
      Stop

-- One statement. `cancel_work_sync` is left when the work is idle, and takes it from the queue.
unfoldable pub uart_wifi_stop : Stop → Work → Device → Stop × Device
uart_wifi_stop reset_low w d = (release_irq, record d { gpio_reset = false })
uart_wifi_stop release_irq w d = (carrier_down, record d { irq = false })
uart_wifi_stop carrier_down w d = (stop_queue, carrier_off d)
uart_wifi_stop stop_queue w d = (drop_info, record d { net = record (d.net) { stopped = true } })
uart_wifi_stop drop_info w d = (
  drop_hold,
  record d { line = record (d.line) { info = record (d.line.info) { netif_info_vaild = false } } },
)
uart_wifi_stop drop_hold w d = (cancel_work, record d { work_hold = false })
uart_wifi_stop cancel_work w d = elim w [
  | idle ↦ (close_tty, record d { scheduled = false })
  | _ ↦ (cancel_work, d)
]
uart_wifi_stop close_tty w d = (done, record d { tty = record (d.tty) { kopened = false } })
uart_wifi_stop done w d = (done, d)
