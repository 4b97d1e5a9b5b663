-- ===== src/Tests/Start.antt =====
-- The start of both sides: a host that opens its interface, and a firmware that gets 192.168.1.7.
use esp8266_hosted_linux.Base.{
  ℕ, ◌-◌, length-append, ◌≡◌, ◌≢◌, ◌⊎◌, refl, arith, Bool, true, false, none, some, List, [], ◌∷◌,
  ◌++◌, Bytes, length, concat, ap,
}
use esp8266_hosted_linux.Frame.{status_len, split_cmd, frame}
use esp8266_hosted_linux.Driver.Settings.{Settings, written_text}
use esp8266_hosted_linux.Driver.Xmit.{TtyOps}
use esp8266_hosted_linux.Driver.Info.{LineDiscipline, took, receive_calls}
use esp8266_hosted_linux.Driver.Device.{
  success, error, newtio, TtyAnswers, Tty, Device, ttyio_init, configure_port, attach, after_init,
  start_work, uart_wifi_open, begin_work, idle, head, pin_low, run_work, cancel_work, close_tty,
  uart_wifi_stop,
}
use esp8266_hosted_linux.Driver.Device.Open.{
  Ready, Outcome, has_port, has_settings, uart_wifi_open-Outcome,
}
use esp8266_hosted_linux.Driver.Device.Run.{Host, down, up, opens, start, later}
use esp8266_hosted_linux.Driver.Device.Safety.{Quiet, Reach-PortOpen}
use esp8266_hosted_linux.Driver.Device.Turn.{work-Ends}
use esp8266_hosted_linux.Driver.Device.Watch.{watch, copies}
use esp8266_hosted_linux.Driver.Device.Resets.{readings, Flushed, Addresses, work-resets}
use esp8266_hosted_linux.Esp.Uart.{Uart, FitsFifo}
use esp8266_hosted_linux.Esp.Forward.{uart2wifi}
use esp8266_hosted_linux.Esp.Forward.Bounds.{Returns}
use esp8266_hosted_linux.Esp.Send.{recv, perform}
use esp8266_hosted_linux.Esp.Send.History as History
use esp8266_hosted_linux.Esp.Send.Sync.{HaveRoom}
use esp8266_hosted_linux.Esp.Main as Main
use esp8266_hosted_linux.Esp.Main.{
  Netif, finished, start_hock, wifi_event_handler, got_ip, reset, reset_globals,
}
use esp8266_hosted_linux.Esp.Main.Start.{hooked}
use esp8266_hosted_linux.Esp.Main.Safety.{NoOverflow, Reach-Safe}
use esp8266_hosted_linux.Link.Handshake.{echoed, handshake-completes}
use esp8266_hosted_linux.Link.BringUp.{ComesUp, bring_up}
use esp8266_hosted_linux.Tests.Info.{zeros, waiting_line, block, block_chunks, chunks-NonEmpty}

abbrev loopback : Netif
loopback = record { ip_addr = 16777343; netmask = 255; gw = 0 }

-- 192.168.1.7, 255.255.255.0 and 192.168.1.1, little endian
abbrev station : Netif
station = record { ip_addr = 117549248; netmask = 16777215; gw = 16885952 }

station_block : Main.info_block station ≡ block
station_block = refl

abbrev counts : List ℕ
counts = 0 ∷ 1 ∷ 2 ∷ 3 ∷ 4 ∷ 5 ∷ 6 ∷ 7 ∷ 8 ∷ 9 ∷ 10 ∷ 11 ∷ 12 ∷ 13 ∷ 127 ∷ []

counts-HaveRoom : HaveRoom counts
counts-HaveRoom = ground arith

Reach-Safe_example :
    ((reset_globals.target_wifi_netif ≢ none)
      ⊎ ((Main.configuring ≢ Main.looping)
          × (reset_globals.run_flag ≡ false)
          × (reset_globals.gpio5 ≡ true)))
    × Returns (uart2wifi true true reset_globals.wifi block_chunks)
    × NoOverflow (wifi_event_handler (got_ip 7) [] counts reset_globals block_chunks)
    × History.Returns (perform (recv true 5 true (69 ∷ [])) reset_globals.sender)
Reach-Safe_example =
    Reach-Safe reset true true (got_ip 7) [] counts block_chunks (recv true 5 true (69 ∷ []))
      Main.start (omega arith, (omega arith, (omega arith, tt)))
      (omega arith, omega arith, λ h. refl)

-- A line that brings one byte at a time.
abbrev singles : Bytes → List Bytes
singles [] = []
singles (x ∷ xs) = (x ∷ []) ∷ singles xs

singles-whole : (b : Bytes) → concat (singles b) ≡ b
singles-whole [] = refl
singles-whole (x ∷ xs) = ap (◌∷◌ x) (singles-whole xs)

singles-FitsFifo : (b : Bytes) → FitsFifo (singles b)
singles-FitsFifo [] = tt
singles-FitsFifo (x ∷ xs) = (omega arith, singles-FitsFifo xs)

abbrev host_echo : Bytes
host_echo = echoed 0 (receive_calls (λ _. true) 16 waiting_line block_chunks)

handshake-completes_example :
    (m : ℕ) × (d' : LineDiscipline) × (u : Uart) × (left : List Bytes) × (receive_calls
        (λ _. true)
        16
        waiting_line
        block_chunks
      ≡ took m d')
    × (d'.info.netif_info_vaild ≡ true)
    × (start_hock 117549248 (loopback ∷ station ∷ []) counts reset_globals (singles host_echo)
        ≡ finished (hooked station reset_globals u) left)
    × (u.status ≡ status_len)
    × (length (u.buf ++ concat left) ≡ 49)
handshake-completes_example =
    handshake-completes 117549248 (loopback ∷ []) [] station counts reset_globals
      (singles host_echo) (λ _. true) 16 block_chunks waiting_line (ground arith, tt) refl
      counts-HaveRoom (omega arith) refl (singles-FitsFifo host_echo) (omega arith) chunks-NonEmpty
      refl refl refl refl refl refl (singles-whole host_echo)

-- The SSID "ab" and the password "12345678"
abbrev name : Bytes
name = 97 ∷ 98 ∷ 0 ∷ []

abbrev word : Bytes
word = 49 ∷ 50 ∷ 51 ∷ 52 ∷ 53 ∷ 54 ∷ 55 ∷ 56 ∷ 0 ∷ []

abbrev settings : Settings
settings = record {
  tty_name = zeros 10;
  ssid = 3 ∷ 0 ∷ (name ++ (170 ∷ zeros 29));
  password = 9 ∷ 0 ∷ (word ++ (170 ∷ zeros 55));
}

abbrev closed_tty : Tty
closed_tty = record {
  kopened = false;
  locked = false;
  opened = false;
  hupped = true;
  termios = none;
  ldisc = false;
}

abbrev closed : Device
closed = record {
  settings = settings;
  line = record waiting_line { attached = false };
  net = record {
    stopped = true;
    write_wakeup = false;
    carrier = true;
    tx_packets = 0;
    tx_bytes = 0;
  };
  tty = closed_tty;
  gpio_reset = false;
  force_reset = false;
  work_hold = false;
  irq = false;
  scheduled = false;
  flushes = 0;
}

abbrev good_answers : TtyAnswers
good_answers = record { kopen = success; has_ops = true; open_port = success; set_ldisc = success }

-- The interrupt cannot be had, and the port stays open.
uart_wifi_open-Outcome_example :
    Outcome closed
      (has_port (has_settings closed) success false)
      (uart_wifi_open good_answers (error 16) closed)
uart_wifi_open-Outcome_example = uart_wifi_open-Outcome good_answers (error 16) closed

abbrev opened : Device
opened = record closed {
  line = waiting_line;
  net = record (closed.net) { carrier = false };
  tty = record {
    kopened = true;
    locked = false;
    opened = true;
    hupped = false;
    termios = some newtio;
    ldisc = true;
  };
  force_reset = true;
  work_hold = true;
  irq = true;
  scheduled = true;
}

opened-Ready : Ready opened
opened-Ready = record {
  kopened = refl;
  locked = refl;
  opened = refl;
  termios = refl;
  ldisc = refl;
  attached = refl;
  irq = refl;
  scheduled = refl;
  work_hold = refl;
  force_reset = refl;
  carrier = refl;
  info_vaild = refl;
  info_len = refl;
  status = refl;
}

-- A tty that takes everything.
abbrev wide_tty : TtyOps
wide_tty = record {
  Tty = Bytes;
  write_room = λ t. 10000 - length t;
  written = λ t. t;
  write = λ t b. t ++ b;
  write_whole = λ t b h. (refl, omega (arith, length-append t b));
}

is_opened : uart_wifi_open good_answers success closed ≡ (success, opened)
unfolding uart_wifi_open ttyio_init configure_port attach after_init start_work
is_opened = refl

abbrev host : Host
host = record { device = opened; work = idle; user = up }

Reach-PortOpen_example : ((up ≢ down) × (true ≡ true)) ⊎ ((up ≡ down) × Quiet idle true true)
Reach-PortOpen_example =
    Reach-PortOpen wide_tty (λ _. true) 16 closed host refl refl
      (later (record { device = closed; work = idle; user = down }) host start
        (opens good_answers success opened refl is_opened))

abbrev levels : List Bool
levels = true ∷ true ∷ true ∷ true ∷ true ∷ true ∷ true ∷ true ∷ true ∷ true ∷ false ∷ []

-- The firmware is reset once because that is forced, and once more because it has not answered.
abbrev turns : List (List Bool)
turns = (false ∷ true ∷ levels) ∷ []

abbrev steps : List Bool
steps = true ∷ ((true ∷ true ∷ levels) ++ readings turns)

work-resets_example :
    (d' : Device) × (run_work steps (head 3 9) opened ≡ (idle, d'))
    × Flushed 3 9 2 opened d'
    × Addresses 3 9 1 opened d'
    × (d'.force_reset ≡ false)
    × (d'.net.stopped ≡ false)
    × (watch (λ d. d.gpio_reset) steps (head 3 9) opened
        ≡ copies 2 (false ∷ copies 13 (true ∷ [])) ++ (true ∷ []))
    × (watch (λ d. d.net.carrier) steps (head 3 9) opened
        ≡ copies 2 (copies 14 (false ∷ [])) ++ (true ∷ []))
work-resets_example =
    work-resets 3 9 true (true ∷ true ∷ levels) turns opened refl refl refl (refl, tt)

abbrev going_down : Device
going_down = record opened { work_hold = false; irq = false }

work-Ends_example :
    let (w', d') = run_work (true ∷ true ∷ true ∷ true ∷ true ∷ []) (pin_low 3 9) going_down in
    (w' ≡ idle) × ((uart_wifi_stop cancel_work w' d').0 ≡ close_tty)
work-Ends_example = work-Ends true true true true true (pin_low 3 9) going_down refl

name_line : written_text settings.ssid ≡ frame split_cmd name
unfolding frame
name_line = refl

word_line : written_text settings.password ≡ frame split_cmd word
unfolding frame
word_line = refl

bring_up_example :
    ComesUp
      (λ _. true)
      16
      levels
      singles
      block_chunks
      117549248
      (loopback ∷ [])
      []
      station
      counts
      0
      name
      word
      (let (w, d') = begin_work opened in run_work (true ∷ true ∷ true ∷ []) w d')
bring_up_example =
    bring_up (λ _. true) 16 levels singles block_chunks 117549248 (loopback ∷ []) [] station counts
      name word (omega arith, omega arith) (omega arith, omega arith) refl singles-whole
      singles-FitsFifo chunks-NonEmpty refl (omega arith) (ground arith, tt) refl counts-HaveRoom
      (omega arith) opened true true true opened-Ready refl name_line word_line
