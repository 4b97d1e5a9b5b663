-- ===== src/Driver/Device/Open.antt =====
-- What `uart_wifi_open` leaves, on every branch.
use esp8266_hosted_linux.Base.{
  ◌≡◌, inl, inr, refl, Bool, true, false, not, ◌&&◌, some, ◌==◌, if◌then◌else◌, Bool-cases,
}
use esp8266_hosted_linux.Frame.{status_len, read16}
use esp8266_hosted_linux.Driver.Device.{
  Ret, success, error, newtio, Device, TtyAnswers, attach, configure_port, ttyio_init, carrier_off,
  after_init, start_work, uart_wifi_open,
}

-- The device is up: the port is opened, unlocked and attached, interrupt and work are on, and the
-- first turn of the work will reset the firmware. The carrier is off until then, and the receivers wait
-- for the addresses.
pub record Ready (d : Device) : Type 0 where
  pub kopened : d.tty.kopened ≡ true
  pub locked : d.tty.locked ≡ false
  pub opened : d.tty.opened ≡ true
  pub termios : d.tty.termios ≡ some newtio
  pub ldisc : d.tty.ldisc ≡ true
  pub attached : d.line.attached ≡ true
  pub irq : d.irq ≡ true
  pub scheduled : d.scheduled ≡ true
  pub work_hold : d.work_hold ≡ true
  pub force_reset : d.force_reset ≡ true
  pub carrier : d.net.carrier ≡ false
  pub info_vaild : d.line.info.netif_info_vaild ≡ false
  pub info_len : d.line.info.netif_info_recv_len ≡ 0
  pub status : d.line.receiver.uart_recv_status ≡ status_len

-- A failed call has neither requested the interrupt nor scheduled the work. `kopened` is what
-- `tty_kopen` left.
pub record Failed (d d' : Device) (kopened : Bool) : Type 0 where
  pub irq : d'.irq ≡ d.irq
  pub scheduled : d'.scheduled ≡ d.scheduled
  pub port : d'.tty.kopened ≡ kopened
  pub locked : d.tty.locked ≡ false → d'.tty.locked ≡ false

-- Whether a call of `tty_kopen` has got the port.
abbrev pub has_port : Bool → Ret → Bool → Bool
has_port settings kopen before =
    if settings then elim kopen [ success ↦ true | error _ ↦ before ] else before

abbrev pub Outcome : Device → Bool → Ret × Device → Type 0
Outcome d kopened (success, d') = Ready d'
Outcome d kopened (error n, d') = Failed d d' kopened

abbrev InitOutcome : TtyAnswers → Ret → Device → Type 0
InitOutcome a ret d =
    Outcome d (has_port true a.kopen d.tty.kopened) (after_init ret (ttyio_init a (carrier_off d)))

same :
    (d d' : Device)
    → d'.irq ≡ d.irq
    → d'.scheduled ≡ d.scheduled
    → (d.tty.locked ≡ false → d'.tty.locked ≡ false)
    → Failed d d' d'.tty.kopened
same d d' i w l = record { irq = i; scheduled = w; port = refl; locked = l }

after_init-Outcome :
    (kopen : Ret) (has_ops : Bool) (open_port set_ldisc ret : Ret) (d : Device)
    → InitOutcome
        (record { kopen = kopen; has_ops = has_ops; open_port = open_port; set_ldisc = set_ldisc })
        ret
        d
unfolding after_init ttyio_init configure_port attach start_work
after_init-Outcome (error n) has_ops open_port set_ldisc ret d = same d _ refl refl (λ h. h)
after_init-Outcome success false open_port set_ldisc ret d = same d _ refl refl (λ h. refl)
after_init-Outcome success true (error n) set_ldisc ret d = same d _ refl refl (λ h. refl)
after_init-Outcome success true success (error n) ret d = same d _ refl refl (λ h. refl)
after_init-Outcome success true success success (error n) d = same d _ refl refl (λ h. refl)
after_init-Outcome success true success success success d = record {
  kopened = refl;
  locked = refl;
  opened = refl;
  termios = refl;
  ldisc = refl;
  attached = refl;
  irq = refl;
  scheduled = refl;
  work_hold = refl;
  force_reset = refl;
  carrier = refl;
  info_vaild = refl;
  info_len = refl;
  status = refl;
}

-- Whether SSID and password are there
abbrev pub has_settings : Device → Bool
has_settings d = not (read16 d.settings.ssid == 0) && not (read16 d.settings.password == 0)

-- Whatever the kernel answers, `uart_wifi_open` either succeeds and leaves the device ready, or returns
-- an error with neither the interrupt requested nor the work scheduled, and the port unlocked if it was.
-- A failed call never gives back a port that `tty_kopen` got: the port stays opened if SSID and password
-- were there and `tty_kopen` succeeded, whichever call failed later.
pub uart_wifi_open-Outcome :
    (a : TtyAnswers) (ret : Ret) (d : Device)
    → Outcome d (has_port (has_settings d) a.kopen d.tty.kopened) (uart_wifi_open a ret d)
unfolding uart_wifi_open
uart_wifi_open-Outcome a ret d = elim (Bool-cases (read16 d.settings.ssid == 0)) [
  | inl e ↦ rw e (same d d refl refl (λ h. h))
  | inr e ↦ elim (Bool-cases (read16 d.settings.password == 0)) [
    | inl e' ↦ rw (e, e') (same d d refl refl (λ h. h))
    | inr e' ↦ rw (e, e') (after_init-Outcome a.kopen a.has_ops a.open_port a.set_ldisc ret d)
  ]
]
