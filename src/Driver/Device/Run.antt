-- ===== src/Driver/Device/Run.antt =====
-- The steps of the host: what the network stack, the interrupt, the work, the serial driver and the
-- sysfs files do to the device, in any order.
use esp8266_hosted_linux.Base.{ℕ, ◌≡◌, Bool, true, Bytes}
use esp8266_hosted_linux.Driver.Settings.{Settings, Attribute, stored, str_store}
use esp8266_hosted_linux.Driver.Xmit.{
  TtyOps, Skb, TxCode, NetDevice, uart_wifi_xmit, ttyio_write_wakeup,
}
use esp8266_hosted_linux.Driver.Info.{LineDiscipline, took, ttyio_receive_buf2}
use esp8266_hosted_linux.Driver.Device.{
  Ret, success, error, Device, TtyAnswers, uart_wifi_open, gpio_irq_handler, Work, idle, begin_work,
  esp8266ex_init_work_handler, Stop, reset_low, done, uart_wifi_stop,
}

-- The interface is down, up, or on its way down.
pub data User : Type 0 where
  down up : User
  stopping : Stop → User

pub record Host : Type 0 where
  pub device : Device
  pub work : Work
  pub user : User

abbrev pub set_device : Host → Device → Host
set_device h d = record h { device = d }

abbrev pub after_stop : Stop → User
after_stop done = down
after_stop k = stopping k

module _ (ops : TtyOps) (can_alloc : ℕ → Bool) (fuel : ℕ) where
  open ops use {Tty}

  pub data Step (h : Host) : Host → Type 0 where
    opens :
        (a : TtyAnswers) (ret : Ret) (d : Device)
        → h.user ≡ down
        → uart_wifi_open a ret h.device ≡ (success, d)
        → Step h (record { device = d; work = h.work; user = up })
    open_fails :
        (a : TtyAnswers) (ret : Ret) (n : ℕ) (d : Device)
        → h.user ≡ down
        → uart_wifi_open a ret h.device ≡ (error n, d)
        → Step h (set_device h d)
    interrupt : h.device.irq ≡ true → Step h (set_device h (gpio_irq_handler h.device))
    begins :
        (w : Work) (d : Device)
        → h.device.scheduled ≡ true
        → h.work ≡ idle
        → begin_work h.device ≡ (w, d)
        → Step h (record { device = d; work = w; user = h.user })
    works :
        (gpio_value : Bool) (w : Work) (d : Device)
        → esp8266ex_init_work_handler gpio_value h.work h.device ≡ (w, d)
        → Step h (record { device = d; work = w; user = h.user })
    stops : h.user ≡ up → Step h (record h { user = stopping reset_low })
    stop_goes_on :
        (k k' : Stop) (d : Device)
        → h.user ≡ stopping k
        → uart_wifi_stop k h.work h.device ≡ (k', d)
        → Step h (record { device = d; work = h.work; user = after_stop k' })
    receives :
        (cp : Bytes) (n : ℕ) (l : LineDiscipline)
        → h.device.tty.kopened ≡ true
        → h.device.tty.ldisc ≡ true
        → ttyio_receive_buf2 can_alloc fuel h.device.line cp ≡ took n l
        → Step h (set_device h (record (h.device) { line = l }))
    transmits :
        (skb : Skb) (t t' : Tty) (code : TxCode) (net : NetDevice)
        → h.user ≡ up
        → uart_wifi_xmit ops skb h.device.net t ≡ (code, net, t')
        → Step h (set_device h (record (h.device) { net = net }))
    write_wakeup :
        h.device.tty.kopened ≡ true
        → Step h (set_device h (record (h.device) { net = ttyio_write_wakeup h.device.net }))
    stores :
        (attr : Attribute) (buf : Bytes) (n : ℕ) (s : Settings)
        → str_store attr buf h.device.settings ≡ stored n s
        → Step h (set_device h (record (h.device) { settings = s }))

  -- From a host whose interface is down and whose work does not run.
  pub data Reach (d : Device) : Host → Type 0 where
    start : Reach d (record { device = d; work = idle; user = down })
    later : (h h' : Host) → Reach d h → Step h h' → Reach d h'
