-- ===== src/Driver/Device/Safety.antt =====
-- The work and the interrupt never use a port that has been closed, and `uart_wifi_stop` is not held up
-- for ever.
use esp8266_hosted_linux.Base.{
  ℕ, zero, suc, ◌≡◌, ◌≢◌, ◌⊎◌, inl, inr, refl, sym, subst, ◌∙◌, arith, Bool, true, false,
}
use esp8266_hosted_linux.Driver.Xmit.{TtyOps}
use esp8266_hosted_linux.Driver.Device.{
  success, error, Device, gpio_irq_handler, Work, idle, head, pin_low, pin_high, hold, begin_work,
  pull_low, link_up, esp8266ex_init_work_handler, Stop, reset_low, release_irq, carrier_down,
  stop_queue, drop_info, drop_hold, cancel_work, close_tty, done, uart_wifi_stop,
}
use esp8266_hosted_linux.Driver.Device.Open.{
  Outcome, has_port, has_settings, uart_wifi_open-Outcome,
}
use esp8266_hosted_linux.Driver.Device.Run.{
  User, down, up, stopping, Host, after_stop, Step, opens, open_fails, interrupt, begins, works,
  stops, stop_goes_on, receives, transmits, write_wakeup, stores, Reach, start, later,
}

-- Nothing of the device runs or will run.
abbrev pub Quiet : Work → Bool → Bool → Type 0
Quiet w irq scheduled = (w ≡ idle) × (irq ≡ false) × (scheduled ≡ false)

-- What `uart_wifi_stop` has already done.
abbrev Stopping : Stop → Work → Bool → Bool → Bool → Type 0
Stopping reset_low w irq work_hold scheduled = Unit
Stopping release_irq w irq work_hold scheduled = Unit
Stopping cancel_work w irq work_hold scheduled = (irq ≡ false) × (work_hold ≡ false)
Stopping close_tty w irq work_hold scheduled = (work_hold ≡ false) × Quiet w irq scheduled
Stopping done w irq work_hold scheduled = Quiet w irq scheduled
Stopping _ w irq work_hold scheduled = irq ≡ false

abbrev UserOk : User → Work → (kopened irq work_hold scheduled : Bool) → Type 0
UserOk down w kopened irq work_hold scheduled = Quiet w irq scheduled
UserOk up w kopened irq work_hold scheduled = kopened ≡ true
UserOk (stopping k) w kopened irq work_hold scheduled =
    (kopened ≡ true) × Stopping k w irq work_hold scheduled

abbrev HostOk : Host → Type 0
HostOk h =
    UserOk h.user h.work h.device.tty.kopened h.device.irq h.device.work_hold h.device.scheduled

-- An interrupt comes only if it is requested.
interrupt-Ok :
    (u : User) (w : Work) (kopened irq work_hold scheduled : Bool)
    → irq ≡ true
    → UserOk u w kopened irq work_hold scheduled
    → UserOk u w kopened irq work_hold true
interrupt-Ok down w k i h s on ok = absurd (ground (arith, on, ok))
interrupt-Ok up w k i h s on ok = ok
interrupt-Ok (stopping reset_low) w k i h s on ok = ok
interrupt-Ok (stopping release_irq) w k i h s on ok = ok
interrupt-Ok (stopping carrier_down) w k i h s on ok = ok
interrupt-Ok (stopping stop_queue) w k i h s on ok = ok
interrupt-Ok (stopping drop_info) w k i h s on ok = ok
interrupt-Ok (stopping drop_hold) w k i h s on ok = ok
interrupt-Ok (stopping cancel_work) w k i h s on ok = ok
interrupt-Ok (stopping close_tty) w k i h s on ok = absurd (ground (arith, on, ok))
interrupt-Ok (stopping done) w k i h s on ok = absurd (ground (arith, on, ok))

-- The work runs on only if it runs, and starts only if it is scheduled; nothing else stops for it.
work-Ok :
    (u : User) (w w' : Work) (kopened irq work_hold scheduled scheduled' : Bool)
    → ((w ≡ idle) → (scheduled ≡ false) → (w' ≡ idle) × (scheduled' ≡ false))
    → UserOk u w kopened irq work_hold scheduled
    → UserOk u w' kopened irq work_hold scheduled'
work-Ok down w w' k i h s s' run ok = let r = run ok.0 ok.2 in (r.0, ok.1, r.1)
work-Ok up w w' k i h s s' run ok = ok
work-Ok (stopping reset_low) w w' k i h s s' run ok = ok
work-Ok (stopping release_irq) w w' k i h s s' run ok = ok
work-Ok (stopping carrier_down) w w' k i h s s' run ok = ok
work-Ok (stopping stop_queue) w w' k i h s s' run ok = ok
work-Ok (stopping drop_info) w w' k i h s s' run ok = ok
work-Ok (stopping drop_hold) w w' k i h s s' run ok = ok
work-Ok (stopping cancel_work) w w' k i h s s' run ok = ok
work-Ok (stopping close_tty) w w' k i h s s' run ok =
    let (at_rest, i_off, s_off) = ok.1.1 in
    let r = run at_rest s_off in (ok.0, (ok.1.0, (r.0, i_off, r.1)))
work-Ok (stopping done) w w' k i h s s' run ok =
    let (at_rest, i_off, s_off) = ok.1 in let r = run at_rest s_off in (ok.0, (r.0, i_off, r.1))

stop-Ok :
    (k : Stop) (w : Work) (d : Device)
    → UserOk (stopping k) w d.tty.kopened d.irq d.work_hold d.scheduled
    → (let (k', d') = uart_wifi_stop k w d in
        UserOk (after_stop k') w d'.tty.kopened d'.irq d'.work_hold d'.scheduled)
unfolding uart_wifi_stop
stop-Ok reset_low w d ok = ok
stop-Ok release_irq w d ok = (ok.0, refl)
stop-Ok carrier_down w d ok = ok
stop-Ok stop_queue w d ok = ok
stop-Ok drop_info w d ok = ok
stop-Ok drop_hold w d ok = (ok.0, (ok.1, refl))
stop-Ok cancel_work idle d ok = (ok.0, (ok.1.1, (refl, ok.1.0, refl)))
stop-Ok cancel_work (head n m) d ok = ok
stop-Ok cancel_work (pin_low n m) d ok = ok
stop-Ok cancel_work (pin_high n m) d ok = ok
stop-Ok cancel_work (hold n m left) d ok = ok
stop-Ok close_tty w d ok = ok.1.1
stop-Ok done w d ok = ok.1

-- One step of the work changes neither the port nor the interrupt nor the queue of works.
work-Keeps :
    (g : Bool) (w : Work) (d : Device)
    → (let (w', d') = esp8266ex_init_work_handler g w d in
        (d'.tty ≡ d.tty)
        × (d'.irq ≡ d.irq)
        × (d'.work_hold ≡ d.work_hold)
        × (d'.scheduled ≡ d.scheduled)
        × (w ≡ idle → w' ≡ idle))
unfolding esp8266ex_init_work_handler pull_low link_up
work-Keeps g idle d = (refl, refl, refl, refl, λ h. refl)
work-Keeps g (head n m) d = ground arith
work-Keeps g (pin_low n m) d = (refl, refl, refl, refl, λ h. absurd (ground (arith, h)))
work-Keeps g (pin_high n m) d = (refl, refl, refl, refl, λ h. absurd (ground (arith, h)))
work-Keeps g (hold n m zero) d = (refl, refl, refl, refl, λ h. absurd (ground (arith, h)))
work-Keeps g (hold n m (suc left)) d = ground arith

-- `HostOk` of a host in three parts
abbrev Ok : User → Work × Device → Type 0
Ok u (w, d) = UserOk u w d.tty.kopened d.irq d.work_hold d.scheduled

kept-Ok :
    (u : User) (w : Work) (d d' : Device)
    → d'.tty ≡ d.tty
    → d'.irq ≡ d.irq
    → d'.work_hold ≡ d.work_hold
    → UserOk u w d.tty.kopened d.irq d.work_hold d'.scheduled
    → Ok u (w, d')
kept-Ok u w d d' t i h ok =
    subst (λ t. UserOk u w t.kopened d'.irq d'.work_hold d'.scheduled) (sym t)
      (subst (λ i. UserOk u w d.tty.kopened i d'.work_hold d'.scheduled) (sym i)
        (subst (λ h. UserOk u w d.tty.kopened d.irq h d'.scheduled) (sym h) ok))

handler-Ok :
    (g : Bool) (u : User) (w : Work) (d : Device)
    → Ok u (w, d)
    → Ok u (esp8266ex_init_work_handler g w d)
handler-Ok g u w d ok =
    let (t, i, h, s, rest) = work-Keeps g w d in
    let (w', d') = esp8266ex_init_work_handler g w d in
    kept-Ok u w' d d' t i h (
      work-Ok u w w' d.tty.kopened d.irq d.work_hold d.scheduled d'.scheduled
        (λ at_rest off. (rest at_rest, s ∙ off)) ok)

begin-Ok : (u : User) (d : Device) → d.scheduled ≡ true → Ok u (idle, d) → Ok u (begin_work d)
unfolding begin_work
begin-Ok u d on ok =
    work-Ok u idle _ d.tty.kopened d.irq d.work_hold d.scheduled false
      (λ _ off. absurd (ground (arith, on, off))) ok

module _ (ops : TtyOps) (can_alloc : ℕ → Bool) (fuel : ℕ) where
  Step-Ok : (h h' : Host) → Step ops can_alloc fuel h h' → HostOk h → HostOk h'
  unfolding gpio_irq_handler
  Step-Ok h _ (opens a ret d p e) ok =
      let o : Outcome h.device (has_port (has_settings h.device) a.kopen h.device.tty.kopened)
          (success, d) =
        subst (Outcome h.device _) e (uart_wifi_open-Outcome a ret h.device) in
      o.kopened
  Step-Ok h _ (open_fails a ret n d p e) ok =
      let o : Outcome h.device (has_port (has_settings h.device) a.kopen h.device.tty.kopened)
          (error n, d) =
        subst (Outcome h.device _) e (uart_wifi_open-Outcome a ret h.device) in
      let q : Ok down (h.work, h.device) = subst (λ u. Ok u (h.work, h.device)) p ok in
      subst (λ u. Ok u (h.work, d)) (sym p) (q.0, o.irq ∙ q.1, o.scheduled ∙ q.2)
  Step-Ok h _ (interrupt on) ok =
      interrupt-Ok h.user h.work h.device.tty.kopened h.device.irq h.device.work_hold
        h.device.scheduled on ok
  Step-Ok h _ (begins w d on p e) ok =
      subst (Ok h.user) e (begin-Ok h.user h.device on (subst (λ w. Ok h.user (w, h.device)) p ok))
  Step-Ok h _ (works g w d e) ok = subst (Ok h.user) e (handler-Ok g h.user h.work h.device ok)
  Step-Ok h _ (stops p) ok = (subst (λ u. Ok u (h.work, h.device)) p ok, tt)
  Step-Ok h _ (stop_goes_on k k' d p e) ok =
      subst (λ x. Ok (after_stop x.0) (h.work, x.1)) e
        (stop-Ok k h.work h.device (subst (λ u. Ok u (h.work, h.device)) p ok))
  Step-Ok h _ (receives cp n l k a e) ok = ok
  Step-Ok h _ (transmits skb t t' code net p e) ok = ok
  Step-Ok h _ (write_wakeup k) ok = ok
  Step-Ok h _ (stores attr buf n s e) ok = ok

  module _ (d : Device) (irq_off : d.irq ≡ false) (unscheduled : d.scheduled ≡ false) where
    Reach-Ok : (h : Host) → Reach ops can_alloc fuel d h → HostOk h
    Reach-Ok _ start = (refl, irq_off, unscheduled)
    Reach-Ok _ (later h h' r step) = Step-Ok h h' step (Reach-Ok h r)

UserOk-cases :
    (u : User) (w : Work) (kopened irq work_hold scheduled : Bool)
    → UserOk u w kopened irq work_hold scheduled
    → ((u ≢ down) × (kopened ≡ true)) ⊎ ((u ≡ down) × Quiet w irq scheduled)
UserOk-cases down w k i h s ok = inr (refl, ok)
UserOk-cases up w k i h s ok = inl ((λ e. ground (arith, e)), ok)
UserOk-cases (stopping x) w k i h s ok = inl ((λ e. ground (arith, e)), ok.0)

-- In every state that the host reaches, with the network stack, the interrupt, the work, the serial
-- driver and the sysfs files in any order, from one with the interface down and neither interrupt nor
-- work: the interface is not down and the port is open, or the interface is down, the work neither runs
-- nor is scheduled, and the interrupt is not requested.
pub Reach-PortOpen :
    (ops : TtyOps) (can_alloc : ℕ → Bool) (fuel : ℕ) (d : Device) (h : Host)
    → d.irq ≡ false
    → d.scheduled ≡ false
    → Reach ops can_alloc fuel d h
    → ((h.user ≢ down) × (h.device.tty.kopened ≡ true))
      ⊎ ((h.user ≡ down) × Quiet h.work h.device.irq h.device.scheduled)
Reach-PortOpen ops can_alloc fuel d h i s r =
    UserOk-cases h.user h.work h.device.tty.kopened h.device.irq h.device.work_hold
      h.device.scheduled (Reach-Ok ops can_alloc fuel d i s h r)
