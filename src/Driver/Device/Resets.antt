-- ===== src/Driver/Device/Resets.antt =====
-- The reset work, esp8266ex_init_work_handler of uart_wifi_driver/netdev.c, from its forced turn to the
-- answer of the firmware, with what can be seen of it from outside: the level of the reset pin and
-- the carrier after each step, and the writes.
use esp8266_hosted_linux.Base.{
  ℕ, zero, suc, ◌+◌, ◌≡◌, inl, inr, refl, sym, ap, ◌∙◌, append_assoc, append-nil, arith, Bool, true,
  false, List, [], ◌∷◌, ◌++◌, Bytes, length, take, Bool-cases,
}
use esp8266_hosted_linux.Frame.{status_len}
use esp8266_hosted_linux.Driver.Info.{LineDiscipline}
use esp8266_hosted_linux.Driver.Device.{Device, idle, head, link_up, forget_info, run_work}
use esp8266_hosted_linux.Driver.Settings.{Settings}
use esp8266_hosted_linux.Driver.Device.Watch.{
  watch, copies, lowered, turned, step-done, turn-run, turn-watch,
}

-- GPIO 5 is high at the head of the loop, and anything in the 13 steps behind it, once for each list;
-- then it is low.
unfoldable pub readings : List (List Bool) → List Bool
readings [] = false ∷ []
readings (gs ∷ turns) = true ∷ (gs ++ readings turns)

abbrev pub Thirteen : List (List Bool) → Type 0
Thirteen [] = Unit
Thirteen (gs ∷ turns) = (length gs ≡ 13) × Thirteen turns

abbrev times : ℕ → ℕ → ℕ → Device → Device
times n m zero d = d
times n m (suc k) d = times n m k (turned n m d)

module _ (n m : ℕ) where
  readings-run :
      (turns : List (List Bool)) (d : Device)
      → d.force_reset ≡ false
      → d.work_hold ≡ true
      → Thirteen turns
      → run_work (readings turns) (head n m) d ≡ (idle, link_up (times n m (length turns) d))
  unfolding run_work readings
  readings-run [] d f h t = step-done n m d f
  readings-run (gs ∷ turns) d f h t =
      turn-run n m true gs (readings turns) d (inr (f, refl)) t.0 h
      ∙ readings-run turns (turned n m d) refl h t.1

  -- The pin is low after the first step of each turn, and high after the thirteen others.
  readings-pin :
      (turns : List (List Bool)) (d : Device)
      → d.force_reset ≡ false
      → d.work_hold ≡ true
      → Thirteen turns
      → d.gpio_reset ≡ true
      → watch (λ d. d.gpio_reset) (readings turns) (head n m) d
        ≡ copies (length turns) (false ∷ copies 13 (true ∷ [])) ++ (true ∷ [])
  unfolding watch readings copies link_up
  readings-pin [] d f h t high =
      ap (λ x. x.1.gpio_reset ∷ []) (step-done n m d f) ∙ ap (λ b. b ∷ []) high
  readings-pin (gs ∷ turns) d f h t high =
      turn-watch n m (λ d. d.gpio_reset) true gs (readings turns) d (inr (f, refl)) t.0 h
      ∙ ap (λ l. (false ∷ copies 13 (true ∷ [])) ++ l)
          (readings-pin turns (turned n m d) refl h t.1 refl)
      ∙ sym (append_assoc (false ∷ copies 13 (true ∷ [])) _ (true ∷ []))

  -- The carrier is left alone until the last step.
  readings-carrier :
      (turns : List (List Bool)) (d : Device)
      → d.force_reset ≡ false
      → d.work_hold ≡ true
      → Thirteen turns
      → watch (λ d. d.net.carrier) (readings turns) (head n m) d
        ≡ copies (length turns) (copies 14 (d.net.carrier ∷ [])) ++ (true ∷ [])
  unfolding watch readings copies link_up
  readings-carrier [] d f h t = ap (λ x. x.1.net.carrier ∷ []) (step-done n m d f)
  readings-carrier (gs ∷ turns) d f h t =
      turn-watch n m (λ d. d.net.carrier) true gs (readings turns) d (inr (f, refl)) t.0 h
      ∙ ap (λ l. copies 14 (d.net.carrier ∷ []) ++ l)
          (readings-carrier turns (turned n m d) refl h t.1)
      ∙ sym (append_assoc (copies 14 (d.net.carrier ∷ [])) _ (true ∷ []))

  -- The addresses that the driver has: those of `d` where there was no turn, else none.
  abbrev pub Addresses : ℕ → Device → Device → Type 0
  Addresses zero d d' =
      (d'.line.info.netif_info_vaild ≡ d.line.info.netif_info_vaild)
      × (d'.line.info.netif_info_recv_len ≡ d.line.info.netif_info_recv_len)
      × (d'.line.receiver.uart_recv_status ≡ d.line.receiver.uart_recv_status)
  Addresses (suc k) d d' =
      (d'.line.info.netif_info_vaild ≡ false)
      × (d'.line.info.netif_info_recv_len ≡ 0)
      × (d'.line.receiver.uart_recv_status ≡ status_len)

  -- What `k` turns leave: one flush and both frames of the settings for each, with the lengths `n` and `m`,
  -- and the settings, the port, the packets and a packet in part, and the array of the addresses as they
  -- were.
  pub record Flushed (k : ℕ) (d d' : Device) : Type 0 where
    pub flushes : d'.flushes ≡ d.flushes + k
    pub writes :
        d'.line.info.writes
        ≡ d.line.info.writes
          ++ copies k (take (n + 3) d.settings.ssid ∷ take (m + 3) d.settings.password ∷ [])
    pub settings : d'.settings ≡ d.settings
    pub tty : d'.tty ≡ d.tty
    pub packets : d'.line.receiver.packets ≡ d.line.receiver.packets
    pub recv_skb : d'.line.receiver.recv_skb ≡ d.line.receiver.recv_skb
    pub netif_info : d'.line.info.netif_info ≡ d.line.info.netif_info

  line-kept :
      {A : Type 0} (f : LineDiscipline → A) (d : Device)
      → f (forget_info d.line) ≡ f d.line
      → f (lowered d).line ≡ f d.line
  line-kept f d h = elim (Bool-cases d.force_reset) [ inl e ↦ rw e refl | inr e ↦ rw e h ]

  turned-Flushed : (d : Device) → Flushed 1 d (turned n m d)
  unfolding copies
  turned-Flushed d =
      let ssid = take (n + 3) d.settings.ssid in
      let password = take (m + 3) d.settings.password in
      record {
        flushes = refl;
        writes =
            append_assoc (lowered d).line.info.writes (ssid ∷ []) (password ∷ [])
            ∙ ap (λ w. w ++ (ssid ∷ password ∷ [])) (line-kept (λ l. l.info.writes) d refl);
        settings = refl;
        tty = refl;
        packets = line-kept (λ l. l.receiver.packets) d refl;
        recv_skb = line-kept (λ l. l.receiver.recv_skb) d refl;
        netif_info = line-kept (λ l. l.info.netif_info) d refl;
      }

  Flushed-more : (k : ℕ) (d e f : Device) → Flushed 1 d e → Flushed k e f → Flushed (suc k) d f
  unfolding copies
  Flushed-more k d e f a b =
      let sent : Settings → List Bytes =
        λ s. copies k (take (n + 3) s.ssid ∷ take (m + 3) s.password ∷ []) in
      record {
        flushes = omega (arith, a.flushes, b.flushes);
        writes =
            b.writes
            ∙ ap (λ s. e.line.info.writes ++ sent s) a.settings
            ∙ ap (λ w. w ++ sent d.settings) a.writes
            ∙ append_assoc d.line.info.writes _ (sent d.settings);
        settings = b.settings ∙ a.settings;
        tty = b.tty ∙ a.tty;
        packets = b.packets ∙ a.packets;
        recv_skb = b.recv_skb ∙ a.recv_skb;
        netif_info = b.netif_info ∙ a.netif_info;
      }

  times-Flushed : (k : ℕ) (d : Device) → Flushed k d (times n m k d)
  unfolding copies
  times-Flushed zero d = record {
    flushes = omega arith;
    writes = sym (append-nil d.line.info.writes);
    settings = refl;
    tty = refl;
    packets = refl;
    recv_skb = refl;
    netif_info = refl;
  }
  times-Flushed (suc k) d =
      Flushed-more k d (turned n m d) _ (turned-Flushed d) (times-Flushed k (turned n m d))

  times-Addresses :
      (k : ℕ) (d : Device) → d.force_reset ≡ false → Addresses k d (link_up (times n m k d))
  unfolding link_up
  times-Addresses zero d f = (refl, refl, refl)
  times-Addresses (suc zero) d f = (rw f refl, rw f refl, rw f refl)
  times-Addresses (suc (suc k)) d f = times-Addresses (suc k) (turned n m d) refl

  forced-Addresses :
      (k : ℕ) (d : Device) → d.force_reset ≡ true → Addresses k d (link_up (times n m (suc k) d))
  unfolding link_up
  forced-Addresses zero d f = (rw f refl, rw f refl, rw f refl)
  forced-Addresses (suc k) d f = times-Addresses (suc k) (turned n m d) refl

  times-force : (k : ℕ) (d : Device) → (times n m (suc k) d).force_reset ≡ false
  times-force zero d = refl
  times-force (suc k) d = times-force k (turned n m d)

  -- The work stands at the head of its loop with the lengths `n` and `m`, and a reset is forced, as
  -- `uart_wifi_open` leaves it; the interface stays up. After the turn of 14 steps that is forced, it
  -- finds GPIO 5 high at the head of its loop once for each list of `turns`, and then low. Then the work
  -- ends, with the carrier on, the queue running and no reset forced. In each turn the reset pin is low
  -- after the first step and high after the others; the carrier stays as it was until the last step, also
  -- where it was on. The port has been flushed, and SSID and password written, in this order, once for
  -- each turn. The firmware's addresses are forgotten if there was a turn that was not forced, and
  -- else kept as they were. Settings, port, packets and a packet in part stay as they were.
  pub work-resets :
      (g : Bool) (gs : List Bool) (turns : List (List Bool)) (d : Device)
      → d.force_reset ≡ true
      → d.work_hold ≡ true
      → length gs ≡ 13
      → Thirteen turns
      → let steps = g ∷ (gs ++ readings turns) in
        let k = length turns in
        (d' : Device) × (run_work steps (head n m) d ≡ (idle, d'))
        × Flushed (suc k) d d'
        × Addresses k d d'
        × (d'.force_reset ≡ false)
        × (d'.net.stopped ≡ false)
        × (watch (λ d. d.gpio_reset) steps (head n m) d
            ≡ copies (suc k) (false ∷ copies 13 (true ∷ [])) ++ (true ∷ []))
        × (watch (λ d. d.net.carrier) steps (head n m) d
            ≡ copies (suc k) (copies 14 (d.net.carrier ∷ [])) ++ (true ∷ []))
  unfolding copies link_up
  work-resets g gs turns d f h e t =
      let k = length turns in
      let d₁ = turned n m d in
      let low = false ∷ copies 13 (true ∷ []) in
      let same = copies 14 (d.net.carrier ∷ []) in
      let fl = times-Flushed (suc k) d in
      (
        link_up (times n m k d₁),
        turn-run n m g gs (readings turns) d (inl f) e h ∙ readings-run turns d₁ refl h t,
        record {
          flushes = fl.flushes;
          writes = fl.writes;
          settings = fl.settings;
          tty = fl.tty;
          packets = fl.packets;
          recv_skb = fl.recv_skb;
          netif_info = fl.netif_info;
        },
        forced-Addresses k d f,
        times-force k d,
        refl,
        turn-watch n m (λ d. d.gpio_reset) g gs (readings turns) d (inl f) e h
            ∙ ap (λ l. low ++ l) (readings-pin turns d₁ refl h t refl)
            ∙ sym (append_assoc low _ (true ∷ [])),
        turn-watch n m (λ d. d.net.carrier) g gs (readings turns) d (inl f) e h
            ∙ ap (λ l. same ++ l) (readings-carrier turns d₁ refl h t)
            ∙ sym (append_assoc same _ (true ∷ [])),
      )
