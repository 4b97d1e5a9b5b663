-- ===== src/Link/BringUp.antt =====
-- The link from the opening of the interface to the first packet: the first turn of the host's reset
-- work (esp8266ex_init_work_handler of uart_wifi_driver/netdev.c), the firmware's `init` and
-- `wifi_event_handler` (uart_wifi_passthrough/main/main.c), the handshake, and the end of the work.
use esp8266_hosted_linux.Base.{
  ℕ, ◌+◌, ◌≤◌, ◌<◌, ◌≡◌, refl, sym, subst, ap, ap₂, ◌∙◌, arith, Bool, true, false, some, List, [],
  ◌∷◌, ◌++◌, Bytes, length, drop, concat, append-nil, append_assoc, drop-append, length-append,
  nil_of_length,
}
use esp8266_hosted_linux.Frame.{status_len, split_cmd, frame, read16}
use esp8266_hosted_linux.Driver.Settings.{written_text}
use esp8266_hosted_linux.Driver.Info.{netif_info_size, LineDiscipline, took, receive_calls}
use esp8266_hosted_linux.Driver.Info.Accept.{NonEmpty}
use esp8266_hosted_linux.Driver.Device.{Device, Work, idle, hold, begin_work, run_work, link_up}
use esp8266_hosted_linux.Driver.Device.Open.{Ready}
use esp8266_hosted_linux.Driver.Device.Turn.{with_settings, forced-run, found-run}
use esp8266_hosted_linux.Esp.Uart.{Uart, FitsFifo}
use esp8266_hosted_linux.Esp.Config.{
  done, recv_ssid, recv_passwd, wpa_max_ssid_len, wpa_max_passwd_len,
}
use esp8266_hosted_linux.Esp.Config.Setup.{recv_ssid-Receives, recv_passwd-Receives}
use esp8266_hosted_linux.Esp.Send.Sync.{HaveRoom}
use esp8266_hosted_linux.Esp.Main.{
  Netif, Globals, finished, info_block, set_uart, wifi_event_handler, got_ip, start_hock, Main,
  waiting, looping, configured, event, take_semaphore, reset_globals, reset, Reach, start, later,
}
use esp8266_hosted_linux.Esp.Main.Start.{OtherAddresses, hooked}
use esp8266_hosted_linux.Link.Handshake.{echoed, handshake-completes}

-- What the host has written after its first `k` writes
abbrev pub written_after : ℕ → LineDiscipline → Bytes
written_after k l = concat (drop k l.info.writes)

-- What it takes for the link to come up, on both sides.
module _ (can_alloc : ℕ → Bool) (fuel : ℕ) (gs : List Bool) (cut : Bytes → List Bytes)
    (cps : List Bytes) (ip : ℕ) (before after : List Netif) (n : Netif) (counts : List ℕ) where
  -- From the host's state in the middle of the first turn of its work, with `k` writes before that turn:
  -- the firmware takes name and password from what the host has written, then sends its addresses and
  -- takes the host's answer; and the work, when its ten seconds are over, finds GPIO 5 as the firmware
  -- has left it.
  abbrev pub ComesUp : ℕ → Bytes → Bytes → Work × Device → Type 0
  ComesUp k name word (w, d) =
      (u v : Uart) × (rest left left' : List Bytes) × (g : Globals) × (m : ℕ) × (l : LineDiscipline)
      × (recv_ssid reset_globals.wifi.uart (cut (written_after k d.line)) ≡ done name u rest)
      × (recv_passwd u rest ≡ done word v left)
      × (receive_calls can_alloc fuel d.line cps ≡ took m l)
      × (wifi_event_handler (got_ip ip) (before ++ (n ∷ after)) counts (set_uart reset_globals v)
            (cut (written_after (length d.line.info.writes) l))
          ≡ finished g left')
      × (g.sync_sent ≡ info_block n)
      × (g.target_wifi_netif ≡ some n)
      × (g.run_flag ≡ true)
      × Reach (record { phase = looping; globals = record g { semaphore = false } })
      × (let (w', d') = run_work (gs ++ (g.gpio5 ∷ [])) w (record d { line = l }) in
          (w' ≡ idle)
          × (d'.net.carrier ≡ true)
          × (d'.net.stopped ≡ false)
          × (d'.line.info.netif_info_vaild ≡ true))

  module _ (name word : Bytes) (name_ok : (1 ≤ length name) × (length name ≤ wpa_max_ssid_len))
      (word_ok : (8 ≤ length word) × (length word ≤ wpa_max_passwd_len)) (long : length gs ≡ 11)
      (whole : (b : Bytes) → concat (cut b) ≡ b) (fits : (b : Bytes) → FitsFifo (cut b))
      (some_bytes : NonEmpty cps) (sent : concat cps ≡ info_block n) (rounds : 15 < fuel)
      (others : OtherAddresses ip before) (here : n.ip_addr ≡ ip) (room : HaveRoom counts)
      (enough : 15 ≤ length counts) where
    hooked-Reach :
        (u v w : Uart) (rest left left' : List Bytes) (fifo fifo' : List Bytes)
        → FitsFifo fifo
        → FitsFifo rest
        → FitsFifo fifo'
        → recv_ssid reset_globals.wifi.uart fifo ≡ done name u rest
        → recv_passwd u rest ≡ done word v left
        → wifi_event_handler
            (got_ip ip)
            (before ++ (n ∷ after))
            counts
            (set_uart reset_globals v)
            fifo'
          ≡ finished (hooked n (set_uart reset_globals v) w) left'
        → Reach (record {
          phase = looping;
          globals = record (hooked n (set_uart reset_globals v) w) { semaphore = false };
        })
    hooked-Reach u v w rest left left' fifo fifo' f f₁ f₂ e₁ e₂ e₃ =
        let g = set_uart reset_globals v in
        let s₁ : Main = record { phase = waiting; globals = g } in
        let s₂ : Main = record { phase = waiting; globals = hooked n g w } in
        let r₁ : Reach s₁ =
          later reset s₁ start (configured name word u v fifo rest left refl f f₁ e₁ e₂) in
        let r₂ : Reach s₂ = later s₁ s₂ r₁ (
          event (got_ip ip) (before ++ (n ∷ after)) counts fifo' left' (hooked n g w)
            (λ h. ground (arith, h)) f₂ e₃) in
        later s₂ _ r₂ (take_semaphore refl refl)

    waiting-ComesUp :
        (k a b : ℕ) (d : Device)
        → written_after k d.line ≡ frame split_cmd name ++ frame split_cmd word
        → d.work_hold ≡ true
        → d.force_reset ≡ false
        → d.line.attached ≡ true
        → d.line.info.netif_info_vaild ≡ false
        → d.line.info.netif_info_recv_len ≡ 0
        → d.line.receiver.uart_recv_status ≡ status_len
        → length d.line.info.netif_info ≡ netif_info_size
        → ComesUp k name word (hold a b 10, d)
    unfolding wifi_event_handler link_up
    waiting-ComesUp k a b d new up no_force at unknown none_yet st size =
        let (u, rest, e₁, on₁, st₁, f₁) =
          recv_ssid-Receives (frame split_cmd word) reset_globals.wifi.uart
            (cut (written_after k d.line)) refl (fits _) name name_ok.0 name_ok.1
            (whole (written_after k d.line) ∙ new) in
        let (v, left, e₂, on, st₂, f) =
          recv_passwd-Receives [] u rest st₁ f₁ word word_ok.0 word_ok.1
            (on₁ ∙ sym (append-nil (frame split_cmd word))) in
        let g = set_uart reset_globals v in
        let empty : v.buf ≡ [] =
          nil_of_length v.buf (omega (arith, ap length on, length-append v.buf (concat left))) in
        let echo = echoed (length d.line.info.writes) (receive_calls can_alloc fuel d.line cps) in
        let (m, l, w, left', r, good, hook, _, _) =
          handshake-completes ip before after n counts g (cut echo) can_alloc fuel cps d.line others
            here room enough st₂ (fits echo) rounds some_bytes sent at unknown none_yet st size
            (ap (λ b. b ++ concat (cut echo)) empty ∙ whole echo) in
        (
          u,
          v,
          rest,
          left,
          left',
          hooked n g w,
          m,
          l,
          e₁,
          e₂,
          r,
          subst
              (λ x.
                start_hock ip (before ++ (n ∷ after)) counts g
                  (cut (echoed (length d.line.info.writes) x))
                ≡ finished (hooked n g w) left')
              r hook,
          refl,
          refl,
          refl,
          hooked-Reach u v w rest left left' (cut (written_after k d.line)) (cut echo) (fits _) f₁
              (fits echo) e₁ e₂ hook,
          subst Found (sym (found-run a b gs (record d { line = l }) long up no_force))
              (refl, refl, refl, good),
        )
      where
        Found : Work × Device → Type 0
        Found (w, d) =
            (w ≡ idle)
            × (d.net.carrier ≡ true)
            × (d.net.stopped ≡ false)
            × (d.line.info.netif_info_vaild ≡ true)

    -- A device that `uart_wifi_open` has made ready holds the frames of a name of 1 to 32 bytes and of a
    -- password of 8 to 64; the work begins, and its first three steps are over. The line keeps the bytes
    -- and their order: the firmware gets them in chunks that fit its FIFO, and is reset before it gets
    -- any; the host gets the firmware's block in non-empty chunks, with more rounds than the block has
    -- bytes. Wi-Fi gives the firmware the address of the interface `n`, and none before it in the list
    -- has the same; the firmware's transmit FIFO has room in each of at least 15 turns. Then the link
    -- comes up: `recv_ssid` and `recv_passwd` return name and password, the host accepts the firmware's
    -- addresses, the firmware takes the host's answer for their echo, has `n` as its target and reaches
    -- its main loop with `runFlag` set; and when the work's ten seconds are over, it finds GPIO 5 low,
    -- turns the carrier on, wakes the queue and ends.
    pub bring_up :
        (d : Device) (g g' g'' : Bool)
        → Ready d
        → length d.line.info.netif_info ≡ netif_info_size
        → written_text d.settings.ssid ≡ frame split_cmd name
        → written_text d.settings.password ≡ frame split_cmd word
        → ComesUp
            (length d.line.info.writes)
            name
            word
            (let (w, d') = begin_work d in run_work (g ∷ g' ∷ g'' ∷ []) w d')
    unfolding begin_work
    bring_up d g g' g'' ready size ssid password =
        let k = length d.line.info.writes in
        let a = read16 d.settings.ssid in
        let b = read16 d.settings.password in
        let d' = record d { scheduled = false } in
        let new : written_after k (with_settings a b d.settings d.line)
            ≡ frame split_cmd name ++ frame split_cmd word =
          ap (λ w. concat (drop k w))
            (append_assoc d.line.info.writes (written_text d.settings.ssid ∷ [])
              (written_text d.settings.password ∷ []))
          ∙ ap concat (
              drop-append d.line.info.writes
                (written_text d.settings.ssid ∷ written_text d.settings.password ∷ []) k refl)
          ∙ ap₂ (λ x y. x ++ (y ++ [])) ssid password
          ∙ ap (λ y. frame split_cmd name ++ y) (append-nil (frame split_cmd word)) in
        subst (ComesUp k name word) (sym (forced-run a b g g' g'' d' ready.force_reset)) (
          waiting-ComesUp k a b
            (record d' {
              force_reset = false;
              line = with_settings a b d.settings d.line;
              flushes = d.flushes + 1;
              gpio_reset = true;
            })
            new ready.work_hold refl ready.attached ready.info_vaild ready.info_len ready.status
            size)
