-- ===== src/Driver/Device/Turn.antt =====
-- Parts of a turn of the work's loop, and that the work ends when the interface goes down.
use esp8266_hosted_linux.Base.{
  ℕ, zero, suc, ◌+◌, ◌≡◌, refl, ap, ◌∙◌, arith, Bool, true, false, List, [], ◌∷◌, ◌++◌, length,
  take, if◌then◌else◌,
}
use esp8266_hosted_linux.Driver.Settings.{Settings}
use esp8266_hosted_linux.Driver.Info.{LineDiscipline}
use esp8266_hosted_linux.Driver.Device.{
  Device, Work, idle, head, pin_low, pin_high, hold, pull_low, link_up, write,
  esp8266ex_init_work_handler, run_work, cancel_work, close_tty, uart_wifi_stop,
}

pub hold_on :
    (left n m : ℕ) (g : Bool) (d : Device)
    → d.work_hold ≡ true
    → esp8266ex_init_work_handler g (hold n m (suc left)) d ≡ (hold n m left, d)
unfolding esp8266ex_init_work_handler
hold_on left n m g d h = ap (λ b. if b then (hold n m left, d) else (idle, d)) h

-- The ten seconds pass, and what comes after them begins at the head of the loop.
pub hold-run :
    (left n m : ℕ) (gs more : List Bool) (d : Device)
    → length gs ≡ left + 1
    → d.work_hold ≡ true
    → run_work (gs ++ more) (hold n m left) d ≡ run_work more (head n m) d
unfolding run_work esp8266ex_init_work_handler
hold-run left n m [] more d e h = absurd (omega arith)
hold-run zero n m (g ∷ []) more d e h = refl
hold-run zero n m (g ∷ g' ∷ gs) more d e h = absurd (omega arith)
hold-run (suc left) n m (g ∷ gs) more d e h =
    ap (λ x. run_work (gs ++ more) x.0 x.1) (hold_on left n m g d h)
    ∙ hold-run left n m gs more d (omega arith) h

-- The two frames of the settings, as the work writes them.
abbrev pub with_settings : ℕ → ℕ → Settings → LineDiscipline → LineDiscipline
with_settings n m s l = write (take (m + 3) s.password) (write (take (n + 3) s.ssid) l)

-- The first three steps of a forced turn
pub forced-run :
    (n m : ℕ) (g g' g'' : Bool) (d : Device)
    → d.force_reset ≡ true
    → run_work (g ∷ g' ∷ g'' ∷ []) (head n m) d ≡ (
      hold n m 10,
      record d {
        force_reset = false;
        line = with_settings n m d.settings d.line;
        flushes = d.flushes + 1;
        gpio_reset = true;
      },
    )
unfolding run_work esp8266ex_init_work_handler pull_low
forced-run n m g g' g'' d f = rw f refl

-- Ten seconds in which the interface stays up, and a GPIO 5 that is low after them
pub found-run :
    (n m : ℕ) (gs : List Bool) (d : Device)
    → length gs ≡ 11
    → d.work_hold ≡ true
    → d.force_reset ≡ false
    → run_work (gs ++ (false ∷ [])) (hold n m 10) d ≡ (idle, link_up d)
unfolding run_work esp8266ex_init_work_handler
found-run n m gs d e h f =
    hold-run 10 n m gs (false ∷ []) d e h
    ∙ ap
        (λ b.
          if b
          then (pin_low n m, pull_low (record d { force_reset = false }))
          else (idle, link_up d))
        f

-- When `work_hold` has been taken back, five steps of the work, wherever it is and whatever it reads,
-- bring it to its end, and `cancel_work_sync` returns.
pub work-Ends :
    (g₁ g₂ g₃ g₄ g₅ : Bool) (w : Work) (d : Device)
    → d.work_hold ≡ false
    → (let (w', d') = run_work (g₁ ∷ g₂ ∷ g₃ ∷ g₄ ∷ g₅ ∷ []) w d in
        (w' ≡ idle) × ((uart_wifi_stop cancel_work w' d').0 ≡ close_tty))
unfolding run_work esp8266ex_init_work_handler uart_wifi_stop
work-Ends a b c x y idle d h = (refl, refl)
work-Ends a b c x y (head n m) d h = ground (arith, h)
work-Ends a b c x y (pin_low n m) d h = ground (arith, h)
work-Ends a b c x y (pin_high n m) d h = ground (arith, h)
work-Ends a b c x y (hold n m zero) d h = ground (arith, h)
work-Ends a b c x y (hold n m (suc left)) d h = ground (arith, h)
