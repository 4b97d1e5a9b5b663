-- ===== src/Driver/Device/Watch.antt =====
-- One turn of the reset work, esp8266ex_init_work_handler of uart_wifi_driver/netdev.c: what it leaves, and
-- what is seen of it after each step.
use esp8266_hosted_linux.Base.{
  ℕ, zero, suc, ◌+◌, ◌≡◌, ◌⊎◌, inl, inr, refl, ap, ◌∙◌, arith, Bool, true, false, List, [], ◌∷◌,
  ◌++◌, length, if◌then◌else◌,
}
use esp8266_hosted_linux.Driver.Device.{
  Device, Work, idle, head, pin_low, hold, pull_low, link_up, forget_info,
  esp8266ex_init_work_handler, run_work,
}
use esp8266_hosted_linux.Driver.Device.Turn.{hold_on, hold-run, with_settings}

-- What a test of the device gives after each step.
unfoldable pub watch : {A : Type 0} → (Device → A) → List Bool → Work → Device → List A
watch f [] w d = []
watch f (g ∷ gs) w d = let (w', d') = esp8266ex_init_work_handler g w d in f d' ∷ watch f gs w' d'

-- A list that is repeated.
unfoldable pub copies : {A : Type 0} → ℕ → List A → List A
copies zero xs = []
copies (suc k) xs = xs ++ copies k xs

-- A turn that resets the firmware: with the pin low, with the pin high again, and at its end.
abbrev pub lowered : Device → Device
lowered d = record d {
  force_reset = false;
  line = if d.force_reset then d.line else forget_info d.line;
  flushes = d.flushes + 1;
  gpio_reset = false;
}

abbrev pub raised : Device → Device
raised d = record (lowered d) { gpio_reset = true }

abbrev pub turned : ℕ → ℕ → Device → Device
turned n m d = record (raised d) { line = with_settings n m d.settings (lowered d).line }

step-low :
    (n m : ℕ) (g : Bool) (d : Device)
    → (d.force_reset ≡ true) ⊎ ((d.force_reset ≡ false) × (g ≡ true))
    → esp8266ex_init_work_handler g (head n m) d ≡ (pin_low n m, lowered d)
unfolding esp8266ex_init_work_handler pull_low
step-low n m g d (inl f) = rw f refl
step-low n m g d (inr (f, h)) = rw (f, h) refl

pub step-done :
    (n m : ℕ) (d : Device)
    → d.force_reset ≡ false
    → esp8266ex_init_work_handler false (head n m) d ≡ (idle, link_up d)
unfolding esp8266ex_init_work_handler
step-done n m d f = rw f refl

hold-watch :
    {A : Type 0} (f : Device → A) (left n m : ℕ) (gs more : List Bool) (d : Device)
    → length gs ≡ left + 1
    → d.work_hold ≡ true
    → watch f (gs ++ more) (hold n m left) d
      ≡ copies (suc left) (f d ∷ []) ++ watch f more (head n m) d
unfolding watch copies esp8266ex_init_work_handler
hold-watch f left n m [] more d e h = absurd (omega arith)
hold-watch f zero n m (g ∷ []) more d e h = refl
hold-watch f zero n m (g ∷ g' ∷ gs) more d e h = absurd (omega arith)
hold-watch f (suc left) n m (g ∷ gs) more d e h =
    ap (λ x. f x.1 ∷ watch f (gs ++ more) x.0 x.1) (hold_on left n m g d h)
    ∙ ap (λ l. f d ∷ l) (hold-watch f left n m gs more d (omega arith) h)

module _ (n m : ℕ) where
  pub turn-run :
      (g : Bool) (gs more : List Bool) (d : Device)
      → (d.force_reset ≡ true) ⊎ ((d.force_reset ≡ false) × (g ≡ true))
      → length gs ≡ 13
      → d.work_hold ≡ true
      → run_work (g ∷ (gs ++ more)) (head n m) d ≡ run_work more (head n m) (turned n m d)
  unfolding run_work esp8266ex_init_work_handler
  turn-run g [] more d r e h = absurd (omega arith)
  turn-run g (a ∷ []) more d r e h = absurd (omega arith)
  turn-run g (a ∷ b ∷ gs) more d r e h =
      ap (λ x. run_work (a ∷ b ∷ (gs ++ more)) x.0 x.1) (step-low n m g d r)
      ∙ hold-run 10 n m gs more (turned n m d) (omega arith) h

  pub turn-watch :
      {A : Type 0} (f : Device → A) (g : Bool) (gs more : List Bool) (d : Device)
      → (d.force_reset ≡ true) ⊎ ((d.force_reset ≡ false) × (g ≡ true))
      → length gs ≡ 13
      → d.work_hold ≡ true
      → watch f (g ∷ (gs ++ more)) (head n m) d
        ≡ f (lowered d)
          ∷ f (raised d)
          ∷ (copies 12 (f (turned n m d) ∷ []) ++ watch f more (head n m) (turned n m d))
  unfolding watch copies esp8266ex_init_work_handler
  turn-watch f g [] more d r e h = absurd (omega arith)
  turn-watch f g (a ∷ []) more d r e h = absurd (omega arith)
  turn-watch f g (a ∷ b ∷ gs) more d r e h =
      ap (λ x. f x.1 ∷ watch f (a ∷ b ∷ (gs ++ more)) x.0 x.1) (step-low n m g d r)
      ∙ ap (λ l. f (lowered d) ∷ f (raised d) ∷ f (turned n m d) ∷ l)
          (hold-watch f 10 n m gs more (turned n m d) (omega arith) h)
