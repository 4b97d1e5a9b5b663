-- ===== src/Driver/Probe/Outcome.antt =====
-- What `uart_wifi_probe` leaves, for every answer of the kernel and every device tree.
use esp8266_hosted_linux.Base.{
  ℕ, ◌≡◌, ◌≢◌, ◌⊎◌, inl, inr, refl, arith, Bool, true, false, Option, none, some, List, [], ◌∷◌,
  Bytes, length, poke, if◌then◌else◌, false≢true,
}
use esp8266_hosted_linux.Driver.Settings.{ssid_size, password_size, wpa_max_ssid_len, written_text}
use esp8266_hosted_linux.Driver.Settings.Frames.{IsSettings}
use esp8266_hosted_linux.Driver.Device.{Ret, success, error, Device}
use esp8266_hosted_linux.Driver.Probe.{
  zeros, zeroed, probe_tty_name, File, file_tty_name, file_ssid, file_password, file_netif_info,
  Answers, Probed, returned, out_of_bounds, check, enomem, netdev_init, register, create_files,
  read_properties, uart_wifi_probe, uart_wifi_stats64,
}
use esp8266_hosted_linux.Driver.Probe.Texts.{
  property_frame, Overruns, Fits, IsText, TextOutcome, probe_text-Outcome, length-probe_tty_name,
}

-- The calls before the device tree is read have succeeded.
abbrev pub Ready : Answers → Type 0
Ready a =
    (a.allocated ≡ true)
    × (a.request_reset ≡ success)
    × (a.output_reset ≡ success)
    × (a.request_intr ≡ success)
    × (a.input_intr ≡ success)
    × (a.irq_num ≡ success)

-- All four sysfs files
abbrev pub all_files : List File
all_files = file_tty_name ∷ file_ssid ∷ file_password ∷ file_netif_info ∷ []

-- The device after the device tree has been read: SSID and password are what the reset work will write
-- for the properties, nothing runs, and nothing has been counted.
pub record Configured (a : Answers) (d : Device) : Type 0 where
  pub settings : IsSettings d.settings
  pub ssid : written_text d.settings.ssid ≡ property_frame wpa_max_ssid_len a.ssid
  pub password : written_text d.settings.password ≡ property_frame password_size a.password
  pub info : length d.line.info.netif_info ≡ 64
  pub irq : d.irq ≡ false
  pub scheduled : d.scheduled ≡ false
  pub stats :
      uart_wifi_stats64 d ≡ record { tx_packets = 0; tx_bytes = 0; rx_packets = 0; rx_bytes = 0 }

-- The three kinds of result.
abbrev pub Outcome : Answers → Probed → Type 0
Outcome a out_of_bounds = Ready a × Overruns password_size password_size a.password
Outcome a (returned r d files registered) =
    ((r ≢ success) × (files ≡ []) × (Ready a → ⊥))
    ⊎ (Ready a
        × Fits password_size password_size a.password
        × Configured a d
        × ((r ≢ success) ⊎ ((r ≡ success) × (files ≡ all_files))))

error_fails : (n : ℕ) → error n ≢ success
error_fails n h = ground (arith, h)

zero_counters :
    (a : Answers) (d : Device)
    → IsSettings d.settings
    → written_text d.settings.ssid ≡ property_frame wpa_max_ssid_len a.ssid
    → written_text d.settings.password ≡ property_frame password_size a.password
    → length d.line.info.netif_info ≡ 64
    → d.irq ≡ false
    → d.scheduled ≡ false
    → uart_wifi_stats64 d ≡ record { tx_packets = 0; tx_bytes = 0; rx_packets = 0; rx_bytes = 0 }
    → Configured a d
zero_counters a d s x y i q w z = record {
  settings = s;
  ssid = x;
  password = y;
  info = i;
  irq = q;
  scheduled = w;
  stats = z;
}

netdev_init-Configured :
    (a : Answers) (allocated : Bool) (registered : Ret) (d : Device)
    → Configured a d
    → Configured a (netdev_init allocated registered d).1
unfolding netdev_init uart_wifi_stats64
netdev_init-Configured a true success d c =
    zero_counters a _ c.settings c.ssid c.password c.info c.irq c.scheduled refl
netdev_init-Configured a true (error n) d c =
    zero_counters a _ c.settings c.ssid c.password c.info c.irq c.scheduled refl
netdev_init-Configured a false registered d c =
    zero_counters a _ c.settings c.ssid c.password c.info c.irq c.scheduled refl

module _ (a : Answers) (ready : Ready a) (fits : Fits password_size password_size a.password) where
  checked :
      (r : Ret) (d : Device) (files : List File) (next : Probed)
      → Configured a d
      → Outcome a next
      → Outcome a (check r d files next)
  unfolding check
  checked success d files next c o = o
  checked (error n) d files next c o = inr (ready, fits, c, inl (error_fails n))

  registered-Outcome :
      (r : Ret) (d : Device)
      → Configured a d
      → Outcome a (elim r [
        | error _ ↦ returned success d all_files false
        | success ↦ returned success d all_files true
      ])
  registered-Outcome success d c = inr (ready, fits, c, inr (refl, refl))
  registered-Outcome (error n) d c = inr (ready, fits, c, inr (refl, refl))

  create_files-Outcome : (d : Device) → Configured a d → Outcome a (create_files a d)
  unfolding create_files register
  create_files-Outcome d c = checked a.create_tty_name d _ _ c (
      checked a.create_ssid d _ _ c (
        checked a.create_password d _ _ c (
          checked a.create_netif_info d _ _ c (
            registered-Outcome (netdev_init a.netdev_allocated a.netdev_registered d).0 _
              (netdev_init-Configured a a.netdev_allocated a.netdev_registered d c)))))

-- `read_properties` of a device of zeros, for what `probe_text` gives for the two properties
abbrev with_texts : Answers → Bytes → Bytes → Device
with_texts a ssid password = record zeroed {
  settings = record {
    tty_name = probe_tty_name a.tty_name zeroed.settings.tty_name;
    ssid = ssid;
    password = password;
  };
}

texts-Configured :
    (a : Answers) (ssid password : Bytes)
    → IsText wpa_max_ssid_len a.ssid ssid_size ssid
    → IsText password_size a.password password_size password
    → Configured a (with_texts a ssid password)
unfolding uart_wifi_stats64
texts-Configured a ssid password s p = record {
  settings = record {
    tty_name = length-probe_tty_name a.tty_name zeroed.settings.tty_name (omega arith);
    ssid = s.0;
    password = p.0;
  };
  ssid = s.1;
  password = p.1;
  info = refl;
  irq = refl;
  scheduled = refl;
  stats = refl;
}

password-Outcome :
    (a : Answers) (ssid : Bytes) (o : Option Bytes)
    → Ready a
    → IsText wpa_max_ssid_len a.ssid ssid_size ssid
    → TextOutcome password_size password_size a.password o
    → Outcome a (elim o [
      | none ↦ out_of_bounds
      | some password ↦ create_files a (with_texts a ssid password)
    ])
password-Outcome a ssid none ready s t = (ready, t)
password-Outcome a ssid (some password) ready s t =
    create_files-Outcome a ready t.0 _ (texts-Configured a ssid password s t.1)

ssid_fits : (prop : Option Bytes) → Overruns wpa_max_ssid_len ssid_size prop → ⊥
ssid_fits none h = h
ssid_fits (some text) h = omega (arith, h)

ssid-Outcome :
    (a : Answers) (o q : Option Bytes)
    → Ready a
    → TextOutcome wpa_max_ssid_len ssid_size a.ssid o
    → TextOutcome password_size password_size a.password q
    → Outcome a (elim o [
      | none ↦ out_of_bounds
      | some ssid ↦ elim q [
        | none ↦ out_of_bounds
        | some password ↦ create_files a (with_texts a ssid password)
      ]
    ])
ssid-Outcome a none q ready t p = absurd (ssid_fits a.ssid t)
ssid-Outcome a (some ssid) q ready t p = password-Outcome a ssid q ready t.1 p

read_properties-Outcome : (a : Answers) → Ready a → Outcome a (read_properties a zeroed)
unfolding read_properties poke
read_properties-Outcome a ready =
    ssid-Outcome a _ _ ready
      (probe_text-Outcome wpa_max_ssid_len a.ssid (zeros ssid_size) (omega arith) refl refl)
      (probe_text-Outcome password_size a.password (zeros password_size) (omega arith) refl refl)

gate :
    (a : Answers) (r : Ret) (next : Probed)
    → (Ready a → r ≡ success)
    → (r ≡ success → Outcome a next)
    → Outcome a (check r zeroed [] next)
unfolding check
gate a success next need h = h refl
gate a (error n) next need h = inl (error_fails n, refl, λ ready. error_fails n (need ready))

allocated-Outcome :
    (a : Answers) (b : Bool) (next : Probed)
    → (Ready a → b ≡ true)
    → (b ≡ true → Outcome a next)
    → Outcome a (if b then next else returned (error enomem) zeroed [] false)
allocated-Outcome a true next need h = h refl
allocated-Outcome a false next need h =
    inl (error_fails enomem, refl, λ ready. false≢true (need ready))

-- Whatever the kernel and the device tree answer, `uart_wifi_probe` has one of three results. It fails
-- before it makes a file. Or it has read the device tree: SSID and password are kept as their frames, or
-- as empty ones where the property is missing or longer than its limit, the counters are 0, neither
-- interrupt nor work is on, and it either fails later or succeeds with all four files made. Or it writes
-- behind the array of the password: exactly when no call has failed up to there and the password of the
-- device tree has 65 to 67 bytes with its NUL.
pub uart_wifi_probe-Outcome : (a : Answers) → Outcome a (uart_wifi_probe a)
unfolding uart_wifi_probe
uart_wifi_probe-Outcome a =
    allocated-Outcome a a.allocated _ (λ h. h.0)
      (λ e.
        gate a a.request_reset _ (λ h. h.1)
          (λ e₁.
            gate a a.output_reset _ (λ h. h.2)
              (λ e₂.
                gate a a.request_intr _ (λ h. h.3)
                  (λ e₃.
                    gate a a.input_intr _ (λ h. h.4)
                      (λ e₄.
                        gate a a.irq_num _ (λ h. h.5)
                          (λ e₅. read_properties-Outcome a (e, e₁, e₂, e₃, e₄, e₅)))))))
