-- ===== src/Link/Setup.antt =====
-- From the sysfs files of the host to the firmware's start: str_store of uart_wifi_driver/main.c and
-- the reset work of netdev.c on one end of the line, recv_ssid and recv_passwd of
-- uart_wifi_passthrough's uart2wifi.c on the other.
use esp8266_hosted_linux.Base.{
  ℕ, ◌+◌, ◌≤◌, ◌≡◌, ap, ap₂, sym, subst, ◌∙◌, arith, List, [], ◌∷◌, ◌++◌, Bytes, length, concat,
  append_assoc, length-append,
}
use esp8266_hosted_linux.Frame.{status_len, split_cmd, frame}
use esp8266_hosted_linux.Driver.Settings.{
  Settings, attr_ssid, attr_password, Stored, stored, einval, out_of_bounds, str_store, setup_bytes,
  written_text,
}
use esp8266_hosted_linux.Driver.Settings.Frames.{
  IsSettings, NoNul, str_store-ssid, str_store-password,
}
use esp8266_hosted_linux.Esp.Uart.{Uart, FitsFifo}
use esp8266_hosted_linux.Esp.Config.{done, recv_ssid, recv_passwd}
use esp8266_hosted_linux.Esp.Config.Setup.{Receives, recv_ssid-recv_passwd}

abbrev settings_of : Stored → Settings → Settings
settings_of (stored n s) other = s
settings_of einval other = other
settings_of out_of_bounds other = other

-- A name of at most 31 bytes and a password of 7 to 63, without NULs, are written with a newline to
-- `ssid` and then to `password`. When the FIFO of a firmware that expects a length brings what one turn
-- of the reset work writes, and then `tail`, cut into chunks anywhere, `recv_ssid` returns the name
-- and `recv_passwd` the password, each with a NUL, and `tail` is left to be read.
pub settings-received :
    (s s₁ s₂ : Settings) (n m : ℕ) (name word tail : Bytes) (u : Uart) (fifo : List Bytes)
    → IsSettings s
    → NoNul name
    → NoNul word
    → length name + 1 ≤ 32
    → (7 ≤ length word) × (length word + 1 ≤ 64)
    → str_store attr_ssid (name ++ (10 ∷ [])) s ≡ stored n s₁
    → str_store attr_password (word ++ (10 ∷ [])) s₁ ≡ stored m s₂
    → u.status ≡ status_len
    → FitsFifo fifo
    → u.buf ++ concat fifo ≡ setup_bytes s₂ ++ tail
    → (u' : Uart) × (fifo' : List Bytes) × (recv_ssid u fifo ≡ done (name ++ (0 ∷ [])) u' fifo')
      × Receives (word ++ (0 ∷ [])) tail (recv_passwd u' fifo')
unfolding setup_bytes
settings-received s s₁ s₂ n m name word tail u fifo v c₁ c₂ short bounds e₁ e₂ st f line =
    let (t₁, r₁, v₁, w₁, _, _) = str_store-ssid s v name c₁ short in
    let same₁ : t₁ ≡ s₁ = ap (λ r. settings_of r s) (sym r₁ ∙ e₁) in
    let v' : IsSettings s₁ = subst IsSettings same₁ v₁ in
    let (t₂, r₂, _, w₂, kept, _) = str_store-password s₁ v' word c₂ bounds.1 in
    let same₂ : t₂ ≡ s₂ = ap (λ r. settings_of r s) (sym r₂ ∙ e₂) in
    let a : written_text s₂.ssid ≡ frame split_cmd (name ++ (0 ∷ [])) =
      ap (λ z. written_text z.ssid) (sym same₂)
      ∙ ap written_text kept
      ∙ ap (λ z. written_text z.ssid) (sym same₁)
      ∙ w₁ in
    let b : written_text s₂.password ≡ frame split_cmd (word ++ (0 ∷ [])) =
      ap (λ z. written_text z.password) (sym same₂) ∙ w₂ in
    recv_ssid-recv_passwd (name ++ (0 ∷ [])) (word ++ (0 ∷ [])) tail u fifo st f
      (omega (arith, length-append name (0 ∷ [])), omega (arith, length-append name (0 ∷ [])))
      (omega (arith, length-append word (0 ∷ [])), omega (arith, length-append word (0 ∷ [])))
      (line
        ∙ ap (λ x. x ++ tail) (ap₂ (λ x y. x ++ y) a b)
        ∙ append_assoc (frame split_cmd (name ++ (0 ∷ []))) (frame split_cmd (word ++ (0 ∷ [])))
            tail)
