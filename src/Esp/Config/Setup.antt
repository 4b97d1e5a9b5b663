-- ===== src/Esp/Config/Setup.antt =====
-- What the configuration frames of the host do to `recv_ssid`, `recv_passwd` and `recv_netif_info`.
use esp8266_hosted_linux.Base.{
  ℕ, suc, ◌+◌, ◌≤◌, ◌≡◌, refl, arith, true, false, not, List, [], ◌∷◌, ◌++◌, Bytes, length, get_or,
  ◌==◌, length-append, append_assoc, concat, get_or-append, eq→==,
}
use esp8266_hosted_linux.Frame.{status_len, mtu_len, read16, frame, out_of_range}
use esp8266_hosted_linux.Frame.Parse.{length-frame, read16-frame_self, get_or-frame}
use esp8266_hosted_linux.Esp.Uart.{Uart, FitsFifo}
use esp8266_hosted_linux.Esp.Config.{
  Round, done, recv_ssid, recv_passwd, recv_netif_info, bad_text, bad_info, memcmp_differs,
  wpa_max_ssid_len, wpa_max_passwd_len,
}
use esp8266_hosted_linux.Frame.{split_cmd}
use esp8266_hosted_linux.Esp.Config.Stream.{recv_frame-Received}

-- A return with the data `p`, that leaves `tail` to be read and expects a length.
abbrev pub Receives : Bytes → Bytes → Round → Type 0
Receives p tail r =
    (u : Uart) × (fifo : List Bytes) × (r ≡ done p u fifo)
    × (u.buf ++ concat fifo ≡ tail)
    × (u.status ≡ status_len)
    × FitsFifo fifo

split_ok : (p r : Bytes) → (get_or (frame split_cmd p ++ r) (length p + 2) 0 == split_cmd) ≡ true
split_ok p r = eq→== _ _ (get_or-frame split_cmd p r)

-- The byte before the split byte is the last of the data.
get_or_last :
    (x : ℕ) (q r : Bytes) → get_or (frame x (q ++ (0 ∷ [])) ++ r) (length (q ++ (0 ∷ [])) + 1) 0 ≡ 0
unfolding frame
get_or_last x q r =
    let e : length (q ++ (0 ∷ [])) + 1 ≡ suc (suc (length q)) =
      omega (arith, length-append q (0 ∷ [])) in
    rw e (simp append_assoc (get_or-append q _ 0 0 (length q) refl))

module _ (tail : Bytes) (u : Uart) (fifo : List Bytes) (st : u.status ≡ status_len)
    (f : FitsFifo fifo) where
  pub recv_ssid-Receives :
      (p : Bytes)
      → 1 ≤ length p
      → length p ≤ wpa_max_ssid_len
      → u.buf ++ concat fifo ≡ frame split_cmd p ++ tail
      → Receives p tail (recv_ssid u fifo)
  unfolding recv_ssid
  recv_ssid-Receives p lo hi on =
      recv_frame-Received (out_of_range 1 wpa_max_ssid_len) bad_text (λ w h. ground arith) split_cmd
        p tail (ground arith) (λ r. ground (arith, split_ok p r)) u fifo on st f

  pub recv_passwd-Receives :
      (p : Bytes)
      → 8 ≤ length p
      → length p ≤ wpa_max_passwd_len
      → u.buf ++ concat fifo ≡ frame split_cmd p ++ tail
      → Receives p tail (recv_passwd u fifo)
  unfolding recv_passwd
  recv_passwd-Receives p lo hi on =
      recv_frame-Received (out_of_range 8 wpa_max_passwd_len) bad_text (λ w h. ground arith)
        split_cmd p tail (ground arith) (λ r. ground (arith, split_ok p r)) u fifo on st f

  memcmp_same : (a r : Bytes) → memcmp_differs (length a) (a ++ r) a ≡ false
  unfolding memcmp_differs
  memcmp_same [] r = refl
  memcmp_same (x ∷ a) r = ground (arith, memcmp_same a r)

  -- When the FIFO brings back the `netif_info` block that was sent, a frame of at most `mtu_len`
  -- bytes, cut into chunks anywhere, `recv_netif_info` returns and leaves what follows the block.
  pub recv_netif_info-echo :
      (info : Bytes)
      → length info ≤ mtu_len
      → u.buf ++ concat fifo ≡ frame split_cmd info ++ tail
      → Receives info tail (recv_netif_info (frame split_cmd info) (length info + 3) u fifo)
  unfolding recv_netif_info
  recv_netif_info-echo info hi on =
      let n = read16-frame_self split_cmd info hi in
      recv_frame-Received (λ w. not (w == read16 (frame split_cmd info)))
        (bad_info (frame split_cmd info) (length info + 3)) (λ w h. ground (arith, n)) split_cmd
        info tail (ground (arith, n))
        (λ r. ground (
          arith,
          split_ok info r,
          rw (length-frame split_cmd info) at (memcmp_same (frame split_cmd info) r),
        ))
        u fifo on st f

  -- `recv_ssid` takes a text that ends in a NUL whatever byte stands in the place of SPLIT_CMD, since
  -- its test asks for both ends of the frame to be wrong.
  pub recv_ssid-any_split :
      (x : ℕ) (q : Bytes)
      → length q + 1 ≤ wpa_max_ssid_len
      → u.buf ++ concat fifo ≡ frame x (q ++ (0 ∷ [])) ++ tail
      → Receives (q ++ (0 ∷ [])) tail (recv_ssid u fifo)
  unfolding recv_ssid
  recv_ssid-any_split x q hi on =
      recv_frame-Received (out_of_range 1 wpa_max_ssid_len) bad_text (λ w h. ground arith) x
        (q ++ (0 ∷ [])) tail (ground (arith, length-append q (0 ∷ [])))
        (λ r. ground (arith, get_or_last x q r)) u fifo on st f

-- When the FIFO brings the frame of an SSID of 1 to 32 bytes, that of a password of 8 to 64 bytes and
-- then `tail`, cut into chunks anywhere, `recv_ssid` returns the SSID, `recv_passwd` called after it
-- the password, and `tail` is left to be read.
pub recv_ssid-recv_passwd :
    (ssid passwd tail : Bytes) (u : Uart) (fifo : List Bytes)
    → u.status ≡ status_len
    → FitsFifo fifo
    → (1 ≤ length ssid) × (length ssid ≤ wpa_max_ssid_len)
    → (8 ≤ length passwd) × (length passwd ≤ wpa_max_passwd_len)
    → u.buf ++ concat fifo ≡ frame split_cmd ssid ++ (frame split_cmd passwd ++ tail)
    → (u' : Uart) × (fifo' : List Bytes) × (recv_ssid u fifo ≡ done ssid u' fifo')
      × Receives passwd tail (recv_passwd u' fifo')
recv_ssid-recv_passwd ssid passwd tail u fifo st f a b on =
    let (u', fifo', e, on', st', f') =
      recv_ssid-Receives (frame split_cmd passwd ++ tail) u fifo st f ssid a.0 a.1 on in
    (u', fifo', e, recv_passwd-Receives tail u' fifo' st' f' passwd b.0 b.1 on')
