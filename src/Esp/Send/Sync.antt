-- ===== src/Esp/Send/Sync.antt =====
-- `send_to_uart0_sync` writes all bytes.
use esp8266_hosted_linux.Base.{
  ℕ, ◌≤◌, ◌<◌, ◌≡◌, refl, ap, ◌∙◌, arith, List, [], ◌∷◌, ◌++◌, Bytes, length, take, drop,
  take-append-drop, length-drop,
}
use esp8266_hosted_linux.Esp.Uart.{uart_fifo_len}
use esp8266_hosted_linux.Esp.Send.{copy_count, send_to_uart0_sync}

-- At each turn the FIFO has room.
abbrev pub HaveRoom : List ℕ → Type 0
HaveRoom [] = Unit
HaveRoom (c ∷ cs) = (c < uart_fifo_len) × HaveRoom cs

copy_count-bounds :
    (c len : ℕ) → c < uart_fifo_len → 0 < len → (0 < copy_count c len) × (copy_count c len ≤ len)
unfolding copy_count
copy_count-bounds c len h pos = ground arith

-- If the FIFO has room at each turn, `send_to_uart0_sync` writes all of its bytes in order, within as
-- many turns as there are bytes.
pub send_to_uart0_sync-whole :
    (counts : List ℕ) (bytes : Bytes)
    → HaveRoom counts
    → length bytes ≤ length counts
    → send_to_uart0_sync counts bytes ≡ (bytes, [])
unfolding send_to_uart0_sync
send_to_uart0_sync-whole [] [] r n = refl
send_to_uart0_sync-whole (c ∷ counts) [] r n = refl
send_to_uart0_sync-whole [] (b ∷ bytes) r n = absurd (omega arith)
send_to_uart0_sync-whole (c ∷ counts) (b ∷ bytes) r n =
    let k = copy_count c (length (b ∷ bytes)) in
    let (pos, fits) = copy_count-bounds c (length (b ∷ bytes)) r.0 (omega arith) in
    let rest =
      send_to_uart0_sync-whole counts (drop k (b ∷ bytes)) r.1
        (omega (arith, length-drop k (b ∷ bytes))) in
    ap (λ x. (take k (b ∷ bytes) ++ x.0, x.1)) rest
    ∙ ap (λ x. (x, [])) (take-append-drop k (b ∷ bytes))
