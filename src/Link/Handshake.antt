-- ===== src/Link/Handshake.antt =====
-- The handshake: start_hock of uart_wifi_passthrough/main/main.c sends the addresses, ttyio_netif_info
-- of uart_wifi_driver/uart.c writes its array back, and recv_netif_info of uart2wifi.c waits for it.
use esp8266_hosted_linux.Base.{
  ℕ, ◌≤◌, ◌<◌, ◌≡◌, refl, sym, ap, ◌∙◌, arith, Bool, true, false, List, [], ◌∷◌, ◌++◌, Bytes,
  length, take, drop, concat, append-nil, take-append-drop, drop-append, length-drop,
}
use esp8266_hosted_linux.Frame.{status_len, split_cmd, frame}
use esp8266_hosted_linux.Driver.Info.{
  netif_info_size, LineDiscipline, Received, took, lost, receive_calls,
}
use esp8266_hosted_linux.Driver.Info.Accept.{NonEmpty, receive_calls-Accepted}
use esp8266_hosted_linux.Esp.Uart.{Uart, FitsFifo}
use esp8266_hosted_linux.Esp.Send.Sync.{HaveRoom}
use esp8266_hosted_linux.Esp.Main.{Netif, Globals, finished, info_block, addresses, start_hock}
use esp8266_hosted_linux.Esp.Main.Start.{OtherAddresses, hooked, start_hock-hooks}

-- What the line discipline has written to the line, after its first `k` writes
abbrev pub echoed : ℕ → Received → Bytes
echoed k (took m d) = concat (drop k d.info.writes)
echoed k lost = []

block_of : (n : Netif) → frame split_cmd (addresses n) ≡ info_block n
unfolding frame
block_of n = refl

echo_of :
    (n : Netif) (array : Bytes)
    → take 15 array ≡ frame split_cmd (addresses n)
    → array ≡ info_block n ++ drop 15 array
echo_of n array e = sym (take-append-drop 15 array) ∙ ap (λ x. x ++ drop 15 array) (e ∙ block_of n)

-- The firmware has been given the address of the interface `n`, none before it in the list has the
-- same, and the transmit FIFO has room in each of at least 15 turns. The block that `start_hock` sends
-- reaches a host that waits for it from its start, in non-empty chunks, with more rounds than the block
-- has bytes, and what the host writes comes back to a firmware that expects a length, in chunks that
-- fit the FIFO. Then the host has accepted the block, and `start_hock` returns with `n` as the target
-- and announces the link; but 49 bytes of the host's answer are left for the receiver of packets.
pub handshake-completes :
    (ip : ℕ) (before after : List Netif) (n : Netif) (counts : List ℕ) (g : Globals)
    (fifo : List Bytes) (can_alloc : ℕ → Bool) (fuel : ℕ) (cps : List Bytes) (d : LineDiscipline)
    → OtherAddresses ip before
    → n.ip_addr ≡ ip
    → HaveRoom counts
    → 15 ≤ length counts
    → g.wifi.uart.status ≡ status_len
    → FitsFifo fifo
    → 15 < fuel
    → NonEmpty cps
    → concat cps ≡ info_block n
    → d.attached ≡ true
    → d.info.netif_info_vaild ≡ false
    → d.info.netif_info_recv_len ≡ 0
    → d.receiver.uart_recv_status ≡ status_len
    → length d.info.netif_info ≡ netif_info_size
    → g.wifi.uart.buf ++ concat fifo
      ≡ echoed (length d.info.writes) (receive_calls can_alloc fuel d cps)
    → (m : ℕ) × (d' : LineDiscipline) × (u : Uart) × (left : List Bytes) × (receive_calls can_alloc
          fuel d cps
        ≡ took m d')
      × (d'.info.netif_info_vaild ≡ true)
      × (start_hock ip (before ++ (n ∷ after)) counts g fifo ≡ finished (hooked n g u) left)
      × (u.status ≡ status_len)
      × (length (u.buf ++ concat left) ≡ 49)
handshake-completes ip before after n counts g fifo can_alloc fuel cps d others here room enough st
      f rounds some_bytes sent at new none_yet st' size line =
    let (m, d', r, _, (array, front, long, _, good, written, _), _) =
      receive_calls-Accepted (addresses n) refl can_alloc fuel cps d rounds some_bytes
        (sent ∙ sym (block_of n)) at new none_yet st' size in
    let back : g.wifi.uart.buf ++ concat fifo ≡ info_block n ++ drop 15 array =
      line
      ∙ ap (echoed (length d.info.writes)) r
      ∙ ap (λ w. concat (drop (length d.info.writes) w)) written
      ∙ ap concat (drop-append d.info.writes (array ∷ []) (length d.info.writes) refl)
      ∙ append-nil array
      ∙ echo_of n array front in
    let (u, left, hook, rest, ready, _) =
      start_hock-hooks ip before after n counts g fifo (drop 15 array) others here room enough st f
        back in
    (
      m,
      d',
      u,
      left,
      r,
      good,
      hook,
      ready,
      omega (arith, ap length rest, length-drop 15 array, long),
    )
