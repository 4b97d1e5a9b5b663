-- ===== src/Esp/Main/Start.antt =====
-- `start_hock` of main.c: it announces the link when the host has echoed the addresses.
use esp8266_hosted_linux.Base.{
  ℕ, ◌≤◌, ◌≡◌, ◌≢◌, refl, ap, ◌∙◌, arith, List, [], ◌∷◌, ◌++◌, Bytes, some, length, concat, ne→==,
  eq→==,
}
use esp8266_hosted_linux.Frame.{status_len, frame}
use esp8266_hosted_linux.Esp.Uart.{Uart, FitsFifo}
use esp8266_hosted_linux.Esp.Config.Setup.{Receives, recv_netif_info-echo}
use esp8266_hosted_linux.Esp.Config.{recv_netif_info}
use esp8266_hosted_linux.Esp.Send.{send_to_uart0_sync}
use esp8266_hosted_linux.Esp.Send.Sync.{HaveRoom, send_to_uart0_sync-whole}
use esp8266_hosted_linux.Esp.Main.{
  Netif, Globals, finished, waits, find_netif, info_block, addresses, hocked, set_uart, await_echo,
  handshake, start_hock,
}

-- None of these interfaces has the address.
abbrev pub OtherAddresses : ℕ → List Netif → Type 0
OtherAddresses ip [] = Unit
OtherAddresses ip (n ∷ ns) = (n.ip_addr ≢ ip) × OtherAddresses ip ns

find_netif-first :
    (ip : ℕ) (before after : List Netif) (n : Netif)
    → OtherAddresses ip before
    → n.ip_addr ≡ ip
    → find_netif ip (before ++ (n ∷ after)) ≡ some n
unfolding find_netif
find_netif-first ip [] after n o e = rw (eq→== n.ip_addr ip e) refl
find_netif-first ip (b ∷ before) after n o e =
    rw (ne→== b.ip_addr ip o.0) (find_netif-first ip before after n o.1 e)

-- What a handshake with the interface `n` leaves when its last chunk leaves the receivers in `u`.
abbrev pub hooked : Netif → Globals → Uart → Globals
hooked n g u =
    hocked n
      (set_uart (record g { netif_info = info_block n; sync_sent = g.sync_sent ++ info_block n }) u)

echo-Receives :
    (n : Netif) (u : Uart) (fifo : List Bytes) (tail : Bytes)
    → u.status ≡ status_len
    → FitsFifo fifo
    → u.buf ++ concat fifo ≡ info_block n ++ tail
    → Receives (addresses n) tail (recv_netif_info (info_block n) 15 u fifo)
unfolding frame
echo-Receives n u fifo tail st f on =
    recv_netif_info-echo tail u fifo st f (addresses n) (omega arith) on

handshake-whole :
    (n : Netif) (counts : List ℕ) (g : Globals) (fifo : List Bytes) (bytes : Bytes)
    → send_to_uart0_sync counts g.netif_info ≡ (bytes, [])
    → handshake n counts g fifo ≡ await_echo n (record g { sync_sent = g.sync_sent ++ bytes }) fifo
unfolding handshake
handshake-whole n counts g fifo bytes e =
    ap
      (λ x. elim x.1 [
        | [] ↦ await_echo n (record g { sync_sent = g.sync_sent ++ x.0 }) fifo
        | _ ∷ _ ↦ waits (record g { sync_sent = g.sync_sent ++ x.0 })
      ])
      e

-- The first interface with the address that Wi-Fi has been given is `n`. The transmit FIFO has room in
-- each of at least 15 turns, the receivers expect a length, and the FIFO brings back the block of 15
-- bytes that describes `n`, and then `tail`, cut into chunks anywhere. Then `start_hock` sends that
-- block and no other byte, returns with `n` as the target, `runFlag` set, GPIO 5 low and the semaphore
-- given, and leaves `tail` to be read, expecting a length.
pub start_hock-hooks :
    (ip : ℕ) (before after : List Netif) (n : Netif) (counts : List ℕ) (g : Globals)
    (fifo : List Bytes) (tail : Bytes)
    → OtherAddresses ip before
    → n.ip_addr ≡ ip
    → HaveRoom counts
    → 15 ≤ length counts
    → g.wifi.uart.status ≡ status_len
    → FitsFifo fifo
    → g.wifi.uart.buf ++ concat fifo ≡ info_block n ++ tail
    → (u : Uart) × (left : List Bytes) × (start_hock ip (before ++ (n ∷ after)) counts g fifo
        ≡ finished (hooked n g u) left)
      × (u.buf ++ concat left ≡ tail)
      × (u.status ≡ status_len)
      × FitsFifo left
unfolding start_hock await_echo
start_hock-hooks ip before after n counts g fifo tail o e room enough st f on =
    let (u, left, r, line, st', f') = echo-Receives n g.wifi.uart fifo tail st f on in
    (
      u,
      left,
      rw (find_netif-first ip before after n o e, start_hock)
          (handshake-whole n counts (record g { netif_info = info_block n }) fifo (info_block n)
              (send_to_uart0_sync-whole counts (info_block n) room enough)
            ∙ rw (r, await_echo) refl),
      line,
      st',
      f',
    )
