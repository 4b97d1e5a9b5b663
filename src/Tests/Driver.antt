-- ===== src/Tests/Driver.antt =====
-- uart_wifi_driver: `ttyio_receive_data` and `uart_wifi_xmit` on the frame of a small packet.
use esp8266_hosted_linux.Base.{
  some, ℕ, ◌-◌, ◌≤◌, ◌<◌, ◌⊎◌, ◌≡◌, refl, arith, true, false, [], ◌∷◌, ◌++◌, Bytes, length, concat,
  length-append,
}
use esp8266_hosted_linux.Frame.{status_split, skip_past, split_data, frame, frames}
use esp8266_hosted_linux.Driver.Receive.{
  Receiver, returned, corrupted, receive_data, receive_chunks,
}
use esp8266_hosted_linux.Driver.Receive.Bounds.{Accounted, receive_data-Accounted}
use esp8266_hosted_linux.Driver.Receive.Stream.{IsIdle, receive_chunks-frames}
use esp8266_hosted_linux.Driver.Receive.Search.{NoSplit}
use esp8266_hosted_linux.Driver.Receive.Resync.{receive_data-recovers, receive_data-overruns}
use esp8266_hosted_linux.Driver.Xmit.{
  TtyOps, Skb, NetDevice, tx_ok, tx_busy, uart_wifi_xmit, ttyio_write_wakeup,
}
use esp8266_hosted_linux.Driver.Xmit.Frames.{IsSkb, uart_wifi_xmit-frame, uart_wifi_xmit-busy}
use esp8266_hosted_linux.Tests.{ip, ip_line, ip_chunks, fresh_receiver}

line_of_ip : concat ip_chunks ≡ frames split_data (ip ∷ [])
unfolding frames frame
line_of_ip = refl

receive_chunks-frames_example :
    (n : ℕ) × (s' : Receiver) × (receive_chunks (λ _. true) fresh_receiver ip_chunks
      ≡ returned n s')
    × (s'.packets ≡ ip ∷ [])
    × IsIdle s'
receive_chunks-frames_example =
    receive_chunks-frames (λ _. true) (λ _. refl) ip_chunks (ip ∷ []) fresh_receiver tt
      ((omega arith, omega arith), tt) line_of_ip

-- Two bytes of a frame and garbage behind it, when no skb can be had after the first.
receive_data-Accounted_example :
    Accounted 26 (receive_data (λ n. false) fresh_receiver (85 ∷ 1 ∷ ip_line ++ (9 ∷ [])))
receive_data-Accounted_example =
    receive_data-Accounted (λ n. false) (85 ∷ 1 ∷ ip_line ++ (9 ∷ [])) fresh_receiver
      (record { skb_fits = tt; range = tt })

-- A tty that keeps what is written, with room for 100 bytes in all.
abbrev small_tty : TtyOps
small_tty = record {
  Tty = Bytes;
  write_room = λ t. 100 - length t;
  written = λ t. t;
  write = λ t b. t ++ b;
  write_whole = λ t b h. (refl, omega (arith, length-append t b));
}

abbrev ip_skb : Skb
ip_skb = record {
  head = 1 ∷ 2 ∷ 3 ∷ 4 ∷ 5 ∷ 6 ∷ 7 ∷ 8 ∷ 9 ∷ 10 ∷ 11 ∷ 12 ∷ 8 ∷ 0 ∷ 69 ∷ 0 ∷ [];
  frags = (0 ∷ 20 ∷ []) ∷ [];
}

abbrev device : NetDevice
device = record {
  stopped = false;
  write_wakeup = false;
  carrier = true;
  tx_packets = 0;
  tx_bytes = 0;
}

ip_skb-IsSkb : IsSkb ip_skb
ip_skb-IsSkb = record { header = omega arith; fits = omega arith }

uart_wifi_xmit-frame_example :
    let (code, d', t') = uart_wifi_xmit small_tty ip_skb device [] in
    (code ≡ tx_ok)
    × (t' ≡ frame split_data (69 ∷ 0 ∷ 0 ∷ 20 ∷ []))
    × (d' ≡ record device { tx_packets = 1; tx_bytes = 4 })
uart_wifi_xmit-frame_example =
    uart_wifi_xmit-frame small_tty ip_skb device [] ip_skb-IsSkb (omega arith)

-- A tty that is full.
abbrev full_tty : TtyOps
full_tty = record {
  Tty = Bytes;
  write_room = λ t. 0;
  written = λ t. t;
  write = λ t b. t ++ b;
  write_whole = λ t b h. (refl, omega arith);
}

uart_wifi_xmit-busy_example :
    let (code, d', t') = uart_wifi_xmit full_tty ip_skb device [] in
    (code ≡ tx_busy)
    × (t' ≡ [])
    × (d'.stopped ≡ true)
    × (d'.write_wakeup ≡ true)
    × (ttyio_write_wakeup d' ≡ device)
uart_wifi_xmit-busy_example =
    uart_wifi_xmit-busy full_tty ip_skb device [] ip_skb-IsSkb (omega arith) refl refl refl

-- A driver that has lost the frames.
abbrev lost_receiver : Receiver
lost_receiver = record fresh_receiver { recv_skb = some []; uart_recv_status = status_split }

junk-NoSplit : NoSplit (1 ∷ 2 ∷ 170 ∷ [])
unfolding skip_past
junk-NoSplit = refl

receive_data-recovers_example :
    let cp = 1 ∷ 2 ∷ 170 ∷ 85 ∷ frames split_data (ip ∷ []) in
    ((27 ≤ 819)
      × (s : Receiver) × (receive_data (λ _. true) lost_receiver cp ≡ returned 27 s)
      × (s.packets ≡ ip ∷ [])
      × IsIdle s)
    ⊎ ((819 < 27) × (receive_data (λ _. true) lost_receiver cp ≡ corrupted))
unfolding frames frame
receive_data-recovers_example =
    receive_data-recovers (λ _. true) (λ _. refl) lost_receiver (1 ∷ 2 ∷ 170 ∷ []) (ip ∷ []) refl
      refl junk-NoSplit ((omega arith, omega arith), tt)

receive_data-overruns_example :
    receive_data
      (λ _. true)
      (record fresh_receiver { recv_skb = some [] })
      (1 ∷ 0 ∷ 1 ∷ 2 ∷ 170 ∷ 85 ∷ 7 ∷ [])
    ≡ corrupted
receive_data-overruns_example =
    receive_data-overruns (λ _. true) (record fresh_receiver { recv_skb = some [] }) 1 0
      (1 ∷ 2 ∷ 170 ∷ []) (7 ∷ []) refl refl (omega arith) (omega arith) refl junk-NoSplit
      (omega arith)
