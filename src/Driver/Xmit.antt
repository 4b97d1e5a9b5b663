-- ===== src/Driver/Xmit.antt =====
-- `uart_wifi_xmit` of uart_wifi_driver/netdev.c, which sends the packets of the network stack over the
-- serial port, and `ttyio_write_wakeup` of uart.c, which starts the stack's queue again. The serial
-- driver is not part of the repository: it is the parameter `TtyOps`.
pub mod Frames
use esp8266_hosted_linux.Base.{
  ℕ, ◌+◌, ◌-◌, ◌/◌, ◌%◌, ◌^◌, ◌≤◌, ◌≡◌, Bool, true, false, List, [], ◌∷◌, ◌++◌, Bytes, length, drop,
  concat, ltb, if◌then◌else◌,
}
use esp8266_hosted_linux.Frame.{split_data}

-- What the driver relies on of `tty->ops`: bytes for which `write_room` promises room are written
-- whole, and take no more room than they are long. `written` are the bytes taken so far.
pub record TtyOps : Type 1 where
  pub Tty : Type 0
  pub write_room : Tty → ℕ
  pub written : Tty → Bytes
  pub write : Tty → Bytes → Tty
  pub write_whole :
      (t : Tty) (b : Bytes)
      → length b ≤ write_room t
      → (written (write t b) ≡ written t ++ b) × (write_room t ≤ write_room (write t b) + length b)

-- An skb of the stack: its linear part, which begins with the Ethernet header, and its page
-- fragments.
pub record Skb : Type 0 where
  pub head : Bytes
  pub frags : List Bytes

-- ETH_HLEN
abbrev pub eth_hlen : ℕ
eth_hlen = 14

-- `skb->len`
abbrev pub skb_len : Skb → ℕ
skb_len skb = length skb.head + length (concat skb.frags)

-- The state of the network device: its queue, the flag TTY_DO_WRITE_WAKEUP of the tty, the carrier,
-- and the counters of 64 bits.
pub record NetDevice : Type 0 where
  pub stopped : Bool
  pub write_wakeup : Bool
  pub carrier : Bool
  pub tx_packets : ℕ
  pub tx_bytes : ℕ

pub data TxCode : Type 0 where
  tx_ok tx_busy : TxCode

-- `send_len`, a uint16_t
abbrev pub send_len : Skb → ℕ
send_len skb = (skb_len skb + 2 ^ 32 - eth_hlen) % 2 ^ 16

unfoldable pub ttyio_write_wakeup : NetDevice → NetDevice
ttyio_write_wakeup d = record d {
  write_wakeup = false;
  stopped = if d.carrier then false else d.stopped;
}

module _ (ops : TtyOps) where
  open ops use {Tty, write_room, write}

  -- The loop over `shinfo->frags`
  unfoldable pub write_frags : List Bytes → Tty → Tty
  write_frags [] t = t
  write_frags (f ∷ fs) t = write_frags fs (write t f)

  unfoldable pub write_frame : Skb → Tty → Tty
  unfolding write_frags
  write_frame skb t =
      let n = send_len skb in
      let t₁ = write t ((n % 256) ∷ (n / 256 % 256) ∷ []) in
      let t₂ = write t₁ (drop eth_hlen skb.head) in
      write (write_frags skb.frags t₂) (split_data ∷ [])

  unfoldable pub uart_wifi_xmit : Skb → NetDevice → Tty → TxCode × NetDevice × Tty
  unfolding write_frame
  uart_wifi_xmit skb d t =
      if ltb (write_room t) (send_len skb + 3)
      then (tx_busy, record d { stopped = true; write_wakeup = true }, t)
      else (
        tx_ok,
        record d {
          tx_packets = (d.tx_packets + 1) % 2 ^ 64;
          tx_bytes = (d.tx_bytes + send_len skb) % 2 ^ 64;
        },
        write_frame skb t,
      )

  -- The stack hands over one skb after the other, as long as they are taken; it gives back those that
  -- are left.
  unfoldable pub xmit_all : List Skb → NetDevice → Tty → List Skb × NetDevice × Tty
  unfolding uart_wifi_xmit
  xmit_all [] d t = ([], d, t)
  xmit_all (skb ∷ skbs) d t =
      let (code, d', t') = uart_wifi_xmit skb d t in
      let rest = xmit_all skbs d' t' in elim code [ tx_ok ↦ rest | tx_busy ↦ (skb ∷ skbs, d', t') ]
