-- ===== src/Driver/Xmit/Frames.antt =====
-- `uart_wifi_xmit` writes whole frames or nothing.
use esp8266_hosted_linux.Base.{
  ◌+◌, ◌/◌, ◌%◌, ◌^◌, ◌≤◌, ◌<◌, ◌≡◌, refl, ap, ap₂, sym, subst, ◌∙◌, arith, true, false, List, [],
  ◌∷◌, ◌++◌, Bytes, length, drop, concat, if◌then◌else◌, append_assoc, append-nil, length-append,
  length-drop, ge→ltb, lt→ltb,
}
use esp8266_hosted_linux.Frame.{split_data, frame, frames}
use esp8266_hosted_linux.Frame.Parse.{length-frame}
use esp8266_hosted_linux.Driver.Xmit.{
  TtyOps, Skb, eth_hlen, NetDevice, tx_ok, tx_busy, send_len, ttyio_write_wakeup, write_frags,
  write_frame, xmit_all, uart_wifi_xmit,
}

-- The IP packet in an skb.
abbrev pub packet : Skb → Bytes
packet skb = drop eth_hlen skb.head ++ concat skb.frags

-- An skb with an Ethernet header in its linear part and at most 64 KiB of data behind it.
pub record IsSkb (skb : Skb) : Type 0 where
  pub header : eth_hlen ≤ length skb.head
  pub fits : length (packet skb) < 2 ^ 16

send_len-packet : (skb : Skb) → IsSkb skb → send_len skb ≡ length (packet skb)
send_len-packet skb v = omega (
  arith,
  v.header,
  v.fits,
  length-append (drop eth_hlen skb.head) (concat skb.frags),
  length-drop eth_hlen skb.head,
)

module _ (ops : TtyOps) where
  open ops use {Tty, write_room, written, write, write_whole}

  -- `b` has been appended, and room is left for what comes after it.
  abbrev Wrote : Tty → Bytes → Tty → Type 0
  Wrote t b t' = (written t' ≡ written t ++ b) × (write_room t ≤ write_room t' + length b)

  Wrote-append : (t u v : Tty) (a b : Bytes) → Wrote t a u → Wrote u b v → Wrote t (a ++ b) v
  Wrote-append t u v a b p q = (
    q.0 ∙ ap (λ x. x ++ b) p.0 ∙ append_assoc (written t) a b,
    omega (arith, p.1, q.1, length-append a b),
  )

  write_frags-Wrote :
      (fs : List Bytes) (t : Tty)
      → length (concat fs) ≤ write_room t
      → Wrote t (concat fs) (write_frags ops fs t)
  unfolding write_frags
  write_frags-Wrote [] t h = (sym (append-nil (written t)), omega arith)
  write_frags-Wrote (f ∷ fs) t h =
      let w = write_whole t f (omega (arith, length-append f (concat fs))) in
      Wrote-append t (write t f) _ f (concat fs) w
        (write_frags-Wrote fs (write t f) (omega (arith, w.1, length-append f (concat fs))))

  write_frame-Wrote :
      (skb : Skb) (t : Tty)
      → IsSkb skb
      → length (packet skb) + 3 ≤ write_room t
      → Wrote t (frame split_data (packet skb)) (write_frame ops skb t)
  unfolding write_frame frame
  write_frame-Wrote skb t v room =
      let a = drop eth_hlen skb.head in
      let b = concat skb.frags in
      let n = send_len skb in
      let hdr = (n % 256) ∷ (n / 256 % 256) ∷ [] in
      let l = length-append a b in
      let t₁ = write t hdr in
      let t₂ = write t₁ a in
      let t₃ = write_frags ops skb.frags t₂ in
      let w₁ = write_whole t hdr (omega arith) in
      let w₂ = write_whole t₁ a (omega (arith, w₁.1)) in
      let w₃ = write_frags-Wrote skb.frags t₂ (omega (arith, w₁.1, w₂.1)) in
      let w₄ = write_whole t₃ (split_data ∷ []) (omega (arith, w₁.1, w₂.1, w₃.1)) in
      let w₁₂ = Wrote-append t t₁ t₂ hdr a w₁ w₂ in
      let w₁₃ = Wrote-append t t₂ t₃ (hdr ++ a) b w₁₂ w₃ in
      let w =
        Wrote-append t t₃ (write t₃ (split_data ∷ [])) ((hdr ++ a) ++ b) (split_data ∷ []) w₁₃ w₄ in
      subst
        (λ k.
          Wrote t ((k % 256) ∷ (k / 256 % 256) ∷ (packet skb ++ (split_data ∷ [])))
            (write_frame ops skb t))
        (send_len-packet skb v) w

module _ (ops : TtyOps) (skb : Skb) (d : NetDevice) (t : ops.Tty) (v : IsSkb skb) where
  -- If the tty has room for the frame, `uart_wifi_xmit` writes exactly the frame of the packet (what
  -- follows the Ethernet header of an skb of 14 bytes to 64 KiB), counts it, and changes nothing
  -- else of the device.
  pub uart_wifi_xmit-frame :
      length (packet skb) + 3 ≤ ops.write_room t
      → let (code, d', t') = uart_wifi_xmit ops skb d t in
        (code ≡ tx_ok)
        × (ops.written t' ≡ ops.written t ++ frame split_data (packet skb))
        × (d' ≡ record d {
          tx_packets = (d.tx_packets + 1) % 2 ^ 64;
          tx_bytes = (d.tx_bytes + length (packet skb)) % 2 ^ 64;
        })
  unfolding uart_wifi_xmit
  uart_wifi_xmit-frame h =
      let n = send_len-packet skb v in
      rw (ge→ltb (ops.write_room t) (send_len skb + 3) (omega (arith, n))) (
        refl,
        (write_frame-Wrote ops skb t v h).0,
        ap
            (λ k. record d {
              tx_packets = (d.tx_packets + 1) % 2 ^ 64;
              tx_bytes = (d.tx_bytes + k) % 2 ^ 64;
            })
            n,
      )

  -- If the tty has no room for the frame, the carrier is on, the queue runs and no wakeup is asked
  -- for, then `uart_wifi_xmit` writes and counts nothing, stops the queue and asks for a wakeup;
  -- `ttyio_write_wakeup` then brings the device back to what it was.
  pub uart_wifi_xmit-busy :
      ops.write_room t < length (packet skb) + 3
      → d.carrier ≡ true
      → d.stopped ≡ false
      → d.write_wakeup ≡ false
      → let (code, d', t') = uart_wifi_xmit ops skb d t in
        (code ≡ tx_busy)
        × (t' ≡ t)
        × (d'.stopped ≡ true)
        × (d'.write_wakeup ≡ true)
        × (ttyio_write_wakeup d' ≡ d)
  unfolding uart_wifi_xmit ttyio_write_wakeup
  uart_wifi_xmit-busy h on run none_asked =
      let n = send_len-packet skb v in
      rw (lt→ltb (ops.write_room t) (send_len skb + 3) (omega (arith, n))) (
        refl,
        refl,
        refl,
        refl,
        ap (λ c. record d { write_wakeup = false; stopped = if c then false else true }) on
            ∙ ap₂ (λ a b. record d { write_wakeup = a; stopped = b }) (sym none_asked) (sym run),
      )

-- The device after a frame is written
abbrev counted : Skb → NetDevice → NetDevice
counted skb d = record d {
  tx_packets = (d.tx_packets + 1) % 2 ^ 64;
  tx_bytes = (d.tx_bytes + send_len skb) % 2 ^ 64;
}

xmit_taken :
    (ops : TtyOps) (skb : Skb) (d : NetDevice) (t : ops.Tty)
    → IsSkb skb
    → length (packet skb) + 3 ≤ ops.write_room t
    → uart_wifi_xmit ops skb d t ≡ (tx_ok, counted skb d, write_frame ops skb t)
unfolding uart_wifi_xmit
xmit_taken ops skb d t v h =
    rw (ge→ltb (ops.write_room t) (send_len skb + 3) (omega (arith, send_len-packet skb v))) refl

abbrev pub AreSkbs : List Skb → Type 0
AreSkbs [] = Unit
AreSkbs (skb ∷ skbs) = IsSkb skb × AreSkbs skbs

abbrev pub packets : List Skb → List Bytes
packets [] = []
packets (skb ∷ skbs) = packet skb ∷ packets skbs

-- With room for the frames of all skbs the stack hands all of them over, and their frames are written
-- in order.
pub xmit_all-frames :
    (ops : TtyOps) (skbs : List Skb) (d : NetDevice) (t : ops.Tty)
    → AreSkbs skbs
    → length (frames split_data (packets skbs)) ≤ ops.write_room t
    → let (left, _, t') = xmit_all ops skbs d t in
      (left ≡ []) × (ops.written t' ≡ ops.written t ++ frames split_data (packets skbs))
unfolding xmit_all frames
xmit_all-frames ops [] d t v room = (refl, sym (append-nil (ops.written t)))
xmit_all-frames ops (skb ∷ skbs) d t v room =
    let fs = frames split_data (packets skbs) in
    let n = length-append (frame split_data (packet skb)) fs in
    let m = length-frame split_data (packet skb) in
    let w = write_frame-Wrote ops skb t v.0 (omega (arith, n, m)) in
    let (none_left, e) =
      xmit_all-frames ops skbs (counted skb d) (write_frame ops skb t) v.1
        (omega (arith, w.1, n, m)) in
    subst
      (λ x.
        let (code, d', t') = x in
        let rest = xmit_all ops skbs d' t' in
        let r : List Skb × NetDevice × ops.Tty = elim code [
          | tx_ok ↦ rest
          | tx_busy ↦ (skb ∷ skbs, d', t')
        ] in
        (r.0 ≡ []) × (ops.written r.2 ≡ ops.written t ++ (frame split_data (packet skb) ++ fs)))
      (sym (xmit_taken ops skb d t v.0 (omega (arith, n, m))))
      (
        none_left,
        e ∙ ap (λ x. x ++ fs) w.0 ∙ append_assoc (ops.written t) (frame split_data (packet skb)) fs,
      )
