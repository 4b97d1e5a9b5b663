-- ===== src/Link/EspToHost.antt =====
-- From the Wi-Fi interface of the ESP8266 to the network stack of the host: uart_wifi_passthrough's
-- wifi2uart.c on one end of the line, uart_wifi_driver's uart.c on the other.
use esp8266_hosted_linux.Base.{
  ℕ, ◌≤◌, ◌≡◌, inl, inr, refl, ap, sym, subst, ◌∙◌, Bool, true, List, [], ◌∷◌, ◌++◌, Bytes, length,
  concat, append-nil,
}
use esp8266_hosted_linux.Frame.{split_data, frames, mtu_len, max_frame_len, ArePackets}
use esp8266_hosted_linux.Driver.Receive.{Receiver, returned, receive_chunks}
use esp8266_hosted_linux.Driver.Receive.Stream.{IsIdle, receive_chunks-frames}
use esp8266_hosted_linux.Esp.Queue.{null, Queue, Heap}
use esp8266_hosted_linux.Esp.Queue.Refine.{Holds}
use esp8266_hosted_linux.Esp.Send.{Sender, Event, recv, send}
use esp8266_hosted_linux.Esp.Send.Buffer.{waiting}
use esp8266_hosted_linux.Esp.Send.History.{
  Leads, Chosen, none_left, choose, Leads-stream, start, start-IsSender,
}

-- The packets that come in are IP packets: 20 bytes of header at least.
abbrev pub CarryIp : List Event → Type 0
CarryIp [] = Unit
CarryIp (recv taken fresh memory payload ∷ es) =
    (20 ≤ length payload) × (length payload ≤ mtu_len) × CarryIp es
CarryIp (send taken txfifo_cnt ∷ es) = CarryIp es

Chosen-ArePackets : {es : List Event} {ps : List Bytes} → CarryIp es → Chosen es ps → ArePackets ps
Chosen-ArePackets ip none_left = tt
Chosen-ArePackets ip (choose (recv taken fresh memory payload) new rest (inl a) ch e) =
    subst ArePackets (sym (e ∙ ap (λ x. x ++ rest) a)) ((ip.0, ip.1), Chosen-ArePackets ip.2 ch)
Chosen-ArePackets ip (choose (recv taken fresh memory payload) new rest (inr a) ch e) =
    subst ArePackets (sym (e ∙ ap (λ x. x ++ rest) a)) (Chosen-ArePackets ip.2 ch)
Chosen-ArePackets ip (choose (send taken txfifo_cnt) new rest a ch e) =
    subst ArePackets (sym (e ∙ ap (λ x. x ++ rest) a)) (Chosen-ArePackets ip ch)

-- A queue with no head is empty.
empty_queue : {q : Queue} {h : Heap} {ds : List Bytes} → Holds q h ds → q.head ≡ null → ds ≡ []
empty_queue ([], v, e) n = sym e
empty_queue ((x ∷ xs), v, e) n = absurd (v.chain.0 (sym v.head ∙ n))

-- Nothing waits behind an empty send buffer and an empty queue.
waiting_nil :
    (u : Sender) {left : List Bytes}
    → u.send_len ≡ 0
    → left ≡ []
    → waiting u ++ frames split_data left ≡ []
unfolding frames
waiting_nil u {left} sent_all none = rw (sent_all, none) refl

-- After any allowed history of the firmware from its start, in which IP packets come in and after
-- which nothing is left in queue and send buffer, the bytes sent, cut into chunks anywhere, make a
-- driver that stands between two frames deliver some of these packets whole and in order behind its
-- earlier ones, if it gets every skb that it asks for; it then stands between two frames again.
pub drained-delivers :
    (can_alloc : ℕ → Bool) {h : Heap} {buffer : Bytes} {es : List Event} {u : Sender}
    (cps : List Bytes) (s : Receiver)
    → ((n : ℕ) → can_alloc n ≡ true)
    → length buffer ≡ max_frame_len
    → CarryIp es
    → Leads (start h buffer) es u
    → u.send_len ≡ 0
    → u.queue.head ≡ null
    → concat cps ≡ u.sent
    → IsIdle s
    → (new : List Bytes) × (n : ℕ) × (s' : Receiver) × Chosen es new
      × (receive_chunks can_alloc s cps ≡ returned n s')
      × (s'.packets ≡ s.packets ++ new)
      × IsIdle s'
unfolding frames
drained-delivers can_alloc {h} {buffer} {u} cps s always full ip l sent_all no_head line idle =
    let (new, left, ch, v, e) = Leads-stream [] l (start-IsSender h buffer full) in
    let none : left ≡ [] = empty_queue v.queued no_head in
    let all : u.sent ≡ frames split_data new =
      sym (append-nil u.sent) ∙ ap (λ x. u.sent ++ x) (sym (waiting_nil u sent_all none)) ∙ e in
    let (n, s', r, p, i) =
      receive_chunks-frames can_alloc always cps new s idle (Chosen-ArePackets ip ch)
        (line ∙ all) in
    (new, n, s', ch, r, p, i)
