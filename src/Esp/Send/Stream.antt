-- ===== src/Esp/Send/Stream.antt =====
-- The bytes that the firmware sends are the frames of the packets that its queue accepts, in order.
use esp8266_hosted_linux.Base.{
  ℕ, ◌≤◌, ◌<◌, ◌≡◌, inl, inr, refl, false≢true, ap, ap₂, sym, subst, ◌∙◌, arith, Bool, true, false,
  ◌&&◌, List, [], ◌∷◌, ◌++◌, Bytes, length, ltb, ◌==◌, if◌then◌else◌, append_assoc, Bool-cases,
  ==→eq, eq→==, some, none,
}
use esp8266_hosted_linux.Frame.{split_data, mtu_len, frames}
use esp8266_hosted_linux.Frame.Parse.{length-frame}
use esp8266_hosted_linux.Esp.Uart.{uart_fifo_len}
use esp8266_hosted_linux.Esp.Queue.{Queue, Heap, Run, ret, fault, Taken, queue_dequeue}
use esp8266_hosted_linux.Esp.Queue.Refine.{Holds, Gives, pop, queue_dequeue-pop}
use esp8266_hosted_linux.Esp.Send.{
  Sender, Outcome, ok, corrupted, send_some, load_frame, refill, wifi2uart,
}
use esp8266_hosted_linux.Esp.Send.Buffer.{waiting, IsBuffer, load_frame-waiting, send_some-Moved}

-- Packets of at most `mtu_len` bytes.
abbrev pub AreSmall : List Bytes → Type 0
AreSmall [] = Unit
AreSmall (d ∷ ds) = (length d ≤ mtu_len) × AreSmall ds

-- The queue holds `ds`, and the send buffer is in bounds.
pub record IsSender (s : Sender) (ds : List Bytes) : Type 0 where
  pub queued : Holds s.queue s.heap ds
  pub buffer : IsBuffer s
  pub small : AreSmall ds

-- What has been sent, waits in the buffer and waits in the queue.
abbrev pub stream : Sender → List Bytes → Bytes
stream s ds = s.sent ++ (waiting s ++ frames split_data ds)

-- A call that returns leads to a good sender with the same stream; `grows` asks for new bytes in it.
abbrev pub Steady : Sender → List Bytes → Bool → Outcome → Type 0
Steady s ds grows (ok s') =
    (ds' : List Bytes) × IsSender s' ds'
    × (stream s' ds' ≡ stream s ds)
    × (grows ≡ true → length s.sent < length s'.sent)
Steady s ds grows corrupted = ⊥

abbrev pub has_room : Bool → ℕ → Bytes → Bool
has_room taken txfifo_cnt left = taken && (ltb txfifo_cnt uart_fifo_len && ltb 0 (length left))

-- With nothing in the buffer and the queue nothing is left to send.
nothing_left :
    (s : Sender) (ds : List Bytes)
    → s.send_len ≡ 0
    → ds ≡ []
    → length (waiting s ++ frames split_data ds) ≡ 0
unfolding frames
nothing_left s ds e e' = rw (e, e')

zero_waiting : (s : Sender) → s.send_len ≡ 0 → length (waiting s) ≡ 0
zero_waiting s e = rw e

has_room_parts :
    (taken : Bool) (c n : ℕ)
    → (taken && (ltb c uart_fifo_len && ltb 0 n)) ≡ true
    → (taken ≡ true) × (c < uart_fifo_len) × (0 < n)
has_room_parts taken c n e = ground arith

module _ (txfifo_cnt : ℕ) (h : txfifo_cnt ≤ uart_fifo_len) where
  some-Steady :
      (s : Sender) (ds : List Bytes)
      → IsSender s ds
      → (taken : Bool) → (taken ≡ true → s.send_len ≡ 0 → ds ≡ [])
      → Steady s ds
          (has_room taken txfifo_cnt (waiting s ++ frames split_data ds))
          (ok (send_some txfifo_cnt s))
  some-Steady s ds v taken empty =
      let m = send_some-Moved s v.buffer txfifo_cnt h in
      (
        ds,
        record { queued = rw (m.queue, m.heap) v.queued; buffer = m.buffer; small = v.small },
        sym (append_assoc (send_some txfifo_cnt s).sent (waiting (send_some txfifo_cnt s)) _)
            ∙ ap (λ x. x ++ frames split_data ds) m.stream
            ∙ append_assoc s.sent (waiting s) _,
        λ e. more (has_room_parts taken txfifo_cnt _ e),
      )
    where
      more :
          (taken ≡ true)
            × (txfifo_cnt < uart_fifo_len)
            × (0 < length (waiting s ++ frames split_data ds))
          → length s.sent < length (send_some txfifo_cnt s).sent
      more (t, r, l) = elim (Bool-cases (s.send_len == 0)) [
        | inl z ↦
            let z' = ==→eq s.send_len 0 z in
            absurd (omega (arith, nothing_left s ds z' (empty t z')))
        | inr z ↦ ground (arith, (send_some-Moved s v.buffer txfifo_cnt h).grown)
      ]

  -- A state with the same bytes sent and the same bytes left is as good.
  Steady-of_eq :
      (s s' : Sender) (ds ds' : List Bytes) (taken : Bool) (r : Outcome)
      → s'.sent ≡ s.sent
      → waiting s' ++ frames split_data ds' ≡ waiting s ++ frames split_data ds
      → Steady s' ds' (has_room taken txfifo_cnt (waiting s' ++ frames split_data ds')) r
      → Steady s ds (has_room taken txfifo_cnt (waiting s ++ frames split_data ds)) r
  Steady-of_eq s s' ds ds' taken (ok s'') e l (x, v, st, grows) = (
    x,
    v,
    st ∙ ap₂ ◌++◌ e l,
    λ g. omega (arith, ap length e, grows (ap (has_room taken txfifo_cnt) l ∙ g)),
  )
  Steady-of_eq s s' ds ds' taken corrupted e l g = g

  loaded-Steady :
      (s : Sender) (d : Bytes) (ds : List Bytes) (q : Queue) (h : Heap)
      → IsSender s (d ∷ ds)
      → s.send_len ≡ 0
      → Holds q h ds
      → Steady s
          (d ∷ ds)
          (has_room true txfifo_cnt (waiting s ++ frames split_data (d ∷ ds)))
          (elim (load_frame q h d (length d) s) [
            | ok s' ↦ ok (send_some txfifo_cnt s')
            | corrupted ↦ corrupted
          ])
  unfolding frames
  loaded-Steady s d ds q h v z holds =
      let (s', e, w, b, eq, eh, es) = load_frame-waiting q h d s v.buffer v.small.0 in
      rw (e, Steady)
        (Steady-of_eq s s' (d ∷ ds) ds true (ok (send_some txfifo_cnt s')) es (rw (w, z)) (
          some-Steady s' ds (record { queued = rw (eq, eh) holds; buffer = b; small = v.small.1 })
            true
            (λ _ n.
              absurd
                (omega (arith, ap length w, n, length-frame split_data d, zero_waiting s' n)))))

  -- Nothing waits: the oldest packet is loaded, if there is one and the mutex is taken.
  refill-Steady :
      (s : Sender) (ds : List Bytes) (taken : Bool) (r : Run Taken)
      → IsSender s ds
      → s.send_len ≡ 0
      → Gives (pop taken ds).0 (pop taken ds).1 r
      → Steady s ds
          (has_room taken txfifo_cnt (waiting s ++ frames split_data ds))
          (elim (refill r s) [ ok s' ↦ ok (send_some txfifo_cnt s') | corrupted ↦ corrupted ])
  unfolding pop refill
  refill-Steady s [] taken (ret none q h) v z (e, holds) =
      some-Steady (record s { queue = q; heap = h }) []
        (record {
          queued = holds;
          buffer = record { size = v.buffer.size; inside = v.buffer.inside };
          small = tt;
        })
        taken (λ _ _. refl)
  refill-Steady s (d ∷ ds) false (ret none q h) v z (e, holds) =
      some-Steady (record s { queue = q; heap = h }) (d ∷ ds)
        (record {
          queued = holds;
          buffer = record { size = v.buffer.size; inside = v.buffer.inside };
          small = v.small;
        })
        false (λ t _. absurd (false≢true t))
  refill-Steady s (d ∷ ds) true (ret (some x) q h) v z (e, holds) =
      subst
        (λ x.
          Steady s (d ∷ ds) (has_room true txfifo_cnt (waiting s ++ frames split_data (d ∷ ds)))
            (elim (refill (ret x q h) s) [
              | ok s' ↦ ok (send_some txfifo_cnt s')
              | corrupted ↦ corrupted
            ]))
        (sym e) (loaded-Steady s d ds q h v z holds)
  refill-Steady s [] taken (ret (some x) q h) v z (e, holds) = cc
  refill-Steady s (d ∷ ds) false (ret (some x) q h) v z (e, holds) = cc
  refill-Steady s (d ∷ ds) true (ret none q h) v z (e, holds) = cc
  refill-Steady s [] taken fault v z g = absurd g
  refill-Steady s (d ∷ ds) taken fault v z g = absurd g

pub wifi2uart-Steady :
    (s : Sender) (ds : List Bytes) (taken : Bool) (txfifo_cnt : ℕ)
    → IsSender s ds
    → txfifo_cnt ≤ uart_fifo_len
    → Steady s ds
        (has_room taken txfifo_cnt (waiting s ++ frames split_data ds))
        (wifi2uart taken txfifo_cnt s)
unfolding wifi2uart
wifi2uart-Steady s ds taken c v h = by_test (s.send_len == 0) refl
  where
    by_test :
        (b : Bool)
        → (s.send_len == 0) ≡ b
        → Steady s ds (has_room taken c (waiting s ++ frames split_data ds)) (
            if b
            then elim (refill (queue_dequeue taken s.queue s.heap) s) [
              | ok s' ↦ ok (send_some c s')
              | corrupted ↦ corrupted
            ]
            else ok (send_some c s))
    by_test true z =
        refill-Steady c h s ds taken (queue_dequeue taken s.queue s.heap) v (==→eq s.send_len 0 z)
          (queue_dequeue-pop s.queue s.heap ds taken v.queued)
    by_test false z =
        some-Steady c h s ds v taken (λ _ n. absurd (false≢true (sym z ∙ eq→== s.send_len 0 n)))

module _ (s : Sender) (ds : List Bytes) (taken : Bool) (txfifo_cnt : ℕ) (v : IsSender s ds)
    (h : txfifo_cnt ≤ uart_fifo_len) where
  -- A call of `wifi2uart` on a good sender, while the FIFO holds at most `uart_fifo_len` bytes, returns
  -- a good sender and keeps the stream of bytes: those sent, those that wait in the buffer and the
  -- frames of the queued packets.
  pub wifi2uart-stream :
      (s' : Sender) × (ds' : List Bytes) × (wifi2uart taken txfifo_cnt s ≡ ok s')
      × IsSender s' ds'
      × (stream s' ds' ≡ stream s ds)
  wifi2uart-stream =
      by_outcome (wifi2uart taken txfifo_cnt s) refl (wifi2uart-Steady s ds taken txfifo_cnt v h)
    where
      by_outcome :
          (r : Outcome)
          → wifi2uart taken txfifo_cnt s ≡ r
          → Steady s ds (has_room taken txfifo_cnt (waiting s ++ frames split_data ds)) r
          → (s' : Sender) × (ds' : List Bytes) × (wifi2uart taken txfifo_cnt s ≡ ok s')
            × IsSender s' ds'
            × (stream s' ds' ≡ stream s ds)
      by_outcome (ok s') e (ds', v', same, _) = (s', ds', e, v', same)
      by_outcome corrupted e a = absurd a

  -- If the mutex is taken, the FIFO has room, and a byte waits in the buffer or a packet in the queue,
  -- then a call of `wifi2uart` on a good sender returns and sends at least one byte.
  pub wifi2uart-sends :
      taken ≡ true
      → txfifo_cnt < uart_fifo_len
      → 0 < length (waiting s ++ frames split_data ds)
      → (s' : Sender) × (wifi2uart taken txfifo_cnt s ≡ ok s') × (length s.sent < length s'.sent)
  wifi2uart-sends yes' room some_left =
      by_outcome (wifi2uart taken txfifo_cnt s) refl (wifi2uart-Steady s ds taken txfifo_cnt v h)
    where
      by_outcome :
          (r : Outcome)
          → wifi2uart taken txfifo_cnt s ≡ r
          → Steady s ds (has_room taken txfifo_cnt (waiting s ++ frames split_data ds)) r
          → (s' : Sender) × (wifi2uart taken txfifo_cnt s ≡ ok s')
            × (length s.sent < length s'.sent)
      by_outcome (ok s') e (_, _, _, grows) = (s', e, grows (ground arith))
      by_outcome corrupted e a = absurd a
