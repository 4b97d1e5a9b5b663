-- ===== src/Esp/Send/Buffer.antt =====
-- What `wifi2uart` leaves in `uartSendbuffer`: the frame of the packet, at the front.
use esp8266_hosted_linux.Base.{
  poke, length-poke, ℕ, suc, ◌+◌, ◌-◌, ◌%◌, ◌/◌, ◌^◌, ◌≤◌, ◌≡◌, refl, ap, sym, ◌∙◌, arith, [], ◌∷◌,
  ◌++◌, Bytes, length, take, drop, leb, ◌==◌, take-append, append_assoc, take-length, length-append,
  drop-drop, take-add, inl, inr, Bool-cases, ==→eq, length-drop, length-take, min, ge→ltb,
}
use esp8266_hosted_linux.Frame.{split_data, max_frame_len, mtu_len, frame}
use esp8266_hosted_linux.Frame.Parse.{length-frame}
use esp8266_hosted_linux.Esp.Uart.{uart_fifo_len}
use esp8266_hosted_linux.Esp.Queue.{Queue, Heap}
use esp8266_hosted_linux.Esp.Send.{Sender, ok, copy_count, send_some, load_frame}

abbrev header : ℕ → Bytes
header len = (len % 256) ∷ (len / 256 % 256) ∷ []

-- Two bytes at the front are overwritten.
poke_front :
    (d : Bytes) (buffer : Bytes)
    → 2 ≤ length buffer
    → (r : Bytes) × (poke 0 (header (length d)) (poke 2 d buffer) ≡ header (length d) ++ (d ++ r))
unfolding poke
poke_front d [] h = absurd (omega arith)
poke_front d (x ∷ []) h = absurd (omega arith)
poke_front d (x ∷ y ∷ zs) h = (_, refl)

-- One byte behind the data is overwritten.
poke_end :
    (d r : Bytes) (n : ℕ)
    → n ≡ length d + 2
    → (t : Bytes) × (poke n (split_data ∷ []) (header (length d) ++ (d ++ r))
        ≡ frame split_data d ++ t)
unfolding poke frame
poke_end d r n e =
    let e' : n ≡ suc (suc (length d)) = omega arith in
    let front : take n (header (length d) ++ (d ++ r)) ≡ header (length d) ++ d =
      rw e' (ap (λ x. header (length d) ++ x) (take-append d r (length d) refl)) in
    let t = drop (n + 1) (header (length d) ++ (d ++ r)) in
    (
      t,
      ap (λ x. x ++ (split_data ∷ t)) front
          ∙ ap (λ x. header (length d) ++ x) (sym (append_assoc d (split_data ∷ []) t)),
    )

-- The three writes of `wifi2uart`.
abbrev frame_buffer : Bytes → Bytes → Bytes
frame_buffer d buffer =
    poke ((length d + 3) % 2 ^ 16 - 1) (split_data ∷ [])
      (poke 0 (header (length d)) (poke 2 d buffer))

loaded :
    (d buffer : Bytes)
    → length buffer ≡ max_frame_len
    → length d ≤ mtu_len
    → (t : Bytes) × (frame_buffer d buffer ≡ frame split_data d ++ t)
loaded d buffer full small =
    let (r, e) = poke_front d buffer (omega arith) in
    let (t, e') = poke_end d r ((length d + 3) % 2 ^ 16 - 1) (omega arith) in
    (t, ap (poke ((length d + 3) % 2 ^ 16 - 1) (split_data ∷ [])) e ∙ e')

length-loaded :
    (d buffer : Bytes)
    → length buffer ≡ max_frame_len
    → length d ≤ mtu_len
    → length (frame_buffer d buffer) ≡ max_frame_len
length-loaded d buffer full small =
    let a = length-poke 2 d buffer (omega arith) in
    let b = length-poke 0 (header (length d)) (poke 2 d buffer) (omega arith) in
    length-poke ((length d + 3) % 2 ^ 16 - 1) (split_data ∷ [])
      (poke 0 (header (length d)) (poke 2 d buffer)) (omega arith)
    ∙ b
    ∙ a
    ∙ full

-- The bytes of the buffer that still wait.
abbrev pub waiting : Sender → Bytes
waiting s = take s.send_len (drop s.send_ptr s.send_buffer)

pub record IsBuffer (s : Sender) : Type 0 where
  pub size : length s.send_buffer ≡ max_frame_len
  pub inside : s.send_ptr + s.send_len ≤ max_frame_len

pub load_frame-waiting :
    (q : Queue) (h : Heap) (d : Bytes) (s : Sender)
    → IsBuffer s
    → length d ≤ mtu_len
    → (s' : Sender) × (load_frame q h d (length d) s ≡ ok s')
      × (waiting s' ≡ frame split_data d)
      × IsBuffer s'
      × (s'.queue ≡ q)
      × (s'.heap ≡ h)
      × (s'.sent ≡ s.sent)
unfolding load_frame
load_frame-waiting q h d s v small =
    let (t, e) = loaded d s.send_buffer v.size small in
    let n = length-frame split_data d in
    (
      record {
        queue = q;
        heap = h;
        send_len = (length d + 3) % 2 ^ 16;
        send_ptr = 0;
        send_buffer = frame_buffer d s.send_buffer;
        sent = s.sent;
      },
      rw (ge→ltb max_frame_len (length d + 3) (omega arith), take-length d),
      rw e (take-append (frame split_data d) t ((length d + 3) % 2 ^ 16) (omega arith)),
      record { size = length-loaded d s.send_buffer v.size small; inside = omega arith },
      refl,
      refl,
      refl,
    )

copy_count-min :
    (txfifo_cnt len : ℕ)
    → txfifo_cnt ≤ uart_fifo_len
    → copy_count txfifo_cnt len ≡ min (uart_fifo_len - txfifo_cnt) len
unfolding copy_count
copy_count-min c len h = elim (Bool-cases (leb ((uart_fifo_len + 2 ^ 8 - c) % 2 ^ 8) len)) [
  | inl e ↦ ground arith
  | inr e ↦ ground arith
]

-- `n` bytes have moved from the front of what waits to the FIFO.
pub record Moved (s s' : Sender) (n : ℕ) : Type 0 where
  pub stream : s'.sent ++ waiting s' ≡ s.sent ++ waiting s
  pub buffer : IsBuffer s'
  pub queue : s'.queue ≡ s.queue
  pub heap : s'.heap ≡ s.heap
  pub count : s.send_len ≡ s'.send_len + n
  pub grown : length s'.sent ≡ length s.sent + n

module _ (s : Sender) (v : IsBuffer s) where
  send_n :
      (n : ℕ)
      → n ≤ s.send_len
      → Moved s
          (record s {
            sent = s.sent ++ take n (drop s.send_ptr s.send_buffer);
            send_len = (s.send_len + 2 ^ 16 - n) % 2 ^ 16;
            send_ptr = s.send_ptr + n;
          })
          n
  send_n n h =
      let rest = drop s.send_ptr s.send_buffer in
      let left : (s.send_len + 2 ^ 16 - n) % 2 ^ 16 ≡ s.send_len - n = omega (arith, v.inside) in
      record {
        stream =
            append_assoc s.sent (take n rest) _
            ∙ ap (λ x. s.sent ++ x)
                (ap (λ x. take n rest ++ take ((s.send_len + 2 ^ 16 - n) % 2 ^ 16) x)
                    (sym (drop-drop s.send_ptr n s.send_buffer))
                  ∙ take-add n _ s.send_len rest (omega arith));
        buffer = record { size = v.size; inside = omega (arith, v.inside) };
        queue = refl;
        heap = refl;
        count = omega arith;
        grown = omega (
          arith,
          length-append s.sent (take n rest),
          length-take n rest,
          length-drop s.send_ptr s.send_buffer,
          v.size,
          v.inside,
        );
      }

  -- `send_some` moves as many bytes as wait, or as the FIFO has room for.
  pub send_some-Moved :
      (txfifo_cnt : ℕ)
      → txfifo_cnt ≤ uart_fifo_len
      → Moved s (send_some txfifo_cnt s) (min (uart_fifo_len - txfifo_cnt) s.send_len)
  unfolding send_some
  send_some-Moved c h = elim (Bool-cases (s.send_len == 0)) [
    | inl e ↦ rw e (record {
      stream = refl;
      buffer = v;
      queue = refl;
      heap = refl;
      count = omega (arith, ==→eq s.send_len 0 e);
      grown = omega (arith, ==→eq s.send_len 0 e);
    })
    | inr e ↦ rw (e, copy_count-min c s.send_len h) (send_n _ (omega arith))
  ]
