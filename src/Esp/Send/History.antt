-- ===== src/Esp/Send/History.antt =====
-- Any history of packets that come in and of calls that send.
use esp8266_hosted_linux.Base.{
  ℕ, ◌≤◌, ◌<◌, ◌≡◌, ◌≢◌, ◌⊎◌, inl, inr, refl, ap, sym, subst, ◌∙◌, arith, Bool, not, ◌&&◌, List, [],
  ◌∷◌, ◌++◌, Bytes, length, ◌==◌, append_assoc, append-nil, none,
}
use esp8266_hosted_linux.Frame.{split_data, max_frame_len, mtu_len, frame, frames}
use esp8266_hosted_linux.Esp.Uart.{uart_fifo_len}
use esp8266_hosted_linux.Esp.Queue.{Ptr, null, Heap, Code, Run, ret, fault, queue_init}
use esp8266_hosted_linux.Esp.Queue.Refine.{Holds, Gives, push, queue_enqueue-push, init-Holds}
use esp8266_hosted_linux.Esp.Send.{
  Sender, Outcome, ok, corrupted, store_queue, Event, recv, send, perform,
}
use esp8266_hosted_linux.Esp.Send.Buffer.{waiting}
use esp8266_hosted_linux.Esp.Send.Stream.{AreSmall, IsSender, stream, Steady, wifi2uart-Steady}

-- What the surroundings keep to: packets are not empty and have at most `mtu_len` bytes, new memory
-- is unused, and the FIFO holds no more than it can.
abbrev pub Allowed : Event → Sender → Type 0
Allowed (recv taken fresh memory payload) s =
    (0 < length payload) × (length payload ≤ mtu_len) × (fresh ≢ null → s.heap fresh ≡ none)
Allowed (send taken txfifo_cnt) s = txfifo_cnt ≤ uart_fifo_len

-- The packet that an event brings in, if the queue accepts it.
abbrev pub Accepts : Event → List Bytes → Type 0
Accepts (recv taken fresh memory payload) ds = (ds ≡ payload ∷ []) ⊎ (ds ≡ [])
Accepts (send taken txfifo_cnt) ds = ds ≡ []

frames-append :
    (ds es : List Bytes)
    → frames split_data (ds ++ es) ≡ frames split_data ds ++ frames split_data es
unfolding frames
frames-append [] es = refl
frames-append (d ∷ ds) es =
    ap (λ x. frame split_data d ++ x) (frames-append ds es)
    ∙ sym (append_assoc (frame split_data d) (frames split_data ds) (frames split_data es))

AreSmall-snoc :
    (ds : List Bytes) (d : Bytes) → AreSmall ds → length d ≤ mtu_len → AreSmall (ds ++ (d ∷ []))
AreSmall-snoc [] d v h = (h, tt)
AreSmall-snoc (e ∷ ds) d v h = (v.0, AreSmall-snoc ds d v.1 h)

-- A call leads to a good sender whose stream is longer by the frames of the accepted packets.
abbrev pub Adds : Event → Sender → List Bytes → Outcome → Type 0
Adds e s ds (ok s') =
    (new : List Bytes) × (ds' : List Bytes) × Accepts e new
    × IsSender s' ds'
    × (stream s' ds' ≡ stream s ds ++ frames split_data new)
Adds e s ds corrupted = ⊥

push_cases :
    (taken memory : Bool) (ds : List Bytes) (d : Bytes)
    → ((push taken memory ds d).1 ≡ ds ++ (d ∷ [])) ⊎ ((push taken memory ds d).1 ≡ ds)
unfolding push
push_cases taken memory ds d = ground arith

stored-Adds :
    (taken memory : Bool) (fresh : Ptr) (payload : Bytes) (s : Sender) (ds : List Bytes)
    (code : Code) (after : List Bytes) (r : Run Code)
    → IsSender s ds
    → length payload ≤ mtu_len
    → (after ≡ ds ++ (payload ∷ [])) ⊎ (after ≡ ds)
    → Gives code after r
    → Adds (recv taken fresh memory payload) s ds (store_queue r s)
unfolding store_queue frames
stored-Adds taken memory fresh payload s ds code after (ret c q h) v small (inl e) (_, holds) = (
  payload ∷ [],
  ds ++ (payload ∷ []),
  inl refl,
  record {
    queued = subst (Holds q h) e holds;
    buffer = record { size = v.buffer.size; inside = v.buffer.inside };
    small = AreSmall-snoc ds payload v.small small;
  },
  ap (λ x. s.sent ++ (waiting s ++ x)) (frames-append ds (payload ∷ []))
      ∙ ap (λ x. s.sent ++ x) (sym (append_assoc (waiting s) (frames split_data ds) _))
      ∙ sym (append_assoc s.sent (waiting s ++ frames split_data ds) _),
)
stored-Adds taken memory fresh payload s ds code after (ret c q h) v small (inr e) (_, holds) = (
  [],
  ds,
  inr refl,
  record {
    queued = subst (Holds q h) e holds;
    buffer = record { size = v.buffer.size; inside = v.buffer.inside };
    small = v.small;
  },
  sym (append-nil (stream s ds)),
)
stored-Adds taken memory fresh payload s ds code after fault v small which g = absurd g

Steady-Adds :
    (taken : Bool) (c : ℕ) (s : Sender) (ds : List Bytes) (g : Bool) (r : Outcome)
    → Steady s ds g r
    → Adds (send taken c) s ds r
unfolding frames
Steady-Adds taken c s ds g (ok s') (ds', v, e, _) =
    ([], ds', refl, v, e ∙ sym (append-nil (stream s ds)))
Steady-Adds taken c s ds g corrupted h = h

pub perform-Adds :
    (e : Event) (s : Sender) (ds : List Bytes)
    → IsSender s ds
    → Allowed e s
    → Adds e s ds (perform e s)
unfolding perform
perform-Adds (recv taken fresh memory payload) s ds v (pos, small, unused) =
    stored-Adds taken memory fresh payload s ds _ _ _ v small
      (push_cases taken (not (fresh == null) && memory) ds payload)
      (queue_enqueue-push s.queue s.heap ds taken fresh memory payload v.queued pos unused)
perform-Adds (send taken c) s ds v h =
    Steady-Adds taken c s ds _ _ (wifi2uart-Steady s ds taken c v h)

-- The states that a list of allowed events leads to.
pub data Leads : Sender → List Event → Sender → Type 0 where
  stay : {s : Sender} → Leads s [] s
  next :
      {s t u : Sender} {es : List Event} (e : Event)
      → Allowed e s
      → perform e s ≡ ok t
      → Leads t es u
      → Leads s (e ∷ es) u

-- The packets of `new` are among those that the events bring in, in the same order.
pub data Chosen : List Event → List Bytes → Type 0 where
  none_left : Chosen [] []
  choose :
      {es : List Event} {all : List Bytes} (e : Event) (new rest : List Bytes)
      → Accepts e new
      → Chosen es rest
      → all ≡ new ++ rest
      → Chosen (e ∷ es) all

-- Such a history from a good sender leads to a good one, whose stream is longer by the frames of
-- some packets that came in.
pub Leads-stream :
    {s u : Sender} {es : List Event} (ds : List Bytes)
    → Leads s es u
    → IsSender s ds
    → (new : List Bytes) × (ds' : List Bytes) × Chosen es new
      × IsSender u ds'
      × (stream u ds' ≡ stream s ds ++ frames split_data new)
unfolding frames
Leads-stream {s} ds stay v = ([], ds, none_left, v, sym (append-nil (stream s ds)))
Leads-stream {s} ds (next {t} {u} {es} e a p l) v =
    let (new, ds₁, ac, v₁, e₁) = subst (Adds e s ds) p (perform-Adds e s ds v a) in
    let (more, ds₂, ch, v₂, e₂) = Leads-stream ds₁ l v₁ in
    (
      new ++ more,
      ds₂,
      choose e new more ac ch refl,
      v₂,
      e₂
          ∙ ap (λ x. x ++ frames split_data more) e₁
          ∙ append_assoc (stream s ds) (frames split_data new) (frames split_data more)
          ∙ ap (λ x. stream s ds ++ x) (sym (frames-append new more)),
    )

-- The state after `queue_init`, with nothing sent; `buffer` is whatever `uartSendbuffer` holds.
abbrev pub start : Heap → Bytes → Sender
start h buffer = record {
  queue = queue_init;
  heap = h;
  send_len = 0;
  send_ptr = 0;
  send_buffer = buffer;
  sent = [];
}

pub start-IsSender :
    (h : Heap) (buffer : Bytes) → length buffer ≡ max_frame_len → IsSender (start h buffer) []
start-IsSender h buffer e = record {
  queued = init-Holds h;
  buffer = record { size = e; inside = omega arith };
  small = tt;
}

-- Every call returns.
abbrev pub Returns : Outcome → Type 0
Returns r = (t : Sender) × (r ≡ ok t)

pub Adds-Returns :
    (e : Event) (s : Sender) (ds : List Bytes) (r : Outcome) → Adds e s ds r → Returns r
Adds-Returns e s ds (ok t) a = (t, refl)
Adds-Returns e s ds corrupted a = absurd a

module _ {h : Heap} {buffer : Bytes} {es : List Event} {u : Sender}
    (full : length buffer ≡ max_frame_len) (l : Leads (start h buffer) es u) where
  -- After any allowed history from the start, the bytes sent are the front of the frames of some of
  -- the packets that came in, in order: what is missing waits in the buffer and the queue.
  pub sent-frames :
      (new : List Bytes) × (left : List Bytes) × Chosen es new
      × Holds u.queue u.heap left
      × (u.sent ++ (waiting u ++ frames split_data left) ≡ frames split_data new)
  unfolding frames
  sent-frames =
      let (new, left, ch, v, e) = Leads-stream [] l (start-IsSender h buffer full) in
      (new, left, ch, v.queued, e)

  -- Every allowed call after any allowed history from the start returns, with no dangling pointer and
  -- no write behind the buffer.
  pub perform-Returns : (e : Event) → Allowed e u → Returns (perform e u)
  perform-Returns e a =
      let (_, left, _, v, _) = Leads-stream [] l (start-IsSender h buffer full) in
      Adds-Returns e u left _ (perform-Adds e u left v a)
