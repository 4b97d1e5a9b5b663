-- ===== src/Driver/Info/Accept.antt =====
-- `ttyio_netif_info` and `ttyio_receive_buf2` on a good block, cut into chunks anywhere.
use esp8266_hosted_linux.Base.{
  ℕ, zero, suc, ◌+◌, ◌≤◌, ◌<◌, ◌≡◌, ◌⊎◌, inl, inr, refl, sym, subst, ap, ◌∙◌, arith, Bool, true,
  false, List, [], ◌∷◌, ◌++◌, Bytes, length, take, drop, drop-length, concat, append-nil,
  length-append, length-take,
}
use esp8266_hosted_linux.Dump.Text.{dump_overflows-false}
use esp8266_hosted_linux.Frame.{Status, status_len, split_cmd, frame}
use esp8266_hosted_linux.Frame.Parse.{length-frame}
use esp8266_hosted_linux.Driver.Receive.{Receiver}
use esp8266_hosted_linux.Driver.Info.{
  netif_info_size, Info, Rx, Next, restart, exit, accept, overrun, Outcome, returned, corrupted,
  no_fuel, step, run, entry, ttyio_netif_info, LineDiscipline, Received, took, ttyio_receive_buf2,
  receive_calls,
}
use esp8266_hosted_linux.Driver.Info.Text.{Printed, transform_netif_info-Printed}
use esp8266_hosted_linux.Driver.Info.Step.{
  Place, Place-later, Place-short, OnBlock, RxOn, Balanced, NextOn, step-On,
}

-- No chunk is empty: the tty layer calls with at least one byte.
abbrev pub NonEmpty : List Bytes → Type 0
NonEmpty [] = Unit
NonEmpty (c ∷ cs) = (0 < length c) × NonEmpty cs

concat-NonEmpty : (cps : List Bytes) → NonEmpty cps → concat cps ≡ [] → cps ≡ []
concat-NonEmpty [] h e = refl
concat-NonEmpty (c ∷ cs) h e = absurd (omega (arith, ap length e, length-append c (concat cs)))

module _ (addresses : Bytes) (twelve : length addresses ≡ 12) where
  -- What a call finds: a block in part, none accepted yet.
  abbrev Waits : Bytes → Status → Info → Type 0
  Waits todo t s =
      OnBlock addresses twelve 0 todo t s.netif_info s.netif_info_recv_len
      × (s.netif_info_vaild ≡ false)

  -- The block has been accepted: the array that was written back begins with it, and in what is kept the
  -- addresses stand behind it as three lines of four decimal numbers, cut to 47 bytes.
  abbrev pub Accepted : Info → Info → Type 0
  Accepted s s' =
      (array : Bytes) × (take 15 array ≡ frame split_cmd addresses)
      × (length array ≡ netif_info_size)
      × Printed addresses array s'
      × (s'.netif_info_vaild ≡ true)
      × (s'.writes ≡ s.writes ++ (array ∷ []))
      × (s'.wakeups ≡ s.wakeups + 1)

  abbrev Took : ℕ → Bytes → Info → Outcome → Type 0
  Took count more s (returned n t s') =
      (n ≡ count)
      × ((Waits more t s' × (s'.writes ≡ s.writes) × (s'.wakeups ≡ s.wakeups))
          ⊎ ((more ≡ []) × Accepted s s'))
  Took count more s _ = ⊥

  module _ (stored : Status) (s : Info) (new : s.netif_info_vaild ≡ false) (cp more : Bytes) where
    next-Took :
        (fuel : ℕ) (m : Rx) (r : Next)
        → step m.status cp m ≡ r
        → NextOn addresses twelve cp more m.surplus r
        → ((m' : Rx)
            → RxOn addresses twelve cp more 1 m'
            → Balanced addresses twelve cp more m'
            → m'.data_len ≡ 12
            → m'.surplus < m.surplus
            → Took (length cp) more s (run fuel stored s cp m'))
        → Took (length cp) more s (run (suc fuel) stored s cp m)
    unfolding run
    next-Took fuel m (restart m') e (on, bal, len, lt) next = rw (e, Took) (next m' on bal len lt)
    next-Took fuel m (exit m') e (on, all) next =
        let none_left : drop m'.processed cp ≡ [] = drop-length m'.processed cp (omega arith) in
        rw (e, Took)
          (
            all,
            inl (
              (
                record {
                  size = on.size;
                  bytes =
                      ap (λ x. take m'.recv_len m'.netif_info ++ (x ++ more)) (sym none_left)
                      ∙ on.bytes;
                  place = on.place;
                },
                new,
              ),
              refl,
              refl,
            ),
          )
    next-Took fuel m (accept m') e (whole, size, all, nothing) next =
        rw (e, Took)
          (
            all,
            inr (
              nothing,
              (
                m'.netif_info,
                whole ∙ append-nil (frame split_cmd addresses),
                size,
                transform_netif_info-Printed addresses m'.netif_info twelve
                    (whole ∙ append-nil (frame split_cmd addresses)) _ size refl,
                refl,
                refl,
                refl,
              ),
            ),
          )
    next-Took fuel m overrun e on next = absurd on

    run-Took :
        (fuel : ℕ) (m : Rx)
        → RxOn addresses twelve cp more 1 m
        → Balanced addresses twelve cp more m
        → m.data_len ≡ 12
        → m.surplus < fuel
        → Took (length cp) more s (run fuel stored s cp m)
    run-Took zero m on bal len h = absurd (omega arith)
    run-Took (suc fuel) m on bal len h =
        next-Took fuel m _ refl (step-On addresses twelve cp more m.status m refl on bal len)
          (λ m' on' bal' len' lt. run-Took fuel m' on' bal' len' (omega arith))

  ttyio_netif_info-Took :
      (fuel : ℕ) (t : Status) (s : Info) (cp more : Bytes)
      → Waits (cp ++ more) t s
      → length cp ≤ 15
      → length cp < fuel
      → Took (length cp) more s (ttyio_netif_info fuel t s cp)
  unfolding ttyio_netif_info
  ttyio_netif_info-Took fuel t s cp more (on, new) short h =
      rw (dump_overflows-false cp (omega (arith, short))) (
        run-Took t s new cp more fuel (entry t s cp)
          (record {
            size = on.size;
            bytes = on.bytes;
            place = Place-later t s.netif_info_recv_len on.place;
          })
          (omega arith) refl h)

  Accepted-same :
      (s₀ s s' : Info)
      → s.writes ≡ s₀.writes
      → s.wakeups ≡ s₀.wakeups
      → Accepted s s'
      → Accepted s₀ s'
  Accepted-same s₀ s s' w k (array, whole, size, kept, valid, written, woken) = (
    array,
    whole,
    size,
    kept,
    valid,
    written ∙ ap (λ x. x ++ (array ∷ [])) w,
    woken ∙ ap (λ x. x + 1) k,
  )

  not_done : (t : Status) (s : Info) → Waits [] t s → ⊥
  not_done t s (on, new) = omega (
    arith,
    ap length on.bytes,
    length-append (take s.netif_info_recv_len s.netif_info) [],
    length-append (frame split_cmd addresses) [],
    length-frame split_cmd addresses,
    length-take s.netif_info_recv_len s.netif_info,
    on.size,
    Place-short t s.netif_info_recv_len on.place,
  )

  -- The receiver of packets keeps its skb and its packets.
  abbrev pub Unmoved : Receiver → Receiver → Type 0
  Unmoved r r' = (r'.recv_skb ≡ r.recv_skb) × (r'.packets ≡ r.packets)

  abbrev Done : LineDiscipline → Received → Type 0
  Done d r =
      (n : ℕ) × (d' : LineDiscipline) × (r ≡ took n d')
      × (d'.attached ≡ true)
      × Accepted d.info d'.info
      × Unmoved d.receiver d'.receiver

  module _ (can_alloc : ℕ → Bool) (fuel : ℕ) where
    receive_block :
        (d : LineDiscipline) (cp : Bytes)
        → d.attached ≡ true
        → d.info.netif_info_vaild ≡ false
        → (n : ℕ) (t : Status) (s : Info)
        → ttyio_netif_info fuel d.receiver.uart_recv_status d.info cp ≡ returned n t s
        → ttyio_receive_buf2 can_alloc fuel d cp
          ≡ took n (record d { receiver = record (d.receiver) { uart_recv_status = t }; info = s })
    unfolding ttyio_receive_buf2
    receive_block d cp on new n t s e = simp (on, new, e) refl

    chunk-Done :
        (d : LineDiscipline) (cp : Bytes) (cps : List Bytes) (o : Outcome)
        → d.attached ≡ true
        → d.info.netif_info_vaild ≡ false
        → NonEmpty cps
        → ttyio_netif_info fuel d.receiver.uart_recv_status d.info cp ≡ o
        → Took (length cp) (concat cps) d.info o
        → ((d' : LineDiscipline)
            → d'.attached ≡ true
            → Waits (concat cps) d'.receiver.uart_recv_status d'.info
            → Done d' (receive_calls can_alloc fuel d' cps))
        → Done d (receive_calls can_alloc fuel d (cp ∷ cps))
    unfolding receive_calls
    chunk-Done d cp cps (returned n t s) at new some_bytes e (_, inl (w, same, woken)) next =
        let d₁ = record d { receiver = record (d.receiver) { uart_recv_status = t }; info = s } in
        let (n', d', r, at', a, still) = next d₁ at w in
        (
          n',
          d',
          rw (receive_block d cp at new n t s e, receive_calls) r,
          at',
          Accepted-same d.info s d'.info same woken a,
          still,
        )
    chunk-Done d cp cps (returned n t s) at new some_bytes e (_, inr (nothing, a)) next =
        let d₁ = record d { receiver = record (d.receiver) { uart_recv_status = t }; info = s } in
        (
          0,
          d₁,
          rw
              (
                receive_block d cp at new n t s e,
                concat-NonEmpty cps some_bytes nothing,
                receive_calls,
              )
              refl,
          at,
          a,
          (refl, refl),
        )
    chunk-Done d cp cps corrupted at new some_bytes e h next = absurd h
    chunk-Done d cp cps no_fuel at new some_bytes e h next = absurd h

    calls-Done :
        (cps : List Bytes) (d : LineDiscipline)
        → length (concat cps) ≤ 15
        → length (concat cps) < fuel
        → NonEmpty cps
        → d.attached ≡ true
        → Waits (concat cps) d.receiver.uart_recv_status d.info
        → Done d (receive_calls can_alloc fuel d cps)
    calls-Done [] d small h some_bytes at w = absurd (not_done d.receiver.uart_recv_status d.info w)
    calls-Done (cp ∷ cps) d small h some_bytes at w =
        let n = length-append cp (concat cps) in
        chunk-Done d cp cps _ at w.1 some_bytes.1 refl
          (ttyio_netif_info-Took fuel d.receiver.uart_recv_status d.info cp (concat cps) w
            (omega (arith, n, small)) (omega (arith, n)))
          (λ d' at' w'.
            calls-Done cps d' (omega (arith, n, small)) (omega (arith, n)) some_bytes.1 at' w')

    -- A line discipline that waits for the addresses from their start gets a block of 12 bytes with its
    -- length and SPLIT_CMD, cut into non-empty chunks anywhere. With more rounds than the block has
    -- bytes the calls return: 64 bytes that begin with the block are written back once, the readers are
    -- woken once, and the receiver of packets keeps its skb and packets. The array that is kept, and the
    -- file that shows it, have the twelve bytes behind the block as three lines of four decimal numbers, of
    -- which at most 47 bytes, so the last line end can be missing, and a NUL.
    pub receive_calls-Accepted :
        (cps : List Bytes) (d : LineDiscipline)
        → 15 < fuel
        → NonEmpty cps
        → concat cps ≡ frame split_cmd addresses
        → d.attached ≡ true
        → d.info.netif_info_vaild ≡ false
        → d.info.netif_info_recv_len ≡ 0
        → d.receiver.uart_recv_status ≡ status_len
        → length d.info.netif_info ≡ netif_info_size
        → (n : ℕ) × (d' : LineDiscipline) × (receive_calls can_alloc fuel d cps ≡ took n d')
          × (d'.attached ≡ true)
          × Accepted d.info d'.info
          × Unmoved d.receiver d'.receiver
    receive_calls-Accepted cps d h some_bytes line at new none_yet st size =
        calls-Done cps d (omega (arith, ap length line, length-frame split_cmd addresses))
          (omega (arith, ap length line, length-frame split_cmd addresses)) some_bytes at
          (
            record {
              size = size;
              bytes =
                  ap (λ n. take n d.info.netif_info ++ concat cps) none_yet
                  ∙ line
                  ∙ sym (append-nil (frame split_cmd addresses));
              place = subst (λ t. Place 0 t d.info.netif_info_recv_len) (sym st) (omega arith);
            },
            new,
          )
