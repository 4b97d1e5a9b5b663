-- ===== src/Driver/Receive/Stream.antt =====
-- `ttyio_receive_data` on a stream of good frames, cut into chunks anywhere.
use esp8266_hosted_linux.Base.{
  ℕ, zero, suc, ◌≤◌, ◌<◌, ◌≡◌, refl, sym, subst, ap, ◌∙◌, arith, Bool, true, Option, none, some,
  List, [], ◌∷◌, ◌++◌, Bytes, length, drop, length-append, drop-length, append-nil, concat,
}
use esp8266_hosted_linux.Frame.{
  Status, status_len, status_data, status_split, split_data, max_frame_len, frame, frames,
  ArePackets,
}
use esp8266_hosted_linux.Frame.Parse.{length-frame}
use esp8266_hosted_linux.Driver.Receive.{
  Receiver, Rx, Next, restart, exit, exit_no_skb, overrun, Outcome, returned, corrupted, no_fuel,
  step, run, stored, entry, receive_with, receive_data, receive_chunks,
}
use esp8266_hosted_linux.Driver.Receive.Bounds.{
  IsValid, StepOk, Fits, weight_le_one, step-StepOk, measure, DataLen,
}
use esp8266_hosted_linux.Driver.Receive.Step.{Place, OnStream, Place-len, RxOn, NextOn, step-On}

-- What a receiver holds between two calls, with the bytes `todo` to come.
abbrev pub WaitsWith : List Bytes → Bytes → Receiver → Option Bytes → Type 0
WaitsWith total todo s (some skb) =
    (length skb ≤ max_frame_len)
    × ((ps : List Bytes) × OnStream total 0 todo s.uart_recv_status s.uart_data_len skb s.packets
          ps)
WaitsWith total todo s none =
    DataLen s.uart_recv_status s.uart_data_len
    × ((ps : List Bytes) × ArePackets ps
        × (s.packets ++ ps ≡ total)
        × (todo ≡ frames split_data ps))

abbrev pub Waits : List Bytes → Bytes → Receiver → Type 0
Waits total todo s = WaitsWith total todo s s.recv_skb

abbrev pub Took : List Bytes → Bytes → ℕ → Outcome → Type 0
Took total more count (returned n s) = (n ≡ count) × Waits total more s
Took total more count _ = ⊥

module _ (can_alloc : ℕ → Bool) (always : (n : ℕ) → can_alloc n ≡ true) (total : List Bytes) where
  module _ (cp more : Bytes) where
    exit-Took :
        (m : Rx)
        → (m.processed ≡ length cp) × Fits m
        → NextOn total cp more (exit m)
        → Took total more (length cp) (returned m.processed (stored (some m.skb) m))
    exit-Took m (all, fits) (ps, on) =
        let none_left : drop m.processed cp ≡ [] = drop-length m.processed cp (omega arith) in
        (
          all,
          (
            fits.0,
            (
              ps,
              record {
                valid = on.valid;
                packets = on.packets;
                bytes = ap (λ x. m.skb ++ (x ++ more)) (sym none_left) ∙ on.bytes;
                place = on.place;
              },
            ),
          ),
        )

    next-Took :
        (fuel : ℕ) (m : Rx) (r : Next)
        → StepOk (length cp) (measure m) r
        → NextOn total cp more r
        → step can_alloc m.status cp m ≡ r
        → ((m' : Rx) (ps : List Bytes)
            → IsValid (length cp) m'
            → measure m' < measure m
            → RxOn total cp more 1 m' ps
            → Took total more (length cp) (run can_alloc fuel cp m'))
        → Took total more (length cp) (run can_alloc (suc fuel) cp m)
    unfolding run
    next-Took fuel m (restart m') ok (ps, on) e next = rw (e, Took) (next m' ps ok.0 ok.1 on)
    next-Took fuel m (exit m') ok on e next = rw (e, Took) (exit-Took m' ok on)
    next-Took fuel m (exit_no_skb m') ok on e next = absurd on
    next-Took fuel m overrun ok on e next = absurd on

    pub run-Took :
        (fuel : ℕ) (m : Rx) (ps : List Bytes)
        → IsValid (length cp) m
        → measure m < fuel
        → RxOn total cp more 1 m ps
        → Took total more (length cp) (run can_alloc fuel cp m)
    run-Took zero m ps v h on = absurd (omega arith)
    run-Took (suc fuel) m ps v h on =
        next-Took fuel m _ (step-StepOk can_alloc cp m.status m v refl)
          (step-On total cp more can_alloc always m.status m ps refl on v.balance) refl
          (λ m' ps' v' lt on'. run-Took fuel m' ps' v' (omega arith) on')

Place-later :
    (t : Status) (w : ℕ) (skb : Bytes) (ps : List Bytes) → Place 0 t w skb ps → Place 1 t w skb ps
Place-later status_len w skb ps h = h
Place-later status_data w skb [] h = h
Place-later status_data w skb (p ∷ ps) h = (h.0, omega (arith, h.1))
Place-later status_split w skb ps h = h

DataLen-Place :
    (t : Status) (w : ℕ) (skb : Bytes) (ps : List Bytes)
    → Place 0 t w skb ps
    → ArePackets ps
    → DataLen t w
DataLen-Place status_len w skb ps h v = tt
DataLen-Place status_data w skb [] h v = absurd h
DataLen-Place status_data w skb (p ∷ ps) h v = omega (arith, h.0)
DataLen-Place status_split w skb ps h v = tt

-- At the end of the stream no packet is left.
nothing_left :
    (t : Status) (w : ℕ) (skb : Bytes) (ps : List Bytes)
    → Place 0 t w skb ps
    → skb ++ [] ≡ frames split_data ps
    → ps ≡ []
unfolding frames
nothing_left t w skb [] h e = refl
nothing_left status_len w skb (p ∷ ps) h e = absurd (
    omega (
      arith,
      ap length e,
      length-append skb [],
      length-append (frame split_data p) (frames split_data ps),
      length-frame split_data p,
    ))
nothing_left status_data w skb (p ∷ ps) h e = absurd (
    omega (
      arith,
      h.1,
      ap length e,
      length-append skb [],
      length-append (frame split_data p) (frames split_data ps),
      length-frame split_data p,
    ))
nothing_left status_split w skb (p ∷ ps) h e = absurd h

-- Between two frames: the skb is empty and a length is awaited, or there is no skb yet.
abbrev pub IdleWith : Receiver → Option Bytes → Type 0
IdleWith s (some skb) = (skb ≡ []) × (s.uart_recv_status ≡ status_len)
IdleWith s none = DataLen s.uart_recv_status s.uart_data_len

abbrev pub IsIdle : Receiver → Type 0
IsIdle s = IdleWith s s.recv_skb

status_of_nil : (t : Status) (w : ℕ) (skb : Bytes) → Place 0 t w skb [] → t ≡ status_len
status_of_nil status_len w skb h = refl
status_of_nil status_data w skb h = absurd h
status_of_nil status_split w skb h = absurd h

pub finished :
    (total : List Bytes) (s : Receiver) (o : Option Bytes)
    → WaitsWith total [] s o
    → (s.packets ≡ total) × IdleWith s o
unfolding frames
finished total s (some skb) (room, (ps, on)) =
    let e = nothing_left s.uart_recv_status s.uart_data_len skb ps on.place on.bytes in
    let empty : skb ≡ [] = sym (append-nil skb) ∙ on.bytes ∙ ap (frames split_data) e in
    (
      sym (append-nil s.packets) ∙ ap (λ x. s.packets ++ x) (sym e) ∙ on.packets,
      (
        empty,
        status_of_nil s.uart_recv_status s.uart_data_len skb
            (subst (Place 0 s.uart_recv_status s.uart_data_len skb) e on.place),
      ),
    )
finished total s none (range, (ps, v, done, e)) =
    let e' = nothing_left status_len 0 [] ps (omega arith) e in
    (sym (append-nil s.packets) ∙ ap (λ x. s.packets ++ x) (sym e') ∙ done, range)

started :
    (s : Receiver) (ps : List Bytes) (todo : Bytes) (o : Option Bytes)
    → ArePackets ps
    → todo ≡ frames split_data ps
    → IdleWith s o
    → WaitsWith (s.packets ++ ps) todo s o
started s ps todo (some skb) v e (empty, st) =
    let n : length skb ≡ 0 = ap length empty in
    (
      omega arith,
      (
        ps,
        record {
          valid = v;
          packets = refl;
          bytes = ap (λ x. x ++ todo) empty ∙ e;
          place = Place-len s.uart_recv_status 0 _ _ ps st (omega arith);
        },
      ),
    )
started s ps todo none v e range = (range, (ps, v, refl, e))

module _ (can_alloc : ℕ → Bool) (always : (n : ℕ) → can_alloc n ≡ true) (total : List Bytes) where
  receive_with-Took :
      (o : Option Bytes) (s : Receiver) (cp more : Bytes)
      → WaitsWith total (cp ++ more) s o
      → Took total more (length cp) (receive_with can_alloc o s cp)
  unfolding receive_with
  receive_with-Took (some skb) s cp more (room, (ps, on)) =
      run-Took can_alloc always total cp more _ (entry skb s cp) ps
        (record {
          room = room;
          range = DataLen-Place s.uart_recv_status s.uart_data_len skb ps on.place on.valid;
          balance = omega arith;
        })
        (omega (arith, weight_le_one s.uart_recv_status))
        (record {
          valid = on.valid;
          packets = on.packets;
          bytes = on.bytes;
          place = Place-later s.uart_recv_status s.uart_data_len skb ps on.place;
        })
  receive_with-Took none s cp more (range, (ps, v, done, e)) = rw (always s.allocs) (
      run-Took can_alloc always total cp more _ _ ps (omega arith) (omega arith)
        (record { valid = v; packets = done; bytes = e; place = omega arith }))

  abbrev Finishes : Outcome → Type 0
  Finishes r = (n : ℕ) × (s : Receiver) × (r ≡ returned n s) × (s.packets ≡ total) × IsIdle s

  chunk-Finishes :
      (s : Receiver) (cp : Bytes) (cps : List Bytes) (r : Outcome)
      → receive_data can_alloc s cp ≡ r
      → Took total (concat cps) (length cp) r
      → ((s' : Receiver) → Waits total (concat cps) s' → Finishes (receive_chunks can_alloc s' cps))
      → Finishes (receive_chunks can_alloc s (cp ∷ cps))
  unfolding receive_chunks
  chunk-Finishes s cp cps (returned n s') e (_, w) next = rw (e, receive_chunks) (next s' w)
  chunk-Finishes s cp cps corrupted e t next = absurd t
  chunk-Finishes s cp cps no_fuel e t next = absurd t

  receive_chunks-Finishes :
      (cps : List Bytes) (s : Receiver)
      → Waits total (concat cps) s
      → Finishes (receive_chunks can_alloc s cps)
  unfolding receive_data
  receive_chunks-Finishes [] s h =
      let f = finished total s s.recv_skb h in unfold receive_chunks in (0, s, refl, f.0, f.1)
  receive_chunks-Finishes (cp ∷ cps) s h =
      chunk-Finishes s cp cps _ refl (receive_with-Took s.recv_skb s cp (concat cps) h)
        (λ s' w. receive_chunks-Finishes cps s' w)

module _ (can_alloc : ℕ → Bool) (always : (n : ℕ) → can_alloc n ≡ true) where
  -- The bytes of the frames of some packets, cut into chunks anywhere, make the receiver deliver
  -- exactly these packets in order behind the earlier ones, and leave it between two frames again,
  -- if it was there at first and every skb that it asks for can be had.
  pub receive_chunks-frames :
      (cps ps : List Bytes) (s : Receiver)
      → IsIdle s
      → ArePackets ps
      → concat cps ≡ frames split_data ps
      → (n : ℕ) × (s' : Receiver) × (receive_chunks can_alloc s cps ≡ returned n s')
        × (s'.packets ≡ s.packets ++ ps)
        × IsIdle s'
  receive_chunks-frames cps ps s idle v e =
      receive_chunks-Finishes can_alloc always (s.packets ++ ps) cps s
        (started s ps (concat cps) s.recv_skb v e idle)
