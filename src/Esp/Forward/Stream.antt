-- ===== src/Esp/Forward/Stream.antt =====
-- `uart2wifi` on a stream of good frames, cut into chunks anywhere: no packet is lost, doubled or
-- overtaken, also while the Wi-Fi interface or the memory refuses packets.
use esp8266_hosted_linux.Base.{
  ℕ, zero, suc, ◌<◌, ◌≡◌, refl, sym, ap, ◌∙◌, arith, inl, inr, Bool, true, List, [], ◌∷◌, ◌++◌,
  Bytes, length,
}
use esp8266_hosted_linux.Frame.{Status, status_len, status_data, status_split, ArePackets}
use esp8266_hosted_linux.Esp.Uart.{FitsFifo}
use esp8266_hosted_linux.Esp.Forward.{
  Wifi, Round, again, leave, overflow, no_fuel, step, run, uart2wifi,
}
use esp8266_hosted_linux.Esp.Forward.Bounds.{DataLen, measure, StepOk, step-StepOk, weight_le_one}
use esp8266_hosted_linux.Esp.Forward.Step.{Place, OnWire, NoGap, Sends, NextOn, step-On, one_more}

module _ (alloc output : Bool) (total : List Bytes) (more : Bytes) where
  DataLen-Place :
      (t : Status) (w : ℕ) (ps : List Bytes) → Place t w ps → ArePackets ps → DataLen t w
  DataLen-Place status_len w ps h v = tt
  DataLen-Place status_data w [] h v = absurd h
  DataLen-Place status_data w (p ∷ ps) h v = omega (arith, h, v.0.1)
  DataLen-Place status_split w ps h v = tt

  -- The call returns on the same stream, and sends a packet if it must.
  abbrev pub Goes : List Bytes → List Bytes → Round → Type 0
  Goes fifo ps r =
      (s : Wifi) × (fifo' : List Bytes) × (ps' : List Bytes) × (r ≡ leave s fifo')
      × FitsFifo fifo'
      × OnWire total more s fifo' ps'
      × Sends alloc output total more fifo ps ps'

  next-Goes :
      (fuel : ℕ) (s : Wifi) (fifo ps : List Bytes) (r : Round)
      → step alloc output s.status s fifo ≡ r
      → NextOn alloc output total more fifo ps r
      → StepOk (measure s fifo) r
      → ((s' : Wifi) (fifo' : List Bytes)
          → OnWire total more s' fifo' ps
          → FitsFifo fifo'
          → measure s' fifo' < measure s fifo
          → Goes fifo' ps (run alloc output fuel s' fifo'))
      → Goes fifo ps (run alloc output (suc fuel) s fifo)
  unfolding run
  next-Goes fuel s fifo ps (again s' fifo') e (on, gap) ok next =
      let (u, fs, ps', r, fits, on', sends) = next s' fifo' on ok.1 ok.2 in
      (u, fs, ps', rw (e, run) r, fits, on', λ b g m. sends b (gap g) m)
  next-Goes fuel s fifo ps (leave s' fifo') e (ps', on, sends) ok next =
      (s', fifo', ps', rw (e, run), ok.1, on, sends)
  next-Goes fuel s fifo ps overflow e on ok next = absurd on
  next-Goes fuel s fifo ps no_fuel e on ok next = absurd on

  run-Goes :
      (fuel : ℕ) (s : Wifi) (fifo ps : List Bytes)
      → OnWire total more s fifo ps
      → FitsFifo fifo
      → measure s fifo < fuel
      → Goes fifo ps (run alloc output fuel s fifo)
  run-Goes zero s fifo ps on f h = absurd (omega arith)
  run-Goes (suc fuel) s fifo ps on f h =
      next-Goes fuel s fifo ps _ refl (step-On alloc output total more s.status s fifo ps on refl f)
        (step-StepOk alloc output s.status s fifo refl
          (DataLen-Place s.status s.data_len ps on.place on.valid) f)
        (λ s' fifo' on' f' lt. run-Goes fuel s' fifo' ps on' f' (omega arith))

  uart2wifi-Goes :
      (s : Wifi) (fifo ps : List Bytes)
      → OnWire total more s fifo ps
      → FitsFifo fifo
      → Goes fifo ps (uart2wifi alloc output s fifo)
  unfolding uart2wifi
  uart2wifi-Goes s fifo ps on f = run-Goes _ s fifo ps on f (omega (arith, weight_le_one s.status))

  module _ (s : Wifi) (fifo ps : List Bytes) (on : OnWire total more s fifo ps)
      (f : FitsFifo fifo) where
    -- On a stream of good frames a call of `uart2wifi` returns on that stream, whatever memory and
    -- interface answer: what it has sent and what is still to come are the same packets in the same
    -- order.
    pub uart2wifi-OnWire :
        (s' : Wifi) × (fifo' : List Bytes) × (ps' : List Bytes) × (uart2wifi alloc output s fifo
          ≡ leave s' fifo')
        × FitsFifo fifo'
        × OnWire total more s' fifo' ps'
    uart2wifi-OnWire =
        let (s', fifo', ps', e, f', on', _) = uart2wifi-Goes s fifo ps on f in
        (s', fifo', ps', e, f', on')

    -- On a stream of good frames, if memory and interface take a packet, no read finds the FIFO empty
    -- before its end, and all bytes of the stream are there, then a call of `uart2wifi` returns and
    -- sends the next packet, where there is one.
    pub uart2wifi-sends :
        (p : Bytes) (qs : List Bytes)
        → ps ≡ p ∷ qs
        → alloc ≡ true
        → output ≡ true
        → NoGap fifo
        → more ≡ []
        → (s' : Wifi) × (fifo' : List Bytes) × (uart2wifi alloc output s fifo ≡ leave s' fifo')
          × (s'.sent ≡ s.sent ++ (p ∷ []))
    uart2wifi-sends p qs is a o gap none_more =
        let (s', fifo', ps', e, _, on', sends) = uart2wifi-Goes s fifo ps on f in
        let n : length ps' ≡ length qs = elim (sends (ground (arith, a, o)) gap none_more) [
          | inl nil ↦ absurd (omega (arith, ap length (sym is ∙ nil)))
          | inr more_by_one ↦ omega (arith, more_by_one, ap length is)
        ] in
        (
          s',
          fifo',
          e,
          one_more s'.sent s.sent ps' p qs (on'.packets ∙ sym on.packets ∙ ap (λ x. s.sent ++ x) is)
              n,
        )
