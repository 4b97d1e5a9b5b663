-- ===== src/Esp/Config/Stream.antt =====
-- `recv_ssid`, `recv_passwd` and `recv_netif_info` receive a good frame whatever its chunks, and leave
-- what follows it for the next call.
use esp8266_hosted_linux.Base.{
  ℕ, zero, suc, ◌+◌, ◌≤◌, ◌<◌, ◌≡◌, refl, sym, subst, ap, ◌∙◌, arith, inl, inr, Bool, false, List,
  [], ◌∷◌, ◌++◌, Bytes, length, ltb, Bool-cases, length-append, append_assoc, concat, ltb→lt,
  ltb→ge, ge→ltb,
}
use esp8266_hosted_linux.Frame.{
  Status, status_len, status_data, status_split, mtu_len, max_frame_len, read16, frame,
}
use esp8266_hosted_linux.Frame.Parse.{
  length-frame, take-drop-frame, drop-frame, read16-frame, frame_complete,
}
use esp8266_hosted_linux.Esp.Uart.{Uart, uart0_recv_data, FitsFifo, buffer_len}
use esp8266_hosted_linux.Esp.Config.{
  Round, again, done, blocked, overflow, no_fuel, read, step_data, step_len, step, run, recv_frame,
}
use esp8266_hosted_linux.Esp.Config.Bounds.{DataLen, measure, StepOk, step-StepOk, weight_le_one}

module _ (bad_len : ℕ → Bool) (bad_frame : Bytes → ℕ → Bool)
    (limit : (w : ℕ) → bad_len w ≡ false → w + 3 ≤ max_frame_len) (split : ℕ) (p tail : Bytes)
    (good_len : bad_len (length p) ≡ false)
    (good_frame : (r : Bytes) → bad_frame (frame split p ++ r) (length p) ≡ false) where
  abbrev Place : Status → ℕ → Type 0
  Place status_len w = Unit
  Place status_data w = w ≡ length p
  Place status_split w = ⊥

  -- The buffer and the bytes to come are the frame and what follows it.
  abbrev pub Comes : Uart → List Bytes → Type 0
  Comes u fifo = u.buf ++ concat fifo ≡ frame split p ++ tail

  abbrev NextOn : Round → Type 0
  NextOn (again u fifo) = Comes u fifo × Place u.status u.data_len
  NextOn (done q u fifo) =
      (q ≡ p) × (u.buf ++ concat fifo ≡ tail) × (u.status ≡ status_len) × FitsFifo fifo
  NextOn _ = ⊥

  small : length p ≤ mtu_len
  small = omega (arith, limit (length p) good_len)

  read-On :
      (u : Uart) (fifo : List Bytes)
      → Comes u fifo
      → Place u.status u.data_len
      → FitsFifo fifo
      → length u.buf < length p + 3
      → NextOn (read u fifo)
  unfolding read uart0_recv_data
  read-On u [] on place f short = absurd (
      omega (
        arith,
        ap length on,
        length-append u.buf [],
        length-append (frame split p) tail,
        length-frame split p,
      ))
  read-On u (c ∷ cs) on place f short =
      rw (ge→ltb buffer_len (length u.buf + length c) (omega (arith, small, f.0)), NextOn)
        (append_assoc u.buf c (concat cs) ∙ on, place)

  data-On :
      (u : Uart) (fifo : List Bytes)
      → Comes u fifo
      → u.status ≡ status_data
      → u.data_len ≡ length p
      → FitsFifo fifo
      → NextOn (step_data bad_len bad_frame u fifo)
  unfolding step_data
  data-On u fifo on st w f = elim (Bool-cases (ltb (length u.buf) (u.data_len + 3))) [
    | inl e ↦ rw e (
        read-On u fifo on (subst (λ t. Place t u.data_len) (sym st) w) f
          (omega (arith, ltb→lt (length u.buf) (u.data_len + 3) e)))
    | inr e ↦
        let (r, whole, rest) =
          frame_complete split p u.buf _ _ on
            (omega (arith, ltb→ge (length u.buf) (u.data_len + 3) e)) in
        let good : bad_frame u.buf u.data_len ≡ false = rw (whole, w) (good_frame r) in
        rw e (
          rw good (
            rw (whole, w) (take-drop-frame split p r),
            rw (whole, w, drop-frame split p r) (sym rest),
            refl,
            f,
          ))
  ]

  len-On :
      (u : Uart) (fifo : List Bytes)
      → Comes u fifo
      → u.status ≡ status_len
      → FitsFifo fifo
      → NextOn (step_len bad_len bad_frame u fifo)
  unfolding step_len
  len-On u fifo on st f = elim (Bool-cases (ltb (length u.buf) 2)) [
    | inl e ↦ rw e (
        read-On u fifo on (subst (λ t. Place t u.data_len) (sym st) tt) f
          (omega (arith, ltb→lt (length u.buf) 2 e)))
    | inr e ↦
        let w = read16-frame split p u.buf _ _ on (ltb→ge (length u.buf) 2 e) small in
        let good : bad_len (read16 u.buf) ≡ false = rw w good_len in
        rw e (
          rw good
            (data-On (record u { data_len = read16 u.buf; status = status_data }) fifo on refl w f))
  ]

  step-On :
      (t : Status) (u : Uart) (fifo : List Bytes)
      → Comes u fifo
      → u.status ≡ t
      → Place t u.data_len
      → FitsFifo fifo
      → NextOn (step bad_len bad_frame t u fifo)
  unfolding step
  step-On status_len u fifo on st w f = len-On u fifo on st f
  step-On status_data u fifo on st w f = data-On u fifo on st w f
  step-On status_split u fifo on st w f = absurd w

  DataLen-Place : (t : Status) (w : ℕ) → Place t w → DataLen t w
  DataLen-Place status_len w h = tt
  DataLen-Place status_data w h = omega (arith, small)
  DataLen-Place status_split w h = absurd h

  abbrev pub Received : Round → Type 0
  Received r =
      (u : Uart) × (fifo : List Bytes) × (r ≡ done p u fifo)
      × (u.buf ++ concat fifo ≡ tail)
      × (u.status ≡ status_len)
      × FitsFifo fifo

  next-Received :
      (fuel : ℕ) (u : Uart) (fifo : List Bytes) (r : Round)
      → step bad_len bad_frame u.status u fifo ≡ r
      → NextOn r
      → StepOk (measure u fifo) r
      → ((u' : Uart) (fifo' : List Bytes)
          → Comes u' fifo'
          → Place u'.status u'.data_len
          → FitsFifo fifo'
          → measure u' fifo' < measure u fifo
          → Received (run bad_len bad_frame fuel u' fifo'))
      → Received (run bad_len bad_frame (suc fuel) u fifo)
  unfolding run
  next-Received fuel u fifo (again u' fifo') e on ok next =
      rw (e, run) (next u' fifo' on.0 on.1 ok.1 ok.2)
  next-Received fuel u fifo (done q u' fifo') e on ok next =
      (u', fifo', rw (e, run) (ap (λ x. done x u' fifo') on.0), on.1, on.2, on.3)
  next-Received fuel u fifo (blocked u') e on ok next = absurd on
  next-Received fuel u fifo overflow e on ok next = absurd on
  next-Received fuel u fifo no_fuel e on ok next = absurd on

  run-Received :
      (fuel : ℕ) (u : Uart) (fifo : List Bytes)
      → Comes u fifo
      → Place u.status u.data_len
      → FitsFifo fifo
      → measure u fifo < fuel
      → Received (run bad_len bad_frame fuel u fifo)
  run-Received zero u fifo on w f h = absurd (omega arith)
  run-Received (suc fuel) u fifo on w f h =
      next-Received fuel u fifo _ refl (step-On u.status u fifo on refl w f)
        (step-StepOk bad_len bad_frame limit u.status u fifo refl
          (DataLen-Place u.status u.data_len w) f)
        (λ u' fifo' on' w' f' lt. run-Received fuel u' fifo' on' w' f' (omega arith))

  pub recv_frame-Received :
      (u : Uart) (fifo : List Bytes)
      → Comes u fifo
      → u.status ≡ status_len
      → FitsFifo fifo
      → Received (recv_frame bad_len bad_frame u fifo)
  unfolding recv_frame
  recv_frame-Received u fifo on st f =
      run-Received _ u fifo on (subst (λ t. Place t u.data_len) (sym st) tt) f
        (omega (arith, weight_le_one u.status))
