-- ===== src/Esp/Config/Bounds.antt =====
-- `recv_ssid`, `recv_passwd` and `recv_netif_info`: they write inside their buffer, and each round
-- brings them nearer to a return or to waiting.
use esp8266_hosted_linux.Base.{
  ℕ, zero, suc, ◌+◌, ◌*◌, ◌≤◌, ◌<◌, ◌≡◌, refl, arith, inl, inr, Bool, not, false, List, [], ◌∷◌,
  ◌++◌, Bytes, length, ◌==◌, Option-cases, length-append, length-drop,
}
use esp8266_hosted_linux.Frame.{
  Status, status_len, status_data, status_split, split_cmd, mtu_len, max_frame_len, read16,
  out_of_range, skip_past,
}
use esp8266_hosted_linux.Frame.Parse.{skip_past_bounds}
use esp8266_hosted_linux.Esp.Uart.{
  Uart, uart0_recv_data, relocate, FitsFifo, uart_fifo_len, buffer_len,
}
use esp8266_hosted_linux.Esp.Config.{
  Round, again, done, blocked, overflow, no_fuel, read, next_bytes, step_data, step_len, step_split,
  step, run, recv_frame, recv_ssid, recv_passwd, recv_netif_info, bad_text, bad_info,
  wpa_max_ssid_len, wpa_max_passwd_len,
}

-- In STATUS_DATA the length has passed a check that keeps a frame within `max_frame_len`.
abbrev pub DataLen : Status → ℕ → Type 0
DataLen status_data w = w + 3 ≤ max_frame_len
DataLen _ w = Unit

abbrev pub weight : Status → ℕ
weight status_split = 0
weight _ = 1

pub weight_le_one : (t : Status) → weight t ≤ 1
weight_le_one status_split = omega arith
weight_le_one _ = omega arith

abbrev pub measure : Uart → List Bytes → ℕ
measure u fifo = 2 * (next_bytes fifo + length u.buf) + weight u.status

-- A round goes on with less to do, returns, or waits; it does not write behind the buffer.
abbrev pub StepOk : ℕ → Round → Type 0
StepOk before (again u fifo) =
    DataLen u.status u.data_len × FitsFifo fifo × (measure u fifo < before)
StepOk before (done p u fifo) = u.status ≡ status_len
StepOk before (blocked u) = DataLen u.status u.data_len
StepOk before _ = ⊥

-- A call ends: it has received a frame and expects a length, or it waits for bytes.
abbrev pub Settles : Round → Type 0
Settles (done p u fifo) = u.status ≡ status_len
Settles (blocked u) = DataLen u.status u.data_len
Settles _ = ⊥

relocate_measure :
    (b : ℕ) (u : Uart)
    → u.status ≡ status_split
    → (2 * length (relocate b u).buf + weight (relocate b u).status ≤ 2 * length u.buf)
      × (0 < length u.buf
          → 2 * length (relocate b u).buf + weight (relocate b u).status < 2 * length u.buf)
      × DataLen (relocate b u).status (relocate b u).data_len
unfolding relocate
relocate_measure b u st = elim (Option-cases (skip_past b u.buf)) [
  | inl e ↦ ground arith
  | inr (k, e) ↦ ground (arith, skip_past_bounds b u.buf k e, length-drop k u.buf)
]

read-StepOk :
    (u : Uart) (fifo : List Bytes) (before : ℕ)
    → DataLen u.status u.data_len
    → FitsFifo fifo
    → length u.buf + uart_fifo_len ≤ buffer_len
    → measure u fifo ≤ before
    → StepOk before (read u fifo)
unfolding read uart0_recv_data
read-StepOk u [] before d f room h = d
read-StepOk u (c ∷ cs) before d f room h = ground (arith, length-append u.buf c)

module _ (bad_len : ℕ → Bool) (bad_frame : Bytes → ℕ → Bool)
    (limit : (w : ℕ) → bad_len w ≡ false → w + 3 ≤ max_frame_len) where
  data-StepOk :
      (u : Uart) (fifo : List Bytes) (before : ℕ)
      → u.status ≡ status_data
      → DataLen u.status u.data_len
      → FitsFifo fifo
      → measure u fifo ≤ before
      → StepOk before (step_data bad_len bad_frame u fifo)
  unfolding step_data
  data-StepOk u fifo before st d f h = ground (arith, read-StepOk u fifo before d f)

  len-StepOk :
      (u : Uart) (fifo : List Bytes)
      → u.status ≡ status_len
      → FitsFifo fifo
      → StepOk (measure u fifo) (step_len bad_len bad_frame u fifo)
  unfolding step_len
  len-StepOk u fifo st f = ground (
    arith,
    limit (read16 u.buf),
    read-StepOk u fifo (measure u fifo),
    data-StepOk (record u { data_len = read16 u.buf; status = status_data }) fifo (measure u fifo),
  )

  split-StepOk :
      (u : Uart) (fifo : List Bytes)
      → u.status ≡ status_split
      → FitsFifo fifo
      → StepOk (measure u fifo) (step_split bad_len bad_frame u fifo)
  unfolding step_split read uart0_recv_data
  split-StepOk u [] st f = ground (arith, relocate_measure split_cmd u st)
  split-StepOk u (c ∷ cs) st f = ground (
    arith,
    relocate_measure split_cmd u st,
    relocate_measure split_cmd (record u { buf = u.buf ++ c }) st,
    length-append u.buf c,
  )

  pub step-StepOk :
      (t : Status) (u : Uart) (fifo : List Bytes)
      → u.status ≡ t
      → DataLen u.status u.data_len
      → FitsFifo fifo
      → StepOk (measure u fifo) (step bad_len bad_frame t u fifo)
  unfolding step
  step-StepOk status_len u fifo st d f = len-StepOk u fifo st f
  step-StepOk status_data u fifo st d f = data-StepOk u fifo (measure u fifo) st d f (omega arith)
  step-StepOk status_split u fifo st d f = split-StepOk u fifo st f

  run-Settles :
      (fuel : ℕ) (u : Uart) (fifo : List Bytes)
      → DataLen u.status u.data_len
      → FitsFifo fifo
      → measure u fifo < fuel
      → Settles (run bad_len bad_frame fuel u fifo)
  run-Settles zero u fifo d f h = absurd (omega arith)
  run-Settles (suc fuel) u fifo d f h =
      next _ refl (step-StepOk u.status u fifo refl d f)
        (λ u' fifo' d' f' lt. run-Settles fuel u' fifo' d' f' (omega arith))
    where
      next :
          (r : Round)
          → step bad_len bad_frame u.status u fifo ≡ r
          → StepOk (measure u fifo) r
          → ((u' : Uart) (fifo' : List Bytes)
              → DataLen u'.status u'.data_len
              → FitsFifo fifo'
              → measure u' fifo' < measure u fifo
              → Settles (run bad_len bad_frame fuel u' fifo'))
          → Settles (run bad_len bad_frame (suc fuel) u fifo)
      next (again u' fifo') e ok rec = unfold run in rw (e, Settles) (rec u' fifo' ok.0 ok.1 ok.2)
      next (done p u' fifo') e ok rec = unfold run in rw (e, Settles) ok
      next (blocked u') e ok rec = unfold run in rw (e, Settles) ok
      next overflow e ok rec = absurd ok
      next no_fuel e ok rec = absurd ok

  pub recv_frame-Settles :
      (u : Uart) (fifo : List Bytes)
      → DataLen u.status u.data_len
      → FitsFifo fifo
      → Settles (recv_frame bad_len bad_frame u fifo)
  unfolding recv_frame
  recv_frame-Settles u fifo d f = run-Settles _ u fifo d f (omega (arith, weight_le_one u.status))

module _ (u : Uart) (fifo : List Bytes) (d : DataLen u.status u.data_len) (f : FitsFifo fifo) where
  -- Whatever bytes come, if at most `uart_fifo_len` lie in the FIFO at a time and the length is in
  -- range if one has been read, `recv_ssid`, `recv_passwd`, and `recv_netif_info` for an info block
  -- whose length is at most `mtu_len`, never write behind the buffer; they return in STATUS_LEN, or
  -- use up all input and wait.
  pub config-Settles :
      (netif_info : Bytes) (total_len : ℕ)
      → read16 netif_info ≤ mtu_len
      → Settles (recv_ssid u fifo)
        × Settles (recv_passwd u fifo)
        × Settles (recv_netif_info netif_info total_len u fifo)
  unfolding recv_ssid recv_passwd recv_netif_info
  config-Settles netif_info total_len small = (
    recv_frame-Settles (out_of_range 1 wpa_max_ssid_len) bad_text (λ w h. ground arith) u fifo d f,
    recv_frame-Settles (out_of_range 8 wpa_max_passwd_len) bad_text (λ w h. ground arith) u fifo d
        f,
    recv_frame-Settles (λ w. not (w == read16 netif_info)) (bad_info netif_info total_len)
        (λ w h. ground arith) u fifo d f,
  )
