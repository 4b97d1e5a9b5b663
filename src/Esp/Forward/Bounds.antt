-- ===== src/Esp/Forward/Bounds.antt =====
-- `uart2wifi` writes inside its buffer and returns.
use esp8266_hosted_linux.Base.{
  ℕ, zero, suc, ◌+◌, ◌*◌, ◌≤◌, ◌<◌, ◌≡◌, refl, arith, inl, inr, Bool, List, [], ◌∷◌, ◌++◌, Bytes,
  length, Option-cases, length-append, length-drop,
}
use esp8266_hosted_linux.Frame.{
  Status, status_len, status_data, status_split, split_data, mtu_len, read16, skip_past,
}
use esp8266_hosted_linux.Frame.Parse.{skip_past_bounds}
use esp8266_hosted_linux.Esp.Uart.{uart0_recv_data, relocate, FitsFifo, uart_fifo_len, buffer_len}
use esp8266_hosted_linux.Esp.Forward.{
  Wifi, set_uart, Round, again, leave, overflow, no_fuel, read, next_bytes, emit, forward,
  step_data, step_len, seek, step_split, step, run, uart2wifi,
}

-- In STATUS_DATA the length has passed the check of STATUS_LEN.
abbrev pub DataLen : Status → ℕ → Type 0
DataLen status_data w = w ≤ mtu_len
DataLen _ w = Unit

abbrev pub weight : Status → ℕ
weight status_split = 0
weight _ = 1

pub weight_le_one : (t : Status) → weight t ≤ 1
weight_le_one status_split = omega arith
weight_le_one _ = omega arith

abbrev pub measure : Wifi → List Bytes → ℕ
measure s fifo = 2 * (next_bytes fifo + length s.buf) + weight s.status

-- A round goes on with less to do, or returns; it does not write behind the buffer.
abbrev pub StepOk : ℕ → Round → Type 0
StepOk before (again s fifo) =
    DataLen s.status s.data_len × FitsFifo fifo × (measure s fifo < before)
StepOk before (leave s fifo) = DataLen s.status s.data_len × FitsFifo fifo
StepOk before _ = ⊥

read-StepOk :
    (s : Wifi) (fifo : List Bytes) (before : ℕ)
    → DataLen s.status s.data_len
    → FitsFifo fifo
    → length s.buf + uart_fifo_len ≤ buffer_len
    → measure s fifo ≤ before
    → StepOk before (read s fifo)
unfolding read uart0_recv_data
read-StepOk s [] before d f room h = (d, tt)
read-StepOk s ([] ∷ cs) before d f room h = (d, f.1)
read-StepOk s ((x ∷ c) ∷ cs) before d f room h = ground (arith, length-append s.buf (x ∷ c))

seek-StepOk :
    (s : Wifi) (fifo : List Bytes) (before : ℕ)
    → s.status ≡ status_split
    → FitsFifo fifo
    → 2 * (next_bytes fifo + length s.buf) ≤ before
    → StepOk before (seek s fifo)
unfolding seek relocate
seek-StepOk s fifo before st f h = elim (Option-cases (skip_past split_data s.buf)) [
  | inl e ↦ ground arith
  | inr (k, e) ↦ ground (arith, skip_past_bounds split_data s.buf k e, length-drop k s.buf)
]

-- A call returns.
abbrev pub Returns : Round → Type 0
Returns (leave s fifo) = DataLen s.status s.data_len × FitsFifo fifo
Returns _ = ⊥

module _ (alloc output : Bool) where
  forward-DataLen :
      (s : Wifi)
      → DataLen s.status s.data_len
      → DataLen (forward alloc output s).status (forward alloc output s).data_len
  unfolding forward emit
  forward-DataLen s d = ground arith

  data-StepOk :
      (s : Wifi) (fifo : List Bytes) (before : ℕ)
      → s.status ≡ status_data
      → DataLen s.status s.data_len
      → FitsFifo fifo
      → measure s fifo ≤ before
      → StepOk before (step_data alloc output s fifo)
  unfolding step_data
  data-StepOk s fifo before st d f h =
      ground (arith, read-StepOk s fifo before d f, forward-DataLen s d)

  len-StepOk :
      (s : Wifi) (fifo : List Bytes)
      → s.status ≡ status_len
      → FitsFifo fifo
      → StepOk (measure s fifo) (step_len alloc output s fifo)
  unfolding step_len
  len-StepOk s fifo st f = ground (
    arith,
    read-StepOk s fifo (measure s fifo),
    data-StepOk (set_uart s (record (s.uart) { data_len = read16 s.buf; status = status_data }))
        fifo (measure s fifo),
  )

  split-StepOk :
      (s : Wifi) (fifo : List Bytes)
      → s.status ≡ status_split
      → FitsFifo fifo
      → StepOk (measure s fifo) (step_split alloc output s fifo)
  unfolding step_split read uart0_recv_data
  split-StepOk s [] st f = ground (arith, seek-StepOk s [] (measure s []) st tt)
  split-StepOk s ([] ∷ cs) st f = ground (arith, seek-StepOk s ([] ∷ cs) (measure s ([] ∷ cs)) st f)
  split-StepOk s ((x ∷ c) ∷ cs) st f = ground (
    arith,
    seek-StepOk s ((x ∷ c) ∷ cs) (measure s ((x ∷ c) ∷ cs)) st f,
    seek-StepOk (set_uart s (record (s.uart) { buf = s.buf ++ (x ∷ c) })) cs
        (measure s ((x ∷ c) ∷ cs)) st f.1,
    length-append s.buf (x ∷ c),
  )

  pub step-StepOk :
      (t : Status) (s : Wifi) (fifo : List Bytes)
      → s.status ≡ t
      → DataLen s.status s.data_len
      → FitsFifo fifo
      → StepOk (measure s fifo) (step alloc output t s fifo)
  unfolding step
  step-StepOk status_len s fifo st d f = len-StepOk s fifo st f
  step-StepOk status_data s fifo st d f = data-StepOk s fifo (measure s fifo) st d f (omega arith)
  step-StepOk status_split s fifo st d f = split-StepOk s fifo st f

  next-Returns :
      (fuel : ℕ) (s : Wifi) (fifo : List Bytes) (r : Round)
      → step alloc output s.status s fifo ≡ r
      → StepOk (measure s fifo) r
      → ((s' : Wifi) (fifo' : List Bytes)
          → DataLen s'.status s'.data_len
          → FitsFifo fifo'
          → measure s' fifo' < measure s fifo
          → Returns (run alloc output fuel s' fifo'))
      → Returns (run alloc output (suc fuel) s fifo)
  unfolding run
  next-Returns fuel s fifo (again s' fifo') e ok next =
      rw (e, Returns) (next s' fifo' ok.0 ok.1 ok.2)
  next-Returns fuel s fifo (leave s' fifo') e ok next = rw (e, Returns) ok
  next-Returns fuel s fifo overflow e ok next = absurd ok
  next-Returns fuel s fifo no_fuel e ok next = absurd ok

  run-Returns :
      (fuel : ℕ) (s : Wifi) (fifo : List Bytes)
      → DataLen s.status s.data_len
      → FitsFifo fifo
      → measure s fifo < fuel
      → Returns (run alloc output fuel s fifo)
  run-Returns zero s fifo d f h = absurd (omega arith)
  run-Returns (suc fuel) s fifo d f h =
      next-Returns fuel s fifo _ refl (step-StepOk s.status s fifo refl d f)
        (λ s' fifo' d' f' lt. run-Returns fuel s' fifo' d' f' (omega arith))

  -- Whatever bytes come, if at most `uart_fifo_len` lie in the FIFO at a time and the length is in
  -- range if one has been read, a call of `uart2wifi` returns, and writes nothing behind its buffer;
  -- both conditions hold again for the next call.
  pub uart2wifi-Returns :
      (s : Wifi) (fifo : List Bytes)
      → DataLen s.status s.data_len
      → FitsFifo fifo
      → Returns (uart2wifi alloc output s fifo)
  unfolding uart2wifi
  uart2wifi-Returns s fifo d f = run-Returns _ s fifo d f (omega (arith, weight_le_one s.status))
