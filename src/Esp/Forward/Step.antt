-- ===== src/Esp/Forward/Step.antt =====
-- `uart2wifi` on a stream of good frames: one round of the `restart:` loop.
use esp8266_hosted_linux.Base.{
  ℕ, suc, ◌+◌, ◌≤◌, ◌<◌, ◌≡◌, ◌⊎◌, refl, sym, subst, ap, ◌∙◌, arith, inl, inr, Bool, true, false,
  ◌&&◌, Option, none, some, List, [], ◌∷◌, ◌++◌, Bytes, length, take, drop, get_or, ltb, Bool-cases,
  length-append, take-append, append_assoc, concat, if◌then◌else◌, ltb→lt, ltb→ge, eq→==, ge→ltb,
}
use esp8266_hosted_linux.Frame.{
  Status, status_len, status_data, status_split, split_data, mtu_len, max_frame_len, read16,
  out_of_range, frame, frames, IsPacket, ArePackets,
}
use esp8266_hosted_linux.Frame.Parse.{
  length-frame, take-drop-frame, drop-frame, read16-frame, frame_complete, get_or-frame,
}
use esp8266_hosted_linux.Esp.Uart.{uart0_recv_data, FitsFifo, buffer_len}
use esp8266_hosted_linux.Esp.Forward.{
  Wifi, set_uart, Round, again, leave, read, emit, forward, step_data, step_len, step,
}

abbrev pub Place : Status → ℕ → List Bytes → Type 0
Place status_len w ps = Unit
Place status_data w [] = ⊥
Place status_data w (p ∷ _) = w ≡ length p
Place status_split w ps = ⊥

-- What waits in `send_pbuf` is the next packet.
abbrev pub Kept : Option Bytes → List Bytes → Type 0
Kept none ps = Unit
Kept (some q) [] = ⊥
Kept (some q) (p ∷ _) = q ≡ p

-- Of the packets `total` all but `ps` are sent; the buffer, the chunks and `more`, which comes later,
-- make up the frames of `ps`.
pub record OnWire (total : List Bytes) (more : Bytes) (s : Wifi) (fifo ps : List Bytes)
    : Type 0 where
  pub valid : ArePackets ps
  pub packets : s.sent ++ ps ≡ total
  pub bytes : s.buf ++ (concat fifo ++ more) ≡ frames split_data ps
  pub place : Place s.status s.data_len ps
  pub kept : Kept s.send_pbuf ps

-- No chunk is empty: the FIFO holds bytes whenever it is read.
abbrev pub NoGap : List Bytes → Type 0
NoGap [] = Unit
NoGap ([] ∷ cs) = ⊥
NoGap ((x ∷ c) ∷ cs) = NoGap cs

out_of_range-IsPacket : (p : Bytes) → IsPacket p → out_of_range 20 mtu_len (length p) ≡ false
out_of_range-IsPacket p h = ground arith

-- A byte of the stream belongs to a packet.
ne_nil_of_bytes :
    (buf rest : Bytes) (ps : List Bytes)
    → buf ++ rest ≡ frames split_data ps
    → 0 < length buf
    → (p : Bytes) × (qs : List Bytes) × (ps ≡ p ∷ qs)
unfolding frames
ne_nil_of_bytes buf rest [] e h = absurd (omega (arith, ap length e, length-append buf rest))
ne_nil_of_bytes buf rest (p ∷ qs) e h = (p, qs, refl)

-- Too few bytes for the first frame: then more is to come.
short_of_frames :
    (buf : Bytes) (ps : List Bytes) (n : ℕ)
    → buf ++ [] ≡ frames split_data ps
    → length buf < n
    → ((p : Bytes) (qs : List Bytes) → ps ≡ p ∷ qs → n ≤ length p + 3)
    → ps ≡ []
unfolding frames
short_of_frames buf [] n e h k = refl
short_of_frames buf (p ∷ qs) n e h k = absurd (
    omega (
      arith,
      k p qs refl,
      ap length e,
      length-append buf [],
      length-append (frame split_data p) (frames split_data qs),
      length-frame split_data p,
    ))

-- Two splits of one list, where the second part is shorter by one.
pub one_more :
    (a b rest : List Bytes) (p : Bytes) (qs : List Bytes)
    → a ++ rest ≡ b ++ (p ∷ qs)
    → length rest ≡ length qs
    → a ≡ b ++ (p ∷ [])
one_more a b rest p qs e n =
    let split : a ++ rest ≡ (b ++ (p ∷ [])) ++ qs = e ∙ sym (append_assoc b (p ∷ []) qs) in
    let m : length a ≡ length (b ++ (p ∷ [])) =
      omega (arith, ap length split, length-append a rest, length-append (b ++ (p ∷ [])) qs) in
    sym (take-append a rest (length a) refl)
    ∙ ap (take (length a)) split
    ∙ take-append (b ++ (p ∷ [])) qs (length a) m

module _ (alloc output : Bool) (total : List Bytes) (more : Bytes) where
  -- A call that must send: it has the answers and all the bytes.
  abbrev pub Sends : List Bytes → List Bytes → List Bytes → Type 0
  Sends fifo ps ps' =
      (alloc && output) ≡ true → NoGap fifo → more ≡ [] → ps ≡ [] ⊎ (length ps ≡ suc (length ps'))

  abbrev pub NextOn : List Bytes → List Bytes → Round → Type 0
  NextOn fifo ps (again s fifo') = OnWire total more s fifo' ps × (NoGap fifo → NoGap fifo')
  NextOn fifo ps (leave s fifo') =
      (ps' : List Bytes) × OnWire total more s fifo' ps' × Sends fifo ps ps'
  NextOn fifo ps _ = ⊥

  read-On :
      (s : Wifi) (fifo ps : List Bytes) (n : ℕ)
      → OnWire total more s fifo ps
      → FitsFifo fifo
      → length s.buf < n
      → n ≤ max_frame_len
      → ((p : Bytes) (qs : List Bytes) → ps ≡ p ∷ qs → n ≤ length p + 3)
      → NextOn fifo ps (read s fifo)
  unfolding read uart0_recv_data
  read-On s [] ps n on f short small k = (
    ps,
    on,
    λ _ _ e. inl (short_of_frames s.buf ps n (ap (λ x. s.buf ++ x) (sym e) ∙ on.bytes) short k),
  )
  read-On s ([] ∷ cs) ps n on f short small k = (
    ps,
    record {
      valid = on.valid;
      packets = on.packets;
      bytes = on.bytes;
      place = on.place;
      kept = on.kept;
    },
    λ _ g _. absurd g,
  )
  read-On s ((x ∷ c) ∷ cs) ps n on f short small k =
      rw (ge→ltb buffer_len (length s.buf + length (x ∷ c)) (omega (arith, f.0)), NextOn)
        (
          record {
            valid = on.valid;
            packets = on.packets;
            bytes =
                append_assoc s.buf (x ∷ c) (concat cs ++ more)
                ∙ ap (λ y. s.buf ++ y) (sym (append_assoc (x ∷ c) (concat cs) more))
                ∙ on.bytes;
            place = on.place;
            kept = on.kept;
          },
          λ g. g,
        )

  -- What a call leaves, once the frame of `p` lies whole at the front of the buffer.
  abbrev Left : List Bytes → List Bytes → Wifi → Type 0
  Left fifo ps s = (ps' : List Bytes) × OnWire total more s fifo ps' × Sends fifo ps ps'

  module _ (s : Wifi) (fifo : List Bytes) (p : Bytes) (ps : List Bytes) (r : Bytes)
      (on : OnWire total more s fifo (p ∷ ps)) (st : s.status ≡ status_data)
      (w : s.data_len ≡ length p) (whole : s.buf ≡ frame split_data p ++ r)
      (rest : frames split_data ps ≡ r ++ (concat fifo ++ more)) where
    emit-On :
        (q : Bytes) (out : Bool) → output ≡ out → q ≡ p → Left fifo (p ∷ ps) (emit alloc out s q)
    unfolding emit
    emit-On q true o e = (
      ps,
      record {
        valid = on.valid.1;
        packets =
            ap (λ x. (s.sent ++ (x ∷ [])) ++ ps) e ∙ append_assoc s.sent (p ∷ []) ps ∙ on.packets;
        bytes = rw (whole, w, drop-frame split_data p r) (sym rest);
        place = tt;
        kept = tt;
      },
      λ _ _ _. inr refl,
    )
    emit-On q false o e = (
      p ∷ ps,
      record {
        valid = on.valid;
        packets = on.packets;
        bytes = on.bytes;
        place = on.place;
        kept = e;
      },
      λ both _ _. absurd (neither alloc output o both),
    )
      where
        neither : (a b : Bool) → b ≡ false → (a && b) ≡ true → ⊥
        neither a b e f = ground arith

    forward-On :
        (o : Option Bytes) (al : Bool)
        → s.send_pbuf ≡ o
        → alloc ≡ al
        → Kept o (p ∷ ps)
        → Left fifo (p ∷ ps) (elim o [
          | some q ↦ emit alloc output s q
          | none ↦ if al then emit alloc output s (take s.data_len (drop 2 s.buf)) else s
        ])
    forward-On (some q) al e a k = emit-On q output refl k
    forward-On none true e a k =
        emit-On _ output refl (rw (whole, w) (take-drop-frame split_data p r))
    forward-On none false e a k = (p ∷ ps, on, λ both _ _. absurd (neither alloc output a both))
      where
        neither : (a b : Bool) → a ≡ false → (a && b) ≡ true → ⊥
        neither a b e f = ground arith

  data-On :
      (s : Wifi) (fifo : List Bytes) (p : Bytes) (ps : List Bytes)
      → OnWire total more s fifo (p ∷ ps)
      → s.status ≡ status_data
      → s.data_len ≡ length p
      → FitsFifo fifo
      → NextOn fifo (p ∷ ps) (step_data alloc output s fifo)
  unfolding step_data forward frames
  data-On s fifo p ps on st w f = elim (Bool-cases (ltb (length s.buf) (s.data_len + 3))) [
    | inl e ↦
        rw (e, NextOn)
          (read-On s fifo (p ∷ ps) (s.data_len + 3) on f (ltb→lt (length s.buf) (s.data_len + 3) e)
            (omega (arith, w, on.valid.0.1))
            (λ p' qs e'. let c : p ≡ p' = cc in omega (arith, w, ap length c)))
    | inr e ↦
        let (r, whole, rest) =
          frame_complete split_data p s.buf _ _ on.bytes
            (omega (arith, w, ltb→ge (length s.buf) (s.data_len + 3) e)) in
        let hit : get_or s.buf (s.data_len + 2) 0 ≡ split_data =
          rw (whole, w) (get_or-frame split_data p r) in
        rw (e, eq→== _ _ hit, NextOn)
          (forward-On s fifo p ps r on st w whole rest s.send_pbuf alloc refl refl on.kept)
  ]

  header-On :
      (s : Wifi) (fifo : List Bytes) (p : Bytes) (ps : List Bytes)
      → OnWire total more s fifo (p ∷ ps)
      → 2 ≤ length s.buf
      → FitsFifo fifo
      → NextOn fifo (p ∷ ps) (
          if out_of_range 20 mtu_len (read16 s.buf)
          then again
              (set_uart s (record (s.uart) { data_len = read16 s.buf; status = status_split }))
              fifo
          else step_data alloc output
              (set_uart s (record (s.uart) { data_len = read16 s.buf; status = status_data }))
              fifo)
  unfolding frames
  header-On s fifo p ps on two f =
      let w = read16-frame split_data p s.buf _ _ on.bytes two on.valid.0.1 in
      let good : out_of_range 20 mtu_len (read16 s.buf) ≡ false =
        rw w (out_of_range-IsPacket p on.valid.0) in
      rw (good, NextOn)
        (data-On (set_uart s (record (s.uart) { data_len = read16 s.buf; status = status_data }))
          fifo p ps
          (record {
            valid = on.valid;
            packets = on.packets;
            bytes = on.bytes;
            place = w;
            kept = on.kept;
          })
          refl w f)

  len-On :
      (s : Wifi) (fifo ps : List Bytes)
      → OnWire total more s fifo ps
      → FitsFifo fifo
      → NextOn fifo ps (step_len alloc output s fifo)
  unfolding step_len
  len-On s fifo ps on f = elim (Bool-cases (ltb (length s.buf) 2)) [
    | inl e ↦
        rw (e, NextOn)
          (read-On s fifo ps 2 on f (ltb→lt (length s.buf) 2 e) (omega arith)
            (λ p qs _. omega arith))
    | inr e ↦
        let two = ltb→ge (length s.buf) 2 e in
        let (p, qs, q) = ne_nil_of_bytes s.buf _ ps on.bytes (omega arith) in
        subst (λ x. NextOn fifo x (step_len alloc output s fifo)) (sym q)
          (rw (e, NextOn) (header-On s fifo p qs (subst (OnWire total more s fifo) q on) two f))
  ]

  pub step-On :
      (t : Status) (s : Wifi) (fifo ps : List Bytes)
      → OnWire total more s fifo ps
      → s.status ≡ t
      → FitsFifo fifo
      → NextOn fifo ps (step alloc output t s fifo)
  unfolding step
  step-On status_len s fifo ps on st f = len-On s fifo ps on f
  step-On status_data s fifo [] on st f = absurd (subst (λ t. Place t s.data_len []) st on.place)
  step-On status_data s fifo (p ∷ ps) on st f =
      data-On s fifo p ps on st (subst (λ t. Place t s.data_len (p ∷ ps)) st on.place) f
  step-On status_split s fifo ps on st f = absurd (subst (λ t. Place t s.data_len ps) st on.place)
