-- ===== src/Esp/Queue/Refine.antt =====
-- The queue is a FIFO of packets whose lengths add up to at most the limit.
use esp8266_hosted_linux.Base.{
  ℕ, ◌+◌, ◌≤◌, ◌<◌, ◌≡◌, ◌≢◌, refl, ap, sym, subst, ◌∙◌, arith, Bool, true, false, none, some, List,
  [], ◌∷◌, ◌++◌, Bytes, length, take, ltb, ◌==◌, if◌then◌else◌, inl, inr, Bool-cases, eq→==, ne→==,
  not, false≢true, ltb→lt, ltb→ge, ◌&&◌, take-length, ge→ltb, lt→ltb,
}
use esp8266_hosted_linux.Esp.Queue.{
  Ptr, null, Heap, write, set_next, Queue, max_queue_length, Code, queue_ok, queue_full,
  queue_error, Run, ret, fault, queue_init, append_element, queue_enqueue, Taken, queue_dequeue,
}
use esp8266_hosted_linux.Esp.Queue.Cells.{
  Cells, packets, first, last, element, Chain, Chain-write, NotIn-none, Chain-set_next, Chain-snoc,
  last-snoc, packets-snoc, last-ne-null,
}

-- The sum of the packets' lengths.
abbrev pub total : List Bytes → ℕ
total [] = 0
total (d ∷ ds) = length d + total ds

total-snoc : (ds : List Bytes) (d : Bytes) → total (ds ++ (d ∷ [])) ≡ total ds + length d
total-snoc [] d = omega arith
total-snoc (e ∷ ds) d = omega (arith, total-snoc ds d)

-- The queue in the heap holds the elements `xs`.
pub record IsQueue (q : Queue) (h : Heap) (xs : Cells) : Type 0 where
  pub head : q.head ≡ first xs null
  pub tail : q.tail ≡ last xs
  pub chain : Chain h xs null
  pub sum : q.current_total_length ≡ total (packets xs)
  pub limit : q.current_total_length ≤ q.max_total_length
  pub max : q.max_total_length ≡ max_queue_length

-- It holds these packets, oldest first.
abbrev pub Holds : Queue → Heap → List Bytes → Type 0
Holds q h ds = (xs : Cells) × IsQueue q h xs × (packets xs ≡ ds)

pub init-Holds : (h : Heap) → Holds queue_init h []
unfolding queue_init
init-Holds h = ([], omega arith, refl)

-- A call that returns `a`, with a queue of `ds`.
abbrev pub Gives : {A : Type 0} → A → List Bytes → Run A → Type 0
Gives a ds (ret b q h) = (b ≡ a) × Holds q h ds
Gives a ds fault = ⊥

-- The abstract queue: a packet is put in whole, if the limit, the mutex and the memory allow it.
unfoldable pub push : (taken memory : Bool) → List Bytes → Bytes → Code × List Bytes
push taken memory ds d =
    if taken
    then if ltb max_queue_length (total ds + length d)
      then (queue_full, ds)
      else if memory
      then (queue_ok, ds ++ (d ∷ []))
      else (queue_error, ds)
    else (queue_error, ds)

unfoldable pub pop : (taken : Bool) → List Bytes → Taken × List Bytes
pop taken [] = (none, [])
pop taken (d ∷ ds) = if taken then (some (d, length d), ds) else (none, d ∷ ds)

module _ (q : Queue) (h : Heap) (fresh : Ptr) (d : Bytes) (ne : fresh ≢ null)
    (unused : h fresh ≡ none) (room : q.current_total_length + length d ≤ max_queue_length) where
  append-Gives :
      (xs : Cells)
      → IsQueue q h xs
      → Gives queue_ok (packets xs ++ (d ∷ [])) (append_element q h fresh d (length d))
  unfolding append_element
  append-Gives [] v =
      rw (eq→== q.tail null v.tail, Gives)
        (
          refl,
          (
            (fresh, d) ∷ [],
            record {
              head = refl;
              tail = refl;
              chain = (ne, ground arith, tt, tt);
              sum = omega (arith, v.sum);
              limit = omega (arith, v.max);
              max = v.max;
            },
            refl,
          ),
        )
  append-Gives (x ∷ xs) v =
      let h' = write h fresh (some (element d null)) in
      let out = NotIn-none h fresh (x ∷ xs) null unused v.chain in
      let (h'', s, ch, same) =
        Chain-set_next h' x.0 x.1 xs fresh (Chain-write h fresh _ (x ∷ xs) null out v.chain) in
      let some_tail : (q.tail == null) ≡ false =
        ne→== _ _ (λ e. last-ne-null h x xs null v.chain (sym v.tail ∙ e)) in
      let linked : set_next h' q.tail fresh ≡ some h'' = rw v.tail s in
      rw (some_tail, Gives)
        (rw (linked, Gives)
          (
            refl,
            (
              (x ∷ xs) ++ ((fresh, d) ∷ []),
              record {
                head = v.head;
                tail = sym (last-snoc (x ∷ xs) fresh d);
                chain = Chain-snoc h'' (x ∷ xs) fresh d ne (same fresh out ∙ ground arith) out ch;
                sum =
                    omega
                      (arith, v.sum, ap total (packets-snoc xs fresh d), total-snoc (packets xs) d);
                limit = omega (arith, v.max);
                max = v.max;
              },
              packets-snoc (x ∷ xs) fresh d,
            ),
          ))

-- What `push` does when the mutex is taken and there is room.
module _ (q : Queue) (h : Heap) (xs : Cells) (v : IsQueue q h xs) (fresh : Ptr) (d : Bytes)
    (unused : fresh ≢ null → h fresh ≡ none) (pos : 0 < length d)
    (room : ltb q.max_total_length (q.current_total_length + length d) ≡ false) where
  enqueue_room :
      (memory : Bool)
      → Gives
          (if not (fresh == null) && memory then queue_ok else queue_error)
          (if not (fresh == null) && memory then packets xs ++ (d ∷ []) else packets xs)
          (queue_enqueue true fresh memory q h (some d) (length d))
  unfolding queue_enqueue
  enqueue_room memory =
      rw (ne→== (length d) 0 (omega arith), room, Gives) (by_fresh (fresh == null) memory refl)
    where
      ne : (fresh == null) ≡ false → fresh ≢ null
      ne e z = false≢true (sym e ∙ eq→== fresh null z)

      by_fresh :
          (b m : Bool)
          → (fresh == null) ≡ b
          → Gives
              (if not b && m then queue_ok else queue_error)
              (if not b && m then packets xs ++ (d ∷ []) else packets xs)
              (if b
                then ret queue_error q h
                else if m
                then append_element q h fresh (take (length d) d) (length d)
                else ret queue_error q h)
      by_fresh true m e = (refl, (xs, v, refl))
      by_fresh false false e = (refl, (xs, v, refl))
      by_fresh false true e =
          subst
            (λ x. Gives queue_ok (packets xs ++ (d ∷ [])) (append_element q h fresh x (length d)))
            (sym (take-length d))
            (append-Gives q h fresh d (ne e) (unused (ne e))
              (omega
                (arith, v.max, ltb→ge q.max_total_length (q.current_total_length + length d) room))
              xs v)

push_room :
    (ds : List Bytes) (d : Bytes) (memory : Bool)
    → ltb max_queue_length (total ds + length d) ≡ false
    → push true memory ds d
      ≡ (if memory then queue_ok else queue_error, if memory then ds ++ (d ∷ []) else ds)
unfolding push
push_room ds d true e = rw e
push_room ds d false e = rw e

enqueue_cells :
    (q : Queue) (h : Heap) (xs : Cells) (taken : Bool) (fresh : Ptr) (memory : Bool) (d : Bytes)
    → IsQueue q h xs
    → 0 < length d
    → (fresh ≢ null → h fresh ≡ none)
    → Gives
        (push taken (not (fresh == null) && memory) (packets xs) d).0
        (push taken (not (fresh == null) && memory) (packets xs) d).1
        (queue_enqueue taken fresh memory q h (some d) (length d))
unfolding push queue_enqueue
enqueue_cells q h xs false fresh memory d v pos unused =
    rw (ne→== (length d) 0 (omega arith), Gives) (refl, (xs, v, refl))
enqueue_cells q h xs true fresh memory d v pos unused =
    elim (Bool-cases (ltb q.max_total_length (q.current_total_length + length d))) [
      | inl full ↦
          let full' : ltb max_queue_length (total (packets xs) + length d) ≡ true = lt→ltb _ _ (
            omega (
              arith,
              v.sum,
              v.max,
              ltb→lt q.max_total_length (q.current_total_length + length d) full,
            )) in
          rw (ne→== (length d) 0 (omega arith), full, full', Gives) (refl, (xs, v, refl))
      | inr room ↦
          let room' : ltb max_queue_length (total (packets xs) + length d) ≡ false = ge→ltb _ _ (
            omega (
              arith,
              v.sum,
              v.max,
              ltb→ge q.max_total_length (q.current_total_length + length d) room,
            )) in
          subst (λ r. Gives r.0 r.1 (queue_enqueue true fresh memory q h (some d) (length d)))
            (sym (push_room (packets xs) d (not (fresh == null) && memory) room'))
            (enqueue_room q h xs v fresh d unused pos room memory)
    ]

-- `queue_enqueue` of a packet on a queue that holds `ds` does what `push` does with `ds`: with an
-- unused address where there is memory for the element, it returns the code of `push` and a queue
-- that holds its list.
pub queue_enqueue-push :
    (q : Queue) (h : Heap) (ds : List Bytes) (taken : Bool) (fresh : Ptr) (memory : Bool)
    (d : Bytes)
    → Holds q h ds
    → 0 < length d
    → (fresh ≢ null → h fresh ≡ none)
    → Gives
        (push taken (not (fresh == null) && memory) ds d).0
        (push taken (not (fresh == null) && memory) ds d).1
        (queue_enqueue taken fresh memory q h (some d) (length d))
queue_enqueue-push q h ds taken fresh memory d (xs, v, e) pos unused =
    subst
      (λ ds.
        Gives (push taken (not (fresh == null) && memory) ds d).0
          (push taken (not (fresh == null) && memory) ds d).1
          (queue_enqueue taken fresh memory q h (some d) (length d)))
      e (enqueue_cells q h xs taken fresh memory d v pos unused)

-- The new tail is that of the rest.
tail_after :
    (h : Heap) (xs : Cells) (tail a : Ptr) (d : Bytes)
    → Chain h xs null
    → tail ≡ last ((a, d) ∷ xs)
    → (if first xs null == null then null else tail) ≡ last xs
tail_after h [] tail a d ch t = refl
tail_after h ((b, e) ∷ xs) tail a d ch t = rw (ne→== b null ch.0) t

dequeue_cells :
    (q : Queue) (h : Heap) (xs : Cells) (taken : Bool)
    → IsQueue q h xs
    → Gives (pop taken (packets xs)).0 (pop taken (packets xs)).1 (queue_dequeue taken q h)
unfolding pop queue_dequeue
dequeue_cells q h [] true v = rw (eq→== q.head null v.head, Gives) (refl, ([], v, refl))
dequeue_cells q h [] false v = (refl, ([], v, refl))
dequeue_cells q h (x ∷ xs) false v = (refl, (x ∷ xs, v, refl))
dequeue_cells q h ((a, d) ∷ xs) true v =
    rw (ne→== q.head null (λ e. v.chain.0 (sym v.head ∙ e)), v.head, v.chain.1, Gives)
      (
        refl,
        (
          xs,
          record {
            head = refl;
            tail = tail_after h xs q.tail a d v.chain.3 v.tail;
            chain =
                subst (λ p. Chain (write h p none) xs null) (sym v.head)
                  (Chain-write h a none xs null v.chain.2 v.chain.3);
            sum = omega (arith, v.sum, v.limit, v.max);
            limit = omega (arith, v.sum, v.limit, v.max);
            max = v.max;
          },
          refl,
        ),
      )

-- `queue_dequeue` on a queue that holds `ds` does what `pop` does with `ds`: the oldest packet comes
-- out whole with its length, and the rest stays, if there is one and the mutex is taken.
pub queue_dequeue-pop :
    (q : Queue) (h : Heap) (ds : List Bytes) (taken : Bool)
    → Holds q h ds
    → Gives (pop taken ds).0 (pop taken ds).1 (queue_dequeue taken q h)
queue_dequeue-pop q h ds taken (xs, v, e) =
    subst (λ ds. Gives (pop taken ds).0 (pop taken ds).1 (queue_dequeue taken q h)) e
      (dequeue_cells q h xs taken v)
