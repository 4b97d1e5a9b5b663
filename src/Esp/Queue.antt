-- ===== src/Esp/Queue.antt =====
-- The thread safe queue of uart_wifi_passthrough/main/wifi2uart.c: a singly linked list of packets on
-- the heap, with a limit on the sum of their lengths.
--
-- A `QueueElement` stands at its address; the block that its `data` points to is owned by it alone,
-- and is the field's value here. What the kernel answers comes as arguments: whether the mutex is
-- taken, the address of a new element (`null` if there is no memory), and whether there is a block
-- for the data. Every path gives the mutex back before it returns.
pub mod Cells
pub mod Clear
pub mod Refine
use esp8266_hosted_linux.Base.{
  ℕ, zero, suc, ◌+◌, ◌-◌, ◌*◌, ◌%◌, ◌^◌, Bool, true, false, ◌||◌, Option, none, some, List, [], ◌∷◌,
  Bytes, take, ltb, ◌==◌, if◌then◌else◌,
}

abbrev pub Ptr : Type 0
Ptr = ℕ

abbrev pub null : Ptr
null = 0

pub record QueueElement : Type 0 where
  pub block : Bytes
  pub len : ℕ
  pub next : Ptr

abbrev pub Heap : Type 0
Heap = Ptr → Option QueueElement

-- The heap with a new content at one address; `none` is free memory.
unfoldable pub write : Heap → Ptr → Option QueueElement → Heap
write h p c a = if a == p then c else h a

-- `ThreadSafeQueue` but for its mutex
pub record Queue : Type 0 where
  pub head : Ptr
  pub tail : Ptr
  pub max_total_length : ℕ
  pub current_total_length : ℕ

abbrev pub max_queue_length : ℕ
max_queue_length = 1024 * 32

pub data Code : Type 0 where
  queue_ok queue_full queue_error : Code

-- A call returns a code and the new queue and heap, or it reads where no element is.
pub data Run (A : Type 0) : Type 0 where
  ret : A → Queue → Heap → Run A
  fault : Run A

-- What `queue_init` leaves when there is memory for the queue and its mutex.
unfoldable pub queue_init : Queue
queue_init = record {
  head = null;
  tail = null;
  max_total_length = max_queue_length % 2 ^ 16;
  current_total_length = 0;
}

-- `queue->tail->next = q`
unfoldable pub set_next : Heap → Ptr → Ptr → Option Heap
set_next h p q = elim (h p) [
  | none ↦ none
  | some e ↦ some (write h p (some (record e { next = q })))
]

-- The new element goes behind the tail; the sum is a uint16_t.
unfoldable pub append_element : Queue → Heap → Ptr → Bytes → ℕ → Run Code
unfolding write set_next
append_element q h fresh block len =
    let h' = write h fresh (some (record { block = block; len = len; next = null })) in
    let total = (q.current_total_length + len) % 2 ^ 16 in
    if q.tail == null
    then ret queue_ok (record q { head = fresh; tail = fresh; current_total_length = total }) h'
    else elim (set_next h' q.tail fresh) [
      | none ↦ fault
      | some h'' ↦ ret queue_ok (record q { tail = fresh; current_total_length = total }) h''
    ]

-- `buf` is `none` for a NULL pointer.
unfoldable pub queue_enqueue :
    (taken : Bool) (fresh : Ptr) (memory : Bool) → Queue → Heap → Option Bytes → ℕ → Run Code
unfolding append_element
queue_enqueue taken fresh memory q h none len = ret queue_error q h
queue_enqueue taken fresh memory q h (some buf) len =
    if len == 0
    then ret queue_error q h
    else if taken
    then if ltb q.max_total_length (q.current_total_length + len)
      then ret queue_full q h
      else if fresh == null
      then ret queue_error q h
      else if memory
      then append_element q h fresh (take len buf) len
      else ret queue_error q h
    else ret queue_error q h

-- What `queue_dequeue` stores through `data` and `length`, if it returns QUEUE_OK.
abbrev pub Taken : Type 0
Taken = Option (Bytes × ℕ)

-- Unlinks the element at the head: `h` is read there, and the element is freed.
unfoldable pub remove_head : Queue → Heap → Option QueueElement → Run Taken
unfolding write
remove_head q h none = fault
remove_head q h (some e) =
    ret (some (e.block, e.len))
      (record q {
        head = e.next;
        tail = if e.next == null then null else q.tail;
        current_total_length = (q.current_total_length + 2 ^ 16 - e.len) % 2 ^ 16;
      })
      (write h q.head none)

-- `none` stands for QUEUE_ERROR.
unfoldable pub queue_dequeue : (taken : Bool) → Queue → Heap → Run Taken
unfolding remove_head
queue_dequeue taken q h =
    if taken
    then if q.head == null then ret none q h else remove_head q h (h q.head)
    else ret none q h

-- The loop of `queue_clear`: the elements from `p` on are freed, each after its `next` is read. `fuel` is
-- the number of rounds; `none` where a round reads where no element is, or none is left.
unfoldable pub free_list : ℕ → Heap → Ptr → Option Heap
unfolding write
free_list zero h p = if p == null then some h else none
free_list (suc fuel) h p = elim (h p) [
  | none ↦ if p == null then some h else none
  | some e ↦ let rest = free_list fuel (write h p none) e.next in if p == null then some h else rest
]

-- What `queue_clear` returns: nothing.
unfoldable pub queue_clear : (taken : Bool) (fuel : ℕ) → Queue → Heap → Run Unit
unfolding free_list
queue_clear taken fuel q h =
    if taken
    then elim (free_list fuel h q.head) [
      | none ↦ fault
      | some h' ↦ ret tt (record q { head = null; tail = null; current_total_length = 0 }) h'
    ]
    else ret tt q h

-- `queue_destroy` leaves no queue: what it has freed is gone from the heap, and the queue and its mutex
-- are given back. `none` where `queue_clear` reads where no element is.
unfoldable pub queue_destroy : (taken : Bool) (fuel : ℕ) → Queue → Heap → Option Heap
unfolding queue_clear
queue_destroy taken fuel q h = elim (queue_clear taken fuel q h) [
  | ret _ _ h' ↦ some h'
  | fault ↦ none
]
