-- ===== src/Esp/Queue/Clear.antt =====
-- `queue_clear` frees the whole list and leaves an empty queue.
use esp8266_hosted_linux.Base.{
  ℕ, zero, suc, ◌≤◌, ◌≡◌, refl, ◌∙◌, arith, true, Option, none, some, [], ◌∷◌, length, ne→==,
}
use esp8266_hosted_linux.Esp.Queue.{
  Ptr, null, Heap, QueueElement, write, Queue, ret, free_list, queue_clear, queue_destroy,
}
use esp8266_hosted_linux.Esp.Queue.Cells.{Cells, first, NotIn, Chain, Chain-write}
use esp8266_hosted_linux.Esp.Queue.Refine.{Holds, IsQueue}

-- No element of `xs` is left.
abbrev pub Freed : Heap → Cells → Type 0
Freed h [] = Unit
Freed h ((a, d) ∷ xs) = (h a ≡ none) × Freed h xs

free_list-null : (fuel : ℕ) (h : Heap) → free_list fuel h null ≡ some h
unfolding free_list
free_list-null zero h = refl
free_list-null (suc fuel) h = by_content (h null) refl
  where
    by_content : (o : Option QueueElement) → h null ≡ o → free_list (suc fuel) h null ≡ some h
    by_content none e = rw (e, free_list) refl
    by_content (some x) e = rw (e, free_list) refl

free_list-Freed :
    (fuel : ℕ) (h : Heap) (xs : Cells)
    → Chain h xs null
    → length xs ≤ fuel
    → (h' : Heap) × (free_list fuel h (first xs null) ≡ some h')
      × Freed h' xs
      × ((p : Ptr) → NotIn p xs → h' p ≡ h p)
unfolding free_list write
free_list-Freed zero h [] ch n = (h, refl, tt, λ p out. refl)
free_list-Freed (suc fuel) h [] ch n = (h, free_list-null (suc fuel) h, tt, λ p out. refl)
free_list-Freed zero h (x ∷ xs) ch n = absurd (omega arith)
free_list-Freed (suc fuel) h ((a, d) ∷ xs) ch n =
    let (h', e, gone, same) =
      free_list-Freed fuel (write h a none) xs (Chain-write h a none xs null ch.2 ch.3)
        (omega arith) in
    (
      h',
      rw (ch.1, ne→== a null ch.0, free_list) e,
      (same a ch.2 ∙ ground arith, gone),
      λ p out. same p out.1 ∙ ground arith,
    )

-- `queue_clear` on a queue of the elements `xs`, with the mutex taken and at least one round for each
-- element, returns an empty queue; the elements are freed, and no other address of the heap
-- is touched.
pub queue_clear-Freed :
    (fuel : ℕ) (q : Queue) (h : Heap) (xs : Cells)
    → IsQueue q h xs
    → length xs ≤ fuel
    → (q' : Queue) × (h' : Heap) × (queue_clear true fuel q h ≡ ret tt q' h')
      × Holds q' h' []
      × Freed h' xs
      × ((p : Ptr) → NotIn p xs → h' p ≡ h p)
unfolding queue_clear
queue_clear-Freed fuel q h xs v n =
    let (h', e, gone, same) = free_list-Freed fuel h xs v.chain n in
    let q' = record q { head = null; tail = null; current_total_length = 0 } in
    (
      q',
      h',
      rw (v.head, e) refl,
      (
        [],
        record {
          head = refl;
          tail = refl;
          chain = tt;
          sum = refl;
          limit = omega arith;
          max = v.max;
        },
        refl,
      ),
      gone,
      same,
    )

-- `queue_destroy` frees the elements too.
pub queue_destroy-Freed :
    (fuel : ℕ) (q : Queue) (h : Heap) (xs : Cells)
    → IsQueue q h xs
    → length xs ≤ fuel
    → (h' : Heap) × (queue_destroy true fuel q h ≡ some h')
      × Freed h' xs
      × ((p : Ptr) → NotIn p xs → h' p ≡ h p)
unfolding queue_destroy
queue_destroy-Freed fuel q h xs v n =
    let (q', h', e, _, gone, same) = queue_clear-Freed fuel q h xs v n in
    (h', rw (e, queue_destroy) refl, gone, same)
