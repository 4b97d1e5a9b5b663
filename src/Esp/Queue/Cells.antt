-- ===== src/Esp/Queue/Cells.antt =====
-- The linked list on the heap, as the list of its elements' addresses and packets.
use esp8266_hosted_linux.Base.{
  ◌≡◌, ◌≢◌, refl, ap, ◌∙◌, sym, arith, Option, none, some, List, [], ◌∷◌, ◌++◌, Bytes, length,
}
use esp8266_hosted_linux.Esp.Queue.{Ptr, null, QueueElement, Heap, write, set_next}

abbrev pub Cells : Type 0
Cells = List (Ptr × Bytes)

abbrev pub packets : Cells → List Bytes
packets [] = []
packets ((a, d) ∷ xs) = d ∷ packets xs

-- The address that a pointer to the front of `xs` holds, and to the last element.
abbrev pub first : Cells → Ptr → Ptr
first [] stop = stop
first ((a, d) ∷ xs) stop = a

abbrev pub last : Cells → Ptr
last [] = null
last ((a, d) ∷ []) = a
last (x ∷ y ∷ xs) = last (y ∷ xs)

abbrev pub NotIn : Ptr → Cells → Type 0
NotIn p [] = Unit
NotIn p ((a, d) ∷ xs) = (p ≢ a) × NotIn p xs

abbrev pub element : Bytes → Ptr → QueueElement
element d next = record { block = d; len = length d; next = next }

-- The elements of `xs` are linked in order, at different addresses, and the last points to `stop`.
abbrev pub Chain : Heap → Cells → Ptr → Type 0
Chain h [] stop = Unit
Chain h ((a, d) ∷ xs) stop =
    (a ≢ null) × (h a ≡ some (element d (first xs stop))) × NotIn a xs × Chain h xs stop

-- Writing outside leaves a chain as it is.
pub Chain-write :
    (h : Heap) (p : Ptr) (c : Option QueueElement) (xs : Cells) (stop : Ptr)
    → NotIn p xs
    → Chain h xs stop
    → Chain (write h p c) xs stop
unfolding write
Chain-write h p c [] stop out ch = tt
Chain-write h p c ((a, d) ∷ xs) stop out ch =
    (ch.0, ground arith, ch.2, Chain-write h p c xs stop out.1 ch.3)

-- Free memory is outside.
pub NotIn-none :
    (h : Heap) (p : Ptr) (xs : Cells) (stop : Ptr) → h p ≡ none → Chain h xs stop → NotIn p xs
NotIn-none h p [] stop e ch = tt
NotIn-none h p ((a, d) ∷ xs) stop e ch = (ground arith, NotIn-none h p xs stop e ch.3)

-- `tail->next = q` makes the chain end at `q`, and touches nothing outside it.
pub Chain-set_next :
    (h : Heap) (a : Ptr) (d : Bytes) (xs : Cells) (q : Ptr)
    → Chain h ((a, d) ∷ xs) null
    → (h' : Heap) × (set_next h (last ((a, d) ∷ xs)) q ≡ some h')
      × Chain h' ((a, d) ∷ xs) q
      × ((p : Ptr) → NotIn p ((a, d) ∷ xs) → h' p ≡ h p)
unfolding set_next write
Chain-set_next h a d [] q ch = (
  write h a (some (element d q)),
  ground arith,
  (ch.0, ground arith, tt, tt),
  λ p out. ground arith,
)
Chain-set_next h a d ((b, e) ∷ xs) q ch =
    let (h', s, c, same) = Chain-set_next h b e xs q ch.3 in
    (h', s, (ch.0, same a ch.2 ∙ ch.1, ch.2, c), λ p out. same p out.1)

NotIn-snoc :
    (p : Ptr) (xs : Cells) (a : Ptr) (d : Bytes)
    → NotIn p xs
    → p ≢ a
    → NotIn p (xs ++ ((a, d) ∷ []))
NotIn-snoc p [] a d out ne = (ne, tt)
NotIn-snoc p ((b, e) ∷ xs) a d out ne = (out.0, NotIn-snoc p xs a d out.1 ne)

-- A chain that ends at an element with no successor is longer by that element.
pub Chain-snoc :
    (h : Heap) (xs : Cells) (a : Ptr) (d : Bytes)
    → a ≢ null
    → h a ≡ some (element d null)
    → NotIn a xs
    → Chain h xs a
    → Chain h (xs ++ ((a, d) ∷ [])) null
Chain-snoc h [] a d ne e out ch = (ne, e, tt, tt)
Chain-snoc h ((b, f) ∷ []) a d ne e out ch =
    (ch.0, ch.1, ((λ p. out.0 (sym p)), tt), Chain-snoc h [] a d ne e tt tt)
Chain-snoc h ((b, f) ∷ (c, g) ∷ xs) a d ne e out ch = (
  ch.0,
  ch.1,
  NotIn-snoc b ((c, g) ∷ xs) a d ch.2 (λ p. out.0 (sym p)),
  Chain-snoc h ((c, g) ∷ xs) a d ne e out.1 ch.3,
)

pub last-snoc : (xs : Cells) (a : Ptr) (d : Bytes) → last (xs ++ ((a, d) ∷ [])) ≡ a
last-snoc [] a d = refl
last-snoc ((b, e) ∷ []) a d = refl
last-snoc ((b, e) ∷ (c, f) ∷ xs) a d = last-snoc ((c, f) ∷ xs) a d

pub first-snoc :
    (x : Ptr × Bytes) (xs : Cells) (a : Ptr) (d : Bytes)
    → first ((x ∷ xs) ++ ((a, d) ∷ [])) null ≡ x.0
first-snoc x xs a d = refl

pub packets-snoc :
    (xs : Cells) (a : Ptr) (d : Bytes) → packets (xs ++ ((a, d) ∷ [])) ≡ packets xs ++ (d ∷ [])
packets-snoc [] a d = refl
packets-snoc ((b, e) ∷ xs) a d = ap (◌∷◌ e) (packets-snoc xs a d)

pub last-ne-null :
    (h : Heap) (x : Ptr × Bytes) (xs : Cells) (stop : Ptr)
    → Chain h (x ∷ xs) stop
    → last (x ∷ xs) ≢ null
last-ne-null h x [] stop ch = ch.0
last-ne-null h x (y ∷ xs) stop ch = last-ne-null h y xs stop ch.3
