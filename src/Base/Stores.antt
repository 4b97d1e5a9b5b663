-- ===== src/Base/Stores.antt =====
-- Stores to an array, as lists.
use esp8266_hosted_linux.Base.Lists.{
  Bytes, length, take, drop, length-append, length-take, length-drop, take-append, take-append-drop,
  drop-append,
}
use Prim.Native.Nat.{ℕ, ◌+◌, ◌≤◌}
use mathlib.Core.Path.{◌≡◌, sym, ap, ap₂, ◌∙◌}
use mathlib.Core.List.{◌++◌, append_assoc}
use native.Mathlib.Omega.{arith}

-- `memcpy(buffer + off, bytes, …)`, for bytes that fit.
unfoldable pub poke : ℕ → Bytes → Bytes → Bytes
poke off bytes buffer = take off buffer ++ (bytes ++ drop (off + length bytes) buffer)

pub length-poke :
    (off : ℕ) (b buffer : Bytes)
    → off + length b ≤ length buffer
    → length (poke off b buffer) ≡ length buffer
unfolding poke
length-poke off b buffer h = omega (
  arith,
  length-append (take off buffer) (b ++ drop (off + length b) buffer),
  length-append b (drop (off + length b) buffer),
  length-take off buffer,
  length-drop (off + length b) buffer,
)

-- A part of the array is replaced by bytes of the same number.
pub poke-append :
    (n : ℕ) (a x c b : Bytes)
    → n ≡ length a
    → length b ≡ length x
    → poke n b (a ++ (x ++ c)) ≡ a ++ (b ++ c)
unfolding poke
poke-append n a x c b e same =
    ap₂ (λ u v. u ++ (b ++ v)) (take-append a (x ++ c) n e)
      (ap (drop (n + length b)) (sym (append_assoc a x c))
        ∙ drop-append (a ++ x) c (n + length b) (omega (arith, length-append a x)))

-- An array whose front part is kept.
pub poke-behind :
    (n : ℕ) (a b array : Bytes)
    → n ≡ length a
    → length b ≤ length array
    → poke n b (a ++ array) ≡ a ++ (b ++ drop (length b) array)
poke-behind n a b array e fits =
    ap (λ c. poke n b (a ++ c)) (sym (take-append-drop (length b) array))
    ∙ poke-append n a (take (length b) array) (drop (length b) array) b e
        (omega (arith, fits, length-take (length b) array))
