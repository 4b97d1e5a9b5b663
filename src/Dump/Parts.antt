-- ===== src/Dump/Parts.antt =====
-- The dumps of the parts of an skb.
use esp8266_hosted_linux.Base.{◌≤◌, ◌≡◌, refl, arith, List, [], ◌∷◌, Bytes, length}
use esp8266_hosted_linux.Dump.{lines, output_size, dump, dump_parts}
use esp8266_hosted_linux.Dump.Hex.{dump-Shows}
use esp8266_hosted_linux.Dump.Text.{hex, from_zero}

-- Each part has at most 819 bytes.
abbrev pub AreShort : List Bytes → Type 0
AreShort [] = Unit
AreShort (p ∷ ps) = (length p ≤ 819) × AreShort ps

abbrev pub hex_lines : List Bytes → List Bytes
hex_lines [] = []
hex_lines (p ∷ ps) = hex p ∷ hex_lines ps

-- Short parts are logged whole, one after the other, whatever the array held before.
pub dump_parts-lines :
    (parts : List Bytes) (output : Bytes)
    → AreShort parts
    → length output ≡ output_size
    → (output' : Bytes) × (dump_parts parts output ≡ lines (hex_lines parts) output')
      × (length output' ≡ output_size)
unfolding dump_parts dump
dump_parts-lines [] output short size = (output, refl, size)
dump_parts-lines (p ∷ ps) output short size =
    let (next, e, l) = from_zero _ _ _ _ (
      dump-Shows p 0 0 [] output (tt, omega arith, omega arith, omega (arith, size))
        (omega (arith, short.0))) in
    let (last, e', l') = dump_parts-lines ps next short.1 l in
    (last, rw (e, e', dump_parts) refl, l')
