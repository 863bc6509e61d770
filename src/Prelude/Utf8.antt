-- ===== src/Prelude/Utf8.antt =====
-- UTF-8, as `utf8.Valid` of Go's library describes it: the texts that encoding/json keeps as they
-- are.
use Prim.Native.Nat.{ℕ, zero, suc}
use mathlib.Core.Bool.{Bool, true, false, ◌&&◌}
use mathlib.Core.Option.{Option, none, some}
use mathlib.Core.List.{[], ◌∷◌}
use fabric_peer_ext.Prelude.Tests.{if◌then◌else◌, ltb, leb}
use fabric_peer_ext.Prelude.Bytes.{Bytes}

abbrev between : ℕ → ℕ → ℕ → Bool
between low high b = leb low b && leb b high

-- What a first byte announces: how many bytes follow, and between which bounds the next one is.
abbrev first_byte : ℕ → Option (ℕ × ℕ × ℕ)
first_byte b =
    if ltb b 128
    then some (0, 128, 191)
    else if between 194 223 b
    then some (1, 128, 191)
    else if leb b 223
    then none
    else if leb b 224
    then some (2, 160, 191)
    else if leb b 236
    then some (2, 128, 191)
    else if leb b 237
    then some (2, 128, 159)
    else if leb b 239
    then some (2, 128, 191)
    else if leb b 240
    then some (3, 144, 191)
    else if leb b 243
    then some (3, 128, 191)
    else if leb b 244
    then some (3, 128, 143)
    else none

-- The rest of a text where so many bytes are still to follow, the next between the bounds.
abbrev utf8_after : ℕ → ℕ → ℕ → Bytes → Bool
utf8_after zero low high [] = true
utf8_after (suc n) low high [] = false
utf8_after zero low high (b ∷ s) = elim (first_byte b) [
  | none ↦ false
  | some (n, low', high') ↦ utf8_after n low' high' s
]
utf8_after (suc n) low high (b ∷ s) = between low high b && utf8_after n 128 191 s

abbrev pub is_utf8 : Bytes → Bool
is_utf8 s = utf8_after 0 128 191 s
