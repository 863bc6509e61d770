-- ===== src/Prelude/Bytes.antt =====
-- Go strings and byte slices as lists of bytes: their equality, and the library's Split and Join at
-- a separator of one byte.
use Prim.Native.Nat.{ℕ}
use mathlib.Core.Path.{◌≡◌, refl, ap, ◌∙◌}
use mathlib.Core.Logic.{◌↔◌}
use mathlib.Core.Bool.{Bool, true, false, ◌&&◌}
use mathlib.Core.List.{List, [], ◌∷◌, ◌++◌}
use native.Mathlib.Omega.{arith}
use fabric_peer_ext.Prelude.Tests.{◌==◌, ==_iff, if◌then◌else◌}
use fabric_peer_ext.Prelude.Lists.{All}
use fabric_peer_ext.Prelude.Assoc.{Eq}

abbrev pub Bytes : Type 0
Bytes = List ℕ

abbrev pub bytes_beq : Bytes → Bytes → Bool
bytes_beq [] [] = true
bytes_beq [] (c ∷ t) = false
bytes_beq (b ∷ s) [] = false
bytes_beq (b ∷ s) (c ∷ t) = (b == c) && bytes_beq s t

pub bytes_beq_iff : (s t : Bytes) → (bytes_beq s t ≡ true) ↔ (s ≡ t)
bytes_beq_iff [] [] = ((λ e. refl), λ e. refl)
bytes_beq_iff [] (c ∷ t) = ((λ e. cc), λ e. cc)
bytes_beq_iff (b ∷ s) [] = ((λ e. cc), λ e. cc)
bytes_beq_iff (b ∷ s) (c ∷ t) = ground (arith, ==_iff b c, bytes_beq_iff s t)

instance abbrev pub bytes_eq : Eq Bytes
bytes_eq = record { beq = bytes_beq; beq_iff = bytes_beq_iff }

abbrev push_first : ℕ → List Bytes → List Bytes
push_first c [] = (c ∷ []) ∷ []
push_first c (p ∷ ps) = (c ∷ p) ∷ ps

-- `strings.Split(s, sep)`
unfoldable pub split : Bytes → ℕ → List Bytes
split [] sep = [] ∷ []
split (c ∷ s) sep = let rest = split s sep in if c == sep then [] ∷ rest else push_first c rest

-- `strings.Join(parts, sep)`
unfoldable pub join : List Bytes → ℕ → Bytes
join [] sep = []
join (p ∷ []) sep = p
join (p ∷ q ∷ ps) sep = p ++ sep ∷ join (q ∷ ps) sep

-- The text does not hold the byte.
abbrev pub Lacks : ℕ → Bytes → Type 0
Lacks sep s = All (λ c. (c == sep) ≡ false) s

pub split_last : (p : Bytes) (sep : ℕ) → Lacks sep p → split p sep ≡ p ∷ []
unfolding split
split_last [] sep h = refl
split_last (c ∷ p) sep h = rw (h.0, split_last p sep h.1) refl

pub split_front : (p s : Bytes) (sep : ℕ) → Lacks sep p → split (p ++ sep ∷ s) sep ≡ p ∷ split s sep
unfolding split
split_front [] s sep h = rw ((==_iff sep sep).1 refl) refl
split_front (c ∷ p) s sep h = rw (h.0, split_front p s sep h.1) refl

-- Parts without the separator come back, if there is one at least.
pub split-join :
    (p : Bytes) (ps : List Bytes) (sep : ℕ)
    → Lacks sep p
    → All (Lacks sep) ps
    → split (join (p ∷ ps) sep) sep ≡ p ∷ ps
unfolding join
split-join p [] sep h hs = split_last p sep h
split-join p (q ∷ ps) sep h hs =
    split_front p (join (q ∷ ps) sep) sep h ∙ ap (◌∷◌ p) (split-join q ps sep hs.0 hs.1)
