-- ===== src/Base/Units.antt =====
-- Text as its UTF-16 code units, with JavaScript's `===` and `startsWith`.
use Prim.Native.Char.{code}
use Prim.Native.String.{String}
use Prim.Native.Nat.{ℕ}
use mathlib.Core.Path.{◌≡◌, refl}
use mathlib.Core.Logic.{◌↔◌, ◌≢◌}
use mathlib.Core.Bool.{Bool, true, false, ◌&&◌}
use mathlib.Core.List.{List, [], ◌∷◌, ◌++◌}
use native.Mathlib.Omega.{arith}
use baileys_session_manager.Base.Tests.{◌==◌}
use baileys_session_manager.Base.Lists.{All}

abbrev pub Text : Type 0
Text = List ℕ

-- A literal of the source. All of them are ASCII, where a code unit is a character's code.
abbrev pub text : String → Text
text String.[] = []
text (String.◌∷◌ c s) = code c ∷ text s

-- `s === t`
unfoldable pub text_eq : Text → Text → Bool
text_eq [] [] = true
text_eq (a ∷ s) (b ∷ t) = a == b && text_eq s t
text_eq _ _ = false

-- `s.startsWith(p)`, the prefix first
unfoldable pub starts_with : Text → Text → Bool
starts_with [] s = true
starts_with (a ∷ p) [] = false
starts_with (a ∷ p) (b ∷ s) = a == b && starts_with p s

pub text_eq_iff : (s t : Text) → (text_eq s t ≡ true) ↔ (s ≡ t)
unfolding text_eq
text_eq_iff [] [] = ground arith
text_eq_iff (a ∷ s) (b ∷ t) = ground (arith, text_eq_iff s t)
text_eq_iff [] (b ∷ t) = ground arith
text_eq_iff (a ∷ s) [] = ground arith

pub text_eq_refl : (s : Text) → text_eq s s ≡ true
text_eq_refl s = (text_eq_iff s s).1 refl

pub starts_with-append : (p s : Text) → starts_with p (p ++ s) ≡ true
unfolding starts_with
starts_with-append [] s = refl
starts_with-append (a ∷ p) s = ground (arith, starts_with-append p s)

-- A text starts with a prefix exactly when it is the prefix and a rest.
pub starts_with-rest : (p s : Text) → starts_with p s ≡ true → (t : Text) × (s ≡ p ++ t)
unfolding starts_with
starts_with-rest [] s h = (s, refl)
starts_with-rest (a ∷ p) [] h = absurd (ground arith)
starts_with-rest (a ∷ p) (b ∷ s) h =
    let (t, e) = starts_with-rest p s (ground arith) in (t, ground arith)

-- Texts with a separator after a part without it have that part and the rest in common.
pub append_separator-injective :
    (sep : ℕ) (s t k j : Text)
    → All (λ u. u ≢ sep) s
    → All (λ u. u ≢ sep) t
    → s ++ sep ∷ k ≡ t ++ sep ∷ j
    → (s ≡ t) × (k ≡ j)
append_separator-injective sep [] [] k j p q e = ground arith
append_separator-injective sep [] (u ∷ t) k j p q e = ground arith
append_separator-injective sep (u ∷ s) [] k j p q e = ground arith
append_separator-injective sep (u ∷ s) (w ∷ t) k j p q e =
    ground (arith, append_separator-injective sep s t k j p.1 q.1)
