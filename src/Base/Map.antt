-- ===== src/Base/Map.antt =====
-- JavaScript's `Map` with text keys: an association list in insertion order. Setting a key that is
-- there keeps its place; a new key goes to the end.
use Prim.Native.Nat.{◌<◌, ◌≤◌}
use mathlib.Core.Path.{◌≡◌, refl}
use mathlib.Core.Logic.{inl, inr}
use mathlib.Core.Option.{Option, none, some}
use mathlib.Core.List.{List, [], ◌∷◌, ◌++◌}
use native.Mathlib.Omega.{arith}
use baileys_session_manager.Base.Tests.{Bool-cases, if◌then◌else◌}
use baileys_session_manager.Base.Lists.{length}
use baileys_session_manager.Base.Units.{Text, text_eq, text_eq_iff}

abbrev pub Map {ℓ} : Type ℓ → Type ℓ
Map V = List (Text × V)

module _ {ℓ} {V : Type ℓ} where
  unfoldable pub lookup : Text → Map V → Option V
  lookup k [] = none
  lookup k ((j, v) ∷ m) = if text_eq j k then some v else lookup k m

  unfoldable pub insert : Text → V → Map V → Map V
  insert k v [] = (k, v) ∷ []
  insert k v ((j, w) ∷ m) = if text_eq j k then (k, v) ∷ m else (j, w) ∷ insert k v m

  unfoldable pub remove : Text → Map V → Map V
  remove k [] = []
  remove k ((j, v) ∷ m) = let rest = remove k m in if text_eq j k then rest else (j, v) ∷ rest

  unfoldable pub keys : Map V → List Text
  keys [] = []
  keys ((k, v) ∷ m) = k ∷ keys m

  -- No key twice.
  abbrev pub Distinct : Map V → Type ℓ
  Distinct [] = Unit
  Distinct ((k, v) ∷ m) = (lookup k m ≡ none) × Distinct m

  pub lookup-insert :
      (k j : Text) (v : V) (m : Map V)
      → lookup j (insert k v m) ≡ (if text_eq k j then some v else lookup j m)
  unfolding lookup insert
  lookup-insert k j v [] = refl
  lookup-insert k j v ((i, w) ∷ m) =
      ground (arith, text_eq_iff k j, text_eq_iff i k, text_eq_iff i j, lookup-insert k j v m)

  pub lookup-remove :
      (k j : Text) (m : Map V) → lookup j (remove k m) ≡ (if text_eq k j then none else lookup j m)
  unfolding lookup remove
  lookup-remove k j [] = ground arith
  lookup-remove k j ((i, w) ∷ m) =
      ground (arith, text_eq_iff k j, text_eq_iff i k, text_eq_iff i j, lookup-remove k j m)

  pub lookup-append :
      (j : Text) (m n : Map V)
      → lookup j (m ++ n) ≡ elim (lookup j m) [ none ↦ lookup j n | some v ↦ some v ]
  unfolding lookup
  lookup-append j [] n = refl
  lookup-append j ((i, w) ∷ m) n = ground (arith, lookup-append j m n)

  pub remove_absent : (k : Text) (m : Map V) → lookup k m ≡ none → remove k m ≡ m
  unfolding lookup remove
  remove_absent k [] h = refl
  remove_absent k ((i, w) ∷ m) h = ground (arith, remove_absent k m)

  pub remove-Distinct : (k : Text) (m : Map V) → Distinct m → Distinct (remove k m)
  unfolding remove
  remove-Distinct k [] d = tt
  remove-Distinct k ((i, w) ∷ m) d =
      ground (arith, remove-Distinct k m, lookup-remove k i m, text_eq_iff k i)

  pub insert-Distinct : (k : Text) (v : V) (m : Map V) → Distinct m → Distinct (insert k v m)
  unfolding insert lookup
  insert-Distinct k v [] d = (refl, tt)
  insert-Distinct k v ((i, w) ∷ m) d =
      ground (arith, insert-Distinct k v m, lookup-insert k i v m, text_eq_iff i k, text_eq_iff k i)

  -- A new key goes to the end.
  pub insert_absent :
      (k : Text) (v : V) (m : Map V) → lookup k m ≡ none → insert k v m ≡ m ++ (k, v) ∷ []
  unfolding lookup insert
  insert_absent k v [] h = refl
  insert_absent k v ((i, w) ∷ m) h = ground (arith, insert_absent k v m)

  pub length-remove-le : (k : Text) (m : Map V) → length (remove k m) ≤ length m
  unfolding remove
  length-remove-le k [] = omega arith
  length-remove-le k ((i, w) ∷ m) = ground (arith, length-remove-le k m)

  pub length-remove-lt :
      (k : Text) (m : Map V) (v : V) → lookup k m ≡ some v → length (remove k m) < length m
  unfolding lookup remove
  length-remove-lt k [] v h = cc
  length-remove-lt k ((i, w) ∷ m) v h = ground (arith, length-remove-le k m, length-remove-lt k m v)

  pub Distinct-append_right : (m n : Map V) → Distinct (m ++ n) → Distinct n
  Distinct-append_right [] n d = d
  Distinct-append_right (e ∷ m) n d = Distinct-append_right m n d.1

-- Every entry of a map has a property.
module _ {ℓ κ} {V : Type ℓ} (P : Text → V → Type κ) where
  abbrev pub Every : Map V → Type κ
  Every [] = Unit
  Every ((k, v) ∷ m) = P k v × Every m

  pub remove-Every : (k : Text) (m : Map V) → Every m → Every (remove k m)
  unfolding remove
  remove-Every k [] h = tt
  remove-Every k ((i, w) ∷ m) h = ground (arith, remove-Every k m)

  pub insert-Every : (k : Text) (v : V) (m : Map V) → P k v → Every m → Every (insert k v m)
  unfolding insert
  insert-Every k v [] p h = (p, tt)
  insert-Every k v ((i, w) ∷ m) p h = ground (arith, insert-Every k v m p)

  pub Every-append_right : (m n : Map V) → Every (m ++ n) → Every n
  Every-append_right [] n h = h
  Every-append_right (e ∷ m) n h = Every-append_right m n h.1

  pub lookup-Every : (k : Text) (m : Map V) (v : V) → Every m → lookup k m ≡ some v → P k v
  unfolding lookup
  lookup-Every k [] v h q = absurd (ground arith)
  lookup-Every k ((i, w) ∷ m) v h q = elim (Bool-cases (text_eq i k)) [
    | inl same ↦
        let p : i ≡ k = (text_eq_iff i k).0 same in
        let e : w ≡ v = ground arith in rw (← p, ← e) h.0
    | inr other ↦ lookup-Every k m v h.1 (ground arith)
  ]
