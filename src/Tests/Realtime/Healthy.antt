-- ===== src/Tests/Realtime/Healthy.antt =====
-- A Realtime Database that never fails.
use baileys_session_manager.Base.{
  ℕ, suc, ◌+◌, ◌≡◌, refl, subst, ap, sym, ◌∙◌, inl, inr, Bool, true, false, Bool-cases, ◌==◌, ltb,
  Option, none, some, List, [], ◌∷◌, ◌++◌, All, Text, text, text_eq, text_eq_iff, if◌then◌else◌,
  arith,
}
use baileys_session_manager.Base.Exec.{ok}
use baileys_session_manager.Base.Map.{Map, lookup, insert, remove, lookup-insert, lookup-remove}
use baileys_session_manager.Adapter.{member}
use baileys_session_manager.Adapters.Realtime.{
  StoredValue, Node, Database, root, is_disallowed, object_keys_of,
}
use baileys_session_manager.Adapters.Realtime.Paths.{IsAllowed}
use baileys_session_manager.Adapters.Realtime.Keeps.{Keeps, IsRow, changed, present, stored_of}
use mathlib.Core.List.{append_assoc}

abbrev pub Tree : Type 0
Tree = Map StoredValue

abbrev are_allowed : Text → Bool
are_allowed [] = true
are_allowed (u ∷ s) = if is_disallowed u then false else are_allowed s

are_allowed_lem : (s : Text) → are_allowed s ≡ true → IsAllowed s
are_allowed_lem [] h = tt
are_allowed_lem (u ∷ s) h = ground (arith, are_allowed_lem s, h)

are_allowed-IsAllowed : (s : Text) → IsAllowed s → are_allowed s ≡ true
are_allowed-IsAllowed [] h = refl
are_allowed-IsAllowed (u ∷ s) h = ground (arith, are_allowed-IsAllowed s h.1, h.0)

-- The rest of a text after a prefix.
abbrev rest_after : Text → Text → Option Text
rest_after [] t = some t
rest_after (u ∷ p) [] = none
rest_after (u ∷ p) (w ∷ t) = if u == w then rest_after p t else none

abbrev is_rest : Text → Option Text → Bool
is_rest b none = false
is_rest b (some n) = text_eq n b

is_rest_lem : (p t b : Text) → is_rest b (rest_after p t) ≡ text_eq t (p ++ b)
unfolding text_eq
is_rest_lem [] t b = refl
is_rest_lem (u ∷ p) [] b = refl
is_rest_lem (u ∷ p) (w ∷ t) b = ground (arith, is_rest_lem p t b)

-- The names of the children of a path that are at all names.
abbrev add_name : Option Text → List Text → List Text
add_name none ns = ns
add_name (some n) ns = if are_allowed n then n ∷ ns else ns

abbrev children : Text → Tree → List Text
children p [] = []
children p ((q, v) ∷ m) = add_name (rest_after p q) (children p m)

children-IsAllowed : (p : Text) (m : Tree) → All IsAllowed (children p m)
children-IsAllowed p [] = tt
children-IsAllowed p ((q, v) ∷ m) = go (rest_after p q) (children p m) (children-IsAllowed p m)
  where
    go : (n : Option Text) (ns : List Text) → All IsAllowed ns → All IsAllowed (add_name n ns)
    go none ns h = h
    go (some n) ns h = elim (Bool-cases (are_allowed n)) [
      | inl fine ↦ rw fine (are_allowed_lem n fine, h)
      | inr bad ↦ rw bad h
    ]

member-add_name :
    (b : Text) (n : Option Text) (ns : List Text)
    → IsAllowed b
    → member b (add_name n ns) ≡ (if is_rest b n then true else member b ns)
unfolding member
member-add_name b none ns h = refl
member-add_name b (some n) ns h = elim (Bool-cases (text_eq n b)) [
  | inl same ↦
      let fine : are_allowed n ≡ true =
        ap are_allowed ((text_eq_iff n b).0 same) ∙ are_allowed-IsAllowed b h in
      rw fine (rw same refl)
  | inr other ↦ elim (Bool-cases (are_allowed n)) [
    | inl fine ↦ rw fine refl
    | inr bad ↦ rw bad (rw other refl)
  ]
]

member-children :
    (p b : Text) (m : Tree) → IsAllowed b → member b (children p m) ≡ present (lookup (p ++ b) m)
unfolding member lookup
member-children p b [] h = refl
member-children p b ((q, v) ∷ m) h =
    member-add_name b (rest_after p q) (children p m) h
    ∙ ap (λ x. if x then true else member b (children p m)) (is_rest_lem p q b)
    ∙ elim (Bool-cases (text_eq q (p ++ b))) [
      | inl same ↦ rw same refl
      | inr other ↦ rw other (member-children p b m h)
    ]

abbrev slashes : Text → ℕ
slashes [] = 0
slashes (u ∷ s) = (if u == b'/' then 1 else 0) + slashes s

abbrev no_value : StoredValue
no_value = record { value = []; updated_at = 0; version = 0 }

-- What is read at a path: a row, or the object of a session, which has one slash.
abbrev node_at : Text → Option StoredValue → List Text → Option Node
node_at p (some v) ns = some (record { as_stored = v; object_keys = ns })
node_at p none [] = none
node_at p none (n ∷ ns) =
    if ltb (slashes p) 2 then some (record { as_stored = no_value; object_keys = n ∷ ns }) else none

abbrev applied : Map (Option StoredValue) → Tree → Tree
applied [] t = t
applied ((p, none) ∷ m) t = remove p (applied m t)
applied ((p, some v) ∷ m) t = insert p v (applied m t)

lookup-applied :
    (m : Map (Option StoredValue)) (p : Text) (t : Tree)
    → lookup p (applied m t) ≡ changed (lookup p m) (lookup p t)
unfolding lookup
lookup-applied [] p t = refl
lookup-applied ((q, none) ∷ m) p t =
    lookup-remove q p (applied m t) ∙ elim (Bool-cases (text_eq q p)) [
      | inl same ↦ rw same refl
      | inr other ↦ rw other (lookup-applied m p t)
    ]
lookup-applied ((q, some v) ∷ m) p t =
    lookup-insert q p v (applied m t) ∙ elim (Bool-cases (text_eq q p)) [
      | inl same ↦ rw same refl
      | inr other ↦ rw other (lookup-applied m p t)
    ]

-- A database that never fails, with a clock that stands still.
abbrev pub database : Database Tree
database = record {
  get_app = λ s. (ok tt, s);
  once = λ p s. (ok (node_at p (lookup p s) (children (p ++ text "/") s)), s);
  update = λ m s. (ok tt, applied m s);
  remove = λ p s. (ok tt, remove p s);
  sleep = λ ms s. s;
  clock = λ s. 7;
}

abbrev pub stored : Tree → Text → Option StoredValue
stored s p = lookup p s

slashes-append : (s t : Text) → slashes (s ++ t) ≡ slashes s + slashes t
slashes-append [] t = omega arith
slashes-append (u ∷ s) t = omega (arith, slashes-append s t)

slashes-allowed : (a : Text) → IsAllowed a → slashes a ≡ 0
unfolding is_disallowed
slashes-allowed [] h = refl
slashes-allowed (u ∷ a) h = ground (arith, slashes-allowed a h.1, h.0)

row_slashes : (p : Text) → IsRow p → ltb (slashes p) 2 ≡ false
row_slashes p (a, b, sa, sb, e) =
    let counted : slashes p ≡ slashes (root ++ (text "/" ++ a)) + slashes (text "/" ++ b) =
      ap slashes e ∙ slashes-append (root ++ (text "/" ++ a)) (text "/" ++ b) in
    let first : slashes (root ++ (text "/" ++ a)) ≡ suc (slashes a) = omega arith in
    ground (arith, counted, first)

session_slashes : (a : Text) → IsAllowed a → ltb (slashes (root ++ (text "/" ++ a))) 2 ≡ true
session_slashes a h = rw (slashes-allowed a h) refl

stored_of-node_at :
    (p : Text) (v : Option StoredValue) (ns : List Text)
    → ltb (slashes p) 2 ≡ false
    → stored_of (node_at p v ns) ≡ v
stored_of-node_at p none [] h = refl
stored_of-node_at p none (n ∷ ns) h = rw h refl
stored_of-node_at p (some v) ns h = refl

keys-node_at :
    (p : Text) (v : Option StoredValue) (ns : List Text)
    → ltb (slashes p) 2 ≡ true
    → object_keys_of (node_at p v ns) ≡ ns
keys-node_at p none [] h = refl
keys-node_at p none (n ∷ ns) h = rw h refl
keys-node_at p (some v) ns h = refl

All-node_at :
    (p : Text) (v : Option StoredValue) (ns : List Text)
    → All IsAllowed ns
    → All IsAllowed (object_keys_of (node_at p v ns))
All-node_at p none [] h = tt
All-node_at p none (n ∷ ns) h = elim (Bool-cases (ltb (slashes p) 2)) [
  | inl fine ↦ rw fine h
  | inr bad ↦ rw bad tt
]
All-node_at p (some v) ns h = h

ok-injective : {A : Type 0} {a b : A} → ok a ≡ ok b → a ≡ b
ok-injective e = cc

pub database-Keeps : Keeps database stored
database-Keeps = record {
  stored-once = λ p s. refl;
  stored-sleep = λ ms s. refl;
  once_lem = λ p s snapshot row e.
      ap stored_of (sym (ok-injective e)) ∙ stored_of-node_at p _ _ (row_slashes p row);
  children_lem = λ a b s snapshot sa sb e.
      let p = root ++ (text "/" ++ a) in
      ap (λ x. member b (object_keys_of x)) (sym (ok-injective e))
      ∙ ap (member b)
          (keys-node_at p (lookup p s) (children (p ++ text "/") s) (session_slashes a sa.0))
      ∙ member-children (p ++ text "/") b s sb.0
      ∙ ap (λ q. present (lookup q s)) (append_assoc p (text "/") b);
  names_lem = λ p s snapshot e.
      subst (λ x. All IsAllowed (object_keys_of x)) (ok-injective e)
        (All-node_at p (lookup p s) (children (p ++ text "/") s)
          (children-IsAllowed (p ++ text "/") s));
  update_lem = λ m s rows. inl (refl, λ p row. lookup-applied m p s);
}
