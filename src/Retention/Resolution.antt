-- ===== src/Retention/Resolution.antt =====
-- What `resolveCategory` of retention.ts finds.
use baileys_session_manager.Base.{
  ◌≤◌, ◌≡◌, refl, subst, true, false, ◌||◌, ◌⊎◌, inl, inr, none, some, List, [], ◌∷◌, ◌++◌,
  if◌then◌else◌, length, All, Text, text, text_eq, text_eq_iff, starts_with, arith, Bool-cases,
}
use baileys_session_manager.Retention.Categories.{
  Category, app_state_sync_version, sender_key_memory, app_state_sync_key, identity_key,
  device_list, lid_mapping, sender_key, pre_key, session, tctoken, name, creds_key, categories,
  matches, find_category, resolve_category,
}

-- The category that a key stored under a category and an id is taken for: with an id that begins
-- like the rest of a longer category's name, the longer category.
abbrev pub taken_for : Category → Text → Category
taken_for sender_key id =
    if text_eq (text "memory") id || starts_with (text "memory-") id
    then sender_key_memory
    else sender_key
taken_for c id = c

-- The category of the key `${category}-${id}` is recovered for every id, but that a sender key
-- whose id is "memory" or starts with "memory-" is taken for a sender key memory.
pub resolve_category-name :
    (c : Category) (id : Text)
    → resolve_category (name c ++ (text "-" ++ id)) ≡ some (taken_for c id)
unfolding resolve_category matches text_eq starts_with
resolve_category-name app_state_sync_version id = refl
resolve_category-name sender_key id = ground arith
resolve_category-name c id = refl

-- Shorter or as long.
abbrev Longest : Category → List Category → Type 0
Longest c = All (λ d. length (name d) ≤ length (name c))

abbrev Sorted : List Category → Type 0
Sorted [] = Unit
Sorted (c ∷ cs) = Longest c cs × Sorted cs

categories-Sorted : Sorted categories
unfolding categories
categories-Sorted = omega arith

abbrev Bounded : Text → Category → List Category → Type 0
Bounded key c = All (λ d. (matches key d ≡ false) ⊎ (length (name d) ≤ length (name c)))

Longest-Bounded : (key : Text) (c : Category) (cs : List Category) → Longest c cs → Bounded key c cs
Longest-Bounded key c [] h = tt
Longest-Bounded key c (d ∷ ds) h = (inr h.0, Longest-Bounded key c ds h.1)

find_category-some :
    (key : Text) (c : Category) (cs : List Category)
    → Sorted cs
    → find_category key cs ≡ some c
    → (matches key c ≡ true) × Bounded key c cs
unfolding find_category
find_category-some key c [] s h = absurd (ground arith)
find_category-some key c (d ∷ ds) s h = elim (Bool-cases (matches key d)) [
  | inl hit ↦
      let e : d ≡ c = ground arith in
      subst (λ x. (matches key x ≡ true) × Bounded key x (d ∷ ds)) e
        (hit, (inr (omega arith), Longest-Bounded key d ds s.0))
  | inr miss ↦
      let (hit, rest) = find_category-some key c ds s.1 (ground arith) in (hit, (inl miss, rest))
]

find_category-none :
    (key : Text) (cs : List Category)
    → find_category key cs ≡ none
    → All (λ d. matches key d ≡ false) cs
unfolding find_category
find_category-none key [] h = tt
find_category-none key (d ∷ ds) h = ground (arith, find_category-none key ds)

-- Every category is in the list.
All-categories {ℓ} : (P : Category → Type ℓ) (c : Category) → All P categories → P c
unfolding categories
All-categories P app_state_sync_version h = h.0
All-categories P app_state_sync_key h = h.1.0
All-categories P sender_key_memory h = h.1.1.0
All-categories P identity_key h = h.1.1.1.0
All-categories P device_list h = h.1.1.1.1.0
All-categories P lid_mapping h = h.1.1.1.1.1.0
All-categories P sender_key h = h.1.1.1.1.1.1.0
All-categories P pre_key h = h.1.1.1.1.1.1.1.0
All-categories P session h = h.1.1.1.1.1.1.1.1.0
All-categories P tctoken h = h.1.1.1.1.1.1.1.1.1.0

-- A category that is found matches the key, and no category with a longer name does.
pub resolve_category-longest :
    (key : Text) (c d : Category)
    → resolve_category key ≡ some c
    → (matches key c ≡ true) × ((matches key d ≡ false) ⊎ (length (name d) ≤ length (name c)))
unfolding resolve_category
resolve_category-longest key c d h = elim (Bool-cases (text_eq key creds_key)) [
  | inl creds ↦ absurd (ground arith)
  | inr other ↦
      let (hit, rest) = find_category-some key c categories categories-Sorted (ground arith) in
      (
        hit,
        All-categories (λ x. (matches key x ≡ false) ⊎ (length (name x) ≤ length (name c))) d rest,
      )
]

-- If none is found, the key is "creds" or no category matches it.
pub resolve_category-none :
    (key : Text) (d : Category)
    → resolve_category key ≡ none
    → (key ≡ creds_key) ⊎ (matches key d ≡ false)
unfolding resolve_category
resolve_category-none key d h = elim (Bool-cases (text_eq key creds_key)) [
  | inl creds ↦ inl ((text_eq_iff key creds_key).0 creds)
  | inr other ↦ inr (
      All-categories (λ x. matches key x ≡ false) d
        (find_category-none key categories (ground arith)))
]
