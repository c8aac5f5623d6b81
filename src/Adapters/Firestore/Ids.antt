-- ===== src/Adapters/Firestore/Ids.antt =====
-- `docId` of firestore-adapter.ts.
use baileys_session_manager.Base.{
  ◌≡◌, ◌≢◌, refl, ap, ap₂, sym, ◌∙◌, [], ◌∷◌, ◌++◌, ◌==◌, All, Text, text, arith,
  append_separator-injective, if◌then◌else◌,
}
use mathlib.Core.List.{append_assoc}
use baileys_session_manager.Adapters.Firestore.{replace_slashes, doc_id}

-- No slash, and in a session id no underscore.
abbrev pub IsKey : Text → Type 0
IsKey = All (λ u. u ≢ b'/')

abbrev pub IsSessionId : Text → Type 0
IsSessionId s = IsKey s × All (λ u. u ≢ b'_') s

replace_slashes_none : (s : Text) → IsKey s → replace_slashes s ≡ s
unfolding replace_slashes
replace_slashes_none [] h = refl
replace_slashes_none (u ∷ s) h = ground (arith, replace_slashes_none s h.1, h.0)

replace_slashes-append :
    (s t : Text) → replace_slashes (s ++ t) ≡ replace_slashes s ++ replace_slashes t
unfolding replace_slashes
replace_slashes-append [] t = refl
replace_slashes-append (u ∷ s) t =
    ap (◌∷◌ (if u == b'/' then b'_' else u)) (replace_slashes-append s t)

-- Two rows have one document only if they are one row, if their session ids have neither a slash
-- nor an underscore and their keys have no slash.
pub doc_id-injective :
    (s t k j : Text)
    → IsSessionId s
    → IsSessionId t
    → IsKey k
    → IsKey j
    → doc_id s k ≡ doc_id t j
    → (s ≡ t) × (k ≡ j)
unfolding doc_id
doc_id-injective s t k j ps pt pk pj e =
    let plain : s ++ b'_' ∷ (b'_' ∷ k) ≡ t ++ b'_' ∷ (b'_' ∷ j) =
      ap₂ (λ a b. a ++ (text "__" ++ b)) (sym (replace_slashes_none s ps.0))
        (sym (replace_slashes_none k pk))
      ∙ e
      ∙ ap₂ (λ a b. a ++ (text "__" ++ b)) (replace_slashes_none t pt.0)
          (replace_slashes_none j pj) in
    let (sessions, rest) =
      append_separator-injective b'_' s t (b'_' ∷ k) (b'_' ∷ j) ps.1 pt.1 plain in
    (sessions, cc)

-- Rows of two sessions have one document: for all texts, the key `k` of the session `s__t`, and
-- the key `t__k` of the session `s`.
pub doc_id_collision :
    (s t k : Text) → doc_id (s ++ (text "__" ++ t)) k ≡ doc_id s (t ++ (text "__" ++ k))
unfolding doc_id replace_slashes
doc_id_collision s t k =
    ap (λ r. r ++ (text "__" ++ replace_slashes k)) (replace_slashes-append s (text "__" ++ t))
    ∙ append_assoc (replace_slashes s) (text "__" ++ replace_slashes t)
        (text "__" ++ replace_slashes k)
    ∙ ap (λ r. replace_slashes s ++ (text "__" ++ r))
        (sym (replace_slashes-append t (text "__" ++ k)))
