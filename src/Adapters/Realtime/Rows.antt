-- ===== src/Adapters/Realtime/Rows.antt =====
-- What the rows are after `setMany` of firebase-realtime-adapter.ts, and what `getAllKeys` lists
-- of them.
use baileys_session_manager.Base.{
  ℕ, ◌≡◌, ◌≢◌, refl, subst, ap, ap₂, sym, ◌∙◌, inl, inr, Bool-cases, true, false, Option, none,
  List, [], ◌∷◌, All, Text, text_eq, text_eq_iff, if◌then◌else◌, arith,
}
use baileys_session_manager.Base.Exec.{ok, pure, bind-ok}
use baileys_session_manager.Base.Map.{lookup}
use baileys_session_manager.Adapter.{SessionRecord, Entry, member, overwritten}
use baileys_session_manager.Utils.Retry.{RetryOptions}
use baileys_session_manager.Adapters.Firebase.{Opened}
use baileys_session_manager.Adapters.Firebase.Steps.{held}
use baileys_session_manager.Adapters.Realtime.{
  StoredValue, Database, path, session_path, version_of, writes, retried, get_many, set_many,
  get_all_keys, escape_segment, object_keys_of,
}
use baileys_session_manager.Adapters.Realtime.Paths.{IsAllowed, path_nonempty}
use baileys_session_manager.Adapters.Realtime.Keeps.{
  Keeps, changed, path-IsRow, present, escape_segment-IsSegment,
}
use baileys_session_manager.Adapters.Realtime.Reads.{
  retried_from, visible, get_many_lem, held-get_many,
}
use baileys_session_manager.Adapters.Realtime.Writes.{
  IsPlain, rewritten, changed-change, lookup-writes, lookup-writes_other, writes-IsRow,
  retried_update, keys_of,
}

overwritten_absent :
    (es : List Entry) (key : Text) (old : Option Text)
    → member key (keys_of es) ≡ false
    → overwritten es key old ≡ old
unfolding overwritten member
overwritten_absent [] key old h = refl
overwritten_absent (e ∷ es) key old h = elim (Bool-cases (text_eq e.key key)) [
  | inl same ↦ absurd (ground (arith, rw same at h))
  | inr other ↦ rw other (overwritten_absent es key old (rw other at h))
]

-- The version that is read before the update counts only for the keys that are written.
rewritten-version :
    (now : ℕ) (es : List Entry) (key : Text) (old : Option StoredValue) (r : Option SessionRecord)
    → rewritten now
        (overwritten es key none)
        old
        (version_of (if member key (keys_of es) then r else none))
      ≡ rewritten now (overwritten es key none) old (version_of r)
rewritten-version now es key old r = elim (Bool-cases (member key (keys_of es))) [
  | inl there ↦ rw there refl
  | inr missing ↦ rw missing (rw (overwritten_absent es key none missing) refl)
]

keys_of-All :
    (sid : Text) (es : List Entry)
    → sid ≢ []
    → All (λ e. IsPlain e.key) es
    → All (λ k. (sid ≢ []) × (k ≢ [])) (keys_of es)
keys_of-All sid [] ns h = tt
keys_of-All sid (e ∷ es) ns (p, h) = ((ns, p.1), keys_of-All sid es ns h)

member-All :
    (k : Text) (names : List Text) → member k names ≡ true → All IsAllowed names → IsAllowed k
unfolding member
member-All k [] h a = absurd (ground arith)
member-All k (n ∷ names) h (first, rest) = elim (Bool-cases (text_eq n k)) [
  | inl same ↦ subst IsAllowed ((text_eq_iff n k).0 same) first
  | inr other ↦ member-All k names (rw other at h) rest
]

module _ {S : Type 0} (database : Database S) (stored : S → Text → Option StoredValue)
    (keeps : Keeps database stored) (options : RetryOptions) where
  -- Over a Realtime Database that keeps to its documented behaviour, and may fail at any time: a
  -- `setMany` that returns, after any number of attempts, has given each of its keys its last
  -- value, the time of the call and the version after the one that was there, and has left the
  -- other keys and the other sessions as they were. The session ids and keys are not empty and
  -- have no tilde.
  pub set_many_rows :
      (sid : Text) (es : List Entry) (c d : Opened S)
      → IsPlain sid
      → All (λ e. IsPlain e.key) es
      → set_many database options sid es c ≡ (ok tt, d)
      → ((key : Text)
          → IsPlain key
          → held stored d (path sid key)
            ≡ rewritten
                (database.clock c.state)
                (overwritten es key none)
                (held stored c (path sid key))
                (version_of (visible stored c sid key)))
        × ((t key : Text)
            → IsPlain t
            → sid ≢ t
            → IsPlain key
            → held stored d (path t key) ≡ held stored c (path t key))
  unfolding set_many overwritten lookup
  set_many_rows sid [] c d ps pes e = (
    λ key pk. ap (λ o. held stored o.1 (path sid key)) (sym e),
    λ t key pt ne pk. ap (λ o. held stored o.1 (path t key)) (sym e),
  )
  set_many_rows sid (x ∷ es) c d ps pes e =
      let now = database.clock c.state in
      let all = x ∷ es in
      let (existing, s', first, rest) =
        bind-ok (get_many database options sid (keys_of all))
          (λ existing. retried database options (database.update (writes sid now existing all [])))
          c (ap (λ o. o.0) e) in
      let same : held stored s' ≡ held stored c =
        ap (λ o. held stored o.1) (sym first)
        ∙ held-get_many database stored keeps options sid (keys_of all) c in
      let made =
        retried_update database stored keeps options (writes sid now existing all [])
          (writes-IsRow sid now existing all [] ps pes tt) s' d (sym rest ∙ e) in
      (
        λ key pk.
            made (path sid key) (path-IsRow sid key ps.1 pk.1)
            ∙ ap₂ changed (lookup-writes sid now existing all [] key none ps pk pes refl)
                (ap (λ f. f (path sid key)) same)
            ∙ changed-change now (version_of (lookup key existing)) (overwritten all key none) _
            ∙ ap
                (λ r.
                  rewritten now (overwritten all key none) (held stored c (path sid key))
                    (version_of r))
                (get_many_lem database stored keeps options sid (keys_of all) existing c s'
                  (keys_of-All sid all ps.1 pes) first key)
            ∙ rewritten-version now all key (held stored c (path sid key))
                (visible stored c sid key),
        λ t key pt ne pk.
            made (path t key) (path-IsRow t key pt.1 pk.1)
            ∙ ap₂ changed (lookup-writes_other sid t now existing all [] key ps pt ne pk pes refl)
                (ap (λ f. f (path t key)) same),
      )

  -- Over a Realtime Database that keeps to its documented behaviour: a `getAllKeys` that returns
  -- lists the escaped form of a key that is not empty exactly when its row is there, and lists no
  -- name with one of the characters that are escaped, so that a key with one is never listed as it
  -- is. The session id is not empty.
  pub get_all_keys_names :
      (sid : Text) (names : List Text) (c d : Opened S)
      → sid ≢ []
      → get_all_keys database options sid c ≡ (ok names, d)
      → ((k : Text)
          → k ≢ []
          → member (escape_segment k) names ≡ present (held stored c (path sid k)))
        × ((k : Text) → member k names ≡ true → IsAllowed k)
  unfolding get_all_keys session_path
  get_all_keys_names sid names c d ns e =
      let (snapshot, s', first, rest) =
        bind-ok (retried database options (database.once (session_path sid)))
          (λ a. pure (object_keys_of a)) c (ap (λ o. o.0) e) in
      let (s, same, read) =
        retried_from database stored keeps options (session_path sid) c snapshot s' first in
      let returned : ok (object_keys_of snapshot) ≡ ok names = ap (λ o. o.0) (sym rest ∙ e) in
      let listed : object_keys_of snapshot ≡ names = ground (arith, returned) in
      (
        λ k nk.
            ap (member (escape_segment k)) (sym listed)
            ∙ keeps.children_lem (escape_segment sid) (escape_segment k) s snapshot
                (escape_segment-IsSegment sid ns) (escape_segment-IsSegment k nk) read
            ∙ ap present (ap (stored s) (sym (path_nonempty sid k nk)))
            ∙ ap (λ f. present (f (path sid k))) same,
        λ k h.
            member-All k names h
              (rw listed at (keeps.names_lem (session_path sid) s snapshot read)),
      )
