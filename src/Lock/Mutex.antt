-- ===== src/Lock/Mutex.antt =====
-- src/lock/mutex-lock.ts: one mutex for each key, made when it is first asked for. A mutex is a
-- number; what `async-mutex` does with it is not modelled.
use baileys_session_manager.Base.{
  ℕ, suc, ◌<◌, ◌≡◌, ◌↔◌, ◌∙◌, ap, refl, Option, none, some, [], Text, text_eq_iff, text_eq_refl,
  arith, Option-cases, inl, inr,
}
use baileys_session_manager.Base.Map.{Map, lookup, insert, lookup-insert}

pub record LocalMutexLock : Type 0 where
  pub locks : Map ℕ
  pub made : ℕ

abbrev pub create : LocalMutexLock
create = record { locks = []; made = 0 }

get_or_make : Text → LocalMutexLock → Option ℕ → ℕ × LocalMutexLock
get_or_make key l (some mutex) = (mutex, l)
get_or_make key l none = (l.made, record { locks = insert key l.made l.locks; made = suc l.made })

unfoldable pub get_mutex : Text → LocalMutexLock → ℕ × LocalMutexLock
unfolding get_or_make
get_mutex key l = get_or_make key l (lookup key l.locks)

-- Mutexes are made one after the other, and none is shared by two keys.
pub record IsValid (l : LocalMutexLock) : Type 0 where
  pub below : (k : Text) (i : ℕ) → lookup k l.locks ≡ some i → i < l.made
  pub unshared :
      (k j : Text) (i : ℕ) → lookup k l.locks ≡ some i → lookup j l.locks ≡ some i → k ≡ j

pub create-IsValid : IsValid create
unfolding lookup
create-IsValid = record { below = λ k i h. cc; unshared = λ k j i h q. cc }

pub get_mutex-IsValid : (key : Text) (l : LocalMutexLock) → IsValid l → IsValid (get_mutex key l).1
unfolding get_mutex
get_mutex-IsValid key l v = elim (Option-cases (lookup key l.locks)) [
  | inr (i, old) ↦ rw (old, get_mutex) v
  | inl new ↦
      rw (new, get_mutex)
        (record {
          below = λ k i h. ground (arith, lookup-insert key k l.made l.locks, v.below k i);
          unshared = λ k j i h q. ground (
            arith,
            lookup-insert key k l.made l.locks,
            lookup-insert key j l.made l.locks,
            v.below k i,
            v.below j i,
            v.unshared k j i,
            text_eq_iff key k,
            text_eq_iff key j,
          );
        })
]

-- What a call leaves: its key has the mutex that it returned, and no other key has lost its own.
get_mutex_lem :
    (key : Text) (l : LocalMutexLock)
    → lookup key (get_mutex key l).1.locks ≡ some (get_mutex key l).0
unfolding get_mutex
get_mutex_lem key l = elim (Option-cases (lookup key l.locks)) [
  | inr (i, old) ↦ rw (old, get_mutex) old
  | inl new ↦
      rw (new, get_mutex) (ground (arith, lookup-insert key key l.made l.locks, text_eq_refl key))
]

get_mutex_kept :
    (key other : Text) (l : LocalMutexLock) (i : ℕ)
    → lookup other l.locks ≡ some i
    → lookup other (get_mutex key l).1.locks ≡ some i
unfolding get_mutex
get_mutex_kept key other l i h = elim (Option-cases (lookup key l.locks)) [
  | inr (j, old) ↦ rw (old, get_mutex) h
  | inl new ↦
      rw (new, get_mutex)
        (ground (arith, lookup-insert key other l.made l.locks, text_eq_iff key other))
]

get_mutex_found :
    (key : Text) (l : LocalMutexLock) (i : ℕ)
    → lookup key l.locks ≡ some i
    → (get_mutex key l).0 ≡ i
unfolding get_mutex
get_mutex_found key l i h = rw (h, get_mutex) refl

-- From a valid state, two calls get the same mutex exactly when their keys are the same, also with
-- a call for any key between them: one session is always guarded by one mutex, and two sessions
-- never share one.
pub get_mutex_iff :
    (key other between : Text) (l : LocalMutexLock)
    → IsValid l
    → ((get_mutex other (get_mutex between (get_mutex key l).1).1).0 ≡ (get_mutex key l).0)
      ↔ (key ≡ other)
get_mutex_iff key other between l v =
    let l1 = (get_mutex key l).1 in
    let l2 = (get_mutex between l1).1 in
    let i = (get_mutex key l).0 in
    let at_key = get_mutex_kept between key l1 i (get_mutex_lem key l) in
    let v2 = get_mutex-IsValid between l1 (get_mutex-IsValid key l v) in
    let v3 = get_mutex-IsValid other l2 v2 in
    (
      λ same.
          v3.unshared key other i (get_mutex_kept other key l2 i at_key)
            (get_mutex_lem other l2 ∙ ap some same),
      λ e. get_mutex_found other l2 i (rw (← e) at_key),
    )
