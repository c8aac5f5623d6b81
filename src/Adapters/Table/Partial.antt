-- ===== src/Adapters/Table/Partial.antt =====
-- What a write that is made again and again keeps, each time up to some part of it.
use mathlib.Core.List.{append-nil}
use baileys_session_manager.Base.{
  subst, ℕ, ◌≡◌, refl, ap, sym, ◌∙◌, true, false, not, Option, none, some, List, [], ◌∷◌, ◌++◌,
  keep, if◌then◌else◌, Text, text_eq, text_eq_refl, arith, Bool-cases,
}
use baileys_session_manager.Adapter.{Entry, member, overwritten}
use baileys_session_manager.Adapters.Table.{Row, select, is_in, upsert_all}
use baileys_session_manager.Adapters.Table.Rows.{
  Unique, value_in, select-upsert_all, select-upsert_all_other, upsert_all-Unique, select-keep,
  keep-Unique,
}

-- Entries decide the value of a key, or leave it.
overwritten-given :
    (es : List Entry) (key : Text) (old : Option Text)
    → overwritten es key old ≡ elim (overwritten es key none) [ none ↦ old | some v ↦ some v ]
unfolding overwritten
overwritten-given [] key old = refl
overwritten-given (e ∷ es) key old =
    ground (arith, overwritten-given es key old, overwritten-given es key (some e.value))

overwritten-append :
    (first rest : List Entry) (key : Text) (old : Option Text)
    → overwritten (first ++ rest) key old ≡ overwritten rest key (overwritten first key old)
unfolding overwritten
overwritten-append [] rest key old = refl
overwritten-append (e ∷ first) rest key old =
    overwritten-append first rest key (if text_eq e.key key then some e.value else old)

-- To write the first entries, and then all, is to write all.
pub overwritten-prefix :
    (first rest : List Entry) (key : Text) (old : Option Text)
    → overwritten (first ++ rest) key (overwritten first key old)
      ≡ overwritten (first ++ rest) key old
overwritten-prefix first rest key old = ground (
  arith,
  overwritten-append first rest key (overwritten first key old),
  overwritten-append first rest key old,
  overwritten-given first key old,
  overwritten-given first key (overwritten first key old),
)

-- The rows `u` that attempts to write the entries have made of `t`.
pub record Writing (sid : Text) (es : List Entry) (t u : List Row) : Type 0 where
  pub unique : Unique t → Unique u
  pub values :
      (key : Text)
      → overwritten es key (value_in (select sid key u))
        ≡ overwritten es key (value_in (select sid key t))
  pub others :
      (other key : Text) → text_eq sid other ≡ false → select other key u ≡ select other key t

pub refl-Writing : (sid : Text) (es : List Entry) (t : List Row) → Writing sid es t t
refl-Writing sid es t = record {
  unique = λ h. h;
  values = λ key. refl;
  others = λ other key ne. refl;
}

pub upsert_all-Writing :
    (sid : Text) (first rest : List Entry) (now : ℕ) (t u : List Row)
    → Writing sid (first ++ rest) t u
    → Writing sid (first ++ rest) t (upsert_all sid first now u)
upsert_all-Writing sid first rest now t u w = record {
  unique = λ h. upsert_all-Unique sid first now u (w.unique h);
  values = λ key.
      ap (overwritten (first ++ rest) key) (select-upsert_all sid first now u key).0
      ∙ overwritten-prefix first rest key (value_in (select sid key u))
      ∙ w.values key;
  others =
      λ other key ne. select-upsert_all_other sid first now u other key ne ∙ w.others other key ne;
}

pub all-Writing :
    (sid : Text) (es : List Entry) (now : ℕ) (t u : List Row)
    → Writing sid es t u
    → Writing sid es t (upsert_all sid es now u)
all-Writing sid es now t u w =
    subst (λ l. Writing sid l t (upsert_all sid es now u)) (append-nil es)
      (upsert_all-Writing sid es [] now t u
        (subst (λ l. Writing sid l t u) (sym (append-nil es)) w))

-- When all entries are written at last, each key has its last value.
pub value_in-upsert_all :
    (sid : Text) (es : List Entry) (now : ℕ) (t u : List Row) (key : Text)
    → Writing sid es t u
    → value_in (select sid key (upsert_all sid es now u))
      ≡ overwritten es key (value_in (select sid key t))
value_in-upsert_all sid es now t u key w = (select-upsert_all sid es now u key).0 ∙ w.values key

-- The rows that attempts to remove those of some keys have left.
pub record Removing (sid : Text) (ks : List Text) (t u : List Row) : Type 0 where
  pub unique : Unique t → Unique u
  pub stays : (key : Text) → member key ks ≡ false → select sid key u ≡ select sid key t
  pub others :
      (other key : Text) → text_eq sid other ≡ false → select other key u ≡ select other key t

pub refl-Removing : (sid : Text) (ks : List Text) (t : List Row) → Removing sid ks t t
refl-Removing sid ks t = record {
  unique = λ h. h;
  stays = λ key no_member. refl;
  others = λ other key ne. refl;
}

pub keep-Removing :
    (sid : Text) (ks some_keys : List Text) (t u : List Row)
    → ((k : Text) → member k some_keys ≡ true → member k ks ≡ true)
    → Removing sid ks t u
    → Removing sid ks t (keep (λ r. not (is_in sid some_keys r)) u)
keep-Removing sid ks some_keys t u sub w = record {
  unique = λ h. keep-Unique sid some_keys u (w.unique h);
  stays = λ key absent. ground (
    arith,
    select-keep sid some_keys u sid key,
    sub key,
    w.stays key absent,
    Bool-cases (member key some_keys),
  );
  others =
      λ other key ne. ground (arith, select-keep sid some_keys u other key, w.others other key ne);
}

-- When all are removed at last, these rows are gone and no others.
pub select-removed :
    (sid : Text) (ks : List Text) (t u : List Row) (key : Text)
    → Removing sid ks t u
    → select sid key (keep (λ r. not (is_in sid ks r)) u)
      ≡ (if member key ks then none else select sid key t)
select-removed sid ks t u key w =
    ground (
      arith,
      select-keep sid ks u sid key,
      text_eq_refl sid,
      w.stays key,
      Bool-cases (member key ks),
    )
