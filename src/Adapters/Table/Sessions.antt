-- ===== src/Adapters/Table/Sessions.antt =====
-- The statements on the table of sessions that concern a whole session, or all of them.
use baileys_session_manager.Base.{
  ◌≡◌, ◌↔◌, refl, sym, ◌∙◌, Bool, true, false, not, ◌&&◌, none, List, [], ◌∷◌, keep, Text, text_eq,
  text_eq_iff, text_eq_refl, arith, inl, inr, Bool-cases,
}
use baileys_session_manager.Adapter.{member, is_some}
use baileys_session_manager.Adapters.Table.{
  Row, is_row, select, distinct_sessions, nonempty, to_optional,
}
use baileys_session_manager.Adapters.Table.Rows.{Unique, is_some-to_optional}

-- `WHERE session_id = ?`
abbrev pub of_session : Text → Row → Bool
of_session sid r = text_eq r.session_id sid

abbrev pub has_session : Text → List Row → Bool
has_session sid l = nonempty (keep (of_session sid) l)

-- A session of which the table has a row.
abbrev pub HasKey : Text → List Row → Type 0
HasKey sid l = (key : Text) × (is_some (to_optional (select sid key l)) ≡ true)

row_of :
    (sid : Text) (l : List Row)
    → has_session sid l ≡ true
    → (key : Text) × (is_some (select sid key l) ≡ true)
unfolding nonempty keep select is_row
row_of sid [] h = absurd (ground (arith, h))
row_of sid (r ∷ l) h = elim (Bool-cases (text_eq r.session_id sid)) [
  | inl mine ↦ (r.key, ground (arith, mine, text_eq_refl r.key))
  | inr other ↦
      let (key, there) = row_of sid l (ground (arith, other, h)) in
      (key, ground (arith, other, there))
]

of_row :
    (sid key : Text) (l : List Row) → is_some (select sid key l) ≡ true → has_session sid l ≡ true
unfolding nonempty keep select is_row
of_row sid key [] h = absurd (ground (arith, h))
of_row sid key (r ∷ l) h = ground (arith, of_row sid key l)

pub has_session_iff : (sid : Text) (l : List Row) → (has_session sid l ≡ true) ↔ HasKey sid l
has_session_iff sid l = (
  λ h. let (key, there) = row_of sid l h in (key, is_some-to_optional (select sid key l) ∙ there),
  λ (key, there). of_row sid key l (sym (is_some-to_optional (select sid key l)) ∙ there),
)

pub member-distinct_sessions :
    (sid : Text) (seen : List Text) (l : List Row)
    → member sid (distinct_sessions seen l) ≡ (not (member sid seen) && has_session sid l)
unfolding distinct_sessions nonempty keep member
member-distinct_sessions sid seen [] = ground arith
member-distinct_sessions sid seen (r ∷ l) = ground (
  arith,
  member-distinct_sessions sid seen l,
  member-distinct_sessions sid (r.session_id ∷ seen) l,
  text_eq_iff r.session_id sid,
)

-- Rows of other sessions stay.
pub select-keep_other :
    (sid : Text) (test : Row → Bool) (l : List Row) (other key : Text)
    → ((r : Row) → text_eq r.session_id sid ≡ false → test r ≡ true)
    → text_eq sid other ≡ false
    → select other key (keep test l) ≡ select other key l
unfolding select keep is_row
select-keep_other sid test [] other key spares ne = refl
select-keep_other sid test (r ∷ l) other key spares ne = ground (
  arith,
  select-keep_other sid test l other key spares ne,
  spares r,
  text_eq_iff r.session_id sid,
  text_eq_iff r.session_id other,
  text_eq_iff sid other,
)

select-keep-none :
    (test : Row → Bool) (l : List Row) (sid key : Text)
    → select sid key l ≡ none
    → select sid key (keep test l) ≡ none
unfolding select keep is_row
select-keep-none test [] sid key h = refl
select-keep-none test (r ∷ l) sid key h = ground (arith, select-keep-none test l sid key)

pub keep_test-Unique : (test : Row → Bool) (l : List Row) → Unique l → Unique (keep test l)
unfolding keep
keep_test-Unique test [] u = tt
keep_test-Unique test (r ∷ l) u =
    ground (arith, keep_test-Unique test l u.1, select-keep-none test l r.session_id r.key u.0)

-- After all its rows are deleted, a session has none.
pub select-cleared :
    (sid : Text) (l : List Row) (key : Text)
    → select sid key (keep (λ r. not (text_eq r.session_id sid)) l) ≡ none
unfolding select keep is_row
select-cleared sid [] key = refl
select-cleared sid (r ∷ l) key = ground (arith, select-cleared sid l key)

-- The rows that attempts to delete those of a session have left.
pub record Clearing (sid : Text) (t u : List Row) : Type 0 where
  pub unique : Unique t → Unique u
  pub others :
      (other key : Text) → text_eq sid other ≡ false → select other key u ≡ select other key t

pub refl-Clearing : (sid : Text) (t : List Row) → Clearing sid t t
refl-Clearing sid t = record { unique = λ h. h; others = λ other key ne. refl }

pub keep-Clearing :
    (sid : Text) (test : Row → Bool) (t u : List Row)
    → ((r : Row) → text_eq r.session_id sid ≡ false → test r ≡ true)
    → Clearing sid t u
    → Clearing sid t (keep test u)
keep-Clearing sid test t u spares w = record {
  unique = λ h. keep_test-Unique test u (w.unique h);
  others = λ other key ne. select-keep_other sid test u other key spares ne ∙ w.others other key ne;
}
