-- ===== src/Adapters/Table/Client/Sessions.antt =====
-- What the operations on whole sessions leave and return, which the adapters of a table have in
-- common.
use baileys_session_manager.Base.{
  ℕ, ◌≡◌, ◌↔◌, text_eq, ap, ◌∙◌, Bool, true, not, none, List, [], keep, Text, arith,
}
use baileys_session_manager.Base.Exec.{ok, Exec}
use baileys_session_manager.Adapter.{HasRow, member}
use baileys_session_manager.Utils.Retry.{RetryOptions}
use baileys_session_manager.Adapters.Base.{base_with_retry}
use baileys_session_manager.Adapters.Table.{Row, select, distinct_sessions, to_optional}
use baileys_session_manager.Adapters.Table.Requests.{Request, Answer, answer, Serves}
use baileys_session_manager.Adapters.Table.Client.{
  request, delete_session, list_sessions, session_exists,
}
use baileys_session_manager.Adapters.Table.Client.Steps.{Done, Done-map, delete_session-Done}
use baileys_session_manager.Adapters.Table.Sessions.{
  has_session, has_session_iff, member-distinct_sessions, select-cleared, Clearing, keep-Clearing,
}
use baileys_session_manager.Adapters.Table.Client.Reads.{
  visible, Reads-ok, list_sessions-Reads, session_exists-Reads,
}
use baileys_session_manager.Adapters.Table.Client.Writes.{Done-ok, Done-always}

module _ {C : Type 0} (attempt : Request → Exec C Answer) (sleep : ℕ → C → C) (clock : C → ℕ)
    (options : RetryOptions) (table : C → List Row) (serves : Serves attempt sleep table) where
  delete_session-Writes :
      (sid : Text) (c : C)
      → Done
          (Clearing sid (table c))
          (λ _. tt {0})
          (keep (λ r. not (text_eq r.session_id sid)))
          (delete_session attempt sleep clock options sid c).0
          (table (delete_session attempt sleep clock options sid c).1)
  unfolding delete_session request
  delete_session-Writes sid c =
      let q = Request.delete_session sid in
      Done-map table (Clearing sid (table c)) (answer q)
        (keep (λ r. not (text_eq r.session_id sid))) (λ _. tt {0})
        (base_with_retry sleep options (attempt q) c)
        (delete_session-Done attempt sleep table serves options sid c)

  pub delete_session-Clearing :
      (sid : Text) (c : C)
      → Clearing sid (table c) (table (delete_session attempt sleep clock options sid c).1)
  delete_session-Clearing sid c =
      Done-always attempt sleep clock options table serves (Clearing sid (table c))
        (keep (λ r. not (text_eq r.session_id sid)))
        (delete_session attempt sleep clock options sid c)
        (λ u w.
          keep-Clearing sid (λ r. not (text_eq r.session_id sid)) (table c) u
            (λ r ne. ground (arith, ne)) w)
        (delete_session-Writes sid c)

  pub delete_session_law :
      (sid : Text) (c : C)
      → (delete_session attempt sleep clock options sid c).0 ≡ ok tt
      → (key : Text)
      → visible table (delete_session attempt sleep clock options sid c).1 sid key ≡ none
  unfolding to_optional
  delete_session_law sid c h key =
      let (u, w, left) =
        Done-ok attempt sleep clock options table serves (Clearing sid (table c))
          (keep (λ r. not (text_eq r.session_id sid)))
          (delete_session attempt sleep clock options sid c) (delete_session-Writes sid c) h in
      ap (λ l. to_optional (select sid key l)) left ∙ ap to_optional (select-cleared sid u key)

  pub list_sessions_law :
      (c : C) (ns : List Text)
      → (list_sessions attempt sleep clock options c).0 ≡ ok ns
      → (sid : Text) → (member sid ns ≡ true) ↔ HasRow (visible table) c sid
  unfolding member
  list_sessions_law c ns h sid =
      let same : member sid ns ≡ has_session sid (table c) =
        ap (member sid) (
          Reads-ok table (distinct_sessions []) c (list_sessions attempt sleep clock options c) ns
            (list_sessions-Reads attempt sleep clock options table serves c) h)
        ∙ member-distinct_sessions sid [] (table c) in
      rw same (has_session_iff sid (table c))

  pub session_exists_law :
      (sid : Text) (c : C) (there : Bool)
      → (session_exists attempt sleep clock options sid c).0 ≡ ok there
      → (there ≡ true) ↔ HasRow (visible table) c sid
  session_exists_law sid c there h =
      let same : there ≡ has_session sid (table c) =
        Reads-ok table (has_session sid) c (session_exists attempt sleep clock options sid c) there
          (session_exists-Reads attempt sleep clock options table serves sid c) h in
      rw same (has_session_iff sid (table c))
