-- ===== src/Runtime/Compacting.antt =====
-- crates/santi-runtime/src/session/compact.rs: what a compact that succeeds gives.
use santi.Store.{SessionRow}
use santi.Base.{
  ℕ, ◌≤◌, String, false, ltb, ◌≡◌, refl, ◌∙◌, some, List, ◌∷◌, find_by, last?, map, arith,
  Bool-cases, Option-cases, inl, inr,
}
use santi.Base.Texts.{trim, is_blank}
use santi.Base.Exec.{Result, ok, err}
use santi.Model.Error.{Error}
use santi.Model.Session.{Compact, SoulSession, SessionMessage}
use santi.Lock.{acquire, holds}
use santi.Lock.Keys.{taken_and_given_back}
use santi.Store.{Db}
use santi.Store.Mapping.{map_session_message_row}
use santi.Store.Sessions.{get_session, list_messages, has_id, session_rows}
use santi.Store.Souls.{acquire_soul_session}
use santi.Runtime.{World, send_key}
use santi.Runtime.Compacts.{
  CompactRequest, CompactIds, compact_under, execute_compact, refuse, unwrap_or,
}
use santi.Runtime.Writing.{write_compact-Written}

module _ (soul_id : String) (ids : CompactIds) (request : CompactRequest) where
  abbrev key_of : String
  key_of = send_key request.session_id

  abbrev messages_of : Db → List SessionMessage
  messages_of s = map map_session_message_row (session_rows request.session_id s)

  -- A compact that succeeded.
  pub record Done (w : World) (c : Compact) (w' : World) : Type 0 where
    pub free : holds w.held key_of ≡ false
    pub given_back : w'.held ≡ w.held
    pub not_blank : is_blank request.summary ≡ false
    pub same_summary : c.summary ≡ trim request.summary
    pub same_start : c.start_session_seq ≡ unwrap_or request.start_session_seq 1
    pub in_order : c.start_session_seq ≤ c.end_session_seq
    pub last_message : SessionMessage
    pub has_last : last? (messages_of w.db) ≡ some last_message
    pub same_end :
        c.end_session_seq ≡ unwrap_or request.end_session_seq last_message.relation.session_seq

  module _ (w w' : World) (c : Compact) (h : execute_compact soul_id ids request w ≡ (ok c, w'))
      (f : holds w.held key_of ≡ false) (b : is_blank request.summary ≡ false) (row : SessionRow)
      (r : find_by (has_id request.session_id) w.db.sessions ≡ some row) (m : SessionMessage)
      (l : last? (messages_of w.db) ≡ some m) where
    abbrev end_of : ℕ
    end_of = unwrap_or request.end_session_seq m.relation.session_seq

    from_acquire :
        (x : Result Error SoulSession × Db)
        → acquire_soul_session soul_id row.id w.db ≡ x
        → Done w c w'
    unfolding execute_compact compact_under acquire get_session list_messages refuse
    from_acquire (err e, db1) a = absurd (ground (arith, rw (f, b, r, l, a) at h))
    from_acquire (ok soul_session, db1) a =
        elim (Bool-cases (ltb end_of (unwrap_or request.start_session_seq 1))) [
          | inl o ↦ absurd (ground (arith, rw (f, b, r, l, a, o) at h))
          | inr o ↦
              let held = record w { db = db1; held = key_of ∷ w.held } in
              let q = rw (f, b, r, l, a, o) at h in
              let written =
                write_compact-Written ids request soul_session
                  (unwrap_or request.start_session_seq 1) end_of key_of held w' c q in
              record {
                free = f;
                given_back = written.given_back ∙ taken_and_given_back key_of w.held f;
                not_blank = b;
                same_summary = written.same_summary;
                same_start = written.same_start;
                in_order = ground (arith, o, written.same_start, written.same_end);
                last_message = m;
                has_last = l;
                same_end = written.same_end;
              }
        ]

  -- A compact that succeeds found the session's key free and gives it back, has the trimmed
  -- summary, which is not blank, and a range in order, which by default goes from 1 to the
  -- session's last message.
  pub execute_compact-Done :
      (w w' : World) (c : Compact)
      → execute_compact soul_id ids request w ≡ (ok c, w')
      → Done w c w'
  unfolding execute_compact compact_under acquire get_session list_messages refuse
  execute_compact-Done w w' c h = elim (Bool-cases (holds w.held key_of)) [
    | inl f ↦ absurd (ground (arith, rw f at h))
    | inr f ↦ elim (Bool-cases (is_blank request.summary)) [
      | inl b ↦ absurd (ground (arith, rw (f, b) at h))
      | inr b ↦ elim (Option-cases (find_by (has_id request.session_id) w.db.sessions)) [
        | inl r ↦ absurd (ground (arith, rw (f, b, r) at h))
        | inr (row, r) ↦ elim (Option-cases (last? (messages_of w.db))) [
          | inl l ↦ absurd (ground (arith, rw (f, b, r, l) at h))
          | inr (m, l) ↦
              from_acquire w w' c h f b row r m l (acquire_soul_session soul_id row.id w.db) refl
        ]
      ]
    ]
  ]
