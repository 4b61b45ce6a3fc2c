-- ===== src/Session/Store/Ledger.antt =====
-- The ledgers that the store holds (packages/session-runtime/src/in-memory-store.ts).
use qodex.Common.{
  ◌≡◌, refl, sym, ◌∙◌, ap, suc, ◌+◌, String, true, false, not, none, some, List, [], ◌∷◌, ◌++◌,
  length, last?, last?-cons, ok, arith, eqb, ◌==◌, eq_iff, >>=-eq-ok, guard, require, require-eq-ok,
  length-append, subst, Bool-cases, inl, inr, ◌>>◌,
}
use mathlib.Core.List.{append_assoc, append-nil}
use qodex.Common.Maps.{Table, lookup, insert, lookup-insert, lookup-remove}
use qodex.Session.Entries.{Entry}
use qodex.Session.Validation.{Checks, SessionRecord, SessionError, validate_session, validate_entry}
use qodex.Session.Store.{
  Store, Mutation, empty, mutate, has_id, parent_known, next_sequence, create_session, append_entry,
  delete_session,
}

-- `e` may come after the entries `past` of the session `sid`
abbrev IsNext : String → List Entry → Entry → Type 0
IsNext sid past e =
    (e.session_id ≡ sid)
    × (has_id e.id past ≡ false)
    × (e.sequence ≡ suc (length past))
    × (parent_known e.parent_entry_id past ≡ true)

abbrev IsLedger : String → List Entry → List Entry → Type 0
IsLedger sid past [] = Unit
IsLedger sid past (e ∷ es) = IsNext sid past e × IsLedger sid (past ++ e ∷ []) es

-- Every ledger of the store numbers its entries from 1 without a gap, gives each an identifier
-- that no earlier one has, and has a parent for each among the earlier ones, or none.
pub record IsWellFormed (st : Store) : Type 0 where
  pub ledgers :
      (sid : String) (es : List Entry) → lookup sid st.entries ≡ some es → IsLedger sid [] es

IsLedger-append :
    (sid : String) (past es : List Entry) (e : Entry)
    → IsLedger sid past es
    → IsNext sid (past ++ es) e
    → IsLedger sid past (es ++ e ∷ [])
IsLedger-append sid past [] e h n = (subst (λ l. IsNext sid l e) (append-nil past) n, tt)
IsLedger-append sid past (x ∷ es) e (first, h) n = (
  first,
  IsLedger-append sid (past ++ x ∷ []) es e h
      (subst (λ l. IsNext sid l e) (sym (append_assoc past (x ∷ []) es)) n),
)

last-sequence :
    (sid : String) (past es : List Entry) (e : Entry)
    → IsLedger sid past es
    → last? es ≡ some e
    → e.sequence ≡ length past + length es
last-sequence sid past [] e h k = cc
last-sequence sid past (x ∷ []) e ((_, _, n, _), _) k = ground arith
last-sequence sid past (x ∷ y ∷ es) e (_, h) k =
    omega (arith, last-sequence sid (past ++ x ∷ []) (y ∷ es) e h k, length-append past (x ∷ []))

next_sequence-eq-length :
    (sid : String) (es : List Entry) → IsLedger sid [] es → next_sequence es ≡ suc (length es)
unfolding next_sequence
next_sequence-eq-length sid [] h = refl
next_sequence-eq-length sid (x ∷ es) h =
    let (y, found) = last?-cons x es in
    let n = last-sequence sid [] (x ∷ es) y h found in ground arith

insert-IsLedger :
    (k sid : String) (v es : List Entry) (m : Table (List Entry))
    → ((j : String) (l : List Entry) → lookup j m ≡ some l → IsLedger j [] l)
    → IsLedger k [] v
    → lookup sid (insert k v m) ≡ some es
    → IsLedger sid [] es
insert-IsLedger k sid v es m old new found = elim (Bool-cases (k == sid)) [
  | inl same ↦
      let at : k ≡ sid = (eq_iff k sid).0 same in
      let held : v ≡ es = ground (arith, lookup-insert k sid v m) in
      subst (λ j. IsLedger j [] es) at (subst (IsLedger k []) held new)
  | inr apart ↦ old sid es (ground (arith, lookup-insert k sid v m))
]

module _ (c : Checks) where
  pub create_session_inv :
      (session : SessionRecord) (first : Entry) (st st' : Store)
      → create_session c session first st ≡ ok st'
      → (lookup session.id st.sessions ≡ none)
        × (first.session_id ≡ session.id)
        × (first.sequence ≡ 1)
        × (first.parent_entry_id ≡ none)
        × (st' ≡ record st {
          sessions = insert session.id session st.sessions;
          entries = insert session.id (first ∷ []) st.entries;
        })
  unfolding create_session
  create_session_inv session first st st' h =
      let (_, _, h₁) = >>=-eq-ok (validate_session c session) _ h in
      let (_, _, h₂) = >>=-eq-ok (validate_entry c first) _ h₁ in
      ground (arith, eq_iff first.session_id session.id)

  append_tail :
      (session : SessionRecord) (es : List Entry) (e : Entry) (m : Mutation) (st st' : Store)
      → (guard (not (has_id e.id es)) SessionError.entry_exists
          >> (guard (eqb e.sequence (next_sequence es)) SessionError.not_append_only
              >> (guard (parent_known e.parent_entry_id es) SessionError.parent_not_found
                  >> ok (record st {
                    entries = insert e.session_id (es ++ e ∷ []) st.entries;
                    sessions = insert session.id (mutate session m) st.sessions;
                  }))))
        ≡ ok st'
      → (has_id e.id es ≡ false)
        × (e.sequence ≡ next_sequence es)
        × (parent_known e.parent_entry_id es ≡ true)
        × (st' ≡ record st {
          entries = insert e.session_id (es ++ e ∷ []) st.entries;
          sessions = insert session.id (mutate session m) st.sessions;
        })
  append_tail session es e m st st' h = ground arith

  pub append_entry_inv :
      (e : Entry) (m : Mutation) (st st' : Store)
      → append_entry c e m st ≡ ok st'
      → (session : SessionRecord) × (es : List Entry) × (lookup e.session_id st.sessions
          ≡ some session)
        × (lookup e.session_id st.entries ≡ some es)
        × (has_id e.id es ≡ false)
        × (e.sequence ≡ next_sequence es)
        × (parent_known e.parent_entry_id es ≡ true)
        × (st' ≡ record st {
          entries = insert e.session_id (es ++ e ∷ []) st.entries;
          sessions = insert session.id (mutate session m) st.sessions;
        })
  unfolding append_entry
  append_entry_inv e m st st' h =
      let (_, _, h₁) = >>=-eq-ok (validate_entry c e) _ h in
      let (session, k, h₂) =
        >>=-eq-ok (require (lookup e.session_id st.sessions) SessionError.session_not_found) _ h₁ in
      let (es, l, h₃) =
        >>=-eq-ok (require (lookup e.session_id st.entries) SessionError.session_not_found) _ h₂ in
      let (fresh, number, known, after) = append_tail session es e m st st' h₃ in
      (
        session,
        es,
        require-eq-ok _ SessionError.session_not_found k,
        require-eq-ok _ SessionError.session_not_found l,
        fresh,
        number,
        known,
        after,
      )

  -- A session that is created has a well-formed ledger of one entry.
  pub create_session-IsWellFormed :
      (session : SessionRecord) (first : Entry) (st st' : Store)
      → IsWellFormed st
      → create_session c session first st ≡ ok st'
      → IsWellFormed st'
  create_session-IsWellFormed session first st st' w h =
      let (_, owner, number, root, after) = create_session_inv session first st st' h in
      let one : IsLedger session.id [] (first ∷ []) =
        ((owner, refl, number, ap (λ o. parent_known o []) root), tt) in
      subst IsWellFormed (sym after) (record {
        ledgers = λ sid es found.
            insert-IsLedger session.id sid (first ∷ []) es st.entries w.ledgers one found;
      })

  pub append_entry-IsWellFormed :
      (e : Entry) (m : Mutation) (st st' : Store)
      → IsWellFormed st
      → append_entry c e m st ≡ ok st'
      → IsWellFormed st'
  append_entry-IsWellFormed e m st st' w h =
      let (_, past, _, held, fresh, number, known, after) = append_entry_inv e m st st' h in
      let old = w.ledgers e.session_id past held in
      let n : IsNext e.session_id past e =
        (refl, fresh, number ∙ next_sequence-eq-length e.session_id past old, known) in
      subst IsWellFormed (sym after) (record {
        ledgers = λ sid es found.
            insert-IsLedger e.session_id sid (past ++ e ∷ []) es st.entries w.ledgers
              (IsLedger-append e.session_id [] past e old n) found;
      })

-- Deleting a session leaves the ledgers of the others.
delete_session-IsWellFormed :
    (id : String) (st : Store) → IsWellFormed st → IsWellFormed (delete_session id st).0
unfolding delete_session
delete_session-IsWellFormed id st w = record {
  ledgers = λ sid es found. w.ledgers sid es (ground (arith, lookup-remove id sid st.entries));
}

pub IsWellFormed-empty : IsWellFormed empty
IsWellFormed-empty = record { ledgers = λ sid es found. absurd (unfold lookup in ground arith) }
