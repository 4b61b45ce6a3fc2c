-- ===== src/Session/Path/Append.antt =====
-- How the active path grows when an entry is appended below one of its ledger
-- (`buildActivePath` of packages/session-runtime/src/runtime.ts).
use qodex.Common.{
  ◌≡◌, refl, ap, ℕ, zero, suc, String, true, false, not, ◌&&◌, ◌||◌, Option, none, some, List, [],
  ◌∷◌, ◌++◌, has, length, ok, arith, eq_iff, eq_refl, ◌==◌, Option-cases, Bool-cases, inl, inr,
  ok-injective, guard, require, if◌then◌else◌, length-append, >>=-eq-ok, guard-not-eq-ok,
}
use qodex.Session.Entries.{Entry, truthy}
use qodex.Session.Projector.State.{is_missing}
use qodex.Session.Store.{has_id}
use qodex.Session.Validation.{SessionError}
use qodex.Session.Path.{by_id, find_at, parent_of, climb, build_active_path}
use qodex.Session.Path.Total.{by_id-eq-some, IsListed, IsListed-parent_of, IsListed-by_id}

by_id-append :
    (es : List Entry) (x : Entry) (id : String)
    → by_id (es ++ x ∷ []) id ≡ (if x.id == id then some x else by_id es id)
unfolding by_id
by_id-append [] x id = ground arith
by_id-append (e ∷ es) x id = ground (arith, by_id-append es x id)

has-append :
    (a : String) (xs : List String) (b : String) → has a (xs ++ b ∷ []) ≡ (has a xs || b == a)
has-append a [] b = ground arith
has-append a (x ∷ xs) b = ground (arith, has-append a xs b)

-- An identifier of the ledger is not the new one.
listed-ne :
    (es : List Entry) (x : Entry) (id : String)
    → has_id x.id es ≡ false
    → has_id id es ≡ true
    → (x.id == id) ≡ false
listed-ne es x id fresh there = elim (Bool-cases (x.id == id)) [
  | inl same ↦
      let e : x.id ≡ id = (eq_iff x.id id).0 same in cc (fresh, there, ap (λ a. has_id a es) e)
  | inr apart ↦ apart
]

by_id-of_has_id :
    (es : List Entry) (id : String) → has_id id es ≡ true → (e : Entry) × (by_id es id ≡ some e)
unfolding by_id
by_id-of_has_id [] id h = cc
by_id-of_has_id (x ∷ es) id h = elim (Option-cases (by_id es id)) [
  | inr (y, later) ↦ (y, rw later)
  | inl missing ↦ elim (Bool-cases (x.id == id)) [
    | inl here ↦ (x, ground arith)
    | inr apart ↦ let (y, later) = by_id-of_has_id es id (ground arith) in (y, cc)
  ]
]

module _ (es : List Entry) (x : Entry) (fresh : has_id x.id es ≡ false) where
  find_at-append :
      (o : Option String)
      → (not (is_missing o) && is_missing (find_at es o)) ≡ false
      → find_at (es ++ x ∷ []) o ≡ find_at es o
  find_at-append none h = refl
  find_at-append (some id) h = elim (Option-cases (by_id es id)) [
    | inl missing ↦ ground arith
    | inr (y, found) ↦
        let (same, there) = by_id-eq-some es id found in
        rw by_id-append (rw (listed-ne es x id fresh there))
  ]

  climb-append :
      (fuel : ℕ) (seen : List String) (path : List Entry) (current : Option Entry) {r : List Entry}
      → IsListed es current
      → climb fuel es seen path current ≡ ok r
      → climb fuel (es ++ x ∷ []) (seen ++ x.id ∷ []) (path ++ x ∷ []) current ≡ ok (r ++ x ∷ [])
  unfolding climb
  climb-append fuel seen path none there h = ap (λ l. ok (l ++ x ∷ [])) (ok-injective h)
  climb-append zero seen path (some e) there h = cc
  climb-append (suc fuel) seen path (some e) there h =
      let (_, h₀, h₁) = >>=-eq-ok (guard (not (has e.id seen)) SessionError.parent_cycle) _ h in
      let (_, h₂, h₃) =
        >>=-eq-ok
          (guard (not (not (is_missing (truthy e.parent_entry_id)) && is_missing (parent_of es e)))
            SessionError.parent_missing)
          _ h₁ in
      let new = guard-not-eq-ok _ SessionError.parent_cycle h₀ in
      let apart = listed-ne es x e.id fresh there in
      let known = guard-not-eq-ok _ SessionError.parent_missing h₂ in
      let same : parent_of (es ++ x ∷ []) e ≡ parent_of es e =
        unfold parent_of in find_at-append (truthy e.parent_entry_id) (unfold parent_of in known) in
      let rest =
        climb-append fuel (e.id ∷ seen) (e ∷ path) (parent_of es e) (IsListed-parent_of es e) h₃ in
      rw (has-append, new, apart, same, known) rest

  parent_of-last :
      (p : String)
      → x.parent_entry_id ≡ some p
      → has_id p es ≡ true
      → (p == "") ≡ false
      → parent_of (es ++ x ∷ []) x ≡ by_id es p
  unfolding parent_of
  parent_of-last p below there text =
      rw (below, truthy, text, by_id-append, listed-ne es x p fresh there)

  climb-first :
      (p : String) (path : List Entry)
      → x.parent_entry_id ≡ some p
      → has_id p es ≡ true
      → (p == "") ≡ false
      → climb (suc (length es)) es [] [] (by_id es p) ≡ ok path
      → climb (suc (suc (length es))) (es ++ x ∷ []) [] [] (some x) ≡ ok (path ++ x ∷ [])
  unfolding climb
  climb-first p path below there text h =
      let parent = parent_of-last p below there text in
      let rest = climb-append (suc (length es)) [] [] (by_id es p) (IsListed-by_id es p) h in
      let (y, found) = by_id-of_has_id es p there in ground (arith, parent, rest, found)

  -- An entry with a new identifier, whose parent is an entry of the ledger that has a path, has the
  -- parent's path followed by itself for its own; neither identifier is the empty text.
  pub build_active_path-append :
      (p : String) (path : List Entry)
      → x.parent_entry_id ≡ some p
      → has_id p es ≡ true
      → (p == "") ≡ false
      → (x.id == "") ≡ false
      → build_active_path es (some p) ≡ ok path
      → build_active_path (es ++ x ∷ []) (some x.id) ≡ ok (path ++ x ∷ [])
  unfolding build_active_path
  build_active_path-append p path below there text id h =
      let (_, at, h₁) = >>=-eq-ok (require (truthy (some p)) SessionError.leaf_missing) _ h in
      let bigger : length (es ++ x ∷ []) ≡ suc (length es) =
        omega (arith, length-append es (x ∷ [])) in
      let h₂ : climb (suc (length es)) es [] [] (by_id es p) ≡ ok path = rw text at h in
      rw (id, by_id-append, eq_refl, bigger) (climb-first p path below there text h₂)
