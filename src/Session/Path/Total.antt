-- ===== src/Session/Path/Total.antt =====
-- The fuel of `buildActivePath` (packages/session-runtime/src/runtime.ts): a measure of the entries
-- that were not seen.
use qodex.Common.{
  ◌≡◌, ◌≢◌, ℕ, zero, suc, ◌≤◌, ◌<◌, String, true, false, not, Option, none, some, List, [], ◌∷◌,
  has, length, count_if, err, arith, eq_iff, Option-cases, Bool-cases, inl, inr,
}
use qodex.Session.Entries.{Entry, truthy}
use qodex.Session.Store.{has_id}
use qodex.Session.Validation.{SessionError}
use qodex.Session.Path.{by_id, find_at, parent_of, climb, build_active_path}

-- What the table answers is an entry of the ledger, under the identifier that was asked for.
pub by_id-eq-some :
    (es : List Entry) (id : String) {e : Entry}
    → by_id es id ≡ some e
    → (e.id ≡ id) × (has_id id es ≡ true)
unfolding by_id
by_id-eq-some [] id h = cc
by_id-eq-some (x ∷ es) id {e} h = elim (Option-cases (by_id es id)) [
  | inr (y, later) ↦ let (same, there) = by_id-eq-some es id later in (ground arith, ground arith)
  | inl missing ↦ ground (arith, eq_iff x.id id)
]

-- how many entries are still to be seen
unseen : List String → List Entry → ℕ
unseen seen = count_if (λ e. not (has e.id seen))

unseen-le-length : (seen : List String) (es : List Entry) → unseen seen es ≤ length es
unfolding unseen
unseen-le-length seen [] = omega arith
unseen-le-length seen (e ∷ es) = ground (arith, unseen-le-length seen es)

unseen-cons_le :
    (x : String) (seen : List String) (es : List Entry) → unseen (x ∷ seen) es ≤ unseen seen es
unfolding unseen
unseen-cons_le x seen [] = omega arith
unseen-cons_le x seen (e ∷ es) = ground (arith, unseen-cons_le x seen es)

unseen-cons :
    (x : String) (seen : List String) (es : List Entry)
    → has_id x es ≡ true
    → has x seen ≡ false
    → unseen (x ∷ seen) es < unseen seen es
unfolding unseen
unseen-cons x seen [] h k = cc
unseen-cons x seen (e ∷ es) h k =
    ground (arith, unseen-cons x seen es, unseen-cons_le x seen es, eq_iff e.id x, eq_iff x e.id)

-- the entry that the loop stands at is one of the ledger
abbrev pub IsListed : List Entry → Option Entry → Type 0
IsListed es none = Unit
IsListed es (some e) = has_id e.id es ≡ true

pub IsListed-by_id : (es : List Entry) (id : String) → IsListed es (by_id es id)
IsListed-by_id es id = elim (Option-cases (by_id es id)) [
  | inl missing ↦ rw missing tt
  | inr (e, found) ↦ let (same, there) = by_id-eq-some es id found in rw found (rw same there)
]

IsListed-find_at : (es : List Entry) (o : Option String) → IsListed es (find_at es o)
IsListed-find_at es none = tt
IsListed-find_at es (some id) = IsListed-by_id es id

pub IsListed-parent_of : (es : List Entry) (e : Entry) → IsListed es (parent_of es e)
unfolding parent_of
IsListed-parent_of es e = IsListed-find_at es (truthy e.parent_entry_id)

climb-ne-out_of_fuel :
    (fuel : ℕ) (es : List Entry) (seen : List String) (path : List Entry) (current : Option Entry)
    → IsListed es current
    → unseen seen es < fuel
    → climb fuel es seen path current ≢ err SessionError.out_of_fuel
unfolding climb
climb-ne-out_of_fuel fuel es seen path none there enough h = cc
climb-ne-out_of_fuel zero es seen path (some e) there enough h = omega arith
climb-ne-out_of_fuel (suc fuel) es seen path (some e) there enough h =
    elim (Bool-cases (has e.id seen)) [
      | inl old ↦ ground arith
      | inr new ↦
          climb-ne-out_of_fuel fuel es (e.id ∷ seen) (e ∷ path) (parent_of es e)
            (IsListed-parent_of es e) (omega (arith, unseen-cons e.id seen es there new))
            (ground arith)
    ]

-- The walk from any leaf in any ledger ends within its fuel.
pub build_active_path-ne-out_of_fuel :
    (es : List Entry) (leaf : Option String)
    → build_active_path es leaf ≢ err SessionError.out_of_fuel
unfolding build_active_path
build_active_path-ne-out_of_fuel es leaf h = elim (Option-cases (truthy leaf)) [
  | inl missing ↦ ground arith
  | inr (id, found) ↦
      climb-ne-out_of_fuel (suc (length es)) es [] [] (by_id es id) (IsListed-by_id es id)
        (omega (arith, unseen-le-length [] es)) (rw found at h)
]
