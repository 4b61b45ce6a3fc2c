-- ===== src/Session/Path.antt =====
-- `buildActivePath` of packages/session-runtime/src/runtime.ts: from a leaf up to the root, by the
-- parents. The loop takes fuel, one round for each entry and one more.
pub mod Total
pub mod Append
use qodex.Common.{
  ℕ, zero, suc, String, Bool, true, false, ◌&&◌, not, Option, none, some, List, [], ◌∷◌, ◌==◌, has,
  length, if◌then◌else◌, Result, ok, err, guard, require, ◌>>=◌, ◌>>◌,
}
use qodex.Session.Entries.{Entry, truthy}
use qodex.Session.Projector.State.{is_missing}
use qodex.Session.Validation.{SessionError}

-- `new Map(entries.map((entry) => [entry.id, entry])).get(id)`: the last entry of the identifier
unfoldable pub by_id : List Entry → String → Option Entry
by_id [] id = none
by_id (e ∷ es) id = elim (by_id es id) [
  | some later ↦ some later
  | none ↦ if e.id == id then some e else none
]

abbrev pub find_at : List Entry → Option String → Option Entry
find_at es none = none
find_at es (some id) = by_id es id

unfoldable pub parent_of : List Entry → Entry → Option Entry
parent_of es e = find_at es (truthy e.parent_entry_id)

-- the loop; `path` is kept in reverse, so the root comes out first
unfoldable pub climb :
    ℕ → List Entry → List String → List Entry → Option Entry → Result SessionError (List Entry)
climb fuel es seen path none = ok path
climb zero es seen path (some current) = err SessionError.out_of_fuel
climb (suc fuel) es seen path (some current) = do
  guard (not (has current.id seen)) SessionError.parent_cycle
  guard
      (not (not (is_missing (truthy current.parent_entry_id)) && is_missing (parent_of es current)))
      SessionError.parent_missing
  climb fuel es (current.id ∷ seen) (current ∷ path) (parent_of es current)

unfoldable pub build_active_path : List Entry → Option String → Result SessionError (List Entry)
build_active_path es leaf_id = do
  leaf ← require (truthy leaf_id) SessionError.leaf_missing
  climb (suc (length es)) es [] [] (by_id es leaf)
