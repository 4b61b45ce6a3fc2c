-- ===== src/Common/Maps.antt =====
-- `Map<string, V>` as an association list: `set` writes over the entry of its key, or adds one at
-- the end.
use Prim.Native.String.{String}
use mathlib.Core.Path.{◌≡◌, refl, ap, ◌∙◌}
use mathlib.Core.Option.{Option, none, some}
use mathlib.Core.Bool.{true, false}
use mathlib.Core.List.{List, [], ◌∷◌}
use native.Mathlib.Omega.{arith}
use text.Mathlib.Text.{◌==◌}
use text.Mathlib.TextEquality.{eq_iff}
use qodex.Common.Tests.{if◌then◌else◌}

abbrev pub Table {ℓ} : Type ℓ → Type ℓ
Table V = List (String × V)

module _ {ℓ} {V : Type ℓ} where
  unfoldable pub lookup : (key : String) (table : Table V) → Option V
  lookup key [] = none
  lookup key ((name, value) ∷ rest) = if name == key then some value else lookup key rest

  unfoldable pub remove : (key : String) (table : Table V) → Table V
  remove key [] = []
  remove key ((name, value) ∷ rest) =
      let kept = remove key rest in if name == key then kept else (name, value) ∷ kept

  unfoldable pub insert : (key : String) (value : V) (table : Table V) → Table V
  insert key value [] = (key, value) ∷ []
  insert key value ((name, old) ∷ rest) =
      if name == key then (key, value) ∷ rest else (name, old) ∷ insert key value rest

  pub lookup-remove :
      (key asked : String) (table : Table V)
      → lookup asked (remove key table) ≡ (if key == asked then none else lookup asked table)
  unfolding lookup remove
  lookup-remove key asked [] = ground arith
  lookup-remove key asked ((name, value) ∷ rest) =
      ground
        (arith, lookup-remove key asked rest, eq_iff name asked, eq_iff name key, eq_iff key asked)

  pub lookup-insert :
      (key asked : String) (value : V) (table : Table V)
      → lookup asked (insert key value table)
        ≡ (if key == asked then some value else lookup asked table)
  unfolding insert lookup
  lookup-insert key asked value [] = refl
  lookup-insert key asked value ((name, old) ∷ rest) = ground (
    arith,
    lookup-insert key asked value rest,
    eq_iff name asked,
    eq_iff name key,
    eq_iff key asked,
  )

  pub lookup-insert_same :
      (key asked : String) (value : V) (table : Table V)
      → key == asked ≡ true
      → lookup asked (insert key value table) ≡ some value
  lookup-insert_same key asked value table same =
      lookup-insert key asked value table
      ∙ ap (λ b. if b then some value else lookup asked table) same

  pub lookup-insert_other :
      (key asked : String) (value : V) (table : Table V)
      → key == asked ≡ false
      → lookup asked (insert key value table) ≡ lookup asked table
  lookup-insert_other key asked value table apart =
      lookup-insert key asked value table
      ∙ ap (λ b. if b then some value else lookup asked table) apart
