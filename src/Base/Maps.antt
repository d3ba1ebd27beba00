-- ===== src/Base/Maps.antt =====
-- std::unordered_map and std::map, as association lists over keys with an equality.
use mprpc_advanced_z.Base.Tests.{KeyEq, ◌==◌, if◌then◌else◌}
use mathlib.Core.Path.{◌≡◌, refl}
use mathlib.Core.List.{List, [], ◌∷◌}
use mathlib.Core.Option.{Option, none, some}
use native.Mathlib.Omega.{arith}

abbrev pub Map {ℓ κ} : Type ℓ → Type κ → Type (ℓ ⊔ κ)
Map K V = List (K × V)

module _ {ℓ κ} {K : Type ℓ} {V : Type κ} ⦃e : KeyEq K⦄ where
  -- `find(k)`
  unfoldable pub find : K → Map K V → Option V
  find k [] = none
  find k ((j, v) ∷ m) = if j == k then some v else find k m

  -- `m[k] = v`
  unfoldable pub assign : K → V → Map K V → Map K V
  assign k v [] = (k, v) ∷ []
  assign k v ((j, w) ∷ m) = if j == k then (j, v) ∷ m else (j, w) ∷ assign k v m

  -- `erase(k)`
  unfoldable pub erase : K → Map K V → Map K V
  erase k [] = []
  erase k ((j, w) ∷ m) = if j == k then erase k m else (j, w) ∷ erase k m

  pub find-assign :
      (k j : K) (v : V) (m : Map K V)
      → find j (assign k v m) ≡ (if k == j then some v else find j m)
  unfolding find assign
  find-assign k j v [] = refl
  find-assign k j v ((i, w) ∷ m) =
      ground
        (arith, e.same_key_iff k j, e.same_key_iff i k, e.same_key_iff i j, find-assign k j v m)

  pub find-erase :
      (k j : K) (m : Map K V) → find j (erase k m) ≡ (if k == j then none else find j m)
  unfolding find erase
  find-erase k j [] = ground arith
  find-erase k j ((i, w) ∷ m) =
      ground (arith, e.same_key_iff k j, e.same_key_iff i k, e.same_key_iff i j, find-erase k j m)

  -- `insert({k, v})` keeps the entry that is there.
  unfoldable pub insert_new : K → V → Map K V → Map K V
  insert_new k v m = elim (find k m) [ none ↦ assign k v m | some _ ↦ m ]

  pub find-insert_new :
      (k j : K) (v : V) (m : Map K V)
      → find j (insert_new k v m)
        ≡ (elim (find k m) [ none ↦ (if k == j then some v else find j m) | some _ ↦ find j m ])
  unfolding insert_new
  find-insert_new k j v m = ground (arith, find-assign k j v m)

  pub find-insert_new_free :
      (k j : K) (v : V) (m : Map K V)
      → find k m ≡ none
      → find j (insert_new k v m) ≡ (if k == j then some v else find j m)
  unfolding insert_new
  find-insert_new_free k j v m h = ground (arith, find-assign k j v m)
