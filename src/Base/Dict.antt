-- ===== src/Base/Dict.antt =====
-- A Python dict whose keys are numbers, in insertion order. Proofs go by the laws.
use Prim.Native.Nat.{ℕ}
use mathlib.Core.Path.{◌≡◌, refl}
use mathlib.Core.Bool.{Bool}
use mathlib.Core.Option.{Option, none, some}
use mathlib.Core.List.{List, [], ◌∷◌}
use native.Mathlib.Omega.{arith}
use rmake.Base.Tests.{if◌then◌else◌, ◌==◌, is_some}

abbrev pub Dict {ℓ} : Type ℓ → Type ℓ
Dict V = List (ℕ × V)

module _ {ℓ} {V : Type ℓ} where
  -- `d.get(k)`
  unfoldable pub lookup : ℕ → Dict V → Option V
  lookup k [] = none
  lookup k ((j, v) ∷ d) = if k == j then some v else lookup k d

  -- `k in d`
  abbrev pub contains : ℕ → Dict V → Bool
  contains k d = is_some (lookup k d)

  -- `d[k] = v`
  unfoldable pub insert : ℕ → V → Dict V → Dict V
  insert k v [] = (k, v) ∷ []
  insert k v ((j, w) ∷ d) = if k == j then (k, v) ∷ d else (j, w) ∷ insert k v d

  -- `d.pop(k, None)`. Every entry of the key goes; a real dict has at most one.
  unfoldable pub erase : ℕ → Dict V → Dict V
  erase k [] = []
  erase k ((j, w) ∷ d) = let rest = erase k d in if k == j then rest else (j, w) ∷ rest

  -- `d.setdefault(k, v)`, the state after it
  unfoldable pub set_default : ℕ → V → Dict V → Dict V
  set_default k v d = if contains k d then d else insert k v d

  unfoldable pub values : Dict V → List V
  values [] = []
  values ((k, v) ∷ d) = v ∷ values d

  unfoldable pub keys : Dict V → List ℕ
  keys [] = []
  keys ((k, v) ∷ d) = k ∷ keys d

  pub lookup-nil : (k : ℕ) → lookup k [] ≡ none
  unfolding lookup
  lookup-nil k = refl

  pub lookup-insert :
      (j k : ℕ) (v : V) (d : Dict V)
      → lookup j (insert k v d) ≡ (if j == k then some v else lookup j d)
  unfolding lookup insert
  lookup-insert j k v [] = refl
  lookup-insert j k v (_ ∷ d) = ground (arith, lookup-insert j k v d)

  pub lookup-erase :
      (j k : ℕ) (d : Dict V) → lookup j (erase k d) ≡ (if j == k then none else lookup j d)
  unfolding lookup erase
  lookup-erase j k [] = ground arith
  lookup-erase j k (_ ∷ d) = ground (arith, lookup-erase j k d)

  pub lookup-set_default :
      (j k : ℕ) (v : V) (d : Dict V)
      → lookup j (set_default k v d)
        ≡ (if j == k then (if contains k d then lookup k d else some v) else lookup j d)
  unfolding set_default
  lookup-set_default j k v d = ground (arith, lookup-insert j k v d)

  -- No key stands twice, as in every real dict.
  abbrev pub NodupKeys : Dict V → Type ℓ
  NodupKeys [] = Unit
  NodupKeys ((k, _) ∷ d) = (lookup k d ≡ none) × NodupKeys d

  pub insert-NodupKeys : (k : ℕ) (v : V) (d : Dict V) → NodupKeys d → NodupKeys (insert k v d)
  unfolding insert lookup
  insert-NodupKeys k v [] u = (refl, tt)
  insert-NodupKeys k v ((j, w) ∷ d) u =
      ground (arith, insert-NodupKeys k v d, lookup-insert j k v d)

  pub erase-NodupKeys : (k : ℕ) (d : Dict V) → NodupKeys d → NodupKeys (erase k d)
  unfolding erase lookup
  erase-NodupKeys k [] u = u
  erase-NodupKeys k ((j, w) ∷ d) u = ground (arith, erase-NodupKeys k d, lookup-erase j k d)

  -- The entries of `d` are those of `all`.
  abbrev pub Entries : Dict V → Dict V → Type ℓ
  Entries all [] = Unit
  Entries all ((k, v) ∷ d) = (lookup k all ≡ some v) × Entries all d

  Entries-widen :
      (j : ℕ) (w : V) (all d : Dict V)
      → lookup j all ≡ none
      → Entries all d
      → Entries ((j, w) ∷ all) d
  unfolding lookup
  Entries-widen j w all [] h e = e
  Entries-widen j w all ((k, v) ∷ d) h e = ground (arith, Entries-widen j w all d)

  pub NodupKeys-Entries : (d : Dict V) → NodupKeys d → Entries d d
  unfolding lookup
  NodupKeys-Entries [] u = u
  NodupKeys-Entries ((k, v) ∷ d) u = ground (arith, Entries-widen k v d d, NodupKeys-Entries d)
