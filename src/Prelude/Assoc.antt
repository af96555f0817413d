-- ===== src/Prelude/Assoc.antt =====
-- A Python dict as an association list.
use mathlib.Core.Path.{◌≡◌, refl}
use mathlib.Core.Logic.{◌↔◌}
use mathlib.Core.Bool.{Bool, true, false}
use mathlib.Core.Option.{Option, none, some}
use mathlib.Core.List.{List, [], ◌∷◌}
use native.Mathlib.Omega.{arith}
use wecom_ai_agent.Prelude.Tests.{if◌then◌else◌}

module _ {K V : Type 0} (eq : K → K → Bool) where
  -- `d.get(key)`
  abbrev pub find : K → List (K × V) → Option V
  find key [] = none
  find key ((k, v) ∷ rest) = if eq k key then some v else find key rest

  -- `d[key] = value`
  abbrev pub put : K → V → List (K × V) → List (K × V)
  put key value [] = (key, value) ∷ []
  put key value ((k, v) ∷ rest) =
      if eq k key then (k, value) ∷ rest else (k, v) ∷ put key value rest

  -- `d.pop(key, None)`
  abbrev pub pop : K → List (K × V) → List (K × V)
  pop key [] = []
  pop key ((k, v) ∷ rest) = if eq k key then pop key rest else (k, v) ∷ pop key rest

  module _ (eq_iff : (j k : K) → (eq j k ≡ true) ↔ (j ≡ k)) where
    pub find-put_self :
        (key : K) (value : V) (d : List (K × V)) → find key (put key value d) ≡ some value
    find-put_self key value [] = ground (arith, eq_iff key key)
    find-put_self key value ((k, v) ∷ rest) = ground (arith, find-put_self key value rest)

    pub find-put_ne :
        (key j : K) (value : V) (d : List (K × V))
        → eq key j ≡ false
        → find j (put key value d) ≡ find j d
    find-put_ne key j value [] h = ground arith
    find-put_ne key j value ((k, v) ∷ rest) h =
        ground (arith, find-put_ne key j value rest h, eq_iff k key)

    pub find-pop_self : (key : K) (d : List (K × V)) → find key (pop key d) ≡ none
    find-pop_self key [] = refl
    find-pop_self key ((k, v) ∷ rest) = ground (arith, find-pop_self key rest)

    pub find-pop_ne :
        (key j : K) (d : List (K × V)) → eq key j ≡ false → find j (pop key d) ≡ find j d
    find-pop_ne key j [] h = refl
    find-pop_ne key j ((k, v) ∷ rest) h = ground (arith, find-pop_ne key j rest h, eq_iff k key)
