-- ===== src/Base/Maps.antt =====
-- Go maps with string keys, as functions; a key that is not in the map gives none.
use mathlib.Core.Path.{◌≡◌}
use mathlib.Core.Logic.{◌≢◌}
use mathlib.Core.Option.{Option}
use native.Mathlib.Omega.{arith}
use mailschleuse.Base.Tests.{if◌then◌else◌}
use mailschleuse.Base.Text.{Bytes, str_eq, str_eq_refl, eq_of_str_eq}

abbrev pub Dict {ℓ} : Type ℓ → Type ℓ
Dict V = Bytes → Option V

module _ {ℓ} {V : Type ℓ} where
  -- `m[k] = v` for `some v`, and `delete(m, k)` for `none`.
  abbrev pub update : Dict V → Bytes → Option V → Dict V
  update m k v j = if str_eq k j then v else m j

  pub update_self : (m : Dict V) (k : Bytes) (v : Option V) → update m k v k ≡ v
  update_self m k v = ground (arith, str_eq_refl k)

  -- The later of two updates of one key decides.
  pub update_twice :
      (m : Dict V) (k : Bytes) (v w : Option V) → update (update m k v) k w ≡ update m k w
  update_twice m k v w =
      let at_key : (j : Bytes) → update (update m k v) k w j ≡ update m k w j = λ j. ground arith in
      λ i j. at_key j i

  pub update_ne : (m : Dict V) (k j : Bytes) (v : Option V) → k ≢ j → update m k v j ≡ m j
  update_ne m k j v h = ground (arith, eq_of_str_eq k j)
