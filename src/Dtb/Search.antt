-- ===== src/Dtb/Search.antt =====
-- What a search of src/platform/dtb comes to: a value, nothing, or the end of the fuel of a loop, which
-- `Dtb.Returns` excludes.
use zheos.Common.{Option, none, some}

pub data Search {ℓ} (A : Type ℓ) : Type ℓ where
  found : A → Search A
  missing : Search A
  unfinished : Search A

module _ {ℓ} {A B : Type ℓ} where
  infixl 5 ◌>>=◌
  abbrev pub ◌>>=◌ : Search A → (A → Search B) → Search B
  found a >>= f = f a
  missing >>= f = missing
  unfinished >>= f = unfinished

module _ {ℓ} {A : Type ℓ} where
  -- `?` on an `Option`.
  abbrev pub lift : Option A → Search A
  lift none = missing
  lift (some a) = found a
