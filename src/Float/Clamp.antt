-- ===== src/Float/Clamp.antt =====
-- The two ways in which the program limits a value to a range, by the order of the tests.
use log_generator.Float.{Float64}
use log_generator.Prelude.{arith, false, if◌then◌else◌, ◌≡◌}

module _ {F : Type 0} (fl : Float64 F) where
  abbrev pub low_first : F → F → F → F
  low_first lo hi x = if fl.lt x lo then lo else if fl.lt hi x then hi else x

  abbrev pub high_first : F → F → F → F
  high_first lo hi x = if fl.lt hi x then hi else if fl.lt x lo then lo else x

  -- Neither below `lo` nor above `hi`.
  abbrev pub Within : F → F → F → Type 0
  Within lo hi x = (fl.lt x lo ≡ false) × (fl.lt hi x ≡ false)

  pub low_first-Within :
      (lo hi x : F)
      → fl.lt lo lo ≡ false
      → fl.lt hi hi ≡ false
      → fl.lt hi lo ≡ false
      → Within lo hi (low_first lo hi x)
  low_first-Within lo hi x a b c = ground arith

  pub high_first-Within :
      (lo hi x : F)
      → fl.lt lo lo ≡ false
      → fl.lt hi hi ≡ false
      → fl.lt hi lo ≡ false
      → Within lo hi (high_first lo hi x)
  high_first-Within lo hi x a b c = ground arith
