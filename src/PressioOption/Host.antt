-- ===== src/PressioOption/Host.antt =====
-- What src/pressio_option.cc takes from the platform: the two floating types with their
-- conversions. Texts of integers are the standard library's, and are defined in Decimal.antt.
use libpressio.Base.{Bool, Text}
use libpressio.Base.Int.{ℤ}

-- The outcome of `std::stod` and its relatives.
pub data Parsed {ℓ} (A : Type ℓ) : Type ℓ where
  ok : A → Parsed A
  invalid_argument out_of_range : Parsed A

-- `float` and `double`: conversions, the test against zero, printing and parsing.
pub record Host : Type 1 where
  pub Single : Type 0
  pub Double : Type 0
  pub double_of_single : Single → Double
  pub single_of_double : Double → Single
  pub single_of_int : ℤ → Single
  pub double_of_int : ℤ → Double
  pub int_of_single : Single → ℤ
  pub int_of_double : Double → ℤ
  pub single_nonzero : Single → Bool
  pub double_nonzero : Double → Bool
  pub single_to_string : Single → Text
  pub double_to_string : Double → Text
  pub stof : Text → Parsed Single
  pub stod : Text → Parsed Double
