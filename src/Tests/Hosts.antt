-- ===== src/Tests/Hosts.antt =====
-- A host for the tests: its floating types hold integers.
use libpressio.Base.{Bool, not, true, ◌==◌}
use libpressio.Base.Int.{ℤ, pos, negsuc}
use libpressio.PressioOption.Host.{Host}
use libpressio.PressioOption.Decimal.{to_string, stoi}

abbrev nonzero : ℤ → Bool
nonzero (pos n) = not (n == 0)
nonzero (negsuc n) = true

abbrev pub host : Host
host = record {
  Single = ℤ;
  Double = ℤ;
  double_of_single = λ x. x;
  single_of_double = λ x. x;
  single_of_int = λ x. x;
  double_of_int = λ x. x;
  int_of_single = λ x. x;
  int_of_double = λ x. x;
  single_nonzero = nonzero;
  double_nonzero = nonzero;
  single_to_string = to_string;
  double_to_string = to_string;
  stof = stoi;
  stod = stoi;
}
