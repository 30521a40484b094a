-- ===== src/PressioOption/Numeric.antt =====
-- src/pressio_option.cc: the arithmetic types of an option, which conversions narrow
-- (is_narrowing_conversion), and `static_cast` between them.
use libpressio.Base.{
  Bool, arith, false, if◌then◌else◌, ltb, not, true, ℕ, ◌&&◌, ◌*◌, ◌-◌, ◌==◌, ◌^◌, ◌||◌, ◌≡◌,
}
use libpressio.Base.Int.{
  ℤ, pos, negsuc, wrap_signed, wrap_unsigned, InSigned, InUnsigned, wrap_signed-InSigned,
  wrap_unsigned-InUnsigned,
}
use libpressio.PressioOption.Host.{Host}

pub data NumType : Type 0 where
  bool int8 uint8 int16 uint16 int32 uint32 int64 uint64 float double : NumType

-- `sizeof`
abbrev pub size_of : NumType → ℕ
size_of bool = 1
size_of int8 = 1
size_of uint8 = 1
size_of int16 = 2
size_of uint16 = 2
size_of int32 = 4
size_of uint32 = 4
size_of int64 = 8
size_of uint64 = 8
size_of float = 4
size_of double = 8

-- `std::is_floating_point`
abbrev pub is_floating_point : NumType → Bool
is_floating_point float = true
is_floating_point double = true
is_floating_point _ = false

-- `std::is_integral`, which holds of `bool` too
abbrev pub is_integral : NumType → Bool
is_integral t = not (is_floating_point t)

-- `std::is_signed`
abbrev pub is_signed : NumType → Bool
is_signed bool = false
is_signed uint8 = false
is_signed uint16 = false
is_signed uint32 = false
is_signed uint64 = false
is_signed _ = true

abbrev ordinal : NumType → ℕ
ordinal bool = 0
ordinal int8 = 1
ordinal uint8 = 2
ordinal int16 = 3
ordinal uint16 = 4
ordinal int32 = 5
ordinal uint32 = 6
ordinal int64 = 7
ordinal uint64 = 8
ordinal float = 9
ordinal double = 10

-- `std::is_same`
abbrev pub is_same : NumType → NumType → Bool
is_same a b = ordinal a == ordinal b

-- `is_narrowing_conversion<From, To>`
unfoldable pub is_narrowing_conversion : NumType → NumType → Bool
is_narrowing_conversion from to =
    (is_floating_point from && is_integral to)
    || (is_floating_point from && is_floating_point to && ltb (size_of to) (size_of from))
    || (is_integral from && is_floating_point to)
    || (is_integral from
        && is_integral to
        && (ltb (size_of to) (size_of from)
            || (if is_signed from
                then not (is_signed to)
                else is_signed to && (size_of from == size_of to))))

-- Half the number of values of an integer type.
abbrev pub half_range : NumType → ℕ
half_range t = 2 ^ (8 * size_of t - 1)

-- What a `bool` is promoted to.
abbrev pub bit : Bool → ℤ
bit false = pos 0
bit true = pos 1

module _ (H : Host) where
  -- The values of each type.
  abbrev pub Num : NumType → Type 0
  Num bool = Bool
  Num float = H.Single
  Num double = H.Double
  Num _ = ℤ

  -- A value with its type forgotten, as an arithmetic conversion sees it.
  pub data Scalar : Type 0 where
    integer : ℤ → Scalar
    single : H.Single → Scalar
    real : H.Double → Scalar

  abbrev pub scalar : (t : NumType) → Num t → Scalar
  scalar bool b = integer (bit b)
  scalar float x = single x
  scalar double x = real x
  scalar int8 z = integer z
  scalar uint8 z = integer z
  scalar int16 z = integer z
  scalar uint16 z = integer z
  scalar int32 z = integer z
  scalar uint32 z = integer z
  scalar int64 z = integer z
  scalar uint64 z = integer z

  -- The integer that a conversion to an integer type starts from: a fraction is cut off.
  abbrev truncated : Scalar → ℤ
  truncated (integer z) = z
  truncated (single x) = H.int_of_single x
  truncated (real x) = H.int_of_double x

  abbrev is_nonzero : Scalar → Bool
  is_nonzero (integer (pos n)) = not (n == 0)
  is_nonzero (integer (negsuc n)) = true
  is_nonzero (single x) = H.single_nonzero x
  is_nonzero (real x) = H.double_nonzero x

  abbrev to_single : Scalar → H.Single
  to_single (integer z) = H.single_of_int z
  to_single (single x) = x
  to_single (real x) = H.single_of_double x

  abbrev to_double : Scalar → H.Double
  to_double (integer z) = H.double_of_int z
  to_double (single x) = H.double_of_single x
  to_double (real x) = x

  -- Conversion to `t`. An integer type keeps its low bits; a fraction out of its range, which
  -- leaves C++ undefined, is reduced too.
  unfoldable pub convert : (t : NumType) → Scalar → Num t
  convert bool s = is_nonzero s
  convert float s = to_single s
  convert double s = to_double s
  convert int8 s = wrap_signed (half_range int8) (truncated s)
  convert uint8 s = wrap_unsigned (half_range uint8) (truncated s)
  convert int16 s = wrap_signed (half_range int16) (truncated s)
  convert uint16 s = wrap_unsigned (half_range uint16) (truncated s)
  convert int32 s = wrap_signed (half_range int32) (truncated s)
  convert uint32 s = wrap_unsigned (half_range uint32) (truncated s)
  convert int64 s = wrap_signed (half_range int64) (truncated s)
  convert uint64 s = wrap_unsigned (half_range uint64) (truncated s)

  unfoldable pub static_cast : (to from : NumType) → Num from → Num to
  unfolding convert
  static_cast to from x = convert to (scalar from x)

  -- A value that its type holds.
  abbrev pub InRange : (t : NumType) → Num t → Type 0
  InRange int8 z = InSigned (half_range int8) z
  InRange uint8 z = InUnsigned (half_range uint8) z
  InRange int16 z = InSigned (half_range int16) z
  InRange uint16 z = InUnsigned (half_range uint16) z
  InRange int32 z = InSigned (half_range int32) z
  InRange uint32 z = InUnsigned (half_range uint32) z
  InRange int64 z = InSigned (half_range int64) z
  InRange uint64 z = InUnsigned (half_range uint64) z
  InRange bool z = Unit {0}
  InRange float z = Unit {0}
  InRange double z = Unit {0}

  pub convert-InRange : (t : NumType) (s : Scalar) → InRange t (convert t s)
  unfolding convert
  convert-InRange bool s = tt
  convert-InRange float s = tt
  convert-InRange double s = tt
  convert-InRange int8 s = wrap_signed-InSigned (half_range int8) (truncated s) (omega arith)
  convert-InRange uint8 s = wrap_unsigned-InUnsigned (half_range uint8) (truncated s) (omega arith)
  convert-InRange int16 s = wrap_signed-InSigned (half_range int16) (truncated s) (omega arith)
  convert-InRange uint16 s =
      wrap_unsigned-InUnsigned (half_range uint16) (truncated s) (omega arith)
  convert-InRange int32 s = wrap_signed-InSigned (half_range int32) (truncated s) (omega arith)
  convert-InRange uint32 s =
      wrap_unsigned-InUnsigned (half_range uint32) (truncated s) (omega arith)
  convert-InRange int64 s = wrap_signed-InSigned (half_range int64) (truncated s) (omega arith)
  convert-InRange uint64 s =
      wrap_unsigned-InUnsigned (half_range uint64) (truncated s) (omega arith)

pub is_same-eq : (a b : NumType) → is_same a b ≡ true → a ≡ b
is_same-eq bool b h = ground arith
is_same-eq _ b h = ground arith
