-- ===== src/PressioOption/Cell.antt =====
-- struct pressio_option: a variant of optionals (include/libpressio_ext/cpp/options.h), its type
-- tag, and the operations of src/pressio_option.cc that convert nothing.
use libpressio.Base.{Bool, List, Option, Text, false, none, refl, some, true, ℕ, ◌≡◌}
use libpressio.Dtype.{Dtype}
use libpressio.Data.Defs.{Data}
use libpressio.PressioOption.Host.{Host}
use libpressio.PressioOption.Numeric.{NumType, Num, Scalar}

-- `enum pressio_option_type`
pub data OptionType : Type 0 where
  uint32 int32 float double charptr userptr unset charptr_array buffer : OptionType
  uint8 int8 uint16 int16 uint64 int64 bool dtype threadsafety : OptionType

-- `enum pressio_thread_safety`
pub data ThreadSafety : Type 0 where
  single serialized multiple : ThreadSafety

-- A function pointer of `class userdata`: none, the one that does nothing (`static_deleter`,
-- `static_copy`), or the user's.
pub data Callback : Type 0 where
  absent static : Callback
  user : ℕ → Callback

-- `class userdata` of include/libpressio_ext/cpp/userptr.h; 0 is the null pointer.
pub record UserData : Type 0 where
  pub ptr : ℕ
  pub metadata : ℕ
  pub deleter : Callback
  pub copy : Callback

-- `userdata(void*)`
unfoldable pub userdata_of_pointer : ℕ → UserData
userdata_of_pointer p = record { ptr = p; metadata = 0; deleter = static; copy = static }

-- The tag of each arithmetic alternative.
unfoldable pub num_option_type : NumType → OptionType
num_option_type NumType.bool = bool
num_option_type NumType.int8 = int8
num_option_type NumType.uint8 = uint8
num_option_type NumType.int16 = int16
num_option_type NumType.uint16 = uint16
num_option_type NumType.int32 = int32
num_option_type NumType.uint32 = uint32
num_option_type NumType.int64 = int64
num_option_type NumType.uint64 = uint64
num_option_type NumType.float = float
num_option_type NumType.double = double

module _ (H : Host) where
  -- `option_type`, the variant that an option holds; a `num` for each arithmetic type.
  pub data PressioOption : Type 0 where
    monostate : PressioOption
    num : (t : NumType) → Option (Num H t) → PressioOption
    text : Option Text → PressioOption
    pointer : Option UserData → PressioOption
    texts : Option (List Text) → PressioOption
    data_value : Option (Data (Scalar H)) → PressioOption
    dtype_value : Option Dtype → PressioOption
    safety_value : Option ThreadSafety → PressioOption

  abbrev is_some {ℓ} : {A : Type ℓ} → Option A → Bool
  is_some none = false
  is_some (some a) = true

  -- `pressio_option::type`
  unfoldable pub type : PressioOption → OptionType
  unfolding num_option_type
  type (text x) = charptr
  type (num t x) = num_option_type t
  type (pointer x) = userptr
  type (texts x) = charptr_array
  type (data_value x) = buffer
  type (dtype_value x) = dtype
  type (safety_value x) = threadsafety
  type monostate = unset

  -- `pressio_option::has_value`
  unfoldable pub has_value : PressioOption → Bool
  has_value monostate = false
  has_value (num t x) = is_some x
  has_value (text x) = is_some x
  has_value (pointer x) = is_some x
  has_value (texts x) = is_some x
  has_value (data_value x) = is_some x
  has_value (dtype_value x) = is_some x
  has_value (safety_value x) = is_some x

  -- `pressio_option::set_type`: the new option, whatever it held before.
  unfoldable pub set_type : OptionType → PressioOption
  set_type charptr = text none
  set_type userptr = pointer none
  set_type bool = num NumType.bool none
  set_type int8 = num NumType.int8 none
  set_type uint8 = num NumType.uint8 none
  set_type int16 = num NumType.int16 none
  set_type uint16 = num NumType.uint16 none
  set_type int32 = num NumType.int32 none
  set_type uint32 = num NumType.uint32 none
  set_type int64 = num NumType.int64 none
  set_type uint64 = num NumType.uint64 none
  set_type float = num NumType.float none
  set_type double = num NumType.double none
  set_type unset = monostate
  set_type charptr_array = texts none
  set_type buffer = data_value none
  set_type threadsafety = safety_value none
  set_type dtype = dtype_value none

  -- `set_type` leaves an option of the type asked for that holds no value.
  pub type-set_type : (t : OptionType) → (type (set_type t) ≡ t) × (has_value (set_type t) ≡ false)
  unfolding type set_type has_value
  type-set_type charptr = (refl, refl)
  type-set_type _ = (refl, refl)
