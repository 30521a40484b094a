-- ===== src/Serial/Recv.antt =====
-- The receiving half of src/serializable.cc. A function takes its messages off the front of those
-- that have come in and returns what it read and the rest; it is `none` when they are of other
-- kinds.
use libpressio.Base.{Bool, List, Option, [], false, none, not, some, true, ℕ, ◌==◌}
use libpressio.Base.Int.{ℤ, pos, negsuc}
use libpressio.Dtype.{Dtype}
use libpressio.Data.Defs.{Data}
use libpressio.Data.Sizes.{data_size_in_elements}
use libpressio.PressioOption.Host.{Host}
use libpressio.PressioOption.Numeric.{Scalar, NumType}
use libpressio.PressioOption.Cell.{
  PressioOption, monostate, num, text, texts, data_value, dtype_value, safety_value, OptionType,
  ThreadSafety, set_type, has_value, type,
}
use libpressio.PressioOptions.Map.{Options, merge}
use libpressio.Serial.Comm.{Comm}
use libpressio.Serial.Codes.{type_of_code, dtype_of_code, safety_of_code, dtype_to_mpi}

-- `none` passes on.
infixl 5 ◌>>=◌
abbrev pub ◌>>=◌ {ℓ κ} : {A : Type ℓ} {B : Type κ} → Option A → (A → Option B) → Option B
none >>= f = none
some a >>= f = f a

abbrev pub nonzero : ℤ → Bool
nonzero (pos n) = not (n == 0)
nonzero (negsuc n) = true

module _ {H : Host} (C : Comm H) where
  -- `serializer<pressio_thread_safety>::recv`
  unfoldable pub recv_safety : List C.Packet → Option (ThreadSafety × List C.Packet)
  unfolding safety_of_code
  recv_safety ms = do (z, ms) ← C.get_int ms; s ← safety_of_code z; some (s, ms)

  -- `serializer<pressio_dtype>::recv`
  unfoldable pub recv_dtype : List C.Packet → Option (Dtype × List C.Packet)
  unfolding dtype_of_code
  recv_dtype ms = do (z, ms) ← C.get_int ms; d ← dtype_of_code z; some (d, ms)

  -- `serializer<pressio_data>::recv`
  unfoldable pub recv_elements :
      Dtype → List ℕ → Bool → List C.Packet → Option (Data (Scalar H) × List C.Packet)
  unfolding dtype_to_mpi
  recv_elements d ds false ms = some (record { dtype = d; dims = ds; elements = [] }, ms)
  recv_elements d ds true ms = do
    (es, ms) ← C.get_elements (dtype_to_mpi d) (data_size_in_elements ds) ms
    some (record { dtype = d; dims = ds; elements = es }, ms)

  unfoldable pub recv_data : List C.Packet → Option (Data (Scalar H) × List C.Packet)
  unfolding recv_dtype recv_elements
  recv_data ms = do
    (d, ms) ← recv_dtype ms
    (ds, ms) ← C.get_sizes ms
    (has_data, ms) ← C.get_int ms
    recv_elements d ds (nonzero has_data) ms

  -- A value that is assigned to the option, with the code 0.
  abbrev pub received {ℓ} :
      {A : Type ℓ}
      → (A → PressioOption H)
      → Option (A × List C.Packet)
      → Option (PressioOption H × ℤ × List C.Packet)
  received f none = none
  received f (some (a, ms)) = some (f a, pos 0, ms)

  abbrev pub received_num : NumType → List C.Packet → Option (PressioOption H × ℤ × List C.Packet)
  received_num t ms = received (λ v. num t (some v)) (C.get_num t ms)

  -- The switch of `serializer<pressio_option>::recv`; `o` is what the option was.
  unfoldable pub recv_value :
      PressioOption H → OptionType → List C.Packet → Option (PressioOption H × ℤ × List C.Packet)
  unfolding recv_data recv_safety recv_dtype
  recv_value o OptionType.int8 ms = received_num NumType.int8 ms
  recv_value o OptionType.int16 ms = received_num NumType.int16 ms
  recv_value o OptionType.int32 ms = received_num NumType.int32 ms
  recv_value o OptionType.int64 ms = received_num NumType.int64 ms
  recv_value o OptionType.uint8 ms = received_num NumType.uint8 ms
  recv_value o OptionType.uint16 ms = received_num NumType.uint16 ms
  recv_value o OptionType.uint32 ms = received_num NumType.uint32 ms
  recv_value o OptionType.uint64 ms = received_num NumType.uint64 ms
  recv_value o OptionType.float ms = received_num NumType.float ms
  recv_value o OptionType.double ms = received_num NumType.double ms
  recv_value o OptionType.bool ms = received_num NumType.bool ms
  recv_value o OptionType.charptr ms = received (λ s. text (some s)) (C.get_text ms)
  recv_value o OptionType.charptr_array ms = received (λ s. texts (some s)) (C.get_texts ms)
  recv_value o OptionType.buffer ms = received (λ x. data_value (some x)) (recv_data ms)
  recv_value o OptionType.threadsafety ms = received (λ s. safety_value (some s)) (recv_safety ms)
  recv_value o OptionType.dtype ms = received (λ d. dtype_value (some d)) (recv_dtype ms)
  recv_value o OptionType.unset ms = some (monostate, pos 0, ms)
  recv_value o OptionType.userptr ms = some (o, pos 1, ms)

  -- The default case of the switch, and of that of `set_type`, is for a number of no type.
  unfoldable pub recv_body :
      PressioOption H
      → Option OptionType
      → Bool
      → List C.Packet
      → Option (PressioOption H × ℤ × List C.Packet)
  unfolding recv_value set_type
  recv_body o (some t) true ms = recv_value o t ms
  recv_body o (some t) false ms = some (set_type H t, pos 0, ms)
  recv_body o none true ms = some (o, pos 1, ms)
  recv_body o none false ms = some (o, pos 0, ms)

  -- `serializer<pressio_option>::recv` into the option `o`.
  unfoldable pub recv :
      PressioOption H → List C.Packet → Option (PressioOption H × ℤ × List C.Packet)
  unfolding recv_body type_of_code
  recv o ms = do
    (type, ms) ← C.get_int ms
    (has_value, ms) ← C.get_int ms
    recv_body o (type_of_code type) (nonzero has_value) ms

  -- `serializer<pressio_options>::recv` into the map `m`: keys that are there keep their options.
  unfoldable pub recv_options : Options H → List C.Packet → Option (Options H × ℤ × List C.Packet)
  unfolding recv merge
  recv_options m ms = do
    (entries, code, ms) ← C.get_entries (recv monostate) ms
    some (merge H m entries, code, ms)
