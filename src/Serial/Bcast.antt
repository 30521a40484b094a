-- ===== src/Serial/Bcast.antt =====
-- The broadcasts of src/serializable.cc: what the root hands over, and what another rank makes of
-- it. The `comm::bcast` of a value is taken to hand over what its `comm::send` does: both are the
-- channel's.
use libpressio.Base.{Bool, List, Option, [], false, if◌then◌else◌, none, some, true, ℕ, ◌++◌}
use libpressio.Base.Int.{ℤ, pos}
use libpressio.Dtype.{Dtype}
use libpressio.Data.Defs.{Data}
use libpressio.Data.Sizes.{data_size_in_elements}
use libpressio.PressioOption.Host.{Host}
use libpressio.PressioOption.Numeric.{Scalar, NumType}
use libpressio.PressioOption.Cell.{
  PressioOption, monostate, num, text, pointer, texts, data_value, dtype_value, safety_value,
  OptionType, ThreadSafety, type, has_value, set_type,
}
use libpressio.PressioOptions.Map.{Options, merge}
use libpressio.Serial.Comm.{Comm}
use libpressio.Serial.Codes.{
  type_code, dtype_code, safety_code, dtype_to_mpi, type_of_code, dtype_of_code, safety_of_code,
}
use libpressio.Serial.Send.{flag, has_elements}
use libpressio.Serial.Recv.{received, received_num, nonzero, ◌>>=◌}

module _ {H : Host} (C : Comm H) where
  -- `serializer<pressio_thread_safety>::bcast` and `serializer<pressio_dtype>::bcast`
  unfoldable pub bcast_safety : ThreadSafety → List C.Packet
  unfolding safety_code
  bcast_safety s = C.put_int (pos (safety_code s))

  unfoldable pub bcast_dtype : Dtype → List C.Packet
  unfolding dtype_code
  bcast_dtype d = C.put_int (pos (dtype_code d))

  unfoldable pub bcast_safety_other : List C.Packet → Option (ThreadSafety × List C.Packet)
  unfolding safety_of_code
  bcast_safety_other ms = do (z, ms) ← C.get_int ms; s ← safety_of_code z; some (s, ms)

  unfoldable pub bcast_dtype_other : List C.Packet → Option (Dtype × List C.Packet)
  unfolding dtype_of_code
  bcast_dtype_other ms = do (z, ms) ← C.get_int ms; d ← dtype_of_code z; some (d, ms)

  -- `serializer<pressio_data>::bcast`
  unfoldable pub bcast_data : Data (Scalar H) → List C.Packet
  unfolding bcast_dtype dtype_to_mpi
  bcast_data x =
      bcast_dtype x.dtype
      ++ (C.put_sizes x.dims
          ++ (C.put_int (flag C (has_elements C x.elements))
              ++ (if has_elements C x.elements
                  then C.put_elements (dtype_to_mpi x.dtype) x.elements
                  else [])))

  unfoldable pub bcast_elements_other :
      Dtype → List ℕ → Bool → List C.Packet → Option (Data (Scalar H) × List C.Packet)
  unfolding dtype_to_mpi
  bcast_elements_other d ds true ms = do
    (es, ms) ← C.get_elements (dtype_to_mpi d) (data_size_in_elements ds) ms
    some (record { dtype = d; dims = ds; elements = es }, ms)
  bcast_elements_other d ds false ms = some (record { dtype = d; dims = ds; elements = [] }, ms)

  unfoldable pub bcast_data_other : List C.Packet → Option (Data (Scalar H) × List C.Packet)
  unfolding bcast_dtype_other bcast_elements_other
  bcast_data_other ms = do
    (d, ms) ← bcast_dtype_other ms
    (ds, ms) ← C.get_sizes ms
    (has_data, ms) ← C.get_int ms
    bcast_elements_other d ds (nonzero has_data) ms

  -- The root's switch of `serializer<pressio_option>::bcast`.
  unfoldable pub bcast_value : PressioOption H → List C.Packet × ℤ
  unfolding bcast_data bcast_dtype bcast_safety
  bcast_value (num t (some v)) = (C.put_num t v, pos 0)
  bcast_value (text (some s)) = (C.put_text s, pos 0)
  bcast_value (texts (some ss)) = (C.put_texts ss, pos 0)
  bcast_value (data_value (some x)) = (bcast_data x, pos 0)
  bcast_value (dtype_value (some d)) = (bcast_dtype d, pos 0)
  bcast_value (safety_value (some s)) = (bcast_safety s, pos 0)
  bcast_value (pointer (some u)) = ([], pos 1)
  bcast_value _ = ([], pos 0)

  -- `serializer<pressio_option>::bcast` on the root.
  unfoldable pub bcast : PressioOption H → List C.Packet × ℤ
  unfolding bcast_value type_code type has_value
  bcast o =
      let (value, code) = bcast_value o in
      (
        C.put_int (pos (type_code (type H o)))
            ++ (C.put_int (flag C (has_value H o)) ++ (if has_value H o then value else [])),
        code,
      )

  -- The other ranks' switch.
  unfoldable pub bcast_value_other :
      PressioOption H → OptionType → List C.Packet → Option (PressioOption H × ℤ × List C.Packet)
  unfolding bcast_data_other bcast_dtype_other bcast_safety_other
  bcast_value_other o OptionType.bool ms = received_num C NumType.bool ms
  bcast_value_other o OptionType.int8 ms = received_num C NumType.int8 ms
  bcast_value_other o OptionType.uint8 ms = received_num C NumType.uint8 ms
  bcast_value_other o OptionType.int16 ms = received_num C NumType.int16 ms
  bcast_value_other o OptionType.uint16 ms = received_num C NumType.uint16 ms
  bcast_value_other o OptionType.int32 ms = received_num C NumType.int32 ms
  bcast_value_other o OptionType.uint32 ms = received_num C NumType.uint32 ms
  bcast_value_other o OptionType.int64 ms = received_num C NumType.int64 ms
  bcast_value_other o OptionType.uint64 ms = received_num C NumType.uint64 ms
  bcast_value_other o OptionType.float ms = received_num C NumType.float ms
  bcast_value_other o OptionType.double ms = received_num C NumType.double ms
  bcast_value_other o OptionType.dtype ms =
      received C (λ d. dtype_value (some d)) (bcast_dtype_other ms)
  bcast_value_other o OptionType.threadsafety ms =
      received C (λ s. safety_value (some s)) (bcast_safety_other ms)
  bcast_value_other o OptionType.charptr ms = received C (λ s. text (some s)) (C.get_text ms)
  bcast_value_other o OptionType.charptr_array ms =
      received C (λ s. texts (some s)) (C.get_texts ms)
  bcast_value_other o OptionType.buffer ms =
      received C (λ x. data_value (some x)) (bcast_data_other ms)
  bcast_value_other o OptionType.unset ms = some (monostate, pos 0, ms)
  bcast_value_other o OptionType.userptr ms = some (o, pos 1, ms)

  unfoldable pub bcast_body_other :
      PressioOption H
      → Option OptionType
      → Bool
      → List C.Packet
      → Option (PressioOption H × ℤ × List C.Packet)
  unfolding bcast_value_other set_type
  bcast_body_other o (some t) true ms = bcast_value_other o t ms
  bcast_body_other o none true ms = some (o, pos 1, ms)
  bcast_body_other o (some t) false ms = some (set_type H t, pos 0, ms)
  bcast_body_other o none false ms = some (o, pos 0, ms)

  -- `serializer<pressio_option>::bcast` on another rank, whose option was `o`.
  unfoldable pub bcast_other :
      PressioOption H → List C.Packet → Option (PressioOption H × ℤ × List C.Packet)
  unfolding bcast_body_other type_of_code
  bcast_other o ms = do
    (type, ms) ← C.get_int ms
    (has_value, ms) ← C.get_int ms
    bcast_body_other o (type_of_code type) (nonzero has_value) ms

  -- `serializer<pressio_options>::bcast`, whose code is 0 whatever the entries return.
  unfoldable pub bcast_options : Options H → List C.Packet × ℤ
  unfolding bcast
  bcast_options m = ((C.put_entries bcast m).0, pos 0)

  unfoldable pub bcast_options_other :
      Options H → List C.Packet → Option (Options H × ℤ × List C.Packet)
  unfolding bcast_other merge
  bcast_options_other m ms = do
    (entries, code, ms) ← C.get_entries (bcast_other monostate) ms
    some (merge H m entries, pos 0, ms)
