-- ===== src/Serial/Send.antt =====
-- The sending half of src/serializable.cc. A function returns the messages it sends and the code it
-- returns. The codes of the calls to MPI are not modelled: they are 0 unless its error handler has
-- ended the program.
use libpressio.Base.{Bool, List, [], false, if◌then◌else◌, some, true, ◌++◌, ◌∷◌}
use libpressio.Base.Int.{ℤ, pos}
use libpressio.Dtype.{Dtype}
use libpressio.Data.Defs.{Data}
use libpressio.PressioOption.Host.{Host}
use libpressio.PressioOption.Numeric.{Scalar}
use libpressio.PressioOption.Cell.{
  PressioOption, num, text, pointer, texts, data_value, dtype_value, safety_value, ThreadSafety,
  type, has_value,
}
use libpressio.PressioOptions.Map.{Options}
use libpressio.Serial.Comm.{Comm}
use libpressio.Serial.Codes.{type_code, dtype_code, safety_code, dtype_to_mpi}

module _ {H : Host} (C : Comm H) where
  -- An `int` or `bool` that is 0 or 1.
  abbrev pub flag : Bool → ℤ
  flag true = pos 1
  flag false = pos 0

  -- `pressio_data::has_data`: a buffer without memory has no elements.
  abbrev pub has_elements {ℓ} : {A : Type ℓ} → List A → Bool
  has_elements [] = false
  has_elements (x ∷ xs) = true

  -- `serializer<pressio_thread_safety>::send`
  unfoldable pub send_safety : ThreadSafety → List C.Packet
  unfolding safety_code
  send_safety s = C.put_int (pos (safety_code s))

  -- `serializer<pressio_dtype>::send`
  unfoldable pub send_dtype : Dtype → List C.Packet
  unfolding dtype_code
  send_dtype d = C.put_int (pos (dtype_code d))

  -- `serializer<pressio_data>::send`
  unfoldable pub send_data : Data (Scalar H) → List C.Packet
  unfolding send_dtype dtype_to_mpi
  send_data x =
      send_dtype x.dtype
      ++ (C.put_sizes x.dims
          ++ (C.put_int (flag (has_elements x.elements))
              ++ (if has_elements x.elements
                  then C.put_elements (dtype_to_mpi x.dtype) x.elements
                  else [])))

  -- The switch of `serializer<pressio_option>::send`, for an option that holds a value.
  unfoldable pub send_value : PressioOption H → List C.Packet × ℤ
  unfolding send_safety send_data send_dtype
  send_value (num t (some v)) = (C.put_num t v, pos 0)
  send_value (text (some s)) = (C.put_text s, pos 0)
  send_value (texts (some ss)) = (C.put_texts ss, pos 0)
  send_value (data_value (some x)) = (send_data x, pos 0)
  send_value (dtype_value (some d)) = (send_dtype d, pos 0)
  send_value (safety_value (some s)) = (send_safety s, pos 0)
  send_value (pointer (some u)) = ([], pos 1)
  send_value _ = ([], pos 0)

  -- `serializer<pressio_option>::send`
  unfoldable pub send : PressioOption H → List C.Packet × ℤ
  unfolding send_value type_code type has_value
  send o =
      let (value, code) = send_value o in
      (
        C.put_int (pos (type_code (type H o)))
            ++ (C.put_int (flag (has_value H o)) ++ (if has_value H o then value else [])),
        code,
      )

  -- `serializer<pressio_options>::send`
  unfoldable pub send_options : Options H → List C.Packet × ℤ
  unfolding send
  send_options m = C.put_entries send m
