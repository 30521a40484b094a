-- ===== src/Serial/RoundTrip.antt =====
-- What is received is what was sent, if messages arrive in order.
use libpressio.Base.{
  All, Bool, List, Option, Text, [], false, if◌then◌else◌, inl, inr, length, none, refl, some, true,
  ℕ, ◌++◌, ◌∷◌, ◌≡◌, ◌⊎◌,
}
use libpressio.Base.Int.{ℤ, pos}
use mathlib.Core.List.{append_assoc}
use libpressio.Dtype.{Dtype}
use libpressio.Data.Defs.{Data}
use libpressio.Data.Sizes.{data_size_in_elements}
use libpressio.PressioOption.Host.{Host}
use libpressio.PressioOption.Numeric.{Scalar, NumType, Num}
use libpressio.PressioOption.Cell.{
  PressioOption, monostate, num, text, pointer, texts, data_value, dtype_value, safety_value,
  OptionType, ThreadSafety, type, has_value, set_type, UserData, num_option_type,
}
use libpressio.PressioOptions.Map.{Options, merge}
use libpressio.Serial.Comm.{Comm, MpiType}
use libpressio.Serial.Codes.{
  type_code, dtype_code, safety_code, dtype_to_mpi, type_of_code-type_code,
  dtype_of_code-dtype_code, safety_of_code-safety_code,
}
use libpressio.Serial.Send.{
  flag, has_elements, send, send_value, send_data, send_dtype, send_safety, send_options,
}
use libpressio.Serial.Recv.{
  recv, recv_body, recv_value, recv_data, recv_elements, recv_dtype, recv_safety, recv_options,
  nonzero,
}

-- Every kind of message is read back, whatever follows it: messages of one sender do not overtake
-- each other. A vector is read back if its entries are.
pub record Ordered {H : Host} (C : Comm H) : Type 1 where
  pub get-put_int : (z : ℤ) (ms : List C.Packet) → C.get_int (C.put_int z ++ ms) ≡ some (z, ms)
  pub get-put_num :
      (t : NumType) (v : Num H t) (ms : List C.Packet)
      → C.get_num t (C.put_num t v ++ ms) ≡ some (v, ms)
  pub get-put_text :
      (s : Text) (ms : List C.Packet) → C.get_text (C.put_text s ++ ms) ≡ some (s, ms)
  pub get-put_texts :
      (s : List Text) (ms : List C.Packet) → C.get_texts (C.put_texts s ++ ms) ≡ some (s, ms)
  pub get-put_sizes :
      (s : List ℕ) (ms : List C.Packet) → C.get_sizes (C.put_sizes s ++ ms) ≡ some (s, ms)
  pub get-put_elements :
      (t : MpiType) (es : List (Scalar H)) (n : ℕ) (ms : List C.Packet)
      → length es ≡ n
      → C.get_elements t n (C.put_elements t es ++ ms) ≡ some (es, ms)
  pub get-put_entries :
      {A : Type 0} (put : A → List C.Packet × ℤ)
      (get : List C.Packet → Option (A × ℤ × List C.Packet)) (m : List (Text × A))
      (ms : List C.Packet)
      → All (λ e. (rest : List C.Packet) → get ((put e.1).0 ++ rest) ≡ some (e.1, pos 0, rest)) m
      → C.get_entries get ((C.put_entries put m).0 ++ ms) ≡ some (m, pos 0, ms)

module _ {H : Host} where
  -- The elements of a buffer are as many as its dimensions say, or it has no memory.
  abbrev pub IsWhole : Data (Scalar H) → Type 0
  IsWhole x = (x.elements ≡ []) ⊎ (length x.elements ≡ data_size_in_elements x.dims)

  -- The option is no user pointer that is set, and no buffer with too few elements.
  abbrev pub IsSendable : PressioOption H → Type 0
  IsSendable (pointer (some u)) = ⊥
  IsSendable (data_value (some x)) = IsWhole x
  IsSendable _ = Unit

module _ {H : Host} (C : Comm H) (L : Ordered C) where
  recv_dtype-send_dtype :
      (d : Dtype) (ms : List C.Packet) → recv_dtype C (send_dtype C d ++ ms) ≡ some (d, ms)
  unfolding recv_dtype send_dtype
  recv_dtype-send_dtype d ms =
      rw (L.get-put_int (pos (dtype_code d)) ms, dtype_of_code-dtype_code d) refl

  recv_safety-send_safety :
      (s : ThreadSafety) (ms : List C.Packet) → recv_safety C (send_safety C s ++ ms) ≡ some (s, ms)
  unfolding recv_safety send_safety
  recv_safety-send_safety s ms =
      rw (L.get-put_int (pos (safety_code s)) ms, safety_of_code-safety_code s) refl

  recv_elements-put :
      (d : Dtype) (ds : List ℕ) (es : List (Scalar H)) (ms : List C.Packet)
      → (es ≡ []) ⊎ (length es ≡ data_size_in_elements ds)
      → recv_elements C d ds
          (nonzero (flag C (has_elements C es)))
          ((if has_elements C es then C.put_elements (dtype_to_mpi d) es else []) ++ ms)
        ≡ some (record { dtype = d; dims = ds; elements = es }, ms)
  unfolding recv_elements
  recv_elements-put d ds [] ms w = refl
  recv_elements-put d ds (e ∷ es) ms (inl w) = cc
  recv_elements-put d ds (e ∷ es) ms (inr w) =
      rw (L.get-put_elements (dtype_to_mpi d) (e ∷ es) (data_size_in_elements ds) ms w) refl

  recv_data-send_data :
      (x : Data (Scalar H)) (ms : List C.Packet)
      → IsWhole x
      → recv_data C (send_data C x ++ ms) ≡ some (x, ms)
  unfolding recv_data send_data
  recv_data-send_data x ms w =
      let body =
        if has_elements C x.elements
        then C.put_elements (dtype_to_mpi x.dtype) x.elements
        else [] in
      let flagged = C.put_int (flag C (has_elements C x.elements)) in
      rw
        (
          append_assoc (send_dtype C x.dtype) (C.put_sizes x.dims ++ (flagged ++ body)) ms,
          append_assoc (C.put_sizes x.dims) (flagged ++ body) ms,
          append_assoc flagged body ms,
          recv_dtype-send_dtype x.dtype (C.put_sizes x.dims ++ (flagged ++ (body ++ ms))),
          L.get-put_sizes x.dims (flagged ++ (body ++ ms)),
          L.get-put_int (flag C (has_elements C x.elements)) (body ++ ms),
        )
        (recv_elements-put x.dtype x.dims x.elements ms w)

  recv_header :
      (old : PressioOption H) (t : OptionType) (b : Bool) (body ms : List C.Packet)
      → recv C old ((C.put_int (pos (type_code t)) ++ (C.put_int (flag C b) ++ body)) ++ ms)
        ≡ recv_body C old (some t) b (body ++ ms)
  unfolding recv
  recv_header old t false body ms =
      rw
        (
          append_assoc (C.put_int (pos (type_code t))) (C.put_int (pos 0) ++ body) ms,
          append_assoc (C.put_int (pos 0)) body ms,
          L.get-put_int (pos (type_code t)) (C.put_int (pos 0) ++ (body ++ ms)),
          L.get-put_int (pos 0) (body ++ ms),
          type_of_code-type_code t,
        )
        refl
  recv_header old t true body ms =
      rw
        (
          append_assoc (C.put_int (pos (type_code t))) (C.put_int (pos 1) ++ body) ms,
          append_assoc (C.put_int (pos 1)) body ms,
          L.get-put_int (pos (type_code t)) (C.put_int (pos 1) ++ (body ++ ms)),
          L.get-put_int (pos 1) (body ++ ms),
          type_of_code-type_code t,
        )
        refl

  recv_value-put_num :
      (old : PressioOption H) (t : NumType) (v : Num H t) (ms : List C.Packet)
      → recv_value C old (num_option_type t) (C.put_num t v ++ ms)
        ≡ some (num t (some v), pos 0, ms)
  unfolding recv_value num_option_type
  recv_value-put_num old NumType.bool v ms = rw (L.get-put_num NumType.bool v ms) refl
  recv_value-put_num old NumType.int8 v ms = rw (L.get-put_num NumType.int8 v ms) refl
  recv_value-put_num old NumType.uint8 v ms = rw (L.get-put_num NumType.uint8 v ms) refl
  recv_value-put_num old NumType.int16 v ms = rw (L.get-put_num NumType.int16 v ms) refl
  recv_value-put_num old NumType.uint16 v ms = rw (L.get-put_num NumType.uint16 v ms) refl
  recv_value-put_num old NumType.int32 v ms = rw (L.get-put_num NumType.int32 v ms) refl
  recv_value-put_num old NumType.uint32 v ms = rw (L.get-put_num NumType.uint32 v ms) refl
  recv_value-put_num old NumType.int64 v ms = rw (L.get-put_num NumType.int64 v ms) refl
  recv_value-put_num old NumType.uint64 v ms = rw (L.get-put_num NumType.uint64 v ms) refl
  recv_value-put_num old NumType.float v ms = rw (L.get-put_num NumType.float v ms) refl
  recv_value-put_num old NumType.double v ms = rw (L.get-put_num NumType.double v ms) refl

  -- A value set in an option is read back by the switch over its type.
  recv_value-send_value :
      (old o : PressioOption H) (ms : List C.Packet)
      → IsSendable o
      → has_value H o ≡ true
      → recv_value C old (type H o) ((send_value C o).0 ++ ms) ≡ some (o, pos 0, ms)
  unfolding recv_value send_value type has_value
  recv_value-send_value old monostate ms w h = refl
  recv_value-send_value old (num t none) ms w h = cc
  recv_value-send_value old (num t (some v)) ms w h = recv_value-put_num old t v ms
  recv_value-send_value old (text none) ms w h = cc
  recv_value-send_value old (text (some s)) ms w h = rw (L.get-put_text s ms) refl
  recv_value-send_value old (pointer none) ms w h = cc
  recv_value-send_value old (pointer (some u)) ms w h = elim w [ ]
  recv_value-send_value old (texts none) ms w h = cc
  recv_value-send_value old (texts (some s)) ms w h = rw (L.get-put_texts s ms) refl
  recv_value-send_value old (data_value none) ms w h = cc
  recv_value-send_value old (data_value (some x)) ms w h = rw (recv_data-send_data x ms w) refl
  recv_value-send_value old (dtype_value none) ms w h = cc
  recv_value-send_value old (dtype_value (some d)) ms w h = rw (recv_dtype-send_dtype d ms) refl
  recv_value-send_value old (safety_value none) ms w h = cc
  recv_value-send_value old (safety_value (some s)) ms w h = rw (recv_safety-send_safety s ms) refl

  -- An option without a value is its type.
  set_type-type : (o : PressioOption H) → has_value H o ≡ false → set_type H (type H o) ≡ o
  unfolding set_type type has_value num_option_type
  set_type-type monostate h = refl
  set_type-type (num NumType.bool none) h = refl
  set_type-type (num NumType.int8 none) h = refl
  set_type-type (num NumType.uint8 none) h = refl
  set_type-type (num NumType.int16 none) h = refl
  set_type-type (num NumType.uint16 none) h = refl
  set_type-type (num NumType.int32 none) h = refl
  set_type-type (num NumType.uint32 none) h = refl
  set_type-type (num NumType.int64 none) h = refl
  set_type-type (num NumType.uint64 none) h = refl
  set_type-type (num NumType.float none) h = refl
  set_type-type (num NumType.double none) h = refl
  set_type-type (num t (some v)) h = cc
  set_type-type (text none) h = refl
  set_type-type (text (some s)) h = cc
  set_type-type (pointer none) h = refl
  set_type-type (pointer (some s)) h = cc
  set_type-type (texts none) h = refl
  set_type-type (texts (some s)) h = cc
  set_type-type (data_value none) h = refl
  set_type-type (data_value (some s)) h = cc
  set_type-type (dtype_value none) h = refl
  set_type-type (dtype_value (some s)) h = cc
  set_type-type (safety_value none) h = refl
  set_type-type (safety_value (some s)) h = cc

  recv_body-value :
      (old o : PressioOption H) (ms : List C.Packet) (b : Bool)
      → IsSendable o
      → has_value H o ≡ b
      → recv_body C old (some (type H o)) b ((if b then (send_value C o).0 else []) ++ ms)
        ≡ some (o, pos 0, ms)
  unfolding recv_body
  recv_body-value old o ms true w h = recv_value-send_value old o ms w h
  recv_body-value old o ms false w h = rw (set_type-type o h) refl

  -- If messages arrive in order, an option that can be sent is received as it was, whatever the
  -- receiver held and whatever follows, and the code is 0: a value with its type, and a type
  -- without a value as well.
  pub recv-send :
      (old o : PressioOption H) (ms : List C.Packet)
      → IsSendable o
      → recv C old ((send C o).0 ++ ms) ≡ some (o, pos 0, ms)
  unfolding send
  recv-send old o ms w =
      rw
        (recv_header old (type H o) (has_value H o)
          (if has_value H o then (send_value C o).0 else []) ms)
        (recv_body-value old o ms (has_value H o) w refl)

  recv_body-pointer :
      (old : PressioOption H) (ms : List C.Packet)
      → recv_body C old (some OptionType.userptr) true ms ≡ some (old, pos 1, ms)
  unfolding recv_body recv_value
  recv_body-pointer old ms = refl

  -- A user pointer that is set is not sent: the sender and the receiver both return 1, and the
  -- receiver keeps the option it had. What follows is not lost.
  pub recv-send_pointer :
      (old : PressioOption H) (u : UserData) (ms : List C.Packet)
      → ((send C (pointer (some u))).1 ≡ pos 1)
        × (recv C old ((send C (pointer (some u))).0 ++ ms) ≡ some (old, pos 1, ms))
  unfolding send send_value type has_value
  recv-send_pointer old u ms =
      (refl, rw (recv_header old OptionType.userptr true [] ms) (recv_body-pointer old ms))

  -- The maps whose options can all be sent.
  abbrev pub AllSendable : Options H → Type 0
  AllSendable m = All (λ e. IsSendable e.1) m

  entries_read :
      (m : Options H)
      → AllSendable m
      → All
          (λ e.
            (rest : List C.Packet)
            → recv C monostate ((send C e.1).0 ++ rest) ≡ some (e.1, pos 0, rest))
          m
  entries_read [] w = tt
  entries_read ((key, o) ∷ m) w = ((λ rest. recv-send monostate o rest w.0), entries_read m w.1)

  -- If messages arrive in order, a map of options that can all be sent is merged into the map of
  -- the receiver, as it was, with the code 0.
  pub recv_options-send_options :
      (here m : Options H) (ms : List C.Packet)
      → AllSendable m
      → recv_options C here ((send_options C m).0 ++ ms) ≡ some (merge H here m, pos 0, ms)
  unfolding recv_options send_options
  recv_options-send_options here m ms w =
      rw (L.get-put_entries (send C) (recv C monostate) m ms (entries_read m w)) refl
