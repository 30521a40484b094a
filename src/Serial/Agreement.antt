-- ===== src/Serial/Agreement.antt =====
-- The broadcasts of src/serializable.cc against its sends and receives.
use libpressio.Base.{Bool, List, Option, ap, false, none, refl, some, true, ℕ, ◌≡◌}
use libpressio.Serial.Comm.{Comm}
use libpressio.PressioOption.Cell.{
  monostate, num, text, texts, pointer, data_value, dtype_value, safety_value, OptionType,
  PressioOption,
}
use libpressio.Dtype.{Dtype}
use libpressio.Serial.Codes.{type_of_code}
use libpressio.PressioOption.Host.{Host}
use libpressio.Serial.Send.{send, send_value, send_data, send_dtype, send_safety}
use libpressio.Serial.Recv.{
  ◌>>=◌, recv, recv_value, recv_body, recv_data, recv_elements, nonzero, received, recv_dtype,
  recv_safety,
}
use libpressio.Serial.Bcast.{
  bcast, bcast_data, bcast_dtype, bcast_elements_other, bcast_safety, bcast_value, bcast_body_other,
  bcast_data_other, bcast_dtype_other, bcast_other, bcast_safety_other, bcast_value_other,
}

bind_cong {ℓ κ} :
    {A : Type ℓ} {B : Type κ} (x : Option A) (f g : A → Option B)
    → ((a : A) → f a ≡ g a)
    → (x >>= f) ≡ (x >>= g)
bind_cong x f g h i = x >>= (λ a. h a i)

module _ {H : Host} (C : Comm H) where
  bcast_value-send_value : (o : PressioOption H) → bcast_value C o ≡ send_value C o
  unfolding bcast_value send_value bcast_data send_data bcast_dtype send_dtype bcast_safety
      send_safety
  bcast_value-send_value monostate = refl
  bcast_value-send_value (num t none) = refl
  bcast_value-send_value (num t (some v)) = refl
  bcast_value-send_value (text none) = refl
  bcast_value-send_value (text (some s)) = refl
  bcast_value-send_value (pointer none) = refl
  bcast_value-send_value (pointer (some u)) = refl
  bcast_value-send_value (texts none) = refl
  bcast_value-send_value (texts (some s)) = refl
  bcast_value-send_value (data_value none) = refl
  bcast_value-send_value (data_value (some x)) = refl
  bcast_value-send_value (dtype_value none) = refl
  bcast_value-send_value (dtype_value (some d)) = refl
  bcast_value-send_value (safety_value none) = refl
  bcast_value-send_value (safety_value (some s)) = refl

  bcast_elements_other-recv_elements :
      (d : Dtype) (ds : List ℕ) (b : Bool) (ms : List C.Packet)
      → bcast_elements_other C d ds b ms ≡ recv_elements C d ds b ms
  unfolding bcast_elements_other recv_elements
  bcast_elements_other-recv_elements d ds true ms = refl
  bcast_elements_other-recv_elements d ds false ms = refl

  bcast_dtype_other-recv_dtype : (ms : List C.Packet) → bcast_dtype_other C ms ≡ recv_dtype C ms
  unfolding bcast_dtype_other recv_dtype
  bcast_dtype_other-recv_dtype ms = refl

  bcast_safety_other-recv_safety : (ms : List C.Packet) → bcast_safety_other C ms ≡ recv_safety C ms
  unfolding bcast_safety_other recv_safety
  bcast_safety_other-recv_safety ms = refl

  bcast_data_other-recv_data : (ms : List C.Packet) → bcast_data_other C ms ≡ recv_data C ms
  unfolding bcast_data_other recv_data
  bcast_data_other-recv_data ms = rw (bcast_dtype_other-recv_dtype ms) (
      bind_cong (recv_dtype C ms) _ _ (λ (d, ms). bind_cong (C.get_sizes ms) _ _ (λ (ds, ms).
        bind_cong (C.get_int ms) _ _
          (λ (z, ms). bcast_elements_other-recv_elements d ds (nonzero z) ms))))

  bcast_value_other-recv_value :
      (o : PressioOption H) (t : OptionType) (ms : List C.Packet)
      → bcast_value_other C o t ms ≡ recv_value C o t ms
  unfolding bcast_value_other recv_value
  bcast_value_other-recv_value o OptionType.buffer ms =
      ap (received C (λ x. data_value (some x))) (bcast_data_other-recv_data ms)
  bcast_value_other-recv_value o OptionType.dtype ms =
      ap (received C (λ x. dtype_value (some x))) (bcast_dtype_other-recv_dtype ms)
  bcast_value_other-recv_value o OptionType.threadsafety ms =
      ap (received C (λ x. safety_value (some x))) (bcast_safety_other-recv_safety ms)
  bcast_value_other-recv_value o _ ms = refl

  bcast_body_other-recv_body :
      (o : PressioOption H) (t : Option OptionType) (b : Bool) (ms : List C.Packet)
      → bcast_body_other C o t b ms ≡ recv_body C o t b ms
  unfolding bcast_body_other recv_body
  bcast_body_other-recv_body o (some t) true ms = bcast_value_other-recv_value o t ms
  bcast_body_other-recv_body o _ _ ms = refl

  -- An option is broadcast by the very messages that send it, with the same code on the root, and
  -- another rank makes of any messages what a receiver makes of them, errors included: the two
  -- hand-written switches of `bcast` agree with those of `send` and `recv`.
  pub bcast-send :
      (o old : PressioOption H) (ms : List C.Packet)
      → (bcast C o ≡ send C o) × (bcast_other C old ms ≡ recv C old ms)
  unfolding bcast send bcast_other recv
  bcast-send o old ms = (
    rw (bcast_value-send_value o) refl,
    bind_cong (C.get_int ms) _ _ (λ (t, ms).
        bind_cong (C.get_int ms) _ _
          (λ (z, ms). bcast_body_other-recv_body old (type_of_code t) (nonzero z) ms)),
  )
