-- ===== src/Serial/Comm.antt =====
-- What src/serializable.cc takes from MPI and from LibDistributed, neither of which is part of the
-- repository: messages of each kind, sent to and received from one peer, or broadcast.
use libpressio.Base.{List, Option, Text, ℕ}
use libpressio.Base.Int.{ℤ}
use libpressio.PressioOption.Host.{Host}
use libpressio.PressioOption.Numeric.{NumType, Num, Scalar}

-- The `MPI_Datatype`s that the file names.
pub data MpiType : Type 0 where
  double float int8_t int16_t int32_t int64_t uint8_t uint16_t uint32_t uint64_t byte : MpiType
  cxx_bool : MpiType

-- A `put` is what a `comm::send` hands over, and a `get` what a `comm::recv` takes off the front of
-- the messages that have come in; it is `none` when they do not start with one of its kind. The
-- last two serialize a vector of pairs by the serializer of the second parts, whose code they
-- return.
pub record Comm (H : Host) : Type 1 where
  pub Packet : Type 0
  pub put_int : ℤ → List Packet
  pub get_int : List Packet → Option (ℤ × List Packet)
  pub put_num : (t : NumType) → Num H t → List Packet
  pub get_num : (t : NumType) → List Packet → Option (Num H t × List Packet)
  pub put_text : Text → List Packet
  pub get_text : List Packet → Option (Text × List Packet)
  pub put_texts : List Text → List Packet
  pub get_texts : List Packet → Option (List Text × List Packet)
  pub put_sizes : List ℕ → List Packet
  pub get_sizes : List Packet → Option (List ℕ × List Packet)
  pub put_elements : MpiType → List (Scalar H) → List Packet
  pub get_elements : MpiType → ℕ → List Packet → Option (List (Scalar H) × List Packet)
  pub put_entries : {A : Type 0} → (A → List Packet × ℤ) → List (Text × A) → List Packet × ℤ
  pub get_entries :
      {A : Type 0}
      → (List Packet → Option (A × ℤ × List Packet))
      → List Packet
      → Option (List (Text × A) × ℤ × List Packet)
