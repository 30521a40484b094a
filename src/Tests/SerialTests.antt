-- ===== src/Tests/SerialTests.antt =====
-- The properties of messages at concrete inputs, over channels that keep their order.
use libpressio.Base.{
  All, List, Option, Text, [], arith, codes, false, if◌then◌else◌, length, none, refl, some, suc,
  true, zero, ℕ, ◌++◌, ◌==◌, ◌∷◌, ◌≡◌,
}
use libpressio.Base.Int.{ℤ, pos}
use mathlib.Core.List.{append_assoc}
use libpressio.PressioOption.Numeric.{Scalar, NumType, Num}
use libpressio.PressioOption.Cell.{PressioOption, num, text}
use libpressio.PressioOptions.Map.{Options, merge}
use libpressio.Serial.Comm.{Comm}
use libpressio.Serial.Send.{send, send_options}
use libpressio.Serial.Recv.{recv, recv_options, nonzero, ◌>>=◌}
use libpressio.Serial.Bcast.{bcast, bcast_other}
use libpressio.Serial.RoundTrip.{Ordered, recv-send, recv_options-send_options}
use libpressio.Serial.Agreement.{bcast-send}
use libpressio.Tests.Hosts.{host}

data Wire : Type 0 where
  int : ℤ → Wire
  string : Text → Wire
  strings : List Text → Wire
  sizes : List ℕ → Wire
  elements : List (Scalar host) → Wire

abbrev int_of_num : (t : NumType) → Num host t → ℤ
int_of_num NumType.bool true = pos 1
int_of_num NumType.bool false = pos 0
int_of_num NumType.int8 v = v
int_of_num NumType.uint8 v = v
int_of_num NumType.int16 v = v
int_of_num NumType.uint16 v = v
int_of_num NumType.int32 v = v
int_of_num NumType.uint32 v = v
int_of_num NumType.int64 v = v
int_of_num NumType.uint64 v = v
int_of_num NumType.float v = v
int_of_num NumType.double v = v

abbrev num_of_int : (t : NumType) → ℤ → Num host t
num_of_int NumType.bool v = nonzero v
num_of_int NumType.int8 v = v
num_of_int NumType.uint8 v = v
num_of_int NumType.int16 v = v
num_of_int NumType.uint16 v = v
num_of_int NumType.int32 v = v
num_of_int NumType.uint32 v = v
num_of_int NumType.int64 v = v
num_of_int NumType.uint64 v = v
num_of_int NumType.float v = v
num_of_int NumType.double v = v

num_of_int-int_of_num : (t : NumType) (v : Num host t) → num_of_int t (int_of_num t v) ≡ v
num_of_int-int_of_num NumType.bool true = refl
num_of_int-int_of_num NumType.bool false = refl
num_of_int-int_of_num NumType.int8 v = refl
num_of_int-int_of_num NumType.uint8 v = refl
num_of_int-int_of_num NumType.int16 v = refl
num_of_int-int_of_num NumType.uint16 v = refl
num_of_int-int_of_num NumType.int32 v = refl
num_of_int-int_of_num NumType.uint32 v = refl
num_of_int-int_of_num NumType.int64 v = refl
num_of_int-int_of_num NumType.uint64 v = refl
num_of_int-int_of_num NumType.float v = refl
num_of_int-int_of_num NumType.double v = refl

abbrev take_int : List Wire → Option (ℤ × List Wire)
take_int (int z ∷ ms) = some (z, ms)
take_int _ = none

abbrev take_num : (t : NumType) → List Wire → Option (Num host t × List Wire)
take_num t (int z ∷ ms) = some (num_of_int t z, ms)
take_num t _ = none

abbrev take_string : List Wire → Option (Text × List Wire)
take_string (string s ∷ ms) = some (s, ms)
take_string _ = none

abbrev take_strings : List Wire → Option (List Text × List Wire)
take_strings (strings s ∷ ms) = some (s, ms)
take_strings _ = none

abbrev take_sizes : List Wire → Option (List ℕ × List Wire)
take_sizes (sizes s ∷ ms) = some (s, ms)
take_sizes _ = none

abbrev take_elements : ℕ → List Wire → Option (List (Scalar host) × List Wire)
take_elements n (elements es ∷ ms) = if length es == n then some (es, ms) else none
take_elements n _ = none

module _ {A : Type 0} where
  abbrev put_pairs : (A → List Wire × ℤ) → List (Text × A) → List Wire
  put_pairs put [] = []
  put_pairs put ((k, a) ∷ m) = string k ∷ (put a).0 ++ put_pairs put m

  abbrev get_pairs :
      (List Wire → Option (A × ℤ × List Wire))
      → ℕ
      → List Wire
      → Option (List (Text × A) × List Wire)
  get_pairs get zero ms = some ([], ms)
  get_pairs get (suc n) ms = do
    (k, ms) ← take_string ms
    (a, code, ms) ← get ms
    (m, ms) ← get_pairs get n ms
    some ((k, a) ∷ m, ms)

  abbrev get_vector :
      (List Wire → Option (A × ℤ × List Wire))
      → List Wire
      → Option (List (Text × A) × ℤ × List Wire)
  get_vector get (int (pos n) ∷ ms) = do (m, ms) ← get_pairs get n ms; some (m, pos 0, ms)
  get_vector get _ = none

  get_pairs-put_pairs :
      (put : A → List Wire × ℤ) (get : List Wire → Option (A × ℤ × List Wire)) (m : List (Text × A))
      (ms : List Wire)
      → All (λ e. (rest : List Wire) → get ((put e.1).0 ++ rest) ≡ some (e.1, pos 0, rest)) m
      → get_pairs get (length m) (put_pairs put m ++ ms) ≡ some (m, ms)
  get_pairs-put_pairs put get [] ms h = refl
  get_pairs-put_pairs put get ((k, a) ∷ m) ms h =
      rw
        (
          append_assoc (put a).0 (put_pairs put m) ms,
          h.0 (put_pairs put m ++ ms),
          get_pairs-put_pairs put get m ms h.1,
        )
        refl

abbrev wires : Comm host
wires = record {
  Packet = Wire;
  put_int = λ z. int z ∷ [];
  get_int = take_int;
  put_num = λ t v. int (int_of_num t v) ∷ [];
  get_num = take_num;
  put_text = λ s. string s ∷ [];
  get_text = take_string;
  put_texts = λ s. strings s ∷ [];
  get_texts = take_strings;
  put_sizes = λ s. sizes s ∷ [];
  get_sizes = take_sizes;
  put_elements = λ t es. elements es ∷ [];
  get_elements = λ t n ms. take_elements n ms;
  put_entries = λ put m. (int (pos (length m)) ∷ put_pairs put m, pos 0);
  get_entries = λ get ms. get_vector get ms;
}

ordered : Ordered wires
ordered = record {
  get-put_int = λ z ms. refl;
  get-put_num = λ t v ms. rw (num_of_int-int_of_num t v) refl;
  get-put_text = λ s ms. refl;
  get-put_texts = λ s ms. refl;
  get-put_sizes = λ s ms. refl;
  get-put_elements = λ t es n ms h. ground arith;
  get-put_entries = λ put get m ms h. rw (get_pairs-put_pairs put get m ms h) refl;
}

abbrev five : PressioOption host
five = num NumType.int32 (some (pos 5))

abbrev no_text : PressioOption host
no_text = text none

abbrev mixed : Options host
mixed = (codes "a", five) ∷ (codes "b", no_text) ∷ []

recv-send_example :
    recv wires no_text ((send wires five).0 ++ int (pos 9) ∷ [])
    ≡ some (five, pos 0, int (pos 9) ∷ [])
recv-send_example = recv-send wires ordered no_text five (int (pos 9) ∷ []) tt

recv_options-send_options_example :
    recv_options wires [] ((send_options wires mixed).0 ++ [])
    ≡ some (merge host [] mixed, pos 0, [])
recv_options-send_options_example =
    recv_options-send_options wires ordered [] mixed [] (tt, (tt, tt))

bcast-send_example :
    (bcast wires five ≡ send wires five)
    × (bcast_other wires no_text (int (pos 1) ∷ []) ≡ recv wires no_text (int (pos 1) ∷ []))
bcast-send_example = bcast-send wires five no_text (int (pos 1) ∷ [])
