-- ===== src/Tests/DomainTests.antt =====
-- The properties of the domain manager at concrete inputs.
use libpressio.Base.{
  List, Option, Text, [], arith, codes, inr, refl, some, suc, true, zero, ℕ, ◌∷◌, ◌≡◌,
}
use libpressio.Dtype.{Dtype, dtype_size}
use libpressio.Data.Sizes.{data_size_in_bytes, data_size_in_elements, size_loop}
use libpressio.Memory.Heap.{
  Heap, System, malloc, nonowning, Outcome, returns, undefined, write_block,
}
use libpressio.Data.Buffer.{Buffer, has_data, size_in_bytes}
use libpressio.Domains.Manager.{make_readable_in}
use libpressio.Domains.Readable.{contents, Sends, ReadableIn, make_readable_in-Presents}

-- Memory that is never short and reads as zeros.
abbrev zeros : ℕ → List ℕ
zeros zero = []
zeros (suc n) = 0 ∷ zeros n

abbrev system : System
system n next = some (zeros n)

abbrev others : Text → List Text
others id = []

-- A sender that copies.
abbrev written : Option ℕ → Option (List ℕ) → Heap → Outcome Heap
written (some p) (some bytes) h = returns (record h { blocks = write_block p bytes h.blocks })
written _ _ h = undefined

abbrev copier : Buffer → Buffer → Heap → Outcome Heap
copier dst src h = written dst.memory.data_ptr (contents src h) h

abbrev senders : Text → Option (Buffer → Buffer → Heap → Outcome Heap)
senders name = some copier

written-some :
    (p : Option ℕ) (c : Option (List ℕ)) (q : ℕ) (bytes : List ℕ) (h : Heap)
    → p ≡ some q
    → c ≡ some bytes
    → written p c h ≡ returns (record h { blocks = write_block q bytes h.blocks })
written-some p c q bytes h e f = rw (e, f) refl

copier-Sends : Sends others system senders copier
copier-Sends dst src h p old bytes e f g same =
    written-some dst.memory.data_ptr (contents src h) p bytes h e g

abbrev heap : Heap
heap = record { next = 1; blocks = (0, 7 ∷ 8 ∷ []) ∷ [] }

-- Two bytes in another domain.
abbrev pair : Buffer
pair = record {
  data_dtype = Dtype.byte;
  dims = 2 ∷ [];
  memory = record { domain = some (nonowning (codes "cuda")); data_ptr = some 0; capacity = 2 };
}

pair-has_data : has_data pair ≡ true
unfolding has_data size_in_bytes data_size_in_bytes data_size_in_elements size_loop dtype_size
pair-has_data = refl

pair-room : system (size_in_bytes pair) heap.next ≡ some (0 ∷ 0 ∷ [])
unfolding size_in_bytes data_size_in_bytes data_size_in_elements size_loop dtype_size
pair-room = refl

make_readable_in-Presents_example :
    ReadableIn others system senders pair heap
      (make_readable_in system others senders malloc pair heap)
make_readable_in-Presents_example =
    make_readable_in-Presents others system senders pair heap (nonowning (codes "cuda")) 0
      (7 ∷ 8 ∷ []) (0 ∷ 0 ∷ []) copier (omega arith, tt) pair-has_data refl refl refl
      (inr (refl, pair-room, refl, copier-Sends))
