-- ===== src/Data/Defs.antt =====
-- struct pressio_data of include/libpressio_ext/cpp/data.h, as far as its type, its dimensions and
-- the elements of its buffer go.
use libpressio.Base.{List, ℕ}
use libpressio.Dtype.{Dtype}

-- The elements stand in the order of their addresses.
pub record Data {ℓ} (A : Type ℓ) : Type ℓ where
  pub dtype : Dtype
  pub dims : List ℕ
  pub elements : List A
