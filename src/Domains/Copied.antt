-- ===== src/Domains/Copied.antt =====
-- What `copy_to` of struct pressio_domain_manager (include/libpressio_ext/cpp/domain_manager.h) gives,
-- of a buffer that is moved from or that is in a domain that cannot be accessed.
use libpressio.Base.{Bool}
use libpressio.Data.Buffer.{Buffer}
use libpressio.Memory.Heap.{Heap}
