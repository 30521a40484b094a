-- ===== src/Domains/Manager.antt =====
-- struct pressio_domain_manager (include/libpressio_ext/cpp/domain_manager.h). An operation returns
-- its buffer, the heap and the hooks of the metrics that it called, in their order. Its arguments
-- are not used after it: what is left of the buffers it moves from is not returned. The overloads
-- of `copy_to_impl` into a buffer are not modelled: no call can reach them.
use libpressio.Base.{
  Bool, List, Option, Text, [], codes, false, if◌then◌else◌, none, some, true, ◌&&◌, ◌++◌,
}
use libpressio.Memory.Heap.{Heap, Domain, domain_id, Outcome, returns, runtime_error, ◌>>=◌, System}
use libpressio.Memory.Ops.{copy_assign}
use libpressio.Data.Buffer.{Buffer, has_data, nonowning_of, owning, empty_in}
use libpressio.Domains.Access.{is_accessible}
use libpressio.Domains.Hooks.{Hook, Run, begun, ended, followed, silent, unchanged, with_domain}

-- `senders` is `domain_send_plugins().build`, and the `send` of what it builds: the heap after it.
module _ (system : System) (others : Text → List Text)
    (senders : Text → Option (Buffer → Buffer → Heap → Outcome Heap)) where
  unfoldable pub send_by :
      Option (Buffer → Buffer → Heap → Outcome Heap) → Buffer → Buffer → Heap → Run Buffer
  send_by none dst src h = runtime_error
  send_by (some sender) dst src h = silent (sender dst src h >>= λ h'. returns (dst, h'))

  -- `send`, with `send_impl`: the destination is the same object.
  unfoldable pub send : Buffer → Buffer → Heap → Run Buffer
  unfolding send_by
  send dst src h = ended Hook.send (
      begun Hook.send (
        with_domain src.memory.domain (λ s.
          with_domain dst.memory.domain
            (λ d. send_by (senders (domain_id s ++ (codes ">" ++ domain_id d))) dst src h))))

  -- A new buffer of the type and dimensions of `src`, between the hooks of an allocation.
  unfoldable pub allocate_like : Domain → Buffer → Heap → Run Buffer
  allocate_like d src h =
      ended Hook.alloc (begun Hook.alloc (silent (owning system src.data_dtype src.dims d h)))

  -- `make_readable_impl` in a domain; `s` is the domain of `src`.
  unfoldable pub readable_in : Domain → Domain → Buffer → Heap → Run Buffer
  unfolding is_accessible send allocate_like
  readable_in dst s src h =
      if is_accessible others dst s
      then ended Hook.view (begun Hook.view (unchanged h (nonowning_of src)))
      else if has_data src
      then followed (allocate_like dst src h) (λ out h'. send out src h')
      else unchanged h (empty_in src.data_dtype src.dims dst)

  -- `make_readable` in a domain.
  unfoldable pub make_readable_in : Domain → Buffer → Heap → Run Buffer
  unfolding readable_in
  make_readable_in dst src h = with_domain src.memory.domain (λ s.
      ended Hook.make_readable_domain (begun Hook.make_readable_domain (readable_in dst s src h)))

  -- `make_readable_impl` in the memory of `dst`, whose domain is `d`, if it has any.
  unfoldable pub readable : Domain → Domain → Buffer → Buffer → Heap → Run Buffer
  unfolding is_accessible send allocate_like
  readable d s dst src h =
      if is_accessible others d s
      then ended Hook.view (begun Hook.view (unchanged h (nonowning_of src)))
      else if has_data src
      then (if has_data dst
          then send dst src h
          else followed (allocate_like d src h) (λ out h'. send out src h'))
      else unchanged h (empty_in src.data_dtype src.dims d)

  unfoldable pub make_readable : Buffer → Buffer → Heap → Run Buffer
  unfolding readable
  make_readable dst src h = with_domain dst.memory.domain (λ d.
      with_domain src.memory.domain
        (λ s. ended Hook.make_readable (begun Hook.make_readable (readable d s dst src h))))

  -- The copy assignment of struct pressio_data, which is that of its members.
  unfoldable pub assign_buffer : Buffer → Buffer → Heap → Outcome (Buffer × Heap)
  unfolding copy_assign
  assign_buffer out src h = do
    (m, h') ← copy_assign system out.memory src.memory h
    returns (record { data_dtype = src.data_dtype; dims = src.dims; memory = m }, h')

  -- `copy_to` in a domain, of a buffer that is moved from (`true`) or not. The buffers without data
  -- are refused.
  unfoldable pub copy_to_in : Domain → Domain → Bool → Buffer → Heap → Run Buffer
  unfolding is_accessible send allocate_like assign_buffer
  copy_to_in dst s true src h =
      if is_accessible others dst s
      then returns (src, h, [])
      else followed (allocate_like dst src h) (λ out h'. send out src h')
  copy_to_in dst s false src h =
      if is_accessible others dst s
      then followed (allocate_like dst src h) (λ out h'. silent (assign_buffer out src h'))
      else followed (allocate_like dst src h) (λ out h'. send out src h')

  unfoldable pub copy_to : Domain → Bool → Buffer → Heap → Run Buffer
  unfolding copy_to_in
  copy_to dst moves src h =
      if has_data src
      then with_domain src.memory.domain (λ s. copy_to_in dst s moves src h)
      else runtime_error

  -- `make_writeable` in a domain, of a buffer that is moved from or not.
  unfoldable pub make_writeable : Domain → Bool → Buffer → Heap → Run Buffer
  unfolding is_accessible allocate_like
  make_writeable dst false src h =
      ended Hook.make_writeable (begun Hook.make_writeable (allocate_like dst src h))
  make_writeable dst true src h = with_domain src.memory.domain (λ s. ended Hook.make_writeable (
      begun Hook.make_writeable (
        if is_accessible others dst s && has_data src
        then ended Hook.view (begun Hook.view (returns (src, h, [])))
        else allocate_like dst src h)))
