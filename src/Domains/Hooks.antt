-- ===== src/Domains/Hooks.antt =====
-- The hooks that struct pressio_domain_manager calls on its metrics
-- (include/libpressio_ext/cpp/domain_manager.h), as a trace of a run.
use libpressio.Base.{List, Option, [], none, some, ◌++◌, ◌∷◌}
use libpressio.Memory.Heap.{Heap, Domain, Outcome, returns, bad_alloc, runtime_error, undefined}

-- The hooks of pressio_domain_manager_metrics_plugin, which come in pairs.
pub data Hook : Type 0 where
  alloc view send make_readable make_readable_domain copy_to make_writeable : Hook

pub data Event : Type 0 where
  begins ends : Hook → Event

abbrev pub Run : Type 0 → Type 0
Run A = Outcome (A × Heap × List Event)

-- The call of the hook at the begin of a run, and then the run.
abbrev pub begun : {A : Type 0} → Hook → Run A → Run A
begun hook (returns (a, h, events)) = returns (a, h, begins hook ∷ events)
begun hook bad_alloc = bad_alloc
begun hook runtime_error = runtime_error
begun hook undefined = undefined

-- The call of the hook at the end of a run, which an exception skips.
abbrev pub ended : {A : Type 0} → Hook → Run A → Run A
ended hook (returns (a, h, events)) = returns (a, h, events ++ (ends hook ∷ []))
ended hook bad_alloc = bad_alloc
ended hook runtime_error = runtime_error
ended hook undefined = undefined

-- A run after the call of its first hook and before that of its last.
abbrev pub between : {A : Type 0} → Hook → Run A → Run A
between hook r = ended hook (begun hook r)

-- Events, and then a run.
abbrev pub continued : {A : Type 0} → List Event → Run A → Run A
continued events (returns (b, h, more)) = returns (b, h, events ++ more)
continued events bad_alloc = bad_alloc
continued events runtime_error = runtime_error
continued events undefined = undefined

abbrev pub followed : {A B : Type 0} → Run A → (A → Heap → Run B) → Run B
followed (returns (a, h, events)) f = continued events (f a h)
followed bad_alloc f = bad_alloc
followed runtime_error f = runtime_error
followed undefined f = undefined

-- A step that calls no hook.
abbrev pub silent : {A : Type 0} → Outcome (A × Heap) → Run A
silent (returns (a, h)) = returns (a, h, [])
silent bad_alloc = bad_alloc
silent runtime_error = runtime_error
silent undefined = undefined

abbrev pub unchanged : {A : Type 0} → Heap → Outcome A → Run A
unchanged h (returns a) = returns (a, h, [])
unchanged h bad_alloc = bad_alloc
unchanged h runtime_error = runtime_error
unchanged h undefined = undefined

-- The domain of a buffer, which a moved-from one has not.
abbrev pub with_domain : {A : Type 0} → Option Domain → (Domain → Run A) → Run A
with_domain none f = undefined
with_domain (some d) f = f d
