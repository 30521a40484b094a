-- ===== src/Groups/Responses.antt =====
-- The responses of the work queue in `common_many_impl` of src/plugins/compressors/many_independent.cc,
-- which are handled one after another as they arrive. An index outside a vector is `none`.
use libpressio.Base.{List, drop, get_elem?, Option, Text, [], if◌then◌else◌, none, some, ◌∷◌}
use libpressio.Base.Int.{ℤ}
use libpressio.Compressor.Base.{Plugin, nonzero, set_error}
use libpressio.Groups.Subgroups.{same_group}
use libpressio.Serial.Recv.{◌>>=◌}

-- `response_t`
pub record Response (A : Type 0) : Type 0 where
  pub group_idx : ℤ
  pub status : ℤ
  pub output_data : List A
  pub err_msg : Text

module _ {A : Type 0} where
  -- The loop that stores the outputs of a group.
  unfoldable pub store_outputs : ℤ → List ℤ → List A → List A → Option (List A)
  store_outputs idx [] stored outputs = some outputs
  store_outputs idx (g ∷ gs) stored [] =
      let rest = store_outputs idx gs stored [] in if same_group g idx then none else rest
  store_outputs idx (g ∷ gs) stored (o ∷ os) =
      let taken = store_outputs idx gs (drop 1 stored) os in
      let kept = store_outputs idx gs stored os in
      if same_group g idx
      then (do x ← get_elem? stored 0; rest ← taken; some (x ∷ rest))
      else (do rest ← kept; some (o ∷ rest))

  module _ {M S : Type 0} where
    -- One response: the error, and the outputs. The status that it adds to is not used: the result of
    -- the queue is assigned to it.
    unfoldable pub handle : List ℤ → Response A → Plugin M S × List A → Option (Plugin M S × List A)
    unfolding store_outputs set_error
    handle gs r (self, outputs) = do
      stored ← store_outputs r.group_idx gs r.output_data outputs
      some (if nonzero r.status then (set_error r.status r.err_msg self).0 else self, stored)

    unfoldable pub handle_all :
        List ℤ → List (Response A) → Plugin M S × List A → Option (Plugin M S × List A)
    unfolding handle
    handle_all gs [] state = some state
    handle_all gs (r ∷ rs) state = do state ← handle gs r state; handle_all gs rs state
