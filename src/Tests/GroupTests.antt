-- ===== src/Tests/GroupTests.antt =====
-- The properties of groups at a concrete input.
use libpressio.Base.{List, [], none, false, refl, some, ℕ, ◌∷◌, ◌≡◌}
use libpressio.Base.Int.{pos}
use libpressio.Compressor.Base.{Plugin}
use libpressio.Groups.Arrival.{handle_all-outputs}
use libpressio.Groups.Responses.{Response, handle_all}
use libpressio.Groups.Subgroups.{has_group, make_data_group}

abbrev independent : Plugin Unit Unit
independent = record {
  name = [];
  error_code = pos 0;
  error_msg = [];
  metrics_plugin = none;
  metrics_id = [];
  metrics_errors_fatal = false;
  metrics_copy_impl_results = false;
  state = tt;
}

-- The group 1 arrives before the group 0, which has two outputs, and reports an error.
abbrev arrived : List (Response ℕ)
arrived =
    record { group_idx = pos 1; status = pos 3; output_data = 20 ∷ []; err_msg = [] }
    ∷ record { group_idx = pos 0; status = pos 0; output_data = 10 ∷ 30 ∷ []; err_msg = [] }
    ∷ []

handle_all-outputs_example :
    (self' : Plugin Unit Unit) × (handle_all
        (pos 0 ∷ pos 1 ∷ pos 0 ∷ [])
        arrived
        (independent, 0 ∷ 0 ∷ 0 ∷ [])
      ≡ some (self', 10 ∷ 20 ∷ 30 ∷ []))
unfolding make_data_group has_group
handle_all-outputs_example =
    handle_all-outputs independent (pos 0 ∷ pos 1 ∷ pos 0 ∷ []) (10 ∷ 20 ∷ 30 ∷ []) (0 ∷ 0 ∷ 0 ∷ [])
      arrived refl refl (refl, (refl, tt)) (refl, (refl, (refl, tt)))
