-- ===== src/Runtime/Tests.antt =====
-- Tests of the data domains.
use shelfwise.Prelude.{◌≡◌, refl, some}
use shelfwise.Prelude.Text.{strip, lower}
use shelfwise.Prelude.Results.{err, value_error}
use shelfwise.Runtime.Provenance.{normalize_domain, require_training_domain}

operational_twin_refused : require_training_domain (some "operational_twin") ≡ err value_error
unfolding require_training_domain normalize_domain strip lower
operational_twin_refused = refl
