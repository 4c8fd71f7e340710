-- ===== src/Health/Fusion.antt =====
-- What a report's verdict says of its three signals.
use meshp.Prelude.{◌≡◌, ◌≢◌, ◌⊎◌, ◌↔◌, arith}
use meshp.Health.Signals.{
  Signal, ok, fail, Report, verdict_none, verdict_ok, verdict_fail, verdict_partial, verdict,
}

-- One of the three sources reports this.
abbrev pub Says : Signal → Report → Type 0
Says s r = (r.self_report ≡ s) ⊎ (r.control_probe ≡ s) ⊎ (r.client_observed ≡ s)

abbrev pub Silent : Signal → Report → Type 0
Silent s r = (r.self_report ≢ s) × (r.control_probe ≢ s) × (r.client_observed ≢ s)

-- There is no verdict exactly when no source says anything, the verdict is good exactly when some
-- source approves and none objects, it fails exactly when the clients object or somebody objects
-- and nobody approves, and it is partial exactly when the others disagree.
pub verdict_fused :
    (r : Report)
    → ((verdict r ≡ verdict_none) ↔ (Silent ok r × Silent fail r))
      × ((verdict r ≡ verdict_ok) ↔ (Says ok r × Silent fail r))
      × ((verdict r ≡ verdict_fail) ↔ ((r.client_observed ≡ fail) ⊎ (Says fail r × Silent ok r)))
      × ((verdict r ≡ verdict_partial) ↔ ((r.client_observed ≢ fail) × Says ok r × Says fail r))
unfolding verdict
verdict_fused r = ground arith
