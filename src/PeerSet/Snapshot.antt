-- ===== src/PeerSet/Snapshot.antt =====
-- A snapshot describes the whole world, but for the tunnel.
use meshp.Prelude.{◌≡◌, ◌≢◌, ◌↔◌, arith, none, some}
use meshp.PeerSet.Wire.{Wire}
use meshp.PeerSet.Defs.{Set, StateDelta, apply}

module _ (w : Wire) where
  -- A snapshot that names a tunnel leaves nothing of the set that it is applied to.
  pub snapshot_replaces :
      (d : StateDelta w) (s t : Set w)
      → d.from_version ≡ 0
      → d.tunnel ≢ none
      → apply w (some d) s ≡ apply w (some d) t
  unfolding apply
  snapshot_replaces d s t whole named = ground arith

  -- A snapshot that names no tunnel keeps the old one: two sets become equal by it exactly when
  -- they had the same tunnel.
  pub snapshot_keeps_tunnel :
      (d : StateDelta w) (s t : Set w)
      → d.from_version ≡ 0
      → d.tunnel ≡ none
      → (apply w (some d) s ≡ apply w (some d) t) ↔ (s.tunnel ≡ t.tunnel)
  unfolding apply
  snapshot_keeps_tunnel d s t whole absent = ground arith
