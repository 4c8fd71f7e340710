-- ===== src/Wgplan/Converge.antt =====
-- A plan runs through on the interface that it was made for, and takes it to the desired state.
use meshp.Prelude.{
  ◌≡◌, ◌⊎◌, refl, ap, arith, Bool, Bool-cases, true, false, not, ◌&&◌, ◌||◌, inl, inr, some, List,
  [], ◌∷◌, if◌then◌else◌,
}
use meshp.Prelude.Int.{ℤ, pos, negsuc, int_lt, int_same}
use meshp.Prelude.Equality.{equal, equal_iff, string_eq}
use meshp.Netip.{prefix_eq}
use meshp.Wgplan.Types.{
  Texts, Interface, Op, create_device, bring_up, remove_address, add_address, remove_route,
  add_route,
}
use meshp.Wgplan.Prefixes.{want_routes, prefix_ops}
use meshp.Wgplan.Peers.{index_peers, sorted_peers, remove_ops, set_ops}
use meshp.Wgplan.Plan.{port_wrong, device_ops, peer_ops, plan}
use meshp.Wgplan.Host.{Choices, port_up, Host, execute, run, observe}
use meshp.Wgplan.Running.{run_both, settled, run-prefix_ops}
use meshp.Wgplan.Track.{OnPeers, peers_after, run-OnPeers}
use meshp.Wgplan.Settle.{OnPeers-append}
use meshp.Wgplan.Reach.{IsHost, remove_ops-OnPeers, set_ops-OnPeers}

pub int_same_eq : (a b : ℤ) → int_same a b ≡ true → a ≡ b
int_same_eq (pos a) (pos b) h = ground arith
int_same_eq (pos a) (negsuc b) h = absurd (cc h)
int_same_eq (negsuc a) (pos b) h = absurd (cc h)
int_same_eq (negsuc a) (negsuc b) h = ground arith

run_one :
    (os : Choices)
    → (op : Op) (h h' : Host) → execute os op h ≡ some h'
    → run os (op ∷ []) h ≡ some h'
unfolding run
run_one os op h h' e = rw e

-- The interface that the first operation leaves: a new one has an MTU of its own.
abbrev made : Choices → Host → Host
made os h = record h { is_there = true; mtu = if h.is_there then h.mtu else os.fresh_mtu }

run_created :
    (os : Choices)
    → (h : Host) → IsHost h
    → run os (if h.is_there then [] else create_device ∷ []) h ≡ some (made os h)
unfolding run execute
run_created os h v = elim v.there_or_empty [ inl there ↦ rw there | inr empty ↦ rw empty ]

-- The port that is asked for, or the one that is there.
abbrev pub port_of : Interface → Host → ℤ
port_of want h = if int_same want.listen_port (pos 0) then h.listen_port else want.listen_port

-- The interface once its own settings are right.
abbrev pub set_right : Interface → Host → Host
set_right want h = record h {
  is_there = true;
  private_key = want.private_key;
  listen_port = port_of want h;
  mtu = want.mtu;
}

-- Nothing is set that is right already.
already :
    (os : Choices) (want : Interface) (h : Host)
    → h.is_there ≡ true
    → h.private_key ≡ want.private_key
    → port_wrong want (observe h) ≡ false
    → h.mtu ≡ want.mtu
    → made os h ≡ set_right want h
unfolding observe
already os want h there key port mtu =
    let same : h.listen_port ≡ port_of want h =
      elim (Bool-cases (int_same want.listen_port (pos 0))) [
        | inl any_port ↦ rw any_port
        | inr one ↦ rw one (int_same_eq h.listen_port want.listen_port (settle _ _ one port))
      ] in
    let its_mtu : (if h.is_there then h.mtu else os.fresh_mtu) ≡ want.mtu = rw there mtu in
    λ i. record h { is_there = true; private_key = key i; listen_port = same i; mtu = its_mtu i }
  where
    settle : (a b : Bool) → a ≡ false → (not a && not b) ≡ false → b ≡ true
    settle a b f g = ground arith

neither : (a b : Bool) → (a || b) ≡ false → (a ≡ false) × (b ≡ false)
neither a b f = ground arith

was_true : (a : Bool) → not a ≡ false → a ≡ true
was_true a f = ground arith

run-device_ops :
    (os : Choices)
    → (want : Interface) (h : Host) → int_lt (pos 0) want.mtu ≡ true
    → run os (device_ops want (observe h)) (made os h) ≡ some (set_right want h)
unfolding run execute device_ops observe
run-device_ops os want h mtu =
    elim (Bool-cases (
      not h.is_there
      || (not (equal h.private_key want.private_key)
          || (port_wrong want (observe h) || not (int_same h.mtu want.mtu))))) [
            | inl write ↦ rw (write, mtu)
            | inr right ↦
                let (there, others) = neither _ _ right in
                let (key, more) = neither _ _ others in
                let (port, its_mtu) = neither _ _ more in
                rw right (
                  ap (λ (g : Host). some g)
                    (already os want h (was_true _ there)
                      ((equal_iff h.private_key want.private_key).0 (was_true _ key)) port
                      (int_same_eq h.mtu want.mtu (was_true _ its_mtu))))
          ]

module _ (os : Choices) (t : Texts) (want : Interface) (h : Host) where
  abbrev pub its_peer_ops : List Op
  its_peer_ops = peer_ops t (index_peers (observe h).peers) (index_peers want.peers)

  pub peer_ops-OnPeers : OnPeers its_peer_ops
  unfolding peer_ops
  peer_ops-OnPeers =
      OnPeers-append
        (remove_ops (index_peers want.peers) (sorted_peers (index_peers (observe h).peers)))
        (set_ops t (index_peers (observe h).peers) (sorted_peers (index_peers want.peers)))
        (remove_ops-OnPeers (index_peers want.peers) (sorted_peers (index_peers (observe h).peers)))
        (set_ops-OnPeers t (index_peers (observe h).peers) (sorted_peers (index_peers want.peers)))

  -- The interface after its peers are set.
  abbrev with_peers : Host
  with_peers = record (set_right want h) { peers = peers_after its_peer_ops h.peers }

  -- And after its addresses are.
  abbrev with_addresses : Host
  with_addresses = record with_peers { addresses = settled t h.addresses want.addresses }

  -- And after it is brought up.
  abbrev brought_up : Host
  brought_up = record with_addresses {
    up = true;
    listen_port = if not h.is_there || not h.up then port_up os with_addresses else port_of want h;
  }

  abbrev pub reached : Host
  reached = record brought_up { routes = settled t h.routes (want_routes want) }

  -- A port that is asked for is had in the end.
  pub reached_port :
      (reached.listen_port ≡ want.listen_port) ⊎ (int_same want.listen_port (pos 0) ≡ true)
  reached_port = elim (Bool-cases (int_same want.listen_port (pos 0))) [
    | inl any ↦ inr any
    | inr one ↦ inl (rw (one, one) (stays (not h.is_there || not h.up) want.listen_port))
  ]
    where
      stays : (b : Bool) (p : ℤ) → (if b then p else p) ≡ p
      stays true p = refl
      stays false p = refl

  run_addresses :
      run os
        (prefix_ops t (observe h).addresses want.addresses remove_address add_address)
        with_peers
      ≡ some with_addresses
  unfolding execute observe
  run_addresses =
      run-prefix_ops os t (λ l. record with_peers { addresses = l }) remove_address add_address
        h.addresses want.addresses (λ p m. refl) (λ p m. refl)

  run_up :
      IsHost h
      → run os
          (if not (observe h).is_there || not (observe h).up then bring_up ∷ [] else [])
          with_addresses
        ≡ some brought_up
  unfolding run execute observe
  run_up v = elim (Bool-cases (not h.is_there || not h.up)) [
    | inl down ↦ rw down
    | inr up ↦ let its_up = was_true h.up (neither _ _ up).1 in rw (up, its_up)
  ]

  run_routes :
      run os (prefix_ops t (observe h).routes (want_routes want) remove_route add_route) brought_up
      ≡ some reached
  unfolding execute observe
  run_routes =
      run-prefix_ops os t (λ l. record brought_up { routes = l }) remove_route add_route h.routes
        (want_routes want) (λ p m. refl) (λ p m. refl)

  pub run-plan :
      IsHost h → int_lt (pos 0) want.mtu ≡ true → run os (plan t want (observe h)) h ≡ some reached
  unfolding plan observe
  run-plan v mtu = run_both os _ _ h (made os h) _ (run_created os h v) (
      run_both os _ _ (made os h) (set_right want h) _ (run-device_ops os want h mtu) (
        run_both os _ _ (set_right want h) with_peers _
          (run-OnPeers os its_peer_ops (set_right want h) peer_ops-OnPeers refl)
          (run_both os _ _ with_peers with_addresses _ run_addresses
            (run_both os _ _ with_addresses brought_up _ (run_up v) run_routes))))
