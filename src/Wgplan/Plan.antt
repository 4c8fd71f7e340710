-- ===== src/Wgplan/Plan.antt =====
-- internal/wgplan/wgplan.go: `For` behind its validation, and `Teardown`.
use meshp.Prelude.{Bool, not, ◌&&◌, ◌||◌, List, [], ◌∷◌, ◌++◌, map, String, if◌then◌else◌}
use meshp.Prelude.Int.{pos, int_same}
use meshp.Prelude.Equality.{equal, string_eq}
use meshp.Prelude.Assoc.{Assoc}
use meshp.Wgplan.Types.{
  Texts, Peer, Interface, Observed, Op, create_device, bring_up, destroy_device, set_device,
  remove_address, add_address, remove_route, add_route,
}
use meshp.Wgplan.Prefixes.{sort_prefixes, prefix_ops, want_routes}
use meshp.Wgplan.Peers.{index_peers, sorted_peers, remove_ops, set_ops}

-- What sets the device right, and what it is set to.
abbrev pub port_wrong : Interface → Observed → Bool
port_wrong want seen =
    not (int_same want.listen_port (pos 0)) && not (int_same seen.listen_port want.listen_port)

unfoldable pub device_ops : Interface → Observed → List Op
device_ops want seen =
    if not seen.is_there
      || (not (equal seen.private_key want.private_key)
          || (port_wrong want seen || not (int_same seen.mtu want.mtu)))
    then set_device
        (record { private_key = want.private_key; listen_port = want.listen_port; mtu = want.mtu })
      ∷ []
    else []

module _ (t : Texts) where
  unfoldable pub peer_ops : Assoc String Peer → Assoc String Peer → List Op
  peer_ops have want = remove_ops want (sorted_peers have) ++ set_ops t have (sorted_peers want)

  -- `For`, once the configuration is found valid.
  unfoldable pub plan : Interface → Observed → List Op
  plan want seen =
      (if seen.is_there then [] else create_device ∷ [])
      ++ (device_ops want seen
          ++ (peer_ops (index_peers seen.peers) (index_peers want.peers)
              ++ (prefix_ops t seen.addresses want.addresses remove_address add_address
                  ++ ((if not seen.is_there || not seen.up then bring_up ∷ [] else [])
                      ++ prefix_ops t seen.routes (want_routes want) remove_route add_route))))

  unfoldable pub teardown : Observed → List Op
  teardown seen =
      if seen.is_there
      then map remove_route (sort_prefixes t seen.routes)
        ++ (map remove_address (sort_prefixes t seen.addresses) ++ destroy_device ∷ [])
      else []
