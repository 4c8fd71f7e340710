-- ===== src/Wgplan/Link.antt =====
-- internal/wglink/wglink_linux.go, wglink.go: Apply and ApplyPlan over the kernel's interface.
use meshp.Prelude.{Bool, Option, none, some, List, [], ◌∷◌, String, if◌then◌else◌}
use meshp.Prelude.Int.{ℤ, pos, int_lt, int_same}
use meshp.Prelude.Equality.{string_eq}
use meshp.Netip.{Prefix, prefix_eq}
use meshp.Wgplan.Types.{
  Device, Op, create_device, bring_up, destroy_device, set_device, remove_peer, set_peer,
  remove_address, add_address, remove_route, add_route,
}
use meshp.Wgplan.Host.{Choices, Host, PeerConfig, peer_config, and_then}

-- The parts of wgtypes.Config that setDevice sets, none for a nil pointer.
pub record DeviceConfig : Type 0 where
  pub private_key : String
  pub listen_port : Option ℤ

unfoldable pub device_config : Device → DeviceConfig
device_config d = record {
  private_key = d.private_key;
  listen_port = if int_same d.listen_port (pos 0) then none else some d.listen_port;
}

-- What the kernel answers to a change of addresses or routes. `already` is EEXIST for an addition,
-- and EADDRNOTAVAIL, ESRCH or ENOENT for a removal.
pub data Answer (S : Type 0) : Type 0 where
  done : S → Answer S
  already failed : Answer S

-- The kernel's side, through rtnetlink and wgctrl: what it reports of the interface of the name at
-- hand, and its calls; none is an error.
pub record Kernel : Type 1 where
  pub Store : Type 0
  pub seen : Store → Host
  pub choices : Choices
  pub link_new : Store → Option Store
  pub link_delete : Store → Option Store
  pub link_set_mtu : ℤ → Store → Option Store
  pub link_set_up : Store → Option Store
  pub configure_device : DeviceConfig → Store → Option Store
  pub configure_peer : PeerConfig → Store → Option Store
  pub remove_key : String → Store → Option Store
  pub address_new : Prefix → Store → Answer Store
  pub address_delete : Prefix → Store → Answer Store
  pub route_new : Prefix → Store → Answer Store
  pub route_delete : Prefix → Store → Answer Store

-- What Apply returns for an answer, in the state that the call was made in.
abbrev pub answered : {S : Type 0} → S → Answer S → Option S
answered s (done s') = some s'
answered s already = some s
answered s failed = none

module _ (k : Kernel) where
  abbrev there : k.Store → Bool
  there s = (k.seen s).is_there

  unfoldable pub set_mtu : ℤ → k.Store → Option k.Store
  set_mtu m s = if there s then k.link_set_mtu m s else none

  unfoldable pub set_up : k.Store → Option k.Store
  set_up s = if there s then k.link_set_up s else none

  -- `address` and `route`
  unfoldable pub add_one : (Prefix → k.Store → Answer k.Store) → Prefix → k.Store → Option k.Store
  add_one call p s = if there s then answered s (call p s) else none

  unfoldable pub take_one : (Prefix → k.Store → Answer k.Store) → Prefix → k.Store → Option k.Store
  take_one call p s = if there s then answered s (call p s) else some s

  unfoldable pub apply : Op → k.Store → Option k.Store
  apply create_device s = k.link_new s
  apply destroy_device s = if there s then k.link_delete s else some s
  apply (set_device d) s =
      and_then (k.configure_device (device_config d) s)
        (λ s'. if int_lt (pos 0) d.mtu then set_mtu d.mtu s' else some s')
  apply (set_peer p) s = k.configure_peer (peer_config p) s
  apply (remove_peer key) s = k.remove_key key s
  apply (add_address p) s = add_one k.address_new p s
  apply (remove_address p) s = take_one k.address_delete p s
  apply (add_route p) s = add_one k.route_new p s
  apply (remove_route p) s = take_one k.route_delete p s
  apply bring_up s = set_up s

  unfoldable pub apply_plan : List Op → k.Store → Option k.Store
  apply_plan [] s = some s
  apply_plan (op ∷ ops) s = and_then (apply op s) (apply_plan ops)
