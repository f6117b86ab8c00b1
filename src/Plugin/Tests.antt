-- ===== src/Plugin/Tests.antt =====
-- The drivers on a kernel with one link in each namespace that is there or not.
use rubble.Prelude.{
  ℕ, String, Bool, true, false, ◌≡◌, refl, Option, none, some, [], ◌∷◌, str_eq, if◌then◌else◌,
  arith,
}
use rubble.Prelude.Run.{Error, link_not_found, external, success}
use rubble.Plugin.{Link, Kernel, Packages}
use rubble.Plugin.Removal.{DeletionLaws}

abbrev pub link : Link
link = record { index = 7; name = "veth0"; hardware_addr = "02:00" }

abbrev del_link : Bool → Option Error × Bool
del_link true = (none, false)
del_link false = (some link_not_found, false)

-- The state says whether the link is there. The namespace with the empty path cannot be opened.
abbrev pub one_link : Kernel Bool String ℕ
one_link = record {
  get_ns = λ w path. if str_eq path "" then some (external "no such file") else none;
  enter = λ w path. none;
  random_veth_name = λ w. (success "veth1", w);
  link_by_name = λ w ns name. success link;
  link_add = λ w l. (none, true);
  rename_link = λ w ns old new. (none, w);
  link_set_up = λ w ns l. (none, w);
  del_link_by_name = λ w ns name. del_link w;
  configure_iface = λ w ns name result. (none, w);
  set_up_veth = λ w ns name mtu. (success (link, link), w);
  route_add = λ w ns route. (none, w);
  interface_by_name = λ w name. none;
  interface_addrs = λ w name.
      success
        (record { is_ip_net = true; is_loopback = false; is_ipv4 = true; ip = "10.0.0.1" } ∷ []);
}

abbrev pub packages : Packages String ℕ
packages = record {
  parse_ip = λ s. some s;
  parse_cidr = λ s. if str_eq s "" then none else some (s, s, 24);
  implemented_spec_version = "1.0.0";
  new_result_from_result = λ r. some r;
}

gone : (w : Bool) → (del_link w).0 ≡ none → (del_link (del_link w).1).0 ≡ some link_not_found
gone true h = refl
gone false h = refl

failed : (w : Bool) (e : Error) → (del_link w).0 ≡ some e → (del_link w).1 ≡ w
failed true e h = absurd (ground arith)
failed false e h = refl

abbrev one_link_laws : DeletionLaws one_link
one_link_laws = record {
  gone = λ w ns name deleted. gone w deleted;
  failed = λ w ns name e left. failed w e left;
  opened = λ w ns name. refl;
  entered = λ w ns name. refl;
}
