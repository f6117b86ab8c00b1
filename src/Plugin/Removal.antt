-- ===== src/Plugin/Removal.antt =====
-- pkg/plugin: what TearDown does when it is called again.
use rubble.Prelude.{
  String, ◌≡◌, refl, sym, ap, ◌∙◌, Option, none, some, inl, inr, Option-cases, arith,
}
use rubble.Prelude.Run.{
  Run, ok, Result, Error, link_not_found, ns_path_not_exist, plain, success, failure,
}
use mathlib.Core.Path.{subst}
use rubble.Prelude.Call.{and_then, hidden, acted}
use rubble.Prelude.Outcomes.{acted-world}
use rubble.Plugin.{Kernel, Packages}
use rubble.Plugin.IpVlan.{gone_is_fine, ns_gone_is_fine, delete_in_ns, tear_down_link}

-- What the kernel promises of the deletion of a link: the link is gone afterwards, a deletion that
-- fails changes nothing, and a namespace stays when a link of it goes.
pub record DeletionLaws {W Ip Mask : Type 0} (kernel : Kernel W Ip Mask) : Type 0 where
  pub gone :
      (w : W) (net_ns name : String)
      → (kernel.del_link_by_name w net_ns name).0 ≡ none
      → (kernel.del_link_by_name (kernel.del_link_by_name w net_ns name).1 net_ns name).0
        ≡ some link_not_found
  pub failed :
      (w : W) (net_ns name : String) (e : Error)
      → (kernel.del_link_by_name w net_ns name).0 ≡ some e
      → (kernel.del_link_by_name w net_ns name).1 ≡ w
  pub opened :
      (w : W) (net_ns name : String)
      → kernel.get_ns (kernel.del_link_by_name w net_ns name).1 net_ns ≡ kernel.get_ns w net_ns
  pub entered :
      (w : W) (net_ns name : String)
      → kernel.enter (kernel.del_link_by_name w net_ns name).1 net_ns ≡ kernel.enter w net_ns

module _ {W Ip Mask : Type 0} (kernel : Kernel W Ip Mask) (packages : Packages Ip Mask) where
  -- The four ends of a TearDown.
  pub tear_down-not_opened :
      (net_ns name : String) (w : W) (e : Error)
      → kernel.get_ns w net_ns ≡ some e
      → tear_down_link kernel packages net_ns name w
        ≡ ok (failure (plain "failed to open netns"), w)
  unfolding tear_down_link and_then hidden acted
  tear_down-not_opened net_ns name w e closed = rw closed refl

  tear_down-opened :
      (net_ns name : String) (w : W)
      → kernel.get_ns w net_ns ≡ none
      → tear_down_link kernel packages net_ns name w
        ≡ acted (ns_gone_is_fine (delete_in_ns kernel packages net_ns name w))
  unfolding tear_down_link and_then hidden acted
  tear_down-opened net_ns name w opened = rw opened refl

  delete-not_entered :
      (net_ns name : String) (w : W) (e : Error)
      → kernel.get_ns w net_ns ≡ none
      → kernel.enter w net_ns ≡ some e
      → delete_in_ns kernel packages net_ns name w ≡ (some e, w)
  unfolding delete_in_ns
  delete-not_entered net_ns name w e opened closed =
      rw (opened, delete_in_ns) (rw (closed, delete_in_ns) refl)

  delete-entered :
      (net_ns name : String) (w : W)
      → kernel.get_ns w net_ns ≡ none
      → kernel.enter w net_ns ≡ none
      → delete_in_ns kernel packages net_ns name w
        ≡ gone_is_fine (kernel.del_link_by_name w net_ns name)
  unfolding delete_in_ns
  delete-entered net_ns name w opened entered =
      rw (opened, delete_in_ns) (rw (entered, delete_in_ns) refl)

  -- The end of the deletion, in the terms of its error.
  abbrev ended : Option Error × W → Run (Result (Unit {0}) × W)
  ended r = acted (ns_gone_is_fine (gone_is_fine r))

  gone_is_fine-world : (r : Option Error × W) → (gone_is_fine r).1 ≡ r.1
  unfolding gone_is_fine
  gone_is_fine-world (none, w) = refl
  gone_is_fine-world (some link_not_found, w) = refl
  gone_is_fine-world (some e, w) = refl

  ns_gone_is_fine-world : (r : Option Error × W) → (ns_gone_is_fine r).1 ≡ r.1
  unfolding ns_gone_is_fine
  ns_gone_is_fine-world (none, w) = refl
  ns_gone_is_fine-world (some ns_path_not_exist, w) = refl
  ns_gone_is_fine-world (some e, w) = refl

  ended-world : (r : Option Error × W) (v : W) → ended r ≡ ok (success tt, v) → r.1 ≡ v
  ended-world r v h =
      sym (gone_is_fine-world r)
      ∙ sym (ns_gone_is_fine-world (gone_is_fine r))
      ∙ acted-world _ _ v h

  ended-gone :
      (r : Option Error × W) (w : W)
      → r.0 ≡ some link_not_found
      → r.1 ≡ w
      → ended r ≡ ok (success tt, w)
  unfolding gone_is_fine ns_gone_is_fine acted
  ended-gone (o, v) w e f = rw (e, gone_is_fine) (rw f refl)

  tear_down-deletes :
      (net_ns name : String) (w : W)
      → kernel.get_ns w net_ns ≡ none
      → kernel.enter w net_ns ≡ none
      → tear_down_link kernel packages net_ns name w ≡ ended (kernel.del_link_by_name w net_ns name)
  tear_down-deletes net_ns name w opened entered =
      tear_down-opened net_ns name w opened
      ∙ ap (λ r. acted (ns_gone_is_fine r)) (delete-entered net_ns name w opened entered)

  module _ (laws : DeletionLaws kernel) where
    -- The link is gone in the world that the first TearDown leaves.
    after_deletion :
        (net_ns name : String) (w : W)
        → kernel.get_ns w net_ns ≡ none
        → kernel.enter w net_ns ≡ none
        → (kernel.del_link_by_name w net_ns name).0 ≡ none
        → tear_down_link kernel packages net_ns name (kernel.del_link_by_name w net_ns name).1
          ≡ ok (success tt, (kernel.del_link_by_name w net_ns name).1)
    after_deletion net_ns name w opened entered deleted =
        let again = laws.gone w net_ns name deleted in
        tear_down-deletes net_ns name _ (laws.opened w net_ns name ∙ opened)
          (laws.entered w net_ns name ∙ entered)
        ∙ ended-gone _ _ again (laws.failed _ net_ns name link_not_found again)

    -- After a TearDown that succeeds, a second one succeeds too and changes nothing, when the kernel
    -- keeps its laws on deletions.
    pub tear_down_link-again :
        (net_ns name : String) (w v : W)
        → tear_down_link kernel packages net_ns name w ≡ ok (success tt, v)
        → tear_down_link kernel packages net_ns name v ≡ ok (success tt, v)
    tear_down_link-again net_ns name w v h = elim (Option-cases (kernel.get_ns w net_ns)) [
      | inr (e, closed) ↦
          let wrong = sym (tear_down-not_opened net_ns name w e closed) ∙ h in absurd (ground arith)
      | inl opened ↦ elim (Option-cases (kernel.enter w net_ns)) [
        | inr (e, closed) ↦
            let same =
              sym (ns_gone_is_fine-world (some e, w))
              ∙ acted-world _ _ v (
                  ap (λ r. acted (ns_gone_is_fine r))
                    (sym (delete-not_entered net_ns name w e opened closed))
                  ∙ sym (tear_down-opened net_ns name w opened)
                  ∙ h) in
            subst (λ u. tear_down_link kernel packages net_ns name u ≡ ok (success tt, v)) same h
        | inl entered ↦
            let same = ended-world _ v (sym (tear_down-deletes net_ns name w opened entered) ∙ h) in
            elim (Option-cases (kernel.del_link_by_name w net_ns name).0) [
              | inl deleted ↦
                  subst (λ u. tear_down_link kernel packages net_ns name u ≡ ok (success tt, u))
                    same (after_deletion net_ns name w opened entered deleted)
              | inr (e, kept) ↦
                  subst (λ u. tear_down_link kernel packages net_ns name u ≡ ok (success tt, v))
                    (sym (laws.failed w net_ns name e kept) ∙ same) h
            ]
      ]
    ]
