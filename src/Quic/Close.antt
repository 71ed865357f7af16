-- ===== src/Quic/Close.antt =====
-- src/flow_plane/quic_flow.rs: `close_flow`.
use new_proxy.Prelude.{
  Bool, false, not, ◌≡◌, refl, arith, Option, none, some, [], ◌∷◌, if◌then◌else◌, nat_eq, nat_beq,
  Option-cases, inl, inr,
}
use new_proxy.HashMap
use new_proxy.HashMap.{HashMap, IsMap}
use new_proxy.HashMap.Laws.{get-remove, remove-IsMap, get-retain, get-retain-eq-none, retain-IsMap}
use new_proxy.Net.{QuicFlowId, list_eq}
use new_proxy.Quic.Hash.{Dcid, DcidOwner}
use new_proxy.Quic.Index.{
  DcidSet, ActiveDcidIndex, set_or_default, resolve, remove_dcids, close_flow,
}
use new_proxy.Quic.Invariant.{IsValid, in_flow, in_flow-remove}

get-remove_dcids :
    (s : DcidSet) (m : HashMap Dcid DcidOwner) (e : Dcid)
    → HashMap.get e (remove_dcids m s)
      ≡ (if HashMap.contains_key e s then none else HashMap.get e m)
unfolding remove_dcids HashMap.get
get-remove_dcids [] m e = refl
get-remove_dcids ((d, u) ∷ s) m e =
    ground (arith, get-remove_dcids s (HashMap.remove d m) e, get-remove e d m)

remove_dcids-IsMap : (s : DcidSet) (m : HashMap Dcid DcidOwner) → IsMap m → IsMap (remove_dcids m s)
unfolding remove_dcids
remove_dcids-IsMap [] m h = h
remove_dcids-IsMap ((d, u) ∷ s) m h = remove_dcids-IsMap s (HashMap.remove d m) (remove-IsMap d m h)

-- The owner that is looked up belongs to the flow.
abbrev pub of_flow : QuicFlowId → Option DcidOwner → Bool
of_flow f none = false
of_flow f (some o) = nat_beq o.quic_flow_id f

module _ {x : ActiveDcidIndex} (v : IsValid x) (f : QuicFlowId) where
  -- The set that `close_flow` goes through holds the published identifiers of the flow.
  published : (e : Dcid) → in_flow x.by_flow f e ≡ of_flow f (HashMap.get e x.by_dcid)
  published e = elim (Option-cases (HashMap.get e x.by_dcid)) [
    | inl absent ↦ ground (arith, v.owned f e)
    | inr (o, found) ↦ ground (arith, v.owned f e, v.listed e o)
  ]

  left :
      (e : Dcid)
      → HashMap.get e (close_flow x f).0.by_dcid
        ≡ (if of_flow f (HashMap.get e x.by_dcid) then none else HashMap.get e x.by_dcid)
  unfolding close_flow in_flow
  left e =
      ground (
        arith,
        get-remove_dcids (set_or_default (HashMap.get f x.by_flow)) x.by_dcid e,
        published e,
      )

  left_staged :
      (e : Dcid)
      → HashMap.get e (close_flow x f).0.staged_by_dcid ≡ (
          if of_flow f (HashMap.get e x.staged_by_dcid)
          then none
          else HashMap.get e x.staged_by_dcid)
  unfolding close_flow
  left_staged e = elim (Option-cases (HashMap.get e x.staged_by_dcid)) [
    | inl absent ↦ ground (
      arith,
      get-retain-eq-none (λ _ owner. not (nat_beq owner.quic_flow_id f)) e x.staged_by_dcid absent,
    )
    | inr (o, found) ↦ ground (
      arith,
      get-retain (λ _ owner. not (nat_beq owner.quic_flow_id f)) e o x.staged_by_dcid v.staged_map
          found,
    )
  ]

  left_flows :
      (g : QuicFlowId) (e : Dcid)
      → in_flow (close_flow x f).0.by_flow g e
        ≡ (if nat_beq f g then false else in_flow x.by_flow g e)
  unfolding close_flow
  left_flows g e = in_flow-remove x.by_flow f g e

  -- In a well-formed index, a closed flow owns no identifier any more, published or staged, and
  -- all other identifiers keep their owners.
  pub close_flow-resolve :
      (e : Dcid)
      → resolve (close_flow x f).0 e ≡ (if of_flow f (resolve x e) then none else resolve x e)
  unfolding resolve
  close_flow-resolve e = elim (Option-cases (HashMap.get e x.by_dcid)) [
    | inl absent ↦ ground (arith, left e, left_staged e)
    | inr (o, found) ↦ ground (arith, left e, left_staged e, v.apart e o found)
  ]

  close_maps : IsMap (close_flow x f).0.by_dcid × IsMap (close_flow x f).0.staged_by_dcid
  unfolding close_flow
  close_maps = (
    remove_dcids-IsMap (set_or_default (HashMap.get f x.by_flow)) x.by_dcid v.by_dcid_map,
    retain-IsMap _ x.staged_by_dcid v.staged_map,
  )

  pub close_flow-IsValid : IsValid (close_flow x f).0
  close_flow-IsValid = record {
    by_dcid_map = close_maps.0;
    staged_map = close_maps.1;
    listed = λ e o h. ground (arith, left e, left_flows o.quic_flow_id e, v.listed e o);
    owned = λ g e h.
        let (o, found, flow) = v.owned g e (ground (arith, left_flows g e)) in
        (o, ground (arith, left e, left_flows g e), flow);
    apart = λ e o h. ground (arith, left e, left_staged e, v.apart e o);
  }
