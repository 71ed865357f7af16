-- ===== src/Quic/Invariant.antt =====
-- src/flow_plane/quic_flow.rs: the well-formedness of an `ActiveDcidIndex`, and its writes.
use new_proxy.Prelude.{
  Bool, true, false, ◌&&◌, ◌≡◌, refl, arith, none, some, [], ◌∷◌, if◌then◌else◌, nat_beq, nat_eq,
  ◌==◌, Option-cases, Bool-cases, inl, inr,
}
use new_proxy.HashMap
use new_proxy.HashMap.{HashMap, IsMap}
use new_proxy.HashMap.Laws.{get-nil, get-insert, get-remove, insert-IsMap, remove-IsMap}
use new_proxy.Net.{QuicFlowId, list_eq, list_beq_iff}
use new_proxy.Quic.Hash.{Dcid, DcidOwner, owner_eq}
use new_proxy.Quic.Index.{
  DcidSet, ActiveDcidIndex, set_or_default, activate, unstage, put_set, forget_dcid,
}

-- The identifier stands in the set of the flow.
unfoldable pub in_flow : HashMap QuicFlowId DcidSet → QuicFlowId → Dcid → Bool
in_flow by_flow f d = HashMap.contains_key d (set_or_default (HashMap.get f by_flow))

pub in_flow-insert :
    (m : HashMap QuicFlowId DcidSet) (g f : QuicFlowId) (ds : DcidSet) (d : Dcid)
    → in_flow (HashMap.insert g ds m) f d
      ≡ (if nat_beq g f then HashMap.contains_key d ds else in_flow m f d)
unfolding in_flow
in_flow-insert m g f ds d = ground (arith, get-insert f g ds m)

pub in_flow-remove :
    (m : HashMap QuicFlowId DcidSet) (g f : QuicFlowId) (d : Dcid)
    → in_flow (HashMap.remove g m) f d ≡ (if nat_beq g f then false else in_flow m f d)
unfolding in_flow HashMap.get
in_flow-remove m g f d = ground (arith, get-remove f g m)

pub in_flow-none :
    (m : HashMap QuicFlowId DcidSet) (f : QuicFlowId) (d : Dcid)
    → HashMap.get f m ≡ none
    → in_flow m f d ≡ false
unfolding in_flow HashMap.get
in_flow-none m f d h = rw h

pub in_flow-some :
    (m : HashMap QuicFlowId DcidSet) (f : QuicFlowId) (ds : DcidSet) (d : Dcid)
    → HashMap.get f m ≡ some ds
    → in_flow m f d ≡ HashMap.contains_key d ds
unfolding in_flow
in_flow-some m f ds d h = rw h

in_flow-put_set :
    (m : HashMap QuicFlowId DcidSet) (g f : QuicFlowId) (ds : DcidSet) (d : Dcid)
    → in_flow (put_set m g ds) f d
      ≡ (if nat_beq g f then HashMap.contains_key d ds else in_flow m f d)
unfolding HashMap.get
in_flow-put_set m g f [] d = ground (arith, in_flow-remove m g f d)
in_flow-put_set m g f (x ∷ ds) d = ground (arith, in_flow-insert m g f (x ∷ ds) d)

pub in_flow-forget_dcid :
    (m : HashMap QuicFlowId DcidSet) (g f : QuicFlowId) (d e : Dcid)
    → in_flow (forget_dcid m g d) f e ≡ (if nat_beq g f && (d == e) then false else in_flow m f e)
unfolding forget_dcid
in_flow-forget_dcid m g f d e = elim (Option-cases (HashMap.get g m)) [
  | inl absent ↦ rw (absent, forget_dcid) (ground (arith, in_flow-none m g e absent))
  | inr (ds, found) ↦
      rw (found, forget_dcid)
        (ground (
          arith,
          in_flow-put_set m g f (HashMap.remove d ds) e,
          get-remove e d ds,
          in_flow-some m g ds e found,
        ))
]

pub in_flow-activate :
    (x : ActiveDcidIndex) (d e : Dcid) (o : DcidOwner) (f : QuicFlowId)
    → in_flow (activate x d o).by_flow f e
      ≡ (if nat_beq o.quic_flow_id f && (d == e) then true else in_flow x.by_flow f e)
unfolding activate
in_flow-activate x d e o f = elim (Option-cases (HashMap.get o.quic_flow_id x.by_flow)) [
  | inl absent ↦ ground (
    arith,
    in_flow-insert x.by_flow o.quic_flow_id f
        (HashMap.insert d tt (set_or_default (HashMap.get o.quic_flow_id x.by_flow))) e,
    get-insert e d tt (set_or_default (HashMap.get o.quic_flow_id x.by_flow)),
    in_flow-none x.by_flow o.quic_flow_id e absent,
    get-nil {V = Unit {0}} e,
  )
  | inr (ds, found) ↦ ground (
    arith,
    in_flow-insert x.by_flow o.quic_flow_id f
        (HashMap.insert d tt (set_or_default (HashMap.get o.quic_flow_id x.by_flow))) e,
    get-insert e d tt (set_or_default (HashMap.get o.quic_flow_id x.by_flow)),
    in_flow-some x.by_flow o.quic_flow_id ds e found,
  )
]

-- The two directions of the index agree, and no identifier is both published and staged.
pub record IsValid (x : ActiveDcidIndex) : Type 0 where
  pub by_dcid_map : IsMap x.by_dcid
  pub staged_map : IsMap x.staged_by_dcid
  pub listed :
      (d : Dcid) (o : DcidOwner)
      → HashMap.get d x.by_dcid ≡ some o
      → in_flow x.by_flow o.quic_flow_id d ≡ true
  pub owned :
      (f : QuicFlowId) (d : Dcid)
      → in_flow x.by_flow f d ≡ true
      → (o : DcidOwner) × (HashMap.get d x.by_dcid ≡ some o) × (o.quic_flow_id ≡ f)
  pub apart :
      (d : Dcid) (o : DcidOwner)
      → HashMap.get d x.by_dcid ≡ some o
      → HashMap.get d x.staged_by_dcid ≡ none

pub by_dcid-activate :
    (x : ActiveDcidIndex) (d e : Dcid) (o : DcidOwner)
    → HashMap.get e (activate x d o).by_dcid ≡ (if d == e then some o else HashMap.get e x.by_dcid)
unfolding activate
by_dcid-activate x d e o = get-insert e d o x.by_dcid

pub staged-activate :
    (x : ActiveDcidIndex) (d : Dcid) (o : DcidOwner)
    → (activate x d o).staged_by_dcid ≡ x.staged_by_dcid
unfolding activate
staged-activate x d o = refl

activate-IsMap :
    (x : ActiveDcidIndex) (d : Dcid) (o : DcidOwner)
    → IsMap x.by_dcid
    → IsMap (activate x d o).by_dcid
unfolding activate
activate-IsMap x d o h = insert-IsMap d o x.by_dcid h

module _ {x : ActiveDcidIndex} (v : IsValid x) where
  -- An identifier becomes active for an owner; it is not staged, and not another's.
  pub activate-IsValid :
      (d : Dcid) (o : DcidOwner)
      → HashMap.get d x.staged_by_dcid ≡ none
      → ((p : DcidOwner) → HashMap.get d x.by_dcid ≡ some p → p ≡ o)
      → IsValid (activate x d o)
  activate-IsValid d o unstaged same = record {
    by_dcid_map = activate-IsMap x d o v.by_dcid_map;
    staged_map = rw staged-activate v.staged_map;
    listed = λ e p h.
        ground
          (arith, in_flow-activate x d e o p.quic_flow_id, by_dcid-activate x d e o, v.listed e p);
    owned = λ f e h. elim (Bool-cases (d == e)) [
      | inl here ↦ (o, ground (arith, by_dcid-activate x d e o), same_flow f e here h)
      | inr there ↦
          let (p, found, flow) = v.owned f e (ground (arith, in_flow-activate x d e o f)) in
          (p, ground (arith, by_dcid-activate x d e o), flow)
    ];
    apart = λ e p h.
        ground
          (arith, by_dcid-activate x d e o, staged-activate x d o, list_beq_iff d e, v.apart e p);
  }
    where
      same_flow :
          (f : QuicFlowId) (e : Dcid)
          → (d == e) ≡ true
          → in_flow (activate x d o).by_flow f e ≡ true
          → o.quic_flow_id ≡ f
      same_flow f e here h = elim (Bool-cases (nat_beq o.quic_flow_id f)) [
        | inl same_id ↦ ground arith
        | inr other ↦
            let (p, found, flow) = v.owned f e (ground (arith, in_flow-activate x d e o f)) in
            ground (arith, same p, list_beq_iff d e)
      ]

  pub unstage-IsValid : (d : Dcid) → IsValid (unstage x d)
  unstage-IsValid d = record {
    by_dcid_map = v.by_dcid_map;
    staged_map = remove-IsMap d x.staged_by_dcid v.staged_map;
    listed = v.listed;
    owned = v.owned;
    apart = λ e p h. ground (arith, get-remove e d x.staged_by_dcid, v.apart e p);
  }

  -- An identifier that is not published is staged.
  pub stage-IsValid :
      (d : Dcid) (o : DcidOwner)
      → HashMap.get d x.by_dcid ≡ none
      → IsValid (record x { staged_by_dcid = HashMap.insert d o x.staged_by_dcid })
  stage-IsValid d o unpublished = record {
    by_dcid_map = v.by_dcid_map;
    staged_map = insert-IsMap d o x.staged_by_dcid v.staged_map;
    listed = v.listed;
    owned = v.owned;
    apart =
        λ e p h. ground (arith, get-insert e d o x.staged_by_dcid, list_beq_iff d e, v.apart e p);
  }

  -- A published identifier is taken out.
  pub drop-IsValid :
      (d : Dcid) (o : DcidOwner)
      → HashMap.get d x.by_dcid ≡ some o
      → IsValid (record x {
        by_dcid = HashMap.remove d x.by_dcid;
        by_flow = forget_dcid x.by_flow o.quic_flow_id d;
      })
  drop-IsValid d o held = record {
    by_dcid_map = remove-IsMap d x.by_dcid v.by_dcid_map;
    staged_map = v.staged_map;
    listed = λ e p h. ground (
      arith,
      get-remove e d x.by_dcid,
      in_flow-forget_dcid x.by_flow o.quic_flow_id p.quic_flow_id d e,
      v.listed e p,
    );
    owned = λ f e h.
        let (p, found, flow) =
          v.owned f e (ground (arith, in_flow-forget_dcid x.by_flow o.quic_flow_id f d e)) in
        (
          p,
          ground (
            arith,
            get-remove e d x.by_dcid,
            in_flow-forget_dcid x.by_flow o.quic_flow_id f d e,
            list_beq_iff d e,
          ),
          flow,
        );
    apart = λ e p h. ground (arith, get-remove e d x.by_dcid, v.apart e p);
  }

  -- A staged identifier is taken out: no flow lists it, so the set that is looked up is unchanged.
  pub drop_staged-IsValid :
      (d : Dcid) (o : DcidOwner)
      → HashMap.get d x.by_dcid ≡ none
      → IsValid (record x {
        staged_by_dcid = HashMap.remove d x.staged_by_dcid;
        by_flow = forget_dcid x.by_flow o.quic_flow_id d;
      })
  drop_staged-IsValid d o unpublished = record {
    by_dcid_map = v.by_dcid_map;
    staged_map = remove-IsMap d x.staged_by_dcid v.staged_map;
    listed = λ e p h. ground (
      arith,
      in_flow-forget_dcid x.by_flow o.quic_flow_id p.quic_flow_id d e,
      list_beq_iff d e,
      v.listed e p,
    );
    owned =
        λ f e h. v.owned f e (ground (arith, in_flow-forget_dcid x.by_flow o.quic_flow_id f d e));
    apart = λ e p h. ground (arith, get-remove e d x.staged_by_dcid, v.apart e p);
  }
